-- ===== src/DeviceStore/Bulk/Laws.antt =====
-- `mutate_devices` of device_store.py puts on file what its function makes of the devices.
use google_find_my_tools_web.Prelude.{
  ◌⊎◌, refl, sym, ap, ◌∙◌, arith, inl, inr, Bool-cases, true, false, ℕ, String, Option, none, some,
  List, [], ◌∷◌, string_eq, ◌≡◌, ◌==◌, eq_iff,
}
use google_find_my_tools_web.Prelude.Dict.{Dict, lookup, erase, lookup-erase}
use google_find_my_tools_web.DeviceStore.{Store, EntryType, or_empty, save_unlocked, load_unlocked}
use google_find_my_tools_web.DeviceStore.Coherence.{
  IsCoherent, view, contents, Reads, load-Reads, save_unlocked-IsCoherent,
}
use google_find_my_tools_web.DeviceStore.Bulk.{
  same_entry, contained, same_devices, drop_empty, keys, write_back_all, mutate_devices,
}
use mathlib.Core.Logic.{if_pos, if_neg}

module _ {ℓ} (t : EntryType {ℓ}) where
  open t use {Entry, empty, dec}

  same_entry-true :
      (entry : Entry) (found : Option Entry) → same_entry t entry found ≡ true → found ≡ some entry
  unfolding same_entry
  same_entry-true entry none h = cc
  same_entry-true entry (some other) h = elim (dec entry other) [
    | yes p ↦ ap some (sym p)
    | no p ↦ absurd (ground (arith, h, if_neg (dec entry other) p true false))
  ]

  contained-lookup :
      (devices before : Dict String Entry) (k : String) (entry : Entry)
      → contained t devices before ≡ true
      → lookup k devices ≡ some entry
      → lookup k before ≡ some entry
  unfolding contained lookup
  contained-lookup [] before k entry h e = cc
  contained-lookup ((j, other) ∷ devices) before k entry h e = ground (
    arith,
    string_eq.beq_iff j k,
    same_entry-true other (lookup j before),
    contained-lookup devices before k entry,
  )

  agree :
      (a b : Option Entry)
      → ((entry : Entry) → a ≡ some entry → b ≡ some entry)
      → ((entry : Entry) → b ≡ some entry → a ≡ some entry)
      → a ≡ b
  agree none none f g = refl
  agree none (some entry) f g = g entry refl
  agree (some entry) b f g = sym (f entry refl)

  same_devices-lookup :
      (devices before : Dict String Entry) (k : String)
      → same_devices t devices before ≡ true
      → lookup k devices ≡ lookup k before
  unfolding same_devices
  same_devices-lookup devices before k h =
      agree (lookup k devices) (lookup k before)
        (λ entry e. contained-lookup devices before k entry (ground (arith, h)) e)
        (λ entry e. contained-lookup before devices k entry (ground (arith, h)) e)

  or_empty-erase :
      (k : String) (devices left : Dict String Entry) (j : String)
      → or_empty t (lookup k devices) ≡ empty
      → or_empty t (lookup j left) ≡ or_empty t (lookup j devices)
      → or_empty t (lookup j (erase k left)) ≡ or_empty t (lookup j devices)
  unfolding or_empty
  or_empty-erase k devices left j p h = elim (Bool-cases (k == j)) [
    | inl same ↦
        rw (lookup-erase j k left, same)
          (sym p ∙ ap (λ i. or_empty t (lookup i devices)) ((eq_iff k j).0 same))
    | inr other ↦ rw (lookup-erase j k left, other) h
  ]

  drop_empty-entry :
      (devices : Dict String Entry) (ids : List String) (left : Dict String Entry) (j : String)
      → or_empty t (lookup j left) ≡ or_empty t (lookup j devices)
      → or_empty t (lookup j (drop_empty t devices ids left)) ≡ or_empty t (lookup j devices)
  unfolding drop_empty
  drop_empty-entry devices [] left j h = h
  drop_empty-entry devices (k ∷ ids) left j h =
      drop_empty-entry devices ids _ j (elim (dec (or_empty t (lookup k devices)) empty) [
        | yes p ↦ rw (if_pos _ p) (or_empty-erase k devices left j p h)
        | no p ↦ rw (if_neg _ p) h
      ])

  write_back_all-cases :
      (at : ℕ) (fn : Dict String Entry → Dict String Entry) (before : Dict String Entry)
      (s : Store Entry)
      → let devices = drop_empty t (fn before) (keys (fn before)) (fn before) in
        (same_devices t devices before ≡ true) × ((write_back_all t at fn (before, s)).1 ≡ s)
        ⊎ ((write_back_all t at fn (before, s)).1 ≡ save_unlocked t at devices s)
  unfolding write_back_all
  write_back_all-cases at fn before s =
      let devices = drop_empty t (fn before) (keys (fn before)) (fn before) in
      elim (Bool-cases (same_devices t devices before)) [
        | inl same ↦ inl (same, rw same)
        | inr other ↦ inr (rw other)
      ]

  module _ (legacy : Option (Dict String Entry)) (at : ℕ)
      (fn : Dict String Entry → Dict String Entry) (s : Store Entry)
      (c : IsCoherent t legacy s) where
    -- If the cache agrees with the file, a mutation of all devices gives every device the entry
    -- that it has in what `fn` makes of the devices on file.
    pub mutate_devices-view :
        (j : String)
        → view t legacy (mutate_devices t legacy at fn s).1 j
          ≡ or_empty t (lookup j (fn (contents t legacy s.content)))
    unfolding mutate_devices view
    mutate_devices-view j = written (load_unlocked t legacy at s) (load-Reads t legacy at s c)
      where
        written :
            (r : Dict String Entry × Store Entry)
            → Reads t legacy s r
            → or_empty t (lookup j (contents t legacy (write_back_all t at fn r).1.content))
              ≡ or_empty t (lookup j (fn (contents t legacy s.content)))
        written (before, s') h = elim (write_back_all-cases at fn before s') [
          | inl (p, e) ↦
              rw (e, h.same, ← h.devices)
                (sym (ap (or_empty t) (same_devices-lookup _ before j p))
                  ∙ drop_empty-entry (fn before) (keys (fn before)) (fn before) j refl)
          | inr e ↦
              rw (e, ← h.devices)
                (unfold save_unlocked contents in
                  drop_empty-entry (fn before) (keys (fn before)) (fn before) j refl)
        ]

    -- If the cache agrees with the file before a mutation of all devices, it agrees with it
    -- afterwards.
    mutate_devices-IsCoherent : IsCoherent t legacy (mutate_devices t legacy at fn s).1
    unfolding mutate_devices
    mutate_devices-IsCoherent = kept (load_unlocked t legacy at s) (load-Reads t legacy at s c)
      where
        kept :
            (r : Dict String Entry × Store Entry)
            → Reads t legacy s r
            → IsCoherent t legacy (write_back_all t at fn r).1
        kept (before, s') h = elim (write_back_all-cases at fn before s') [
          | inl (p, e) ↦ rw e h.coherent
          | inr e ↦ rw e (save_unlocked-IsCoherent t legacy at _ _)
        ]
