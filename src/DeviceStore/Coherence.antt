-- ===== src/DeviceStore/Coherence.antt =====
-- The cache of device_store.py answers as the file would, and `mutate_device` is a
-- read-modify-write of one device.
use google_find_my_tools_web.Prelude.{
  eq_iff, sym, ap, ◌==◌, if◌then◌else◌, nat_beq_iff, inl, Bool-cases, ◌≢◌, refl, none, arith, ◌⊎◌,
  inr, string_eq, ◌≡◌,
}
use google_find_my_tools_web.DeviceStore.{
  write_back, store_entry, true, nat_beq, [], some, ℕ, String, Option, Content, missing, unreadable,
  holds, Store, EntryType, or_empty, save_unlocked, read, read_through, migrate, load_content,
  load_unlocked, mutate_device,
}
use google_find_my_tools_web.Prelude.Dict.{Dict, lookup, lookup-insert, lookup-erase}
use mathlib.Core.Logic.{if_pos, if_neg}

module _ {ℓ} (t : EntryType {ℓ}) (legacy : Option (Dict String t.Entry)) where
  open t use {Entry, empty, dec}

  -- What a read with no cache returns.
  unfoldable pub contents : Content Entry → Dict String Entry
  contents missing = elim legacy [ none ↦ [] | some devices ↦ devices ]
  contents unreadable = []
  contents (holds devices) = devices

  -- A cache entry for the time of the file agrees with the file.
  pub record IsCoherent (s : Store Entry) : Type ℓ where
    pub agrees :
        (at : ℕ) (devices : Dict String Entry)
        → s.cached ≡ some (at, devices)
        → at ≡ s.mtime
        → (s.content ≡ missing) ⊎ (s.content ≡ holds devices)

  -- The entry that a device has on disk.
  unfoldable pub view : Store Entry → String → Entry
  view s k = or_empty t (lookup k (contents s.content))

  pub save_unlocked-IsCoherent :
      (at : ℕ) (devices : Dict String Entry) (s : Store Entry)
      → IsCoherent (save_unlocked t at devices s)
  unfolding save_unlocked
  save_unlocked-IsCoherent at devices s = record { agrees = λ at' devices' e p. inr (ground arith) }

  pub record Reads (s : Store Entry) (r : Dict String Entry × Store Entry) : Type ℓ where
    pub devices : r.0 ≡ contents s.content
    pub same : contents r.1.content ≡ contents s.content
    pub coherent : IsCoherent r.1

  read-Reads :
      (s : Store Entry) (content : Content Entry)
      → s.content ≡ content
      → content ≢ missing
      → Reads s (read t content s)
  unfolding read contents
  read-Reads s missing e h = absurd (h refl)
  read-Reads s unreadable e h = record {
    devices = rw e;
    same = refl;
    coherent = record { agrees = λ at devices f p. cc };
  }
  read-Reads s (holds devices) e h = record {
    devices = rw e;
    same = refl;
    coherent = record { agrees = λ at devices f p. inr (ground arith) };
  }

  read_through-Reads :
      (s : Store Entry) (cached : Option (ℕ × Dict String Entry))
      → s.cached ≡ cached
      → s.content ≢ missing
      → IsCoherent s
      → Reads s (read_through t cached s)
  unfolding read_through contents
  read_through-Reads s none e h c = read-Reads s s.content refl h
  read_through-Reads s (some (at, devices)) e h c = elim (Bool-cases (nat_beq at s.mtime)) [
    | inl hit ↦ rw hit (record {
      devices = elim (c.agrees at devices e ((nat_beq_iff at s.mtime).0 hit)) [
        | inl m ↦ absurd (h m)
        | inr q ↦ rw q refl
      ];
      same = refl;
      coherent = c;
    })
    | inr miss ↦ rw miss (read-Reads s s.content refl h)
  ]

  migrate-Reads :
      (at : ℕ) (s : Store Entry) (older : Option (Dict String Entry))
      → legacy ≡ older
      → s.content ≡ missing
      → Reads s (migrate t older at s)
  unfolding migrate contents
  migrate-Reads at s none e m = record {
    devices = rw (m, e);
    same = refl;
    coherent = record { agrees = λ at' devices f p. cc };
  }
  migrate-Reads at s (some devices) e m = record {
    devices = rw (m, e);
    same = unfold save_unlocked in rw (m, e);
    coherent = save_unlocked-IsCoherent at devices (record s { last_load_ok = true });
  }

  load_content-Reads :
      (at : ℕ) (s : Store Entry) (content : Content Entry)
      → s.content ≡ content
      → IsCoherent s
      → Reads s (load_content t legacy at content s)
  unfolding load_content
  load_content-Reads at s missing e c = migrate-Reads at s legacy refl e
  load_content-Reads at s unreadable e c = read_through-Reads s s.cached refl (λ m. cc) c
  load_content-Reads at s (holds devices) e c = read_through-Reads s s.cached refl (λ m. cc) c

  -- Whatever is cached, a load returns what the file holds, and leaves that there.
  pub load-Reads : (at : ℕ) (s : Store Entry) → IsCoherent s → Reads s (load_unlocked t legacy at s)
  unfolding load_unlocked
  load-Reads at s c = load_content-Reads at s s.content refl c

  or_empty-store_entry :
      (k : String) (entry : Entry) (devices : Dict String Entry) (j : String)
      → or_empty t (lookup j (store_entry t k entry devices))
        ≡ (if k == j then entry else or_empty t (lookup j devices))
  unfolding or_empty store_entry
  or_empty-store_entry k entry devices j = elim (dec entry empty) [
    | yes p ↦ rw (if_pos _ p) (ground (arith, lookup-erase j k devices))
    | no p ↦ rw (if_neg _ p) (ground (arith, lookup-insert j k entry devices))
  ]

  -- Only one of two things happens to the file.
  pub write_back_cases :
      (at : ℕ) (k : String) (fn : Entry → Entry) (devices : Dict String Entry) (s : Store Entry)
      → let before = or_empty t (lookup k devices) in
        (fn before ≡ before) × ((write_back t at k fn (devices, s)).1 ≡ s)
        ⊎ (fn before ≢ before)
          × ((write_back t at k fn (devices, s)).1
              ≡ save_unlocked t at (store_entry t k (fn before) devices) s)
  unfolding write_back
  write_back_cases at k fn devices s =
      let before = or_empty t (lookup k devices) in
      elim (dec (fn before) before) [
        | yes p ↦ inl (p, rw (if_pos _ p))
        | no p ↦ inr (p, rw (if_neg _ p))
      ]

  write_back-view :
      (at : ℕ) (k : String) (fn : Entry → Entry) (s : Store Entry)
      (r : Dict String Entry × Store Entry)
      → Reads s r
      → (j : String)
      → view (write_back t at k fn r).1 j ≡ (if k == j then fn (view s k) else view s j)
  unfolding view
  write_back-view at k fn s (devices, s') h j = elim (write_back_cases at k fn devices s') [
    | inl (p, e) ↦
        rw (e, h.same, ← h.devices)
          (elim (Bool-cases (k == j)) [
            | inl same ↦
                rw (same, p) (ap (λ i. or_empty t (lookup i devices)) (sym ((eq_iff k j).0 same)))
            | inr other ↦ rw other
          ])
    | inr (p, e) ↦
        rw (e, ← h.devices) (unfold save_unlocked contents in or_empty-store_entry k _ devices j)
  ]

  write_back-IsCoherent :
      (at : ℕ) (k : String) (fn : Entry → Entry) (s : Store Entry)
      (r : Dict String Entry × Store Entry)
      → Reads s r
      → IsCoherent (write_back t at k fn r).1
  write_back-IsCoherent at k fn s (devices, s') h = elim (write_back_cases at k fn devices s') [
    | inl (p, e) ↦ rw e h.coherent
    | inr (p, e) ↦ rw e (save_unlocked-IsCoherent at _ _)
  ]

  module _ (at : ℕ) (k : String) (fn : Entry → Entry) (s : Store Entry) (c : IsCoherent s) where
    -- If the cache agrees with the file, a mutation makes the entry of its device what `fn` makes
    -- of it, and changes no other device.
    pub mutate-view :
        (j : String)
        → view (mutate_device t legacy at k fn s).1 j ≡ (if k == j then fn (view s k) else view s j)
    unfolding mutate_device
    mutate-view j = write_back-view at k fn s (load_unlocked t legacy at s) (load-Reads at s c) j

    -- If the cache agrees with the file before a mutation, it agrees with it afterwards.
    pub mutate-IsCoherent : IsCoherent (mutate_device t legacy at k fn s).1
    unfolding mutate_device
    mutate-IsCoherent =
        write_back-IsCoherent at k fn s (load_unlocked t legacy at s) (load-Reads at s c)
