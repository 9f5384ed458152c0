-- ===== src/DeviceStore/Persistence.antt =====
-- When device_store.py writes its file, and what becomes of a file that cannot be read.
use google_find_my_tools_web.Prelude.{
  nat_beq_refl, ap, ◌∙◌, inr, nat_beq_iff, inl, Bool-cases, refl, ◌∷◌, ◌≢◌, ◌≡◌,
}
use google_find_my_tools_web.DeviceStore.{
  nat_beq, false, none, [], some, String, ℕ, Option, Content, missing, unreadable, holds, Store,
  EntryType, or_empty, save_unlocked, read, read_through, load_content, load_unlocked, store_entry,
  write_back, mutate_device,
}
use google_find_my_tools_web.DeviceStore.Coherence.{
  Reads, IsCoherent, view, load-Reads, write_back_cases,
}
use google_find_my_tools_web.Prelude.Dict.{Dict, lookup, insert}
use mathlib.Core.Logic.{if_neg}

-- Another process replaces the file.
unfoldable pub foreign_write {ℓ} : {E : Type ℓ} → Content E → ℕ → Store E → Store E
foreign_write content written_at s = record s { content = content; mtime = written_at }

module _ {ℓ} (t : EntryType {ℓ}) (legacy : Option (Dict String t.Entry)) where
  open t use {Entry, empty, dec}

  -- A foreign write is seen by the next load, if the file gets another time than the cached one.
  pub foreign_write-IsCoherent :
      (content : Content Entry) (at : ℕ) (s : Store Entry)
      → ((cached : ℕ) (devices : Dict String Entry)
          → s.cached ≡ some (cached, devices)
          → cached ≢ at)
      → IsCoherent t legacy (foreign_write content at s)
  unfolding foreign_write
  foreign_write-IsCoherent content at s fresh = record {
    agrees = λ cached devices e p. absurd (fresh cached devices e p);
  }

  unreadable-read :
      (s : Store Entry) (cached : Option (ℕ × Dict String Entry))
      → s.cached ≡ cached
      → s.content ≡ unreadable
      → IsCoherent t legacy s
      → read_through t cached s ≡ ([], record s { cached = none; last_load_ok = false })
  unfolding read_through read
  unreadable-read s none e u c = rw u
  unreadable-read s (some (at, devices)) e u c = elim (Bool-cases (nat_beq at s.mtime)) [
    | inl hit ↦ elim (c.agrees at devices e ((nat_beq_iff at s.mtime).0 hit)) [
      | inl m ↦ cc
      | inr h ↦ cc
    ]
    | inr miss ↦ rw (miss, u)
  ]

  unreadable-load_content :
      (at : ℕ) (s : Store Entry) (content : Content Entry)
      → s.content ≡ content
      → content ≡ unreadable
      → IsCoherent t legacy s
      → load_content t legacy at content s ≡ ([], record s { cached = none; last_load_ok = false })
  unfolding load_content
  unreadable-load_content at s missing e u c = cc
  unreadable-load_content at s unreadable e u c = unreadable-read s s.cached refl e c
  unreadable-load_content at s (holds devices) e u c = cc

  unreadable-load :
      (at : ℕ) (s : Store Entry)
      → s.content ≡ unreadable
      → IsCoherent t legacy s
      → load_unlocked t legacy at s ≡ ([], record s { cached = none; last_load_ok = false })
  unfolding load_unlocked
  unreadable-load at s u c = unreadable-load_content at s s.content refl u c

  write_back_nothing :
      (at : ℕ) (k : String) (fn : Entry → Entry) (s : Store Entry)
      → fn empty ≢ empty
      → (write_back t at k fn ([], s)).1 ≡ save_unlocked t at ((k, fn empty) ∷ []) s
  unfolding or_empty lookup insert store_entry
  write_back_nothing at k fn s h = elim (write_back_cases t legacy at k fn [] s) [
    | inl (p, e) ↦ absurd (h p)
    | inr (p, e) ↦ e ∙ rw (if_neg _ h)
  ]

  module _ (at : ℕ) (k : String) (fn : Entry → Entry) (s : Store Entry)
      (c : IsCoherent t legacy s) where
    -- A mutation that leaves the entry as it was writes nothing: the store is as a load leaves it.
    pub mutate_unchanged :
        fn (view t legacy s k) ≡ view t legacy s k
        → (mutate_device t legacy at k fn s).1 ≡ (load_unlocked t legacy at s).1
    unfolding mutate_device view
    mutate_unchanged h =
        write_back_unchanged (load_unlocked t legacy at s) (load-Reads t legacy at s c)
      where
        write_back_unchanged :
            (r : Dict String Entry × Store Entry)
            → Reads t legacy s r
            → (write_back t at k fn r).1 ≡ r.1
        write_back_unchanged (devices, s') q = elim (write_back_cases t legacy at k fn devices s') [
          | inl (p, e) ↦ e
          | inr (p, e) ↦ absurd (p (rw q.devices h))
        ]

    -- If the cache agrees with the file, a mutation that changes something while the file cannot be
    -- read replaces the file by one that holds this device alone; the next load answers from the
    -- cache, and `last_load_ok` goes on saying that the file could not be read.
    pub mutate-unreadable :
        s.content ≡ unreadable
        → fn empty ≢ empty
        → let s' = (mutate_device t legacy at k fn s).1 in
          (s'.content ≡ holds ((k, fn empty) ∷ []))
          × (load_unlocked t legacy at s' ≡ ((k, fn empty) ∷ [], s'))
          × (s'.last_load_ok ≡ false)
    unfolding mutate_device save_unlocked load_unlocked load_content read_through
    mutate-unreadable u h =
        let e : (mutate_device t legacy at k fn s).1
            ≡ save_unlocked t at ((k, fn empty) ∷ [])
                (record s { cached = none; last_load_ok = false }) =
          ap (λ r. (write_back t at k fn r).1) (unreadable-load at s u c)
          ∙ write_back_nothing at k fn _ h in
        rw e (refl, rw (nat_beq_refl at), refl)
