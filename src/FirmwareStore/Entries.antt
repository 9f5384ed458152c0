-- ===== src/FirmwareStore/Entries.antt =====
-- The list of entries of webui/firmware_store.py after each operation.
use google_find_my_tools_web.Prelude.{
  take, ◌∙◌, refl, ap, [], eq_iff, zero, ◌==◌, if◌then◌else◌, eq_refl, arith, ◌≡◌, ◌≤◌, none,
  string_eq, length,
}
use google_find_my_tools_web.FirmwareStore.{
  ◌∷◌, suc, List, Bool, some, Option, String, ℕ, max_entries, Identity, Registered, Trackers, push,
  change_first, kept, record_registration, set_keep_track, find_first, default_build_settings,
}

length-take {ℓ} : {A : Type ℓ} → (n : ℕ) (xs : List A) → length (take n xs) ≤ n
unfolding take
length-take zero xs = omega arith
length-take (suc n) [] = omega arith
length-take (suc n) (x ∷ xs) = omega (arith, length-take n xs)

-- Registering a tracker makes it the first entry, with the default build settings, so that it is
-- the one found for its EID even if the EID was registered before; and at most `max_entries`
-- entries are kept.
find-record_registration :
    (eid : String) (pair_date : ℕ) (identity : Identity) (keep : Bool) (t : Trackers)
    → (find_first eid (record_registration eid pair_date identity keep t).entries
        ≡ some (record {
          eid_hex = eid;
          pair_date = pair_date;
          identity = some identity;
          keep_track = keep;
          settings = default_build_settings;
        }))
      × (length (record_registration eid pair_date identity keep t).entries ≤ max_entries)
unfolding record_registration push find_first take
find-record_registration eid pair_date identity keep t =
    (rw (eq_refl eid), omega (arith, length-take 49 t.entries))

changed_or : Option (List Registered) → List Registered → List Registered
changed_or none entries = entries
changed_or (some changed) entries = changed

-- What an entry becomes that is found for an EID.
abbrev pub fmap : (Registered → Registered) → Option Registered → Option Registered
fmap fn none = none
fmap fn (some entry) = some (fn entry)

find-change_first :
    (eid j : String) (fn : Registered → Registered) (entries : List Registered)
    → ((entry : Registered) → (fn entry).eid_hex ≡ entry.eid_hex)
    → find_first j (changed_or (change_first eid fn entries) entries)
      ≡ (if eid == j then fmap fn (find_first j entries) else find_first j entries)
unfolding change_first find_first changed_or
find-change_first eid j fn [] same = ground arith
find-change_first eid j fn (entry ∷ entries) same = ground (
  arith,
  find-change_first eid j fn entries same,
  same entry,
  eq_iff entry.eid_hex eid,
  eq_iff entry.eid_hex j,
  eq_iff eid j,
)

entries-kept :
    (o : Option (List Registered)) (t : Trackers) → (kept o t).entries ≡ changed_or o t.entries
unfolding kept changed_or
entries-kept none t = refl
entries-kept (some changed) t = refl

-- The flag of a tracker is set on the entry that is found for its EID, if there is one, and no
-- other EID is affected.
pub find-set_keep_track :
    (eid j : String) (keep : Bool) (t : Trackers)
    → find_first j (set_keep_track eid keep t).entries ≡ (
        if eid == j
        then fmap (λ entry. record entry { keep_track = keep }) (find_first j t.entries)
        else find_first j t.entries)
unfolding set_keep_track
find-set_keep_track eid j keep t =
    ap (find_first j)
      (entries-kept (change_first eid (λ entry. record entry { keep_track = keep }) t.entries) t)
    ∙ find-change_first eid j (λ entry. record entry { keep_track = keep }) t.entries
        (λ entry. refl)
