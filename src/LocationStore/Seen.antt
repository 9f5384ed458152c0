-- ===== src/LocationStore/Seen.antt =====
-- Which readings `set_last_location` reports as new, and the `first_seen` that it keeps.
use mathlib.Core.Path.{ap₂}
use google_find_my_tools_web.Prelude.{eq_refl, ◌∙◌, ◌==◌, ◌++◌, ◌||◌, ap, refl, none, [], contains}
use google_find_my_tools_web.Prelude.Dict.{Dict, lookup, insert, lookup-insert}
use google_find_my_tools_web.Reading.{Location}
use google_find_my_tools_web.Device.{Entry}
use google_find_my_tools_web.DeviceStore.Interface.{Devices}
use google_find_my_tools_web.LocationStore.{
  String, true, some, not, arith, false, map, ◌≡◌, ◌∷◌, Bool, ℕ, Option, List, LocationKey,
  location_key, key_eq, key_beq_iff, or_else, location_of, note_seen, stamp_one, stamp_all, stamp,
  set_last_location,
}

-- A reading is fresh if neither the known ones nor an earlier one of its batch has its key.
unfoldable pub fresh_flags : List LocationKey → List Location → List Bool
fresh_flags known [] = []
fresh_flags known (loc ∷ locations) =
    not (contains known (location_key loc)) ∷ fresh_flags (location_key loc ∷ known) locations

unfoldable pub keys_of : List Location → List LocationKey
keys_of = map location_key

is_some : Option (Option ℕ) → Bool
is_some none = false
is_some (some x) = true

-- The dict has a value for exactly the listed keys.
record Knows (seen : Dict LocationKey (Option ℕ)) (known : List LocationKey) : Type 0 where
  agrees : (k : LocationKey) → is_some (lookup k seen) ≡ contains known k

Knows-insert :
    (seen : Dict LocationKey (Option ℕ)) (known : List LocationKey) (k : LocationKey) (v : Option ℕ)
    → Knows seen known
    → Knows (insert k v seen) (k ∷ known)
unfolding is_some
Knows-insert seen known k v h = record {
  agrees =
      λ j. ground (arith, lookup-insert j k v seen, h.agrees j, key_beq_iff j k, key_beq_iff k j);
}

flag-stamp_one :
    (at : ℕ) (o : Option (Option ℕ)) (loc : Location)
    → (stamp_one at o loc).new_this_fetch ≡ not (is_some o)
unfolding stamp_one is_some
flag-stamp_one at none loc = refl
flag-stamp_one at (some x) loc = refl

stamp_all-flags :
    (at : ℕ) (seen : Dict LocationKey (Option ℕ)) (known : List LocationKey)
    (locations : List Location)
    → Knows seen known
    → map (λ s. s.new_this_fetch) (stamp_all at seen locations) ≡ fresh_flags known locations
unfolding stamp_all stamp_one fresh_flags is_some
stamp_all-flags at seen known [] h = refl
stamp_all-flags at seen known (loc ∷ locations) h =
    let k = location_key loc in
    let stamped = stamp_one at (lookup k seen) loc in
    ap₂ ◌∷◌ (flag-stamp_one at (lookup k seen) loc ∙ ap not (h.agrees k)) (
      stamp_all-flags at (insert k stamped.loc.first_seen seen) (k ∷ known) locations
        (Knows-insert seen known k stamped.loc.first_seen h))

-- The order in which the known keys are listed does not matter.
contains-append :
    (xs ys : List LocationKey) (k : LocationKey)
    → contains (xs ++ ys) k ≡ contains xs k || contains ys k
contains-append [] ys k = refl
contains-append (x ∷ xs) ys k = ground (arith, contains-append xs ys k)

fresh_flags-same :
    (xs ys : List LocationKey) (locations : List Location)
    → ((k : LocationKey) → contains xs k ≡ contains ys k)
    → fresh_flags xs locations ≡ fresh_flags ys locations
unfolding fresh_flags
fresh_flags-same xs ys [] h = refl
fresh_flags-same xs ys (loc ∷ locations) h = ap₂ ◌∷◌ (ap not (h (location_key loc))) (
    fresh_flags-same (location_key loc ∷ xs) (location_key loc ∷ ys) locations
      (λ k. ap (λ b. k == location_key loc || b) (h k)))

-- The comprehension knows the keys of the readings on file.
note_seen-Knows :
    (prior : Option ℕ) (seen : Dict LocationKey (Option ℕ)) (known : List LocationKey)
    (locations : List Location)
    → Knows seen known
    → (k : LocationKey)
    → is_some (lookup k (note_seen prior seen locations))
      ≡ contains known k || contains (keys_of locations) k
unfolding note_seen keys_of
note_seen-Knows prior seen known [] h k = h.agrees k ∙ ground arith
note_seen-Knows prior seen known (loc ∷ locations) h k =
    note_seen-Knows prior (insert (location_key loc) (or_else loc.first_seen prior) seen)
      (location_key loc ∷ known) locations
      (Knows-insert seen known (location_key loc) (or_else loc.first_seen prior) h) k
    ∙ ground arith

known_on_file :
    (prior : Option ℕ) (locations : List Location)
    → Knows (note_seen prior [] locations) (keys_of locations)
unfolding lookup is_some
known_on_file prior locations = record {
  agrees = λ k. note_seen-Knows prior [] [] locations (record { agrees = λ j. refl }) k;
}

-- A reading is reported as new exactly if its key is neither on file nor that of an earlier
-- reading in the same batch.
pub stamp-flags :
    (locations : List Location) (at : ℕ) (e : Entry)
    → map (λ s. s.new_this_fetch) (stamp locations at e).1
      ≡ fresh_flags (keys_of (location_of e).locations) locations
unfolding stamp
stamp-flags locations at e =
    stamp_all-flags at _ (keys_of (location_of e).locations) locations
      (known_on_file (location_of e).fetched_at (location_of e).locations)

key-stamp_one :
    (at : ℕ) (o : Option (Option ℕ)) (loc : Location)
    → location_key (stamp_one at o loc).loc ≡ location_key loc
unfolding location_key stamp_one
key-stamp_one at none loc = refl
key-stamp_one at (some x) loc = refl

keys-stamp_all :
    (at : ℕ) (seen : Dict LocationKey (Option ℕ)) (locations : List Location)
    → keys_of (map (λ s. s.loc) (stamp_all at seen locations)) ≡ keys_of locations
unfolding stamp_all keys_of
keys-stamp_all at seen [] = refl
keys-stamp_all at seen (loc ∷ locations) =
    ap₂ ◌∷◌ (key-stamp_one at (lookup (location_key loc) seen) loc) (
      keys-stamp_all at
        (insert (location_key loc)
          (stamp_one at (lookup (location_key loc) seen) loc).loc.first_seen seen)
        locations)

keys-stamp :
    (locations : List Location) (at : ℕ) (e : Entry)
    → keys_of (location_of (stamp locations at e).0).locations ≡ keys_of locations
unfolding stamp location_of
keys-stamp locations at e = keys-stamp_all at _ locations

-- In a valid store, a fetch reports as new what the fetch before it did not have, and only that:
-- readings that came in still earlier fetches are reported as new again.
pub refetch-flags :
    (devices : Devices Entry) (k : String) (first second : List Location) (t1 t2 : ℕ)
    (s : devices.State)
    → devices.IsValid s
    → map
        (λ r. r.new_this_fetch)
        (set_last_location devices k second t2 (set_last_location devices k first t1 s).1).0
      ≡ fresh_flags (keys_of first) second
unfolding set_last_location
refetch-flags devices k first second t1 t2 s v =
    let e = devices.entry_of s k in
    let s' = devices.mutate k (λ e'. (stamp first t1 e').0) s in
    let same : devices.entry_of s' k ≡ (stamp first t1 e).0 =
      rw (devices.entry_of-mutate k (λ e'. (stamp first t1 e').0) s v k, eq_refl) in
    stamp-flags second t2 (devices.entry_of s' k)
    ∙ ap (λ (e' : Entry). fresh_flags (keys_of (location_of e').locations) second) same
    ∙ ap (λ ks. fresh_flags ks second) (keys-stamp first t1 e)
