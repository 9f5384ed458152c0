-- ===== src/LocationStore/Newest.antt =====
-- The high-water mark `newest_fix_time` of device_location_store.py over a history of fetches.
use mathlib.Core.Path.{ap₂}
use google_find_my_tools_web.Prelude.{ap, sym, ◌∙◌, refl, none, ◌++◌, ◌≢◌}
use google_find_my_tools_web.Reading.{Location}
use google_find_my_tools_web.Device.{Entry, empty}
use google_find_my_tools_web.LocationStore.{
  key_eq, real_times, insert, location_key, lookup, LocationKey, Dict, arith, max, [], map, ◌∷◌,
  some, ◌≡◌, ℕ, List, Option, location_of, maximum, real_times, max_fix_time, newest_of,
  newest_fix_time, stamp_one, stamp_all, stamp,
}

-- The later of two times, either of which may be missing.
pub join : Option ℕ → Option ℕ → Option ℕ
join none b = b
join (some a) none = some a
join (some a) (some b) = some (max a b)

join_assoc : (a b c : Option ℕ) → join (join a b) c ≡ join a (join b c)
unfolding join
join_assoc a b c = ground arith

join_idem : (a b : Option ℕ) → join a (join a b) ≡ join a b
unfolding join
join_idem a b = ground arith

maximum-cons : (t : ℕ) (ts : List ℕ) → maximum (t ∷ ts) ≡ join (some t) (maximum ts)
unfolding maximum join
maximum-cons t ts = ground arith

maximum-append : (xs ys : List ℕ) → maximum (xs ++ ys) ≡ join (maximum xs) (maximum ys)
unfolding maximum join
maximum-append [] ys = refl
maximum-append (x ∷ xs) ys = ground (arith, maximum-append xs ys)

-- A time that counts: missing, or other than 0.
IsReal : Option ℕ → Type 0
IsReal t = t ≢ some 0

collected-IsReal : (locations : List Location) → IsReal (max_fix_time locations)
unfolding IsReal max_fix_time
collected-IsReal [] = λ h. cc
collected-IsReal (loc ∷ locations) = λ h. ground (arith, collected-IsReal locations)

newest_of-two : (a b : Option ℕ) → IsReal a → IsReal b → newest_of (a ∷ b ∷ []) ≡ join a b
unfolding newest_of join IsReal
newest_of-two a b p q = ground arith

newest_of-three :
    (a b c : Option ℕ)
    → IsReal a
    → IsReal b
    → IsReal c
    → newest_of (a ∷ b ∷ c ∷ []) ≡ join a (join b c)
unfolding newest_of join IsReal
newest_of-three a b c p q r = ground arith

real_times-stamp_one :
    (at : ℕ) (o : Option (Option ℕ)) (loc : Location) (xs : List Location)
    → real_times ((stamp_one at o loc).loc ∷ xs) ≡ real_times (loc ∷ xs)
unfolding stamp_one real_times
real_times-stamp_one at none loc xs = refl
real_times-stamp_one at (some seen) loc xs = refl

real_times-cons :
    (loc : Location) (xs ys : List Location)
    → real_times xs ≡ real_times ys
    → real_times (loc ∷ xs) ≡ real_times (loc ∷ ys)
unfolding real_times
real_times-cons loc xs ys h = ground arith

real_times-stamp_all :
    (at : ℕ) (seen : Dict LocationKey (Option ℕ)) (locations : List Location)
    → real_times (map (λ s. s.loc) (stamp_all at seen locations)) ≡ real_times locations
unfolding stamp_all
real_times-stamp_all at seen [] = refl
real_times-stamp_all at seen (loc ∷ locations) =
    let stamped = stamp_one at (lookup (location_key loc) seen) loc in
    let seen' = insert (location_key loc) stamped.loc.first_seen seen in
    real_times-stamp_one at (lookup (location_key loc) seen) loc
      (map (λ s. s.loc) (stamp_all at seen' locations))
    ∙ real_times-cons loc _ locations (real_times-stamp_all at seen' locations)

-- The mark on file counts.
pub record IsMarked (e : Entry) : Type 0 where
  pub real : (location_of e).newest_fix_time ≢ some 0

newest_of-IsReal : (candidates : List (Option ℕ)) → IsReal (newest_of candidates)
unfolding IsReal newest_of
newest_of-IsReal [] = λ h. cc
newest_of-IsReal (none ∷ candidates) = newest_of-IsReal candidates
newest_of-IsReal (some t ∷ candidates) = λ h. ground (arith, newest_of-IsReal candidates)

newest-marks :
    (mark : Option ℕ) (older newer : Option ℕ)
    → IsReal mark
    → IsReal older
    → IsReal newer
    → newest_of (newest_of (mark ∷ older ∷ newer ∷ []) ∷ newer ∷ [])
      ≡ join (newest_of (mark ∷ older ∷ [])) newer
unfolding newest_of join IsReal
newest-marks mark older newer p q r = ground arith

max_fix_time-stamp_all :
    (at : ℕ) (seen : Dict LocationKey (Option ℕ)) (locations : List Location)
    → max_fix_time (map (λ s. s.loc) (stamp_all at seen locations)) ≡ max_fix_time locations
unfolding max_fix_time
max_fix_time-stamp_all at seen locations = ap maximum (real_times-stamp_all at seen locations)

mark_of : Entry → Option ℕ
mark_of e = (location_of e).newest_fix_time

on_file : Entry → Option ℕ
on_file e = max_fix_time (location_of e).locations

mark-stamp :
    (locations : List Location) (at : ℕ) (e : Entry)
    → mark_of (stamp locations at e).0
      ≡ newest_of (mark_of e ∷ on_file e ∷ max_fix_time locations ∷ [])
unfolding mark_of on_file stamp location_of
mark-stamp locations at e =
    ap (λ t. newest_of (mark_of e ∷ on_file e ∷ t ∷ [])) (max_fix_time-stamp_all at _ locations)

on_file-stamp :
    (locations : List Location) (at : ℕ) (e : Entry)
    → on_file (stamp locations at e).0 ≡ max_fix_time locations
unfolding on_file stamp location_of
on_file-stamp locations at e = max_fix_time-stamp_all at _ locations

newest-parts : (e : Entry) → newest_fix_time e ≡ newest_of (mark_of e ∷ on_file e ∷ [])
unfolding newest_fix_time mark_of on_file
newest-parts e = refl

module _ (locations : List Location) (at : ℕ) (e : Entry) (m : IsMarked e) where
  -- A fetch moves the newest fix time to the later of what it was and of the latest real fix that
  -- the fetch brought, so never back.
  pub newest_fix_time-stamp :
      newest_fix_time (stamp locations at e).0 ≡ join (newest_fix_time e) (max_fix_time locations)
  unfolding mark_of on_file IsReal
  newest_fix_time-stamp =
      newest-parts (stamp locations at e).0
      ∙ ap₂ (λ a b. newest_of (a ∷ b ∷ [])) (mark-stamp locations at e)
          (on_file-stamp locations at e)
      ∙ newest-marks (mark_of e) (on_file e) (max_fix_time locations) m.real
          (collected-IsReal (location_of e).locations) (collected-IsReal locations)
      ∙ ap (λ t. join t (max_fix_time locations)) (sym (newest-parts e))

  pub stamp-IsMarked : IsMarked (stamp locations at e).0
  unfolding mark_of IsReal
  stamp-IsMarked = record {
    real = λ h.
        newest_of-IsReal (mark_of e ∷ on_file e ∷ max_fix_time locations ∷ [])
          (sym (mark-stamp locations at e) ∙ h);
  }

-- The entry after the fetches of a history, the newest first, from a device with no entry.
pub fetched : List (List Location × ℕ) → Entry
fetched [] = empty
fetched ((locations, at) ∷ earlier) = (stamp locations at (fetched earlier)).0

-- The real times of every reading that any fetch brought.
pub all_times : List (List Location × ℕ) → List ℕ
all_times [] = []
all_times ((locations, at) ∷ earlier) = all_times earlier ++ real_times locations

fetched-IsMarked : (history : List (List Location × ℕ)) → IsMarked (fetched history)
unfolding fetched location_of
fetched-IsMarked [] = record { real = λ h. cc }
fetched-IsMarked ((locations, at) ∷ earlier) =
    stamp-IsMarked locations at (fetched earlier) (fetched-IsMarked earlier)

-- The newest fix time is the latest real time among the readings of every fetch there has been,
-- not only of those on file.
newest-history :
    (history : List (List Location × ℕ))
    → newest_fix_time (fetched history) ≡ maximum (all_times history)
unfolding fetched all_times newest_fix_time location_of max_fix_time newest_of
newest-history [] = refl
newest-history ((locations, at) ∷ earlier) =
    newest_fix_time-stamp locations at (fetched earlier) (fetched-IsMarked earlier)
    ∙ ap (λ t. join t (max_fix_time locations)) (newest-history earlier)
    ∙ sym (maximum-append (all_times earlier) (real_times locations))
