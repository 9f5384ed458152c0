-- ===== src/LocationStore/Order.antt =====
-- `sort_newest_first` and `most_recent_only` of device_location_store.py.
use google_find_my_tools_web.Prelude.{
  inr, leb→le, nat_eq, option_eq, inl, ◌==◌, refl, if◌then◌else◌, Bool-cases, All, ◌∙◌, [], ◌∷◌,
  ◌≤◌,
}
use google_find_my_tools_web.Reading.{Location}
use google_find_my_tools_web.LocationStore.{
  option_beq_iff, leb, arith, ◌∷◌, ◌≡◌, Option, ℕ, List, time_key, place, sort_newest_first,
}
use mathlib.Core.List.{Perm}
use mathlib.Core.List.Perm

-- Each reading is at least as new as those behind it.
pub NewestFirst : List Location → Type 0
NewestFirst [] = Unit
NewestFirst (loc ∷ rest) = All (λ other. time_key other ≤ time_key loc) rest × NewestFirst rest

place-perm : (loc : Location) (l : List Location) → Perm (place loc l) (loc ∷ l)
unfolding place
place-perm loc [] = Perm.refl (loc ∷ [])
place-perm loc (other ∷ rest) = elim (Bool-cases (leb (time_key other) (time_key loc))) [
  | inl here ↦ rw here (Perm.refl (loc ∷ other ∷ rest))
  | inr later ↦
      rw later (Perm.trans (Perm.cons other (place-perm loc rest)) (Perm.swap loc other rest))
]

All-weaken :
    (a b : ℕ) (l : List Location)
    → a ≤ b
    → All (λ x. time_key x ≤ a) l
    → All (λ x. time_key x ≤ b) l
All-weaken a b [] h all = tt
All-weaken a b (x ∷ l) h all = (omega (arith, all.0), All-weaken a b l h all.1)

All-place :
    (n : ℕ) (loc : Location) (l : List Location)
    → time_key loc ≤ n
    → All (λ x. time_key x ≤ n) l
    → All (λ x. time_key x ≤ n) (place loc l)
unfolding place
All-place n loc [] h all = (h, tt)
All-place n loc (other ∷ rest) h all = elim (Bool-cases (leb (time_key other) (time_key loc))) [
  | inl here ↦ rw here (h, all)
  | inr later ↦ rw later (all.0, All-place n loc rest h all.1)
]

place-NewestFirst : (loc : Location) (l : List Location) → NewestFirst l → NewestFirst (place loc l)
unfolding place NewestFirst
place-NewestFirst loc [] s = (tt, tt)
place-NewestFirst loc (other ∷ rest) s = elim (Bool-cases (leb (time_key other) (time_key loc))) [
  | inl here ↦
      let le = leb→le (time_key other) (time_key loc) here in
      rw here ((le, All-weaken (time_key other) (time_key loc) rest le s.0), s)
  | inr later ↦
      rw later
        (All-place (time_key other) loc rest (ground arith) s.0, place-NewestFirst loc rest s.1)
]

-- The sorted list holds the same readings.
pub sort_newest_first-perm : (l : List Location) → Perm (sort_newest_first l) l
unfolding sort_newest_first
sort_newest_first-perm [] = Perm.refl []
sort_newest_first-perm (loc ∷ l) =
    Perm.trans (place-perm loc (sort_newest_first l)) (Perm.cons loc (sort_newest_first-perm l))

sort-NewestFirst : (l : List Location) → NewestFirst (sort_newest_first l)
unfolding sort_newest_first NewestFirst
sort-NewestFirst [] = tt
sort-NewestFirst (loc ∷ l) = place-NewestFirst loc (sort_newest_first l) (sort-NewestFirst l)

-- The readings with one time, in the order in which they stand.
pub at_time : Option ℕ → List Location → List Location
at_time t [] = []
at_time t (loc ∷ l) = let rest = at_time t l in if loc.time == t then loc ∷ rest else rest

at_time-place :
    (t : Option ℕ) (loc : Location) (l : List Location)
    → at_time t (place loc l) ≡ at_time t (loc ∷ l)
unfolding at_time place time_key
at_time-place t loc [] = refl
at_time-place t loc (other ∷ rest) =
    ground (arith, at_time-place t loc rest, option_beq_iff loc.time t, option_beq_iff other.time t)

at_time-sort : (t : Option ℕ) (l : List Location) → at_time t (sort_newest_first l) ≡ at_time t l
unfolding sort_newest_first at_time
at_time-sort t [] = refl
at_time-sort t (loc ∷ l) =
    at_time-place t loc (sort_newest_first l) ∙ ground (arith, at_time-sort t l)

-- Sorting puts the newest reading first and those with no time last, and keeps every reading and
-- the order of those that have one time.
sort_newest_first_correct :
    (l : List Location)
    → NewestFirst (sort_newest_first l)
      × Perm (sort_newest_first l) l
      × ((t : Option ℕ) → at_time t (sort_newest_first l) ≡ at_time t l)
sort_newest_first_correct l = (sort-NewestFirst l, sort_newest_first-perm l, λ t. at_time-sort t l)
