-- ===== src/Scheduler/Wake.antt =====
-- When webui/scheduler.py polls a device, and which of its endpoints.
use google_find_my_tools_web.Prelude.{
  leb, inr, ◌↔◌, inl, Bool-cases, ◌⊎◌, true, zero, refl, false, [], arith, ◌∷◌, ◌≤◌, some, ◌≡◌, ◌+◌,
  none, suc, Option, List, ℕ, contains, nat_eq,
}
use google_find_my_tools_web.Scheduler.{earlier, wake_at, is_due, due_indices}

-- The next run of the endpoint at an index, if it has one.
abbrev pub run_at : List (Option ℕ) → ℕ → Option ℕ
run_at [] i = none
run_at (t ∷ runs) zero = t
run_at (t ∷ runs) (suc i) = run_at runs i

earlier-left : (t : ℕ) (u : Option ℕ) → (wake : ℕ) × (earlier (some t) u ≡ some wake) × (wake ≤ t)
unfolding earlier
earlier-left t none = (t, refl, omega arith)
earlier-left t (some u) = elim (Bool-cases (leb t u)) [
  | inl before ↦ (t, rw before, omega arith)
  | inr after ↦ (u, rw after, ground arith)
]

earlier-right : (t : Option ℕ) (u : ℕ) → (wake : ℕ) × (earlier t (some u) ≡ some wake) × (wake ≤ u)
unfolding earlier
earlier-right none u = (u, refl, omega arith)
earlier-right (some t) u = elim (Bool-cases (leb t u)) [
  | inl before ↦ (t, rw before, ground arith)
  | inr after ↦ (u, rw after, omega arith)
]

earlier-cases :
    (t : ℕ) (u : Option ℕ) (wake : ℕ)
    → earlier (some t) u ≡ some wake
    → (some t ≡ some wake) ⊎ (u ≡ some wake)
unfolding earlier
earlier-cases t none wake e = inl e
earlier-cases t (some u) wake e = ground arith

wake_at-earliest :
    (runs : List (Option ℕ)) (i time : ℕ)
    → run_at runs i ≡ some time
    → (wake : ℕ) × (wake_at runs ≡ some wake) × (wake ≤ time)
unfolding wake_at earlier
wake_at-earliest [] i time r = absurd (ground arith)
wake_at-earliest (none ∷ runs) zero time r = absurd (ground arith)
wake_at-earliest (some t ∷ runs) zero time r =
    let (wake, e, h) = earlier-left t (wake_at runs) in (wake, e, ground arith)
wake_at-earliest (t ∷ runs) (suc i) time r =
    let (w, e, h) = wake_at-earliest runs i time r in
    let (wake, f, g) = earlier-right t w in (wake, rw e f, omega arith)

wake_at-runs :
    (runs : List (Option ℕ)) (wake : ℕ)
    → wake_at runs ≡ some wake
    → (i : ℕ) × (run_at runs i ≡ some wake)
unfolding wake_at earlier
wake_at-runs [] wake e = absurd (ground arith)
wake_at-runs (none ∷ runs) wake e = let (i, r) = wake_at-runs runs wake e in (suc i, r)
wake_at-runs (some t ∷ runs) wake e = elim (earlier-cases t (wake_at runs) wake e) [
  | inl now ↦ (zero, now)
  | inr later ↦ let (i, r) = wake_at-runs runs wake later in (suc i, r)
]

due-above :
    (k : ℕ) (runs : List (Option ℕ)) (wake i : ℕ)
    → suc i ≤ k
    → contains (due_indices k runs wake) i ≡ false
unfolding due_indices
due-above k [] wake i h = refl
due-above k (t ∷ runs) wake i h = ground (arith, due-above (k + 1) runs wake i (omega arith))

due-run_at :
    (k : ℕ) (runs : List (Option ℕ)) (wake i : ℕ)
    → contains (due_indices k runs wake) (k + i) ≡ is_due (run_at runs i) wake
unfolding due_indices is_due
due-run_at k [] wake i = refl
due-run_at k (t ∷ runs) wake zero = ground (arith, due-above (k + 1) runs wake k (omega arith))
due-run_at k (t ∷ runs) wake (suc i) = ground (arith, due-run_at (k + 1) runs wake i)

earliest :
    (runs : List (Option ℕ)) (wake : ℕ)
    → wake_at runs ≡ some wake
    → (i time : ℕ) → run_at runs i ≡ some time
    → wake ≤ time
earliest runs wake e i time r = let (w, f, h) = wake_at-earliest runs i time r in ground arith

due_iff :
    (runs : List (Option ℕ)) (wake : ℕ)
    → wake_at runs ≡ some wake
    → (i : ℕ) → (contains (due_indices 0 runs wake) i ≡ true) ↔ (run_at runs i ≡ some wake)
unfolding is_due
due_iff runs wake e i =
    due_at (run_at runs i) (earliest runs wake e i) (ground (arith, due-run_at 0 runs wake i))
  where
    due_at :
        (t : Option ℕ)
        → ((time : ℕ) → t ≡ some time → wake ≤ time)
        → contains (due_indices 0 runs wake) i ≡ is_due t wake
        → (contains (due_indices 0 runs wake) i ≡ true) ↔ (t ≡ some wake)
    due_at none h d = ground arith
    due_at (some t) h d = let le : wake ≤ t = h t refl in ground arith

-- If some schedule has a next run, a poll wakes: then at least one endpoint is due, no endpoint has
-- a run before it, and the endpoints that are due are exactly those whose next run is then.
pub wake_at-due :
    (runs : List (Option ℕ)) (some_index some_time : ℕ)
    → run_at runs some_index ≡ some some_time
    → (wake : ℕ) × (wake_at runs ≡ some wake)
      × ((i : ℕ) × (contains (due_indices 0 runs wake) i ≡ true))
      × ((i : ℕ) → (contains (due_indices 0 runs wake) i ≡ true) ↔ (run_at runs i ≡ some wake))
      × ((i time : ℕ) → run_at runs i ≡ some time → wake ≤ time)
wake_at-due runs some_index some_time run =
    let (wake, e, before) = wake_at-earliest runs some_index some_time run in
    let (first, r) = wake_at-runs runs wake e in
    (wake, e, (first, (due_iff runs wake e first).1 r), due_iff runs wake e, earliest runs wake e)
