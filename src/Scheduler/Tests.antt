-- ===== src/Scheduler/Tests.antt =====
-- Runs of scheduler.py, and its theorem at a concrete input.
use google_find_my_tools_web.Prelude.{
  string_eq, ◌≤◌, none, refl, ◌↔◌, String, Option, [], ◌∷◌, true, ℕ, ◌≡◌, List, some, nat_eq,
  contains,
}
use google_find_my_tools_web.Prelude.Dict.{lookup, insert, erase}
use google_find_my_tools_web.Scheduler.{
  locate_with_retries, record_locate_failure, clear_locate_failure, next_runs, wake_at, due_indices,
  count_of,
}
use google_find_my_tools_web.Scheduler.Failures.{after, own, in_a_row, leading}
use google_find_my_tools_web.Scheduler.Wake.{run_at, wake_at-due}

program : Unit {0}
unfolding lookup insert erase locate_with_retries record_locate_failure clear_locate_failure
    next_runs wake_at due_indices count_of after own in_a_row leading
program = tt

abbrev history : List (String × Option String)
history = ("a", some "timeout") ∷ ("b", none) ∷ ("a", some "timeout") ∷ ("a", some "offline") ∷ []

third_in_a_row : (record_locate_failure "a" "timeout" (after history)).1 ≡ true
unfolding program
third_in_a_row = refl

abbrev runs : List (Option ℕ)
runs = some 600 ∷ none ∷ some 300 ∷ some 300 ∷ []

due : due_indices 0 runs 300 ≡ 2 ∷ 3 ∷ []
unfolding program
due = refl

no_endpoint : next_runs (λ cron. some 300) [] ≡ []
unfolding program
no_endpoint = refl

wakes : wake_at runs ≡ some 300
unfolding program
wakes = refl

wake_at-due_example :
    (wake : ℕ) × (wake_at runs ≡ some wake)
    × ((i : ℕ) × (contains (due_indices 0 runs wake) i ≡ true))
    × ((i : ℕ) → (contains (due_indices 0 runs wake) i ≡ true) ↔ (run_at runs i ≡ some wake))
    × ((i time : ℕ) → run_at runs i ≡ some time → wake ≤ time)
wake_at-due_example = wake_at-due runs 0 600 refl
