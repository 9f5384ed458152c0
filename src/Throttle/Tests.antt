-- ===== src/Throttle/Tests.antt =====
-- Runs of QueryThrottle, and its theorems at concrete inputs.
use native.Mathlib.Nat.{le_refl}
use google_find_my_tools_web.Prelude.{ℕ, ◌+◌, ◌≤◌, ◌≡◌, refl, some, List, [], ◌∷◌, arith}
use google_find_my_tools_web.Throttle.{
  Settings, QueryThrottle, init, expire, delay_of, window_delay, spread_delay,
  consume_slot_or_get_delay, admissions, wait_loop, wait_turn,
}
use google_find_my_tools_web.Throttle.Window.{
  count_within, Spaced, admissions_bounded, admissions-Spaced,
}
use google_find_my_tools_web.Throttle.Waiting.{wait_turn_total}

abbrev settings : Settings
settings = record { window = 60; max_per_window = 2; min_spread = 1 }

abbrev calls : List ℕ
calls = 10 ∷ 10 ∷ 11 ∷ 50 ∷ 70 ∷ 70 ∷ 71 ∷ []

abbrev busy : QueryThrottle
busy = record { sent_at = 10 ∷ 11 ∷ []; last_sent_at = some 11; waiting = 3 }

program : Unit {0}
unfolding init consume_slot_or_get_delay expire delay_of window_delay spread_delay admissions
    wait_turn wait_loop
program = tt

-- The second call comes too soon, and the fourth finds the window full.
admissions_run : admissions settings calls init ≡ 10 ∷ 11 ∷ 70 ∷ 71 ∷ []
unfolding program
admissions_run = refl

wait_run :
    wait_turn ◌+◌ settings 4 20 busy
    ≡ some (70, record { sent_at = 11 ∷ 70 ∷ []; last_sent_at = some 70; waiting = 3 })
unfolding program
wait_run = refl

admissions_bounded_example : count_within 60 11 (admissions settings calls init) ≤ 2
admissions_bounded_example = admissions_bounded settings 0 calls 11 (omega arith) (omega arith)

admissions-Spaced_example : Spaced 1 (some 11) (admissions settings calls busy)
admissions-Spaced_example = admissions-Spaced settings calls busy (omega arith)

wait_turn_total_example :
    (end : ℕ) × (q' : QueryThrottle) × (wait_turn ◌+◌ settings 4 20 busy ≡ some (end, q'))
    × (q'.last_sent_at ≡ some end)
    × (q'.waiting ≡ 3)
    × (20 ≤ end)
wait_turn_total_example = wait_turn_total ◌+◌ (λ now d. le_refl (now + d)) settings 20 busy
