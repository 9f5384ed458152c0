-- ===== src/FirmwareBuild/Tests.antt =====
-- Runs of firmware_build.py, and its theorem at a concrete input.
use google_find_my_tools_web.Prelude.{
  ℕ, ◌++◌, ◌≤◌, ◌≡◌, refl, List, [], ◌∷◌, All, length, leb, if◌then◌else◌, none, some, false,
}
use google_find_my_tools_web.Prelude.Int.{pos}
use google_find_my_tools_web.FirmwareBuild.{
  Build, sweep, prune_old_builds, State, Form, idle, start, run_build, bad_interval,
  adv_interval_units,
}
use google_find_my_tools_web.FirmwareBuild.Pruned.{Young, prune_old_builds_correct}
use mathlib.Core.List.{Perm}

program : Unit {0}
unfolding prune_old_builds start run_build adv_interval_units
program = tt

abbrev build : ℕ → Build
build t = record { name = "build"; mtime = t }

abbrev builds : List Build
builds = build 50 ∷ build 10 ∷ build 90 ∷ build 70 ∷ []

two_kept : prune_old_builds 60 2 100 builds ≡ (build 50 ∷ [], build 70 ∷ build 90 ∷ [])
unfolding program
two_kept = refl

prune_old_builds_correct_example :
    let (stale, kept) = prune_old_builds 60 2 100 builds in
    let young = sweep 60 100 builds in
    Perm (stale ++ kept) young
    × All (Young 60 100) kept
    × (length kept ≡ (if leb 2 (length young) then 2 else length young))
    × All (λ s. All (λ k. s.mtime ≤ k.mtime) kept) stale
prune_old_builds_correct_example = prune_old_builds_correct 60 2 100 builds

abbrev idle_state : State
idle_state = record { phase = idle; percent = 0; artifact = none }

abbrev too_fast : Form
too_fast = record {
  board = "esp32";
  eid_hex =
      48 ∷ 48 ∷ 48 ∷ 48 ∷ 48 ∷ 48 ∷ 48 ∷ 48 ∷ 48 ∷ 48 ∷ 48 ∷ 48 ∷ 48 ∷ 48 ∷ 48 ∷ 48 ∷ 48 ∷ 48 ∷ 48
      ∷ 48 ∷ 97 ∷ 97 ∷ 97 ∷ 97 ∷ 97 ∷ 97 ∷ 97 ∷ 97 ∷ 97 ∷ 97 ∷ 65 ∷ 65 ∷ 65 ∷ 65 ∷ 65 ∷ 65 ∷ 65 ∷ 65
      ∷ 65 ∷ 65 ∷ [];
  device_name = 84 ∷ [];
  adv_interval_ms = 19;
  tx_power_dbm = pos 9;
}

too_fast_refused : start (λ name. name) false too_fast idle_state ≡ (some bad_interval, idle_state)
unfolding program
too_fast_refused = refl

slow_accepted :
    (start (λ name. name) false (record too_fast { adv_interval_ms = 20 }) idle_state).0 ≡ none
unfolding program
slow_accepted = refl

twenty_ms : adv_interval_units 20 ≡ 32
unfolding program
twenty_ms = refl
