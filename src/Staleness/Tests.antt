-- ===== src/Staleness/Tests.antt =====
-- Runs of staleness.py, and its theorem at a concrete input.
use google_find_my_tools_web.Prelude.{
  String, Option, ℕ, [], none, true, some, List, map, ◌≡◌, false, refl, ◌∷◌,
}
use google_find_my_tools_web.Prelude.Int.{pos}
use google_find_my_tools_web.Device.{DeviceConfig, Staleness, Entry, empty}
use google_find_my_tools_web.DeviceStore.Interface.{memory_devices}
use google_find_my_tools_web.Forwarding.{or_default}
use google_find_my_tools_web.LatestValues.{get_device_staleness}
use google_find_my_tools_web.LocationStore.{get_newest_fix_time, newest_fix_time, location_of}
use google_find_my_tools_web.Staleness.{
  default_staleness, format_duration, compute_status, display_status, fresh, threshold_of, Notice,
  check, check_device, sweep_once,
}
use google_find_my_tools_web.Staleness.Episodes.{notices}
use google_find_my_tools_web.Staleness.Watched.{shown, expected, notices-expected}

program : Unit {0}
unfolding or_default threshold_of format_duration compute_status display_status check check_device
    sweep_once notices get_newest_fix_time newest_fix_time location_of
program = tt

abbrev hourly : Staleness
hourly = record default_staleness { enabled = true; threshold_s = some 3600 }

abbrev repeating : Staleness
repeating = record hourly { repeat_s = some 600 }

abbrev checks : List (ℕ × Option ℕ)
checks =
    (1000, some 900)
    ∷ (5000, some 900)
    ∷ (5060, some 900)
    ∷ (5700, some 900)
    ∷ (5760, some 5750)
    ∷ (9900, some 5750)
    ∷ []

once_each :
    map (λ (n : ℕ × Notice). n.0) (notices "id" "tag" "Tag" checks hourly) ≡ 5000 ∷ 5760 ∷ 9900 ∷ []
unfolding program
once_each = refl

repeated :
    map (λ (n : ℕ × Notice). n.0) (notices "id" "tag" "Tag" checks repeating)
    ≡ 5000 ∷ 5700 ∷ 5760 ∷ 9900 ∷ []
unfolding program
repeated = refl

abbrev tag : DeviceConfig
tag = record { display_name = some "Tag"; google_name = none; device_meta = none; endpoints = [] }

silent_without_record :
    (sweep_once (memory_devices Entry) (("id", tag) ∷ []) 9000 (λ k. empty)).0 ≡ []
unfolding program get_device_staleness
silent_without_record = refl

notices-expected_example :
    shown (notices "id" "tag" "Tag" checks hourly) ≡ expected 3600 false checks
notices-expected_example =
    notices-expected "id" "tag" "Tag" 3599 checks hourly (refl, refl, refl, refl)

shown_fresh : display_status (some 900) (some hourly) 1000 ≡ fresh (pos 100) 3600
unfolding program
shown_fresh = refl

abbrev alerting : String → Entry
alerting k = record empty { staleness = some hourly }

on_file : get_device_staleness (memory_devices Entry) "id" alerting ≡ some hourly
unfolding get_device_staleness
on_file = refl
