-- ===== src/FirmwareStore/Tests.antt =====
-- Runs of firmware_store.py.
use google_find_my_tools_web.Prelude.{take, refl, ◌∷◌, ◌≡◌, map, string_eq}
use google_find_my_tools_web.FirmwareStore.{
  none, true, false, [], Registered, Trackers, BuildSettings, push, change_first, find_first,
  record_registration, record_build_settings, set_keep_track, list_registered, load_last_identity,
  record_identity, default_identity, default_build_settings,
}

program : Unit {0}
unfolding take push change_first find_first record_registration record_build_settings set_keep_track
    list_registered load_last_identity record_identity
program = tt

abbrev no_trackers : Trackers
no_trackers = record { entries = []; last_identity = none }

abbrev fast : BuildSettings
fast = record default_build_settings { adv_interval_ms = 10 }

abbrev twice : Trackers
twice =
    record_registration "e1" 2 default_identity true
      (record_registration "e1" 1 default_identity false no_trackers)

rebuilt :
    (map
        (λ (e : Registered). e.settings.adv_interval_ms)
        (list_registered (record_build_settings "e1" fast twice))
      ≡ 10 ∷ 20 ∷ [])
    × (map (λ (e : Registered). e.eid_hex) (record_build_settings "e2" fast twice).entries
        ≡ "e2" ∷ "e1" ∷ "e1" ∷ [])
    × (load_last_identity (record_identity default_identity twice) ≡ default_identity)
unfolding program
rebuilt = (refl, refl, refl)
