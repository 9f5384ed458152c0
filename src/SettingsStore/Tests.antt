-- ===== src/SettingsStore/Tests.antt =====
-- A run of settings_store.py.
use google_find_my_tools_web.Prelude.{refl, ◌≡◌, [], ◌∷◌, ℕ, String, false, string_eq}
use google_find_my_tools_web.Prelude.Dict.{Dict, lookup, insert}
use google_find_my_tools_web.DeviceStore.{missing}
use google_find_my_tools_web.SettingsStore.{read_yaml_dict, update, load, save, or_default_value}

program : Unit {0}
unfolding lookup insert read_yaml_dict update load save or_default_value
program = tt

abbrev defaults : Dict String ℕ
defaults = ("query_throttle_max", 20) ∷ ("query_throttle_window_s", 60) ∷ []

overridden :
    load false defaults (save false (("query_throttle_max", 5) ∷ []) missing)
    ≡ ("query_throttle_max", 5) ∷ ("query_throttle_window_s", 60) ∷ []
unfolding program
overridden = refl
