-- ===== src/ConfigStore/Load/Tests.antt =====
-- A run of `load` of config_store.py, and its theorem at a concrete file.
use google_find_my_tools_web.Prelude.{
  ◌≡◌, ◌==◌, refl, inl, inr, Bool-cases, eq_iff, none, some, [], ◌∷◌, String, string_eq,
}
use native.Mathlib.Omega.{arith}
use native.Mathlib.Decide.{ℕ_discrete}
use google_find_my_tools_web.DeviceStore.Interface.{Devices, memory_devices}
use google_find_my_tools_web.ConfigStore.Migration.{SavedConfig, no_endpoint}
use google_find_my_tools_web.ConfigStore.Load.{SavedEntry, load}
use google_find_my_tools_web.ConfigStore.Load.Stored.{current}
use google_find_my_tools_web.ConfigStore.Load.Once.{load-Once}

string_dec : Discrete String
string_dec a b = elim (Bool-cases (a == b)) [
  | inl same ↦ yes ((eq_iff a b).0 same)
  | inr other ↦ no (λ e. ground (arith, other, (eq_iff a b).1 e))
]

config_dec : Discrete SavedConfig
config_dec = hlevel (string_dec, ℕ_discrete)

abbrev old : SavedConfig
old = record {
  endpoints =
      some (record no_endpoint { url = some "https://d/"; params = some (("id", "a") ∷ []) } ∷ []);
  destination = none;
  traccar = none;
  phonetrack = none;
  last_forward_status = none;
  last_forward_time = none;
  poll_interval_seconds = none;
  rest = [];
}

abbrev entry : SavedEntry
entry = record { config = some old; location = none; endpoint_state = none; staleness = none }

abbrev devices : Devices SavedEntry
devices = memory_devices SavedEntry

abbrev on_file : String → SavedEntry
on_file k = entry

load-Once_example :
    devices.IsValid (load devices config_dec 300 ("a" ∷ "b" ∷ []) on_file).1
    × ((load devices config_dec 300 ("a" ∷ "b" ∷ []) on_file).1 "b"
        ≡ current devices config_dec 300 entry)
    × (load devices config_dec 300
          ("a" ∷ "b" ∷ [])
          (load devices config_dec 300 ("a" ∷ "b" ∷ []) on_file).1
        ≡ load devices config_dec 300 ("a" ∷ "b" ∷ []) on_file)
load-Once_example = load-Once devices config_dec 300 ("a" ∷ "b" ∷ []) on_file "b" tt refl
