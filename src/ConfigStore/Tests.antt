-- ===== src/ConfigStore/Tests.antt =====
-- Runs of config_store.py, and its theorem at a concrete input.
use google_find_my_tools_web.Prelude.{
  Bool-cases, ◌==◌, inl, inr, eq_iff, true, string_eq, none, some, [], ◌∷◌, ◌≡◌, String, Option,
}
use google_find_my_tools_web.Prelude.Dict.{Dict, lookup}
use google_find_my_tools_web.Device.{DeviceConfig, Entry, empty}
use google_find_my_tools_web.DeviceStore.{Store, holds}
use google_find_my_tools_web.DeviceStore.Coherence.{IsCoherent, view}
use google_find_my_tools_web.ConfigStore.{entries, save}
use google_find_my_tools_web.ConfigStore.Replace.{view-save}
use native.Mathlib.Omega.{arith}
use native.Mathlib.Decide.{ℕ_discrete}

string_dec : Discrete String
string_dec a b = elim (Bool-cases (a == b)) [
  | inl same ↦ yes ((eq_iff a b).0 same)
  | inr other ↦ no (λ e. ground (arith, other, (eq_iff a b).1 e))
]

entry_dec : Discrete Entry
entry_dec = hlevel (string_dec, ℕ_discrete)

abbrev config : Option String → DeviceConfig
config name = record { display_name = name; google_name = none; device_meta = none; endpoints = [] }

abbrev configured : Entry
configured = record empty { config = some (config none) }

abbrev on_file : Store Entry
on_file = record {
  content = holds (("a", configured) ∷ ("b", configured) ∷ []);
  mtime = 3;
  cached = none;
  last_load_ok = true;
}

on_file-IsCoherent : IsCoherent (entries entry_dec) none on_file
on_file-IsCoherent = record { agrees = λ at devices e p. cc }

abbrev wanted : Dict String DeviceConfig
wanted = ("b", config (some "Keys")) ∷ ("c", config none) ∷ []

view-save_example :
    view (entries entry_dec) none (save entry_dec none 4 wanted on_file) "a"
    ≡ record (view (entries entry_dec) none on_file "a") { config = lookup "a" wanted }
view-save_example = view-save entry_dec none 4 wanted on_file on_file-IsCoherent "a"
