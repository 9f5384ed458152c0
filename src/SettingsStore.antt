-- ===== src/SettingsStore.antt =====
-- webui/settings_store.py over config.yaml, with webui/yaml_io.py's reading of it. A setting's value
-- is whatever YAML holds; `_defaults()` is the argument, and YAML is taken to read back what it wrote.
mod Tests
use google_find_my_tools_web.Prelude.{
  refl, arith, true, not, none, some, false, ◌∷◌, ◌≡◌, if◌then◌else◌, [], Option, String, Bool,
  string_eq, eq_iff,
}
use google_find_my_tools_web.Prelude.Dict.{Dict, lookup, insert, lookup-insert}
use google_find_my_tools_web.DeviceStore.{Content, missing, unreadable, holds}

module _ {ℓ} {V : Type ℓ} where
  -- `read_yaml_dict`: the data, and whether the file could be read.
  pub read_yaml_dict : Content V → Dict String V × Bool
  read_yaml_dict missing = ([], true)
  read_yaml_dict unreadable = ([], false)
  read_yaml_dict (holds settings) = (settings, true)

  -- `defaults.update(data)`
  pub update : Dict String V → Dict String V → Dict String V
  update defaults [] = defaults
  update defaults ((key, value) ∷ settings) = insert key value (update defaults settings)

  pub load : (demo_mode : Bool) → (defaults : Dict String V) → Content V → Dict String V
  unfolding read_yaml_dict update
  load demo_mode defaults file =
      if demo_mode
      then defaults
      else let (settings, ok) = read_yaml_dict file in
        if not ok then defaults else update defaults settings

  pub save : (demo_mode : Bool) → Dict String V → Content V → Content V
  save demo_mode settings file = if demo_mode then file else holds settings

  pub or_default_value : Option V → Option V → Option V
  or_default_value none default = default
  or_default_value (some value) default = some value

  lookup-update :
      (key : String) (defaults settings : Dict String V)
      → lookup key (update defaults settings)
        ≡ or_default_value (lookup key settings) (lookup key defaults)
  unfolding update lookup or_default_value
  lookup-update key defaults [] = refl
  lookup-update key defaults ((other, value) ∷ settings) = ground (
    arith,
    lookup-update key defaults settings,
    lookup-insert key other value (update defaults settings),
  )

  -- Outside demo mode, each setting that is saved is loaded again, and each other one has its
  -- default; a file that cannot be read gives the defaults; and in demo mode a save changes nothing
  -- and a load gives the defaults.
  pub load-save :
      (defaults settings : Dict String V) (file : Content V) (key : String)
      → (lookup key (load false defaults (save false settings file))
          ≡ or_default_value (lookup key settings) (lookup key defaults))
        × (load false defaults unreadable ≡ defaults)
        × (save true settings file ≡ file)
        × (load true defaults file ≡ defaults)
  unfolding load save read_yaml_dict
  load-save defaults settings file key = (lookup-update key defaults settings, refl, refl, refl)
