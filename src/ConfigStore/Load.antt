-- ===== src/ConfigStore/Load.antt =====
-- `load` of webui/forwarders/config_store.py over what device_store.py promises: it writes back the
-- configurations that `normalize_device_config` changes.
pub mod Once
pub mod Stored
mod Tests
use mathlib.Core.Logic.{ite}
use google_find_my_tools_web.Prelude.{
  ℕ, Bool, true, false, Option, none, some, List, [], ◌∷◌, String, string_eq, if◌then◌else◌,
}
use google_find_my_tools_web.Prelude.Dict.{Dict}
use google_find_my_tools_web.Device.{LastLocation, Staleness}
use google_find_my_tools_web.Forwarding.{EndpointState}
use google_find_my_tools_web.DeviceStore.Interface.{Devices}
use google_find_my_tools_web.ConfigStore.Migration.{SavedConfig, normalize_device_config}

-- One device's entry in devices.yaml, with its configuration as it was saved.
pub record SavedEntry : Type 0 where
  pub config : Option SavedConfig
  pub location : Option LastLocation
  pub endpoint_state : Option (Dict String EndpointState)
  pub staleness : Option Staleness

unfoldable pub put : Option SavedConfig → SavedEntry → SavedEntry
put cfg entry = record entry { config = cfg }

module _ (d : Devices SavedEntry) (dec : Discrete SavedConfig) (default_poll_interval_s : ℕ) where
  -- The items of `normalized`, for the ids of the file in their order.
  unfoldable pub normalized : List String → d.State → Dict String SavedConfig
  normalized [] s = []
  normalized (canonic_id ∷ ids) s = elim (d.entry_of s canonic_id).config [
    | none ↦ normalized ids s
    | some cfg ↦
        (canonic_id, normalize_device_config default_poll_interval_s cfg) ∷ normalized ids s
  ]

  unfoldable pub differs : Option SavedConfig → Bool
  differs none = false
  differs (some cfg) =
      ite (dec (normalize_device_config default_poll_interval_s cfg) cfg) false true

  unfoldable pub changed : List String → d.State → Bool
  unfolding differs
  changed [] s = false
  changed (canonic_id ∷ ids) s =
      let rest = changed ids s in if differs (d.entry_of s canonic_id).config then true else rest

  -- `_set_config` for each item
  unfoldable pub set_configs : Dict String SavedConfig → d.State → d.State
  unfolding put
  set_configs [] s = s
  set_configs ((canonic_id, cfg) ∷ items) s =
      set_configs items (d.mutate canonic_id (put (some cfg)) s)

  unfoldable pub load : List String → d.State → Dict String SavedConfig × d.State
  unfolding normalized changed set_configs
  load ids s =
      let items : Dict String SavedConfig = normalized ids s in
      (items, if changed ids s then set_configs items s else s)
