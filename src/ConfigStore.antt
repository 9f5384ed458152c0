-- ===== src/ConfigStore.antt =====
-- webui/forwarders/config_store.py, over device configurations in the current shape, which
-- `normalize_device_config` leaves as they are: `save` and `set_device_config`.
pub mod Interval
pub mod Load
pub mod Migration
pub mod Replace
mod Tests
use google_find_my_tools_web.Prelude.{Option, none, some, List, [], ◌∷◌, ◌++◌, ℕ, String, string_eq}
use google_find_my_tools_web.Prelude.Dict.{Dict, lookup, insert}
use google_find_my_tools_web.Device.{DeviceConfig, Entry, empty}
use google_find_my_tools_web.DeviceStore.{Store, EntryType, or_empty, mutate_device}
use google_find_my_tools_web.DeviceStore.Bulk.{keys, mutate_devices}

module _ (dec : Discrete Entry) where
  abbrev pub entries : EntryType {0}
  entries = record { Entry = Entry; empty = empty; dec = dec }

  -- `devices.get(canonic_id, {}).pop("config", None)`, and the assignment to `["config"]`.
  pub drop_config : String → Option Entry → Dict String Entry → Dict String Entry
  drop_config k none devices = devices
  drop_config k (some entry) devices = insert k (record entry { config = none }) devices

  pub put_config : Option DeviceConfig → String → Dict String Entry → Dict String Entry
  unfolding drop_config
  put_config none k devices = drop_config k (lookup k devices) devices
  put_config (some cfg) k devices =
      insert k (record (or_empty entries (lookup k devices)) { config = some cfg }) devices

  -- The loop of `_replace_all`.
  pub replace : Dict String DeviceConfig → List String → Dict String Entry → Dict String Entry
  unfolding put_config
  replace wanted [] devices = devices
  replace wanted (k ∷ ids) devices = replace wanted ids (put_config (lookup k wanted) k devices)

  pub new_id : Option Entry → String → List String → List String
  new_id none k ids = k ∷ ids
  new_id (some entry) k ids = ids

  pub new_ids : Dict String Entry → List String → List String
  unfolding new_id
  new_ids devices [] = []
  new_ids devices (k ∷ ids) = new_id (lookup k devices) k (new_ids devices ids)

  -- The loop runs over `set(devices) | set(wanted)`, here in the order of the two dicts.
  pub replace_all : Dict String DeviceConfig → Dict String Entry → Dict String Entry
  unfolding replace new_ids
  replace_all wanted devices =
      replace wanted (keys devices ++ new_ids devices (keys wanted)) devices

  pub save :
      Option (Dict String Entry)
      → (written_at : ℕ) → Dict String DeviceConfig
      → Store Entry
      → Store Entry
  unfolding replace_all
  save legacy written_at wanted s =
      (mutate_devices entries legacy written_at (replace_all wanted) s).1

  -- `_set_config`
  set_device_config :
      Option (Dict String Entry)
      → (written_at : ℕ) → String
      → DeviceConfig
      → Store Entry
      → Store Entry
  set_device_config legacy written_at canonic_id cfg s =
      (mutate_device entries legacy written_at canonic_id
        (λ entry. record entry { config = some cfg }) s).1
