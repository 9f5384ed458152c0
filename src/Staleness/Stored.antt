-- ===== src/Staleness/Stored.antt =====
-- The checks of webui/staleness.py over devices.yaml.
use google_find_my_tools_web.Prelude.{refl, eq_refl, arith, none, ◌∷◌, ◌≡◌}
use google_find_my_tools_web.Device.{DeviceConfig, Staleness, Entry}
use google_find_my_tools_web.DeviceStore.Interface.{Devices}
use google_find_my_tools_web.LocationStore.{get_newest_fix_time}
use google_find_my_tools_web.LatestValues.{get_device_staleness, set_device_staleness}
use google_find_my_tools_web.LatestValues.Laws.{staleness-set_device_staleness}
use google_find_my_tools_web.Staleness.{
  [], some, List, ℕ, String, Option, check, settle, check_record, check_device, name_of, alias_of,
  Notice,
}
use google_find_my_tools_web.Staleness.Episodes.{settled}

pub notice_of : Option (Staleness × Notice) → List Notice
notice_of none = []
notice_of (some (cfg, notice)) = notice ∷ []

module _ (devices : Devices Entry) (s : devices.State) (v : devices.IsValid s) (k : String)
    (now : ℕ) where
  settle-stored :
      (cfg : Staleness) (o : Option (Staleness × Notice))
      → get_device_staleness devices k s ≡ some cfg
      → ((settle devices k o s).0 ≡ notice_of o)
        × (get_device_staleness devices k (settle devices k o s).1 ≡ some (settled cfg o))
  unfolding settle settled notice_of
  settle-stored cfg none e = (refl, e)
  settle-stored cfg (some (cfg', notice)) e =
      (refl, ground (arith, staleness-set_device_staleness devices s v k cfg' k, eq_refl k))

  settle-IsValid : (o : Option (Staleness × Notice)) → devices.IsValid (settle devices k o s).1
  unfolding settle set_device_staleness
  settle-IsValid none = v
  settle-IsValid (some (cfg, notice)) =
      devices.mutate-IsValid k (λ e. record e { staleness = some cfg }) s v

  -- In a valid store, a check of a device with a staleness record sends what `check` decides for
  -- the record and the newest fix on file; the record that it decides is the one on file
  -- afterwards, and the store stays valid.
  check_device-stored :
      (device_cfg : DeviceConfig) (cfg : Staleness)
      → get_device_staleness devices k s ≡ some cfg
      → let o =
          check k
            (name_of k device_cfg)
            (alias_of k device_cfg)
            (get_newest_fix_time devices k s)
            cfg
            now in
        let (sent, s') = check_device devices k device_cfg now s in
        (sent ≡ notice_of o)
        × (get_device_staleness devices k s' ≡ some (settled cfg o))
        × devices.IsValid s'
  unfolding check_device check_record
  check_device-stored device_cfg cfg e =
      let o =
        check k (name_of k device_cfg) (alias_of k device_cfg) (get_newest_fix_time devices k s) cfg
          now in
      rw e ((settle-stored cfg o e).0, (settle-stored cfg o e).1, settle-IsValid o)
