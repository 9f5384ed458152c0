-- ===== src/Device.antt =====
-- One device's entry in devices.yaml: what config_store.py, device_location_store.py and
-- latest_values_store.py keep under their own sub-keys, in the current shape of each.
use google_find_my_tools_web.Prelude.{String, ℕ, List, Bool, none, Option}
use google_find_my_tools_web.Prelude.Dict.{Dict}
use google_find_my_tools_web.Reading.{Location}
use google_find_my_tools_web.Forwarding.{Endpoint, EndpointState}

pub record DeviceConfig : Type 0 where
  pub display_name : Option String
  pub google_name : Option String
  pub device_meta : Option String
  pub endpoints : List Endpoint

pub record LastLocation : Type 0 where
  pub locations : List Location
  pub fetched_at : Option ℕ
  pub newest_fix_time : Option ℕ

pub record Staleness : Type 0 where
  pub enabled : Bool
  pub threshold_s : Option ℕ
  pub repeat_s : Option ℕ
  pub message_template : Option String
  pub muted : Bool
  pub alert_active : Bool
  pub last_alert_sent_at : Option ℕ

pub record Entry : Type 0 where
  pub config : Option DeviceConfig
  pub location : Option LastLocation
  pub endpoint_state : Option (Dict String EndpointState)
  pub staleness : Option Staleness

abbrev pub empty : Entry
empty = record { config = none; location = none; endpoint_state = none; staleness = none }
