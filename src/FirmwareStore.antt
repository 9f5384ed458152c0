-- ===== src/FirmwareStore.antt =====
-- webui/firmware_store.py outside demo mode: the trackers that were registered, and the identity of
-- the last registration. What `_load_unlocked` finds is the argument, and what `_save_unlocked`
-- writes is the result; YAML is taken to read back what it wrote.
pub mod Entries
mod Tests
use google_find_my_tools_web.Prelude.{
  take, zero, ◌==◌, suc, Bool, if◌then◌else◌, [], ℕ, ◌∷◌, Option, some, List, false, true, none,
  String, string_eq,
}

abbrev pub max_entries : ℕ
max_entries = 50

pub record BuildSettings : Type 0 where
  pub device_name : String
  pub adv_interval_ms : ℕ
  pub tx_power_dbm : ℕ
  pub tracking_protection : Bool

pub record Identity : Type 0 where
  pub display_name : String
  pub device_type : String
  pub manufacturer_name : String
  pub model_name : String
  pub image_url : String
  pub experimental_official_app_compat : Bool

abbrev pub default_build_settings : BuildSettings
default_build_settings = record {
  device_name = "GFMT Tracker";
  adv_interval_ms = 20;
  tx_power_dbm = 9;
  tracking_protection = true;
}

abbrev pub default_identity : Identity
default_identity = record {
  display_name = "GoogleFindMyTools µC";
  device_type = "DEVICE_TYPE_BEACON";
  manufacturer_name = "GoogleFindMyTools";
  model_name = "µC";
  image_url =
      "https://docs.espressif.com/projects/esp-idf/en/v4.3/esp32/_images/esp32-DevKitM-1-isometric.png";
  experimental_official_app_compat = false;
}

-- An entry as it is loaded, with the defaults of what it lacks; one that was typed in by hand has
-- no identity.
pub record Registered : Type 0 where
  pub eid_hex : String
  pub pair_date : ℕ
  pub identity : Option Identity
  pub keep_track : Bool
  pub settings : BuildSettings

pub record Trackers : Type 0 where
  pub entries : List Registered
  pub last_identity : Option Identity

-- `entries.insert(0, entry)`, then the cut.
pub push : Registered → Trackers → Trackers
unfolding take
push entry trackers = record trackers { entries = take max_entries (entry ∷ trackers.entries) }

pub record_registration :
    (eid_hex : String) (pair_date : ℕ) → Identity → (keep_track : Bool) → Trackers → Trackers
unfolding push
record_registration eid_hex pair_date identity keep_track trackers =
    push
      (record {
        eid_hex = eid_hex;
        pair_date = pair_date;
        identity = some identity;
        keep_track = keep_track;
        settings = default_build_settings;
      })
      trackers

-- The loop over the entries, which changes the first one with the EID; `None` if there is none.
pub change_first :
    (eid_hex : String) → (Registered → Registered) → List Registered → Option (List Registered)
change_first eid_hex fn [] = none
change_first eid_hex fn (entry ∷ entries) =
    let rest = change_first eid_hex fn entries in
    if entry.eid_hex == eid_hex
    then some (fn entry ∷ entries)
    else elim rest [ none ↦ none | some changed ↦ some (entry ∷ changed) ]

typed_in : (eid_hex : String) → BuildSettings → Registered
typed_in eid_hex settings = record {
  eid_hex = eid_hex;
  pair_date = 0;
  identity = none;
  keep_track = false;
  settings = settings;
}

settings_saved : (eid_hex : String) → BuildSettings → Option (List Registered) → Trackers → Trackers
unfolding typed_in push take
settings_saved eid_hex settings none trackers = push (typed_in eid_hex settings) trackers
settings_saved eid_hex settings (some changed) trackers = record trackers {
  entries = take max_entries changed;
}

pub record_build_settings : (eid_hex : String) → BuildSettings → Trackers → Trackers
unfolding change_first settings_saved
record_build_settings eid_hex settings trackers =
    settings_saved eid_hex settings
      (change_first eid_hex (λ entry. record entry { settings = settings }) trackers.entries)
      trackers

kept : Option (List Registered) → Trackers → Trackers
kept none trackers = trackers
kept (some changed) trackers = record trackers { entries = changed }

pub set_keep_track : (eid_hex : String) (keep_track : Bool) → Trackers → Trackers
unfolding change_first kept
set_keep_track eid_hex keep_track trackers =
    kept (change_first eid_hex (λ entry. record entry { keep_track = keep_track }) trackers.entries)
      trackers

pub list_registered : Trackers → List Registered
list_registered trackers = trackers.entries

pub load_last_identity : Trackers → Identity
load_last_identity trackers = elim trackers.last_identity [
  | none ↦ default_identity
  | some identity ↦ identity
]

pub record_identity : Identity → Trackers → Trackers
record_identity identity trackers = record trackers { last_identity = some identity }

-- The entry that the Firmware page finds for an EID: the first one.
pub find_first : (eid_hex : String) → List Registered → Option Registered
find_first eid_hex [] = none
find_first eid_hex (entry ∷ entries) =
    if entry.eid_hex == eid_hex then some entry else find_first eid_hex entries
