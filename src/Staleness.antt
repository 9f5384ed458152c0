-- ===== src/Staleness.antt =====
-- webui/staleness.py. Times and durations are whole seconds, and an age, which is negative for a fix
-- from the future, is an integer. A notice is what `logger.warning` gets, with its template and the
-- values that the template is rendered with.
pub mod Episodes
pub mod Thresholds
pub mod Watched
pub mod Stored
mod Tests
use google_find_my_tools_web.Prelude.{
  ◌/◌, ◌+◌, string_eq, max, leb, ◌==◌, ◌||◌, nat_beq, ltb, true, ◌++◌, [], some, if◌then◌else◌, not,
  none, ◌∷◌, ◌&&◌, Option, List, Bool, String, ℕ, false,
}
use google_find_my_tools_web.Prelude.Int.{ℤ, pos, negsuc, sub_ℕ, above}
use google_find_my_tools_web.Device.{DeviceConfig, Staleness, Entry}
use google_find_my_tools_web.DeviceStore.Interface.{Devices}
use google_find_my_tools_web.LocationStore.{get_newest_fix_time}
use google_find_my_tools_web.LatestValues.{get_device_staleness, set_device_staleness}
use google_find_my_tools_web.Forwarding.{or_default}

abbrev pub default_message_template : String
default_message_template = "No update from {{device_name}} in over {{threshold}}"

abbrev pub default_display_threshold_s : ℕ
default_display_threshold_s = 86400

abbrev pub default_staleness : Staleness
default_staleness = record {
  enabled = false;
  threshold_s = none;
  repeat_s = none;
  message_template = some default_message_template;
  muted = false;
  alert_active = false;
  last_alert_sent_at = none;
}

-- The texts of `format_duration`: "?", or a count with its unit.
pub data Duration : Type 0 where
  unknown : Duration
  minutes hours days : ℕ → Duration

format_seconds : ℕ → Duration
format_seconds seconds =
    if ltb seconds 3600
    then minutes (max 1 (seconds / 60))
    else if ltb seconds 86400
    then hours (seconds / 3600)
    else days (seconds / 86400)

pub format_duration : Option ℤ → Duration
unfolding format_seconds
format_duration none = unknown
format_duration (some (pos seconds)) = format_seconds seconds
format_duration (some (negsuc n)) = minutes 1

-- What `compute_status` returns.
pub record Status : Type 0 where
  pub enabled : Bool
  pub muted : Bool
  pub threshold_s : Option ℕ
  pub last_fix_time : Option ℕ
  pub age_s : Option ℤ
  pub has_data : Bool
  pub is_stale : Bool

pub age : (now : ℕ) → Option ℕ → Option ℤ
age now none = none
age now (some last_fix_time) = some (sub_ℕ now last_fix_time)

-- `threshold_s and age_s is not None and age_s > threshold_s`
pub exceeds : Option ℕ → Option ℤ → Bool
exceeds none age = false
exceeds (some threshold) none = false
exceeds (some threshold) (some age) = not (nat_beq threshold 0) && above age threshold

has_some : Option ℕ → Bool
has_some none = false
has_some (some t) = true

pub compute_status : (last_fix_time : Option ℕ) → Staleness → (now : ℕ) → Status
unfolding age exceeds has_some
compute_status last_fix_time cfg now = record {
  enabled = cfg.enabled;
  muted = cfg.muted;
  threshold_s = cfg.threshold_s;
  last_fix_time = last_fix_time;
  age_s = age now last_fix_time;
  has_data = has_some last_fix_time;
  is_stale = cfg.enabled && exceeds cfg.threshold_s (age now last_fix_time);
}

-- The three states of `display_status`, each with the age and the threshold that it was judged by.
pub data Display : Type 0 where
  unknown : Display
  stale fresh : ℤ → ℕ → Display

pub threshold_of : Option Staleness → ℕ
threshold_of none = default_display_threshold_s
threshold_of (some cfg) = or_default cfg.threshold_s default_display_threshold_s

display_age : Option ℤ → ℕ → Display
display_age none threshold = unknown
display_age (some age) threshold =
    if above age threshold then stale age threshold else fresh age threshold

pub display_status : (last_fix_time : Option ℕ) → Option Staleness → (now : ℕ) → Display
unfolding age threshold_of display_age
display_status last_fix_time cfg now = display_age (age now last_fix_time) (threshold_of cfg)

-- `_alert_context`
pub record AlertContext : Type 0 where
  pub device_name : String
  pub device_alias : String
  pub tracker_id : String
  pub threshold : Duration
  pub age : Duration

pub data Notice : Type 0 where
  stale : (template : String) → AlertContext → Notice
  recovered : (alias : String) → (threshold : Duration) → Notice

-- `a or b` at a text.
pub or_text : Option String → String → String
or_text none other = other
or_text (some text) other = if text == "" then other else text

as_age : Option ℕ → Option ℤ
as_age none = none
as_age (some n) = some (pos n)

pub alert_context : (canonic_id name alias : String) → Status → AlertContext
unfolding format_duration as_age
alert_context canonic_id name alias status = record {
  device_name = name;
  device_alias = or_text (some alias) name;
  tracker_id = canonic_id;
  threshold = format_duration (as_age status.threshold_s);
  age = format_duration status.age_s;
}

-- `repeat_s and (last_sent is None or now - last_sent >= repeat_s)`
pub repeat_due : Option ℕ → Option ℕ → ℕ → Bool
repeat_due none last_sent now = false
repeat_due (some repeat) none now = not (nat_beq repeat 0)
repeat_due (some repeat) (some last_sent) now =
    not (nat_beq repeat 0) && leb (last_sent + repeat) now

pub should_fire : Staleness → ℕ → Bool
unfolding repeat_due
should_fire cfg now = not cfg.alert_active || repeat_due cfg.repeat_s cfg.last_alert_sent_at now

-- What `check_device` decides for one record: the record to write back, if it changed, and the
-- notice.
pub check :
    (canonic_id name alias : String)
    → (last_fix_time : Option ℕ) → Staleness
    → (now : ℕ) → Option (Staleness × Notice)
unfolding compute_status alert_context should_fire or_text
check canonic_id name alias last_fix_time cfg now =
    if not cfg.enabled || cfg.muted
    then none
    else let status = compute_status last_fix_time cfg now in
      if status.is_stale
      then (if should_fire cfg now
          then some (
            record cfg { alert_active = true; last_alert_sent_at = some now },
            stale (or_text cfg.message_template default_message_template)
                (alert_context canonic_id name alias status),
          )
          else none)
      else if cfg.alert_active
      then some (
        record cfg { alert_active = false; last_alert_sent_at = none },
        recovered alias (alert_context canonic_id name alias status).threshold,
      )
      else none

pub name_of : String → DeviceConfig → String
name_of canonic_id device_cfg =
    or_text device_cfg.google_name (or_text device_cfg.display_name canonic_id)

pub alias_of : String → DeviceConfig → String
unfolding name_of
alias_of canonic_id device_cfg = or_text device_cfg.display_name (name_of canonic_id device_cfg)

module _ (devices : Devices Entry) where
  open devices use {State}

  pub settle : String → Option (Staleness × Notice) → State → List Notice × State
  settle canonic_id none s = ([], s)
  settle canonic_id (some (cfg, notice)) s =
      (notice ∷ [], set_device_staleness devices canonic_id cfg s)

  pub check_record :
      String → DeviceConfig → Option Staleness → (now : ℕ) → State → List Notice × State
  unfolding settle check name_of alias_of
  check_record canonic_id device_cfg none now s = ([], s)
  check_record canonic_id device_cfg (some cfg) now s =
      settle canonic_id
        (check canonic_id (name_of canonic_id device_cfg) (alias_of canonic_id device_cfg)
          (get_newest_fix_time devices canonic_id s) cfg now)
        s

  pub check_device : String → DeviceConfig → (now : ℕ) → State → List Notice × State
  unfolding check_record
  check_device canonic_id device_cfg now s =
      check_record canonic_id device_cfg (get_device_staleness devices canonic_id s) now s

  -- `sweep_once`, over what `config_store.all_devices` returned: devices with endpoints are left
  -- to the poll loop.
  pub sweep_once : List (String × DeviceConfig) → (now : ℕ) → State → List Notice × State
  unfolding check_device
  sweep_once [] now s = ([], s)
  sweep_once ((canonic_id, device_cfg) ∷ rest) now s = elim device_cfg.endpoints [
    | [] ↦
        let (notices, s') = check_device canonic_id device_cfg now s in
        let (later, s'') = sweep_once rest now s' in (notices ++ later, s'')
    | endpoint ∷ endpoints ↦ sweep_once rest now s
  ]
