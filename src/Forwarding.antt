-- ===== src/Forwarding.antt =====
-- What webui/forwarders/ shares: the endpoint dict as config_store.py keeps it, the runtime state
-- of latest_values_store.py's STATE_KEYS, and the outcome of one attempt.
pub mod Policy
use google_find_my_tools_web.Prelude.{
  ℕ, Bool, true, false, Option, none, some, List, String, if◌then◌else◌, nat_beq,
}
use google_find_my_tools_web.Reading.{Position}

-- `d.get(key) or default` at a number: `None` and 0 both give the default.
unfoldable pub or_default : Option ℕ → ℕ → ℕ
or_default none default = default
or_default (some n) default = if nat_beq n 0 then default else n

-- `d.get(key, True)` at a toggle.
unfoldable pub on_unless_off : Option Bool → Bool
on_unless_off none = true
on_unless_off (some b) = b

pub record Endpoint : Type 0 where
  pub kind : String
  pub url : String
  pub method : String
  pub alias : String
  pub cron : Option String
  pub skip_if_already_seen : Option Bool
  pub only_most_recent : Option Bool
  pub skip_if_close : Bool
  pub min_movement_m : Option ℕ
  pub skip_if_stale : Bool
  pub min_update_gap_m : Option ℕ
  pub filter_by_status : Bool
  pub blocked_statuses : List String
  pub skip_if_not_own_report : Bool
  pub skip_if_inaccurate : Bool
  pub max_accuracy_m : Option ℕ

-- The text of each status is in policy.py's `_forward_one` and `_dispatch_forward`, and in
-- scheduler.py for `no_location`.
pub data Status : Type 0 where
  sent not_sent no_location not_new not_most_recent not_own_report : Status
  moved_less_than not_updated_in accuracy_over : ℕ → Status
  blocked_type : Option String → Status
  failed : String → Status

pub record EndpointState : Type 0 where
  pub last_forward_status : Option Status
  pub last_forward_time : Option ℕ
  pub last_sent : Option Position
  pub last_sent_fix_time : Option ℕ
  pub consecutive_failures : Option ℕ

abbrev pub no_state : EndpointState
no_state = record {
  last_forward_status = none;
  last_forward_time = none;
  last_sent = none;
  last_sent_fix_time = none;
  consecutive_failures = none;
}
