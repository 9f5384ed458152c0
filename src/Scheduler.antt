-- ===== src/Scheduler.antt =====
-- webui/scheduler.py: the locates of a poll, the count of failed ones, and when a device is polled.
-- croniter's next run of an expression is an argument; a time is a number of seconds.
pub mod Failures
pub mod Wake
pub mod Tasks
pub mod Poll
mod Tests
use google_find_my_tools_web.Prelude.{
  string_eq, option_eq, ◌==◌, leb, if◌then◌else◌, false, string_eq, some, map, ◌∷◌, Bool, none, ◌+◌,
  String, Option, [], List, ◌-◌, ℕ, zero, suc,
}
use google_find_my_tools_web.Prelude.Dict.{Dict, lookup, insert, erase}
use google_find_my_tools_web.Reading.{Location}
use google_find_my_tools_web.Forwarding.{Endpoint}

abbrev pub locate_retry_attempts : ℕ
locate_retry_attempts = 3

abbrev pub locate_alert_threshold : ℕ
locate_alert_threshold = 3

abbrev pub default_cron : String
default_cron = "*/5 * * * *"

-- What `locate_device` does: it returns readings, or it raises.
pub data Located : Type 0 where
  found : List Location → Located
  raised : String → Located

or_retry : Located → Located → Located
or_retry (found locations) later = found locations
or_retry (raised reason) later = later

-- The attempts from a number on, with so many retries left; `locate` is what each attempt does.
locate_from : (locate : ℕ → Located) → (attempt retries : ℕ) → Located
unfolding or_retry
locate_from locate attempt zero = locate attempt
locate_from locate attempt (suc retries) =
    or_retry (locate attempt) (locate_from locate (attempt + 1) retries)

pub locate_with_retries : (locate : ℕ → Located) → Located
unfolding locate_from
locate_with_retries locate = locate_from locate 0 (locate_retry_attempts - 1)

-- The two module-level dicts.
pub record LocateFailures : Type 0 where
  pub consecutive : Dict String ℕ
  pub last_reason : Dict String String

abbrev pub no_failures : LocateFailures
no_failures = record { consecutive = []; last_reason = [] }

pub count_of : Option ℕ → ℕ
count_of none = 0
count_of (some n) = n

-- `_record_locate_failure`: the dicts, and whether the failure is a warning.
pub record_locate_failure : (canonic_id reason : String) → LocateFailures → LocateFailures × Bool
unfolding count_of
record_locate_failure canonic_id reason f =
    let count =
      if lookup canonic_id f.last_reason == some reason
      then count_of (lookup canonic_id f.consecutive) + 1
      else 1 in
    (
      record {
        consecutive = insert canonic_id count f.consecutive;
        last_reason = insert canonic_id reason f.last_reason;
      },
      leb locate_alert_threshold count,
    )

pub clear_locate_failure : (canonic_id : String) → LocateFailures → LocateFailures
clear_locate_failure canonic_id f = record {
  consecutive = erase canonic_id f.consecutive;
  last_reason = erase canonic_id f.last_reason;
}

cron_of : Option String → String
cron_of none = default_cron
cron_of (some cron) = cron

-- The run of each endpoint, `None` for an invalid expression.
pub next_runs : (next_run : String → Option ℕ) → List Endpoint → List (Option ℕ)
unfolding cron_of
next_runs next_run endpoints = map (λ (ep : Endpoint). next_run (cron_of ep.cron)) endpoints

earlier : Option ℕ → Option ℕ → Option ℕ
earlier none other = other
earlier (some t) none = some t
earlier (some t) (some u) = if leb t u then some t else some u

-- `min(valid_next_runs)`, `None` if no schedule is valid.
pub wake_at : List (Option ℕ) → Option ℕ
unfolding earlier
wake_at [] = none
wake_at (t ∷ runs) = earlier t (wake_at runs)

is_due : Option ℕ → (wake_at : ℕ) → Bool
is_due none wake_at = false
is_due (some t) wake_at = leb t wake_at

-- `due_indices`, from index i on.
pub due_indices : (i : ℕ) → List (Option ℕ) → (wake_at : ℕ) → List ℕ
unfolding is_due
due_indices i [] wake_at = []
due_indices i (t ∷ runs) wake_at =
    let rest = due_indices (i + 1) runs wake_at in if is_due t wake_at then i ∷ rest else rest
