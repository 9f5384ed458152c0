-- ===== src/Forwarding/Policy.antt =====
-- webui/forwarders/policy.py: the skip gates, the dispatch and the record of its outcome, with
-- `forward_to_custom` of webui/forwarders/custom.py up to the request that it sends.
pub mod Gates
pub mod Streak
mod Tests
use Prim.Native.Char.{code}
use google_find_my_tools_web.Prelude.{
  ℕ, zero, suc, ◌+◌, ◌-◌, ◌*◌, ◌%◌, Bool, true, false, not, ◌&&◌, ◌||◌, Option, none, some, List,
  [], ◌∷◌, String, ltb, leb, nat_beq, nat_eq, string_eq, if◌then◌else◌, ◌==◌, contains,
}
use google_find_my_tools_web.Reading.{Position, Location}
use google_find_my_tools_web.Forwarding.{
  Endpoint, EndpointState, Status, sent, not_sent, not_new, not_most_recent, not_own_report,
  moved_less_than, not_updated_in, accuracy_over, blocked_type, failed, or_default, on_unless_off,
}

abbrev pub default_min_movement_m : ℕ
default_min_movement_m = 50

abbrev pub default_min_update_gap_m : ℕ
default_min_update_gap_m = 30

abbrev pub default_max_accuracy_m : ℕ
default_max_accuracy_m = 100

abbrev pub fresh_fix_age_s : ℕ
fresh_fix_age_s = 120

abbrev pub forward_failure_escalation_threshold : ℕ
forward_failure_escalation_threshold = 3

-- The characters that `str.strip` removes.
abbrev pub whitespace : List ℕ
whitespace =
    9 ∷ 10 ∷ 11 ∷ 12 ∷ 13 ∷ 28 ∷ 29 ∷ 30 ∷ 31 ∷ 32 ∷ 0x85 ∷ 0xa0 ∷ 0x1680 ∷ 0x2000 ∷ 0x2001 ∷ 0x2002
    ∷ 0x2003 ∷ 0x2004 ∷ 0x2005 ∷ 0x2006 ∷ 0x2007 ∷ 0x2008 ∷ 0x2009 ∷ 0x200a ∷ 0x2028 ∷ 0x2029
    ∷ 0x202f ∷ 0x205f ∷ 0x3000 ∷ []

-- `not text.strip()`
unfoldable pub is_blank : String → Bool
is_blank String.[] = true
is_blank (String.◌∷◌ c s) = contains whitespace (code c) && is_blank s

unfoldable pub skip_already_seen : Endpoint → (already_seen : Bool) → Bool
skip_already_seen ep already_seen = already_seen && on_unless_off ep.skip_if_already_seen

unfoldable pub skip_not_most_recent : Endpoint → (is_most_recent : Bool) → Bool
skip_not_most_recent ep is_most_recent = not is_most_recent && on_unless_off ep.only_most_recent

-- `abs(a - b)`
unfoldable pub abs_diff : ℕ → ℕ → ℕ
abs_diff a b = (a - b) + (b - a)

-- The part of `_stale_duplicate` behind the test that the fix has a time.
stale_at : Endpoint → Option ℕ → (now time : ℕ) → Bool
stale_at ep none now time = false
stale_at ep (some last_fix_time) now time =
    if leb now (time + fresh_fix_age_s)
    then false
    else ltb (abs_diff time last_fix_time)
        (or_default ep.min_update_gap_m default_min_update_gap_m * 60)

stale_time : Endpoint → EndpointState → Option ℕ → (now : ℕ) → Bool
stale_time ep state none now = false
stale_time ep state (some time) now = stale_at ep state.last_sent_fix_time now time

abbrev pub is_none {ℓ} : {A : Type ℓ} → Option A → Bool
is_none none = true
is_none (some a) = false

unfoldable pub stale_duplicate : Endpoint → EndpointState → Location → (now : ℕ) → Bool
unfolding stale_time stale_at
stale_duplicate ep state loc now =
    if not ep.skip_if_stale
    then false
    else if loc.is_semantic && is_none loc.position
    then false
    else stale_time ep state loc.time now

status_blocked : List String → Option String → Bool
status_blocked blocked none = false
status_blocked blocked (some status) = contains blocked status

unfoldable pub skip_blocked_status : Endpoint → Location → Bool
unfolding status_blocked
skip_blocked_status ep loc =
    if not ep.filter_by_status then false else status_blocked ep.blocked_statuses loc.status

unfoldable pub skip_not_own_report : Endpoint → Location → Bool
skip_not_own_report ep loc =
    if not ep.skip_if_not_own_report
    then false
    else if loc.is_semantic
    then false
    else not loc.is_own_report

accuracy_above : Option ℕ → ℕ → Bool
accuracy_above none threshold = false
accuracy_above (some accuracy) threshold = ltb threshold accuracy

unfoldable pub skip_inaccurate : Endpoint → Location → Bool
unfolding accuracy_above
skip_inaccurate ep loc =
    if not ep.skip_if_inaccurate
    then false
    else if loc.is_semantic
    then false
    else accuracy_above loc.accuracy (or_default ep.max_accuracy_m default_max_accuracy_m)

-- What `httpx.request` does: it answers with a status code and a body, or it raises.
pub data Response : Type 0 where
  response : (status_code : ℕ) (body : String) → Response
  raised : String → Response

-- What `forward_to_custom` does: it returns `True` or `False`, or an exception leaves it.
pub data Forwarded : Type 0 where
  returned : Bool → Forwarded
  error : String → Forwarded

-- `response.raise_for_status()`, then `return True`. `describe` is the text of httpx's exception.
raise_for_status : (describe : ℕ → String) → Response → Forwarded
raise_for_status describe (response code body) =
    if leb 200 code && ltb code 300 then returned true else error (describe code)
raise_for_status describe (raised e) = error e

-- What a send runs against: httpx for the request that this endpoint's templates render to, and the
-- distance of webui/geo.py in metres.
pub record World : Type 0 where
  pub demo_mode : Bool
  pub request : Endpoint → Location → Response
  pub describe : ℕ → String
  pub distance : Position → Position → ℕ

module _ (world : World) where
  unfoldable pub forward_to_custom : Endpoint → Location → Forwarded
  unfolding raise_for_status is_blank
  forward_to_custom ep loc =
      if is_none loc.position
      then returned false
      else if is_blank ep.url
      then returned false
      else if world.demo_mode
      then returned true
      else raise_for_status world.describe (world.request ep loc)

  status_of : Forwarded → Status
  status_of (returned ok) = if ok then sent else not_sent
  status_of (error e) = failed e

  unfoldable pub dispatch_forward : Endpoint → Location → Status
  unfolding status_of
  dispatch_forward ep loc = status_of (forward_to_custom ep loc)

  closer_than : ℕ → Option Position → Option Position → Bool
  closer_than threshold none last = false
  closer_than threshold (some here) none = false
  closer_than threshold (some here) (some last) = ltb (world.distance last here) threshold

  unfoldable pub too_close_to_bother : Endpoint → EndpointState → Location → Bool
  unfolding closer_than
  too_close_to_bother ep state loc =
      if not ep.skip_if_close
      then false
      else closer_than (or_default ep.min_movement_m default_min_movement_m) loc.position
          state.last_sent

  unfoldable pub forward_one :
      Endpoint
      → EndpointState
      → Location
      → (already_seen is_most_recent : Bool) → (now : ℕ) → Status
  forward_one ep state loc already_seen is_most_recent now =
      if skip_already_seen ep already_seen
      then not_new
      else if skip_not_most_recent ep is_most_recent
      then not_most_recent
      else if too_close_to_bother ep state loc
      then moved_less_than (or_default ep.min_movement_m default_min_movement_m)
      else if stale_duplicate ep state loc now
      then not_updated_in (or_default ep.min_update_gap_m default_min_update_gap_m)
      else if skip_blocked_status ep loc
      then blocked_type loc.status
      else if skip_not_own_report ep loc
      then not_own_report
      else if skip_inaccurate ep loc
      then accuracy_over (or_default ep.max_accuracy_m default_max_accuracy_m)
      else dispatch_forward ep loc

-- `status.startswith("error")`
pub is_error : Status → Bool
is_error (failed e) = true
is_error sent = false
is_error _ = false

-- `endpoint_cfg.get("consecutive_failures", 0)`
pub failures_so_far : Option ℕ → ℕ
failures_so_far none = 0
failures_so_far (some n) = n

-- `_record_forward_result`: the new state, and the count that `logger.error` reports, if it does.
pub record_forward_result :
    EndpointState → Status → Option Location → (now_ts : ℕ) → EndpointState × Option ℕ
unfolding failures_so_far
record_forward_result state sent (some loc) now_ts = (
  record state {
    last_forward_status = some sent;
    last_forward_time = some now_ts;
    last_sent = loc.position;
    last_sent_fix_time = loc.time;
    consecutive_failures = some 0;
  },
  none,
)
record_forward_result state (failed e) loc now_ts =
    let failures = failures_so_far state.consecutive_failures + 1 in
    (
      record state {
        last_forward_status = some (failed e);
        last_forward_time = some now_ts;
        consecutive_failures = some failures;
      },
      if nat_beq (failures % forward_failure_escalation_threshold) 0 then some failures else none,
    )
record_forward_result state status loc now_ts =
    (record state { last_forward_status = some status; last_forward_time = some now_ts }, none)
