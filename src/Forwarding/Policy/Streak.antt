-- ===== src/Forwarding/Policy/Streak.antt =====
-- What `_record_forward_result` keeps over a history of attempts.
use google_find_my_tools_web.Prelude.{
  ◌%◌, ◌↔◌, ℕ, ◌+◌, ◌≡◌, refl, Bool, true, false, Option, none, some, List, [], ◌∷◌, arith,
  if◌then◌else◌,
}
use google_find_my_tools_web.Reading.{Location}
use google_find_my_tools_web.Forwarding.{
  Position, EndpointState, Status, sent, not_most_recent, no_state,
}
use google_find_my_tools_web.Forwarding.Policy.{
  forward_failure_escalation_threshold, failures_so_far, record_forward_result, is_error,
}

-- One attempt: its outcome, the reading, and the time.
pub record Attempt : Type 0 where
  pub status : Status
  pub location : Option Location
  pub time : ℕ

-- The state after a history whose newest attempt is the first, and the alerts of the whole history.
unfoldable pub after : List Attempt → EndpointState
after [] = no_state
after (a ∷ earlier) = (record_forward_result (after earlier) a.status a.location a.time).0

unfoldable pub alert : Attempt → List Attempt → Option ℕ
unfolding after
alert a earlier = (record_forward_result (after earlier) a.status a.location a.time).1

-- A success that had a reading.
unfoldable pub success : Attempt → Option Location
success a = elim a.status [ sent ↦ a.location | _ ↦ none ]

is_success : Option Location → Bool
is_success none = false
is_success (some loc) = true

-- The failures since the last success; what was skipped does not count.
unfoldable pub streak : List Attempt → ℕ
unfolding success is_success
streak [] = 0
streak (a ∷ earlier) =
    if is_success (success a)
    then 0
    else if is_error a.status
    then streak earlier + 1
    else streak earlier

or_else : Option Location → Option Location → Option Location
or_else none rest = rest
or_else (some loc) rest = some loc

-- The reading of the newest success.
unfoldable pub last_success : List Attempt → Option Location
unfolding success or_else
last_success [] = none
last_success (a ∷ earlier) = or_else (success a) (last_success earlier)

abbrev pub position_of : Option Location → Option Position
position_of none = none
position_of (some loc) = loc.position

abbrev pub time_of : Option Location → Option ℕ
time_of none = none
time_of (some loc) = loc.time

-- One step of the record, whatever it records.
failures-record :
    (state : EndpointState) (a : Attempt)
    → failures_so_far
        (record_forward_result state a.status a.location a.time).0.consecutive_failures
      ≡ (if is_success (success a)
          then 0
          else if is_error a.status
          then failures_so_far state.consecutive_failures + 1
          else failures_so_far state.consecutive_failures)
unfolding record_forward_result success is_success is_error
failures-record state a = ground arith

-- The count on file is the number of failures since the last success, however many attempts were
-- skipped in between.
pub after-streak :
    (history : List Attempt) → failures_so_far (after history).consecutive_failures ≡ streak history
unfolding after streak failures_so_far
after-streak [] = refl
after-streak (a ∷ earlier) = ground (arith, failures-record (after earlier) a, after-streak earlier)

-- The position and the fix time on file, which the distance and the staleness gates compare with,
-- are those of the last reading that was sent.
after-last_success :
    (history : List Attempt)
    → ((after history).last_sent ≡ position_of (last_success history))
      × ((after history).last_sent_fix_time ≡ time_of (last_success history))
unfolding after last_success record_forward_result
after-last_success [] = (refl, refl)
after-last_success (a ∷ earlier) = ground (arith, after-last_success earlier)

-- An error is logged exactly at the attempts that fail and make the streak a multiple of the
-- threshold, and it reports the streak.
alert_iff :
    (a : Attempt) (earlier : List Attempt) (n : ℕ)
    → (alert a earlier ≡ some n) ↔ (
        (is_error a.status ≡ true)
        × (n ≡ streak (a ∷ earlier))
        × (n % forward_failure_escalation_threshold ≡ 0))
unfolding alert streak record_forward_result is_error
alert_iff a earlier n = ground (arith, after-streak earlier)

pub not_most_recent-keeps :
    (state : EndpointState) (loc : Location) (now : ℕ)
    → (record_forward_result state not_most_recent (some loc) now).0.last_sent ≡ state.last_sent
unfolding record_forward_result
not_most_recent-keeps state loc now = refl
