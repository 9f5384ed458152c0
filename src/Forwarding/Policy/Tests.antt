-- ===== src/Forwarding/Policy/Tests.antt =====
-- Runs of policy.py, and its theorems at concrete inputs.
use google_find_my_tools_web.Prelude.{refl, ◌==◌, if◌then◌else◌, ◌∷◌, ◌≡◌}
use mathlib.Core.List.{tail}
use google_find_my_tools_web.Prelude.Int.{pos}
use google_find_my_tools_web.Reading.{Position, Location, position_eq}
use google_find_my_tools_web.Forwarding.{
  none, some, List, true, false, Endpoint, EndpointState, sent, failed, not_new, moved_less_than,
  no_state, or_default, on_unless_off,
}
use google_find_my_tools_web.Forwarding.Policy.{
  [], World, response, is_blank, skip_already_seen, skip_not_most_recent, abs_diff, stale_duplicate,
  skip_blocked_status, skip_not_own_report, skip_inaccurate, forward_to_custom, dispatch_forward,
  too_close_to_bother, forward_one, failures_so_far, record_forward_result, is_error,
}
use google_find_my_tools_web.Forwarding.Policy.Gates
use google_find_my_tools_web.Forwarding.Policy.Gates.{IsEligible, IsDelivered}
use google_find_my_tools_web.Forwarding.Policy.Streak
use google_find_my_tools_web.Forwarding.Policy.Streak.{
  Attempt, after, alert, streak, last_success, position_of, time_of,
}

program : Unit {0}
unfolding or_default on_unless_off is_blank skip_already_seen skip_not_most_recent abs_diff
    stale_duplicate skip_blocked_status skip_not_own_report skip_inaccurate forward_to_custom
    dispatch_forward too_close_to_bother forward_one record_forward_result after alert streak
    is_error
program = tt

abbrev home : Position
home = record { latitude = pos 525000000; longitude = pos 134000000 }

abbrev fix : Location
fix = record {
  position = some home;
  altitude = none;
  time = some 1000;
  is_semantic = false;
  semantic_name = none;
  status = some "CROWDSOURCED";
  accuracy = some 20;
  is_own_report = false;
  map_links = none;
  google_maps_link = none;
  first_seen = none;
}

abbrev endpoint : Endpoint
endpoint = record {
  kind = "traccar";
  url = "http://host/";
  method = "GET";
  alias = "";
  cron = none;
  skip_if_already_seen = none;
  only_most_recent = none;
  skip_if_close = true;
  min_movement_m = none;
  skip_if_stale = true;
  min_update_gap_m = some 10;
  filter_by_status = true;
  blocked_statuses = "SEMANTIC" ∷ [];
  skip_if_not_own_report = false;
  skip_if_inaccurate = true;
  max_accuracy_m = none;
}

abbrev world : World
world = record {
  demo_mode = false;
  request = λ ep loc. response 200 "OK";
  describe = λ code. "HTTP error";
  distance = λ p q. if p == q then 0 else 1000;
}

abbrev after_send : EndpointState
after_send = record no_state { last_sent = some home; last_sent_fix_time = some 1000 }

first_send : forward_one world endpoint no_state fix false true 5000 ≡ sent
unfolding program
first_send = refl

seen_before : forward_one world endpoint no_state fix true true 5000 ≡ not_new
unfolding program
seen_before = refl

not_moved : forward_one world endpoint after_send fix false true 5000 ≡ moved_less_than 50
unfolding program
not_moved = refl

eligible : IsEligible world.distance endpoint no_state fix false true 5000
eligible = (Gates.forward_one-sent world endpoint no_state fix false true 5000 first_send).0

forward_one-sent_example :
    IsEligible world.distance endpoint no_state fix false true 5000
    × ((here : Position) × (fix.position ≡ some here))
    × (is_blank endpoint.url ≡ false)
    × IsDelivered world endpoint fix
forward_one-sent_example =
    Gates.forward_one-sent world endpoint no_state fix false true 5000 first_send

abbrev history : List Attempt
history =
    record { status = failed "timeout"; location = some fix; time = 5 }
    ∷ record { status = not_new; location = some fix; time = 4 }
    ∷ record { status = failed "timeout"; location = some fix; time = 3 }
    ∷ record { status = failed "timeout"; location = some fix; time = 2 }
    ∷ record { status = sent; location = some fix; time = 1 }
    ∷ []

abbrev newest : Attempt
newest = record { status = failed "timeout"; location = some fix; time = 5 }

third_failure : (streak history ≡ 3) × (alert newest (tail history) ≡ some 3)
unfolding program
third_failure = (refl, refl)

after-streak_example : failures_so_far (after history).consecutive_failures ≡ streak history
after-streak_example = Streak.after-streak history
