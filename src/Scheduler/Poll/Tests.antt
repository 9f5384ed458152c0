-- ===== src/Scheduler/Poll/Tests.antt =====
-- Runs of a poll, and its theorems at concrete inputs: the newest reading of a response is sent, and
-- the older one behind it is skipped.
use google_find_my_tools_web.Prelude.{
  List, ◌∷◌, refl, map, [], some, true, String, ℕ, ◌≡◌, false, none, string_eq, nat_eq, option_eq,
}
use google_find_my_tools_web.Prelude.Int.{pos}
use google_find_my_tools_web.Prelude.Dict.{lookup}
use google_find_my_tools_web.Reading.{Position, Location}
use google_find_my_tools_web.Forwarding.{on_unless_off, Endpoint, sent, not_most_recent}
use google_find_my_tools_web.Forwarding.Policy.{
  forward_one, skip_already_seen, skip_not_most_recent, too_close_to_bother, stale_duplicate,
  skip_blocked_status, skip_not_own_report, skip_inaccurate, dispatch_forward, forward_to_custom,
  is_blank, World, response,
}
use google_find_my_tools_web.Forwarding.Policy.Streak.{after}
use google_find_my_tools_web.Device.{Entry, empty}
use google_find_my_tools_web.DeviceStore.Interface.{memory_devices}
use google_find_my_tools_web.LatestValues.{get_endpoint_state}
use google_find_my_tools_web.Scheduler.Poll.{
  Reading, Logged, attempt, due_endpoints, forward_batch, poll_tick, forward_now,
}
use google_find_my_tools_web.Scheduler.Poll.Results.{Distinct}
use google_find_my_tools_web.Scheduler.Poll.Batch.{
  poll-forgets_send, attempts, forward_now-attempts,
}

abbrev home : Position
home = record { latitude = pos 525000000; longitude = pos 134000000 }

abbrev fix : ℕ → Location
fix t = record {
  position = some home;
  altitude = none;
  time = some t;
  is_semantic = false;
  semantic_name = none;
  status = some "CROWDSOURCED";
  accuracy = some 20;
  is_own_report = false;
  map_links = none;
  google_maps_link = none;
  first_seen = none;
}

abbrev endpoint : Endpoint
endpoint = record {
  kind = "custom";
  url = "http://host/";
  method = "GET";
  alias = "";
  cron = none;
  skip_if_already_seen = none;
  only_most_recent = none;
  skip_if_close = true;
  min_movement_m = none;
  skip_if_stale = true;
  min_update_gap_m = none;
  filter_by_status = false;
  blocked_statuses = [];
  skip_if_not_own_report = false;
  skip_if_inaccurate = false;
  max_accuracy_m = none;
}

abbrev world : World
world = record {
  demo_mode = false;
  request = λ ep loc. response 200 "OK";
  describe = λ code. "HTTP error";
  distance = λ p q. 0;
}

abbrev none_on_file : String → Entry
none_on_file k = empty

abbrev newest : Reading
newest = record { location = fix 2000; already_seen = false; is_most_recent = true }

abbrev older : Reading
older = record { location = fix 1000; already_seen = false; is_most_recent = false }

program : Unit {0}
unfolding attempt forward_batch poll_tick forward_now due_endpoints get_endpoint_state forward_one
    skip_already_seen skip_not_most_recent too_close_to_bother stale_duplicate skip_blocked_status
    skip_not_own_report skip_inaccurate dispatch_forward forward_to_custom on_unless_off is_blank
    lookup
program = tt

newest_sent :
    (attempt world (memory_devices Entry) "tag" 2060 newest endpoint none_on_file).status ≡ sent
unfolding program
newest_sent = refl

older_skipped :
    (attempt world (memory_devices Entry) "tag" 2060 older endpoint none_on_file).status
    ≡ not_most_recent
unfolding program
older_skipped = refl

poll-forgets_send_example :
    (map
        (λ (l : Logged). l.status)
        (forward_batch world
          (memory_devices Entry)
          "tag"
          2060
          (newest ∷ older ∷ [])
          ((0, endpoint) ∷ [])
          none_on_file).0
      ≡ sent ∷ not_most_recent ∷ [])
    × ((get_endpoint_state
          (memory_devices Entry)
          "tag"
          "http://host/"
          (forward_batch world
            (memory_devices Entry)
            "tag"
            2060
            (newest ∷ older ∷ [])
            ((0, endpoint) ∷ [])
            none_on_file).1).last_sent
        ≡ (get_endpoint_state (memory_devices Entry) "tag" "http://host/" none_on_file).last_sent)
poll-forgets_send_example =
    poll-forgets_send world (memory_devices Entry) "tag" 2060 none_on_file 0 endpoint newest older
      tt refl newest_sent older_skipped

nothing_on_file :
    get_endpoint_state (memory_devices Entry) "tag" "http://host/" none_on_file ≡ after []
unfolding program after
nothing_on_file = refl

forward_now-attempts_example :
    let (state, s') =
      forward_now world
        (memory_devices Entry)
        "tag"
        2060
        endpoint
        (fix 1000 ∷ fix 2000 ∷ [])
        none_on_file in
    (state
      ≡ after
          (attempts world (memory_devices Entry) "tag" 2060 endpoint (fix 1000 ∷ fix 2000 ∷ []) []))
    × (get_endpoint_state (memory_devices Entry) "tag" "http://host/" s' ≡ state)
forward_now-attempts_example =
    forward_now-attempts world (memory_devices Entry) "tag" 2060 none_on_file endpoint (fix 1000)
      (fix 2000 ∷ []) [] tt refl nothing_on_file

abbrev two_due : List (ℕ × Endpoint)
two_due = (0, endpoint) ∷ (2, record endpoint { url = "http://other/" }) ∷ []

distinct : Distinct two_due
unfolding lookup
distinct = (refl, (refl, tt))

on_second : lookup 2 two_due ≡ some (record endpoint { url = "http://other/" })
unfolding lookup
on_second = refl
