-- ===== src/Scheduler/Poll.antt =====
-- One tick of `_poll_device` of webui/scheduler.py behind the locate, and `forward_now`, over
-- devices.yaml. A tick reads one clock. The log entries are kept without their payload texts.
pub mod Batch
pub mod Results
mod Tests
use google_find_my_tools_web.Prelude.{
  contains, if◌then◌else◌, [], none, ◌+◌, ◌==◌, ◌++◌, map, true, some, ◌∷◌, List, not, ℕ, Bool,
  String, Option, nat_eq, string_eq, option_eq,
}
use google_find_my_tools_web.Prelude.Dict.{Dict, lookup, insert}
use google_find_my_tools_web.Reading.{Location}
use google_find_my_tools_web.Forwarding.{Endpoint, EndpointState, Status, no_location}
use google_find_my_tools_web.Forwarding.Policy.{
  World, forward_one, dispatch_forward, record_forward_result,
}
use google_find_my_tools_web.Device.{Entry}
use google_find_my_tools_web.DeviceStore.Interface.{Devices}
use google_find_my_tools_web.LatestValues.{get_endpoint_state, set_endpoint_state}
use google_find_my_tools_web.LocationStore.{Stamped, set_last_location, maximum, times_of}

-- A reading with the two flags that the gates read.
pub record Reading : Type 0 where
  pub location : Location
  pub already_seen : Bool
  pub is_most_recent : Bool

-- `most_recent_time is None or loc.get("time") == most_recent_time`
pub is_newest : Option ℕ → Location → Bool
is_newest none loc = true
is_newest (some most_recent) loc = loc.time == some most_recent

pub reading_of : Option ℕ → Stamped → Reading
unfolding is_newest
reading_of most_recent stamped = record {
  location = stamped.loc;
  already_seen = not stamped.new_this_fetch;
  is_most_recent = is_newest most_recent stamped.loc;
}

-- One entry of `results`.
pub record Result : Type 0 where
  pub status : Status
  pub location : Option Location
  pub url : String
  pub merged : EndpointState

-- What `log_store.append` gets.
pub record Logged : Type 0 where
  pub url : String
  pub status : Status
  pub location : Location

-- The endpoints at the due indices.
pub due_endpoints : (i : ℕ) → List ℕ → List Endpoint → List (ℕ × Endpoint)
due_endpoints i due [] = []
due_endpoints i due (ep ∷ endpoints) =
    let rest = due_endpoints (i + 1) due endpoints in
    if contains due i then (i, ep) ∷ rest else rest

-- `if i not in results`
pub put_missing : ℕ → Result → Option Result → Dict ℕ Result → Dict ℕ Result
put_missing i missing none results = insert i missing results
put_missing i missing (some result) results = results

module _ (world : World) (devices : Devices Entry) (canonic_id : String) (now : ℕ) where
  open devices use {State}

  -- One reading to one endpoint, with the state that is on file when the batch starts.
  pub attempt : Reading → Endpoint → State → Result
  attempt reading ep s =
      let merged = get_endpoint_state devices canonic_id ep.url s in
      record {
        status =
            forward_one world ep merged reading.location reading.already_seen reading.is_most_recent
              now;
        location = some reading.location;
        url = ep.url;
        merged = merged;
      }

  -- The inner loop: one reading to every due endpoint.
  pub forward_to : Reading → List (ℕ × Endpoint) → State → Dict ℕ Result → Dict ℕ Result
  unfolding attempt
  forward_to reading [] s results = results
  forward_to reading ((i, ep) ∷ due) s results =
      forward_to reading due s (insert i (attempt reading ep s) results)

  -- The outer loop.
  pub forward_all : List Reading → List (ℕ × Endpoint) → State → Dict ℕ Result → Dict ℕ Result
  unfolding forward_to
  forward_all [] due s results = results
  forward_all (reading ∷ readings) due s results =
      forward_all readings due s (forward_to reading due s results)

  -- What both loops log, in their order.
  pub logged_to : Reading → List (ℕ × Endpoint) → State → List Logged
  unfolding attempt
  logged_to reading [] s = []
  logged_to reading ((i, ep) ∷ due) s =
      record { url = ep.url; status = (attempt reading ep s).status; location = reading.location }
      ∷ logged_to reading due s

  pub logged : List Reading → List (ℕ × Endpoint) → State → List Logged
  unfolding logged_to
  logged [] due s = []
  logged (reading ∷ readings) due s = logged_to reading due s ++ logged readings due s

  -- "no location" for the due endpoints without a result.
  pub fill_missing : List (ℕ × Endpoint) → State → Dict ℕ Result → Dict ℕ Result
  unfolding put_missing
  fill_missing [] s results = results
  fill_missing ((i, ep) ∷ due) s results =
      let missing : Result = record {
        status = no_location;
        location = none;
        url = ep.url;
        merged = get_endpoint_state devices canonic_id ep.url s;
      } in
      fill_missing due s (put_missing i missing (lookup i results) results)

  -- The loop that records the results.
  pub record_results : Dict ℕ Result → State → State
  record_results [] s = s
  record_results ((i, result) ∷ results) s =
      let state = (record_forward_result result.merged result.status result.location now).0 in
      record_results results (set_endpoint_state devices canonic_id result.url state s)

  -- `set_last_location` if there is a reading, with the flags of the batch.
  store_readings : List Location → State → List Reading × State
  unfolding reading_of
  store_readings [] s = ([], s)
  store_readings (loc ∷ locations) s =
      let (stamped, s') = set_last_location devices canonic_id (loc ∷ locations) now s in
      let most_recent = maximum (times_of (map (λ (t : Stamped). t.loc) stamped)) in
      (map (reading_of most_recent) stamped, s')

  -- From the two loops to the record of the results.
  pub forward_batch : List Reading → List (ℕ × Endpoint) → State → List Logged × State
  unfolding forward_all fill_missing record_results logged
  forward_batch readings due s =
      (logged readings due s, record_results (fill_missing due s (forward_all readings due s [])) s)

  pub poll_tick : List Location → List (ℕ × Endpoint) → State → List Logged × State
  unfolding store_readings forward_batch
  poll_tick locations due s =
      let (readings, s') = store_readings locations s in forward_batch readings due s'

  -- The loop of `forward_now`, which changes `merged` at each reading; and the last status.
  send_each : Endpoint → List Location → EndpointState → EndpointState
  send_each ep [] merged = merged
  send_each ep (loc ∷ locations) merged =
      send_each ep locations
        (record_forward_result merged (dispatch_forward world ep loc) (some loc) now).0

  send_or_note : Endpoint → List Location → EndpointState → EndpointState
  unfolding send_each
  send_or_note ep [] merged = (record_forward_result merged no_location none now).0
  send_or_note ep (loc ∷ locations) merged = send_each ep (loc ∷ locations) merged

  -- `forward_now` for an endpoint that exists: its merged state, and the store.
  pub forward_now : Endpoint → List Location → State → EndpointState × State
  unfolding send_or_note
  forward_now ep locations s =
      let state = send_or_note ep locations (get_endpoint_state devices canonic_id ep.url s) in
      (state, set_endpoint_state devices canonic_id ep.url state s)
