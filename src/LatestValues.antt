-- ===== src/LatestValues.antt =====
-- webui/forwarders/latest_values_store.py: the runtime state of each endpoint, by its URL, and the
-- staleness record, over the entries of devices.yaml.
pub mod Laws
mod Tests
use google_find_my_tools_web.Prelude.{
  contains, ◌∷◌, string_eq, [], ◌==◌, if◌then◌else◌, some, none, List, String, Option,
}
use google_find_my_tools_web.Prelude.Dict.{Dict, lookup, insert}
use google_find_my_tools_web.Forwarding.{EndpointState, no_state}
use google_find_my_tools_web.Device.{Entry, Staleness}
use google_find_my_tools_web.DeviceStore.Interface.{Devices}

unfoldable pub or_no_states : Option (Dict String EndpointState) → Dict String EndpointState
or_no_states none = []
or_no_states (some states) = states

-- `entry.get("endpoint_state") or {}`
states_of : Entry → Dict String EndpointState
unfolding or_no_states
states_of e = or_no_states e.endpoint_state

-- `.get(url) or {}`
state_or_empty : Option EndpointState → EndpointState
state_or_empty none = no_state
state_or_empty (some state) = state

put_state : String → EndpointState → Entry → Entry
unfolding states_of insert
put_state url state e = record e { endpoint_state = some (insert url state (states_of e)) }

-- `{url: state for url, state in endpoint_state.items() if url in urls}`
keep_urls : List String → Dict String EndpointState → Dict String EndpointState
keep_urls urls [] = []
keep_urls urls ((url, state) ∷ states) =
    let rest = keep_urls urls states in if contains urls url then (url, state) ∷ rest else rest

-- `endpoint_state = kept`, or no such key if nothing is kept.
some_states : Dict String EndpointState → Option (Dict String EndpointState)
some_states [] = none
some_states (state ∷ states) = some (state ∷ states)

unfoldable pub prune_states :
    List String → Option (Dict String EndpointState) → Option (Dict String EndpointState)
unfolding some_states keep_urls
prune_states urls none = none
prune_states urls (some []) = some []
prune_states urls (some (state ∷ states)) = some_states (keep_urls urls (state ∷ states))

-- `_prune`, which leaves an entry without states as it is.
prune : List String → Entry → Entry
unfolding prune_states keep_urls
prune urls e = record e { endpoint_state = prune_states urls e.endpoint_state }

module _ (devices : Devices Entry) where
  open devices use {State, entry_of, mutate}

  unfoldable pub get_device_staleness : String → State → Option Staleness
  get_device_staleness canonic_id s = (entry_of s canonic_id).staleness

  unfoldable pub set_device_staleness : String → Staleness → State → State
  set_device_staleness canonic_id state =
      mutate canonic_id (λ e. record e { staleness = some state })

  unfoldable pub get_endpoint_state : String → (url : String) → State → EndpointState
  unfolding states_of state_or_empty lookup
  get_endpoint_state canonic_id url s =
      if url == ""
      then no_state
      else state_or_empty (lookup url (states_of (entry_of s canonic_id)))

  pub set_endpoint_state : String → (url : String) → EndpointState → State → State
  unfolding put_state
  set_endpoint_state canonic_id url state s =
      if url == "" then s else mutate canonic_id (put_state url state) s

  pub prune_to_urls : String → List String → State → State
  unfolding prune
  prune_to_urls canonic_id urls = mutate canonic_id (prune urls)
