-- ===== src/LatestValues/Laws.antt =====
-- Reads after writes in latest_values_store.py.
use google_find_my_tools_web.Prelude.{
  ◌∙◌, ap, refl, inr, inl, [], Bool-cases, ◌∷◌, eq_iff, ◌&&◌, arith, string_eq, not, contains, ◌==◌,
  if◌then◌else◌, ◌≡◌, String, List,
}
use google_find_my_tools_web.Prelude.Dict.{Dict, lookup, lookup-insert}
use google_find_my_tools_web.Forwarding.{EndpointState, no_state}
use google_find_my_tools_web.Device.{Entry, Staleness}
use google_find_my_tools_web.DeviceStore.Interface.{Devices}
use google_find_my_tools_web.LatestValues.{
  Option, prune_states, some, or_no_states, none, states_of, state_or_empty, put_state, keep_urls,
  some_states, prune, get_device_staleness, set_device_staleness, get_endpoint_state,
  set_endpoint_state, prune_to_urls,
}

state-put_state :
    (url other : String) (state : EndpointState) (e : Entry)
    → state_or_empty (lookup other (states_of (put_state url state e)))
      ≡ (if url == other then state else state_or_empty (lookup other (states_of e)))
unfolding states_of put_state state_or_empty
state-put_state url other state e = ground (arith, lookup-insert other url state (states_of e))

lookup-keep_urls :
    (urls : List String) (url : String) (states : Dict String EndpointState)
    → lookup url (keep_urls urls states) ≡ (if contains urls url then lookup url states else none)
unfolding lookup keep_urls
lookup-keep_urls urls url [] = ground arith
lookup-keep_urls urls url ((other, state) ∷ states) =
    ground (arith, lookup-keep_urls urls url states, eq_iff other url)

or_no_states-some_states : (d : Dict String EndpointState) → or_no_states (some_states d) ≡ d
unfolding or_no_states some_states
or_no_states-some_states [] = refl
or_no_states-some_states (x ∷ d) = refl

pub lookup-prune_states :
    (urls : List String) (url : String) (states : Option (Dict String EndpointState))
    → lookup url (or_no_states (prune_states urls states))
      ≡ (if contains urls url then lookup url (or_no_states states) else none)
unfolding or_no_states prune_states lookup
lookup-prune_states urls url none = ground arith
lookup-prune_states urls url (some []) = ground arith
lookup-prune_states urls url (some (state ∷ states)) =
    ap (lookup url) (or_no_states-some_states (keep_urls urls (state ∷ states)))
    ∙ lookup-keep_urls urls url (state ∷ states)

state-prune :
    (urls : List String) (url : String) (e : Entry)
    → state_or_empty (lookup url (states_of (prune urls e)))
      ≡ (if contains urls url then state_or_empty (lookup url (states_of e)) else no_state)
unfolding states_of state_or_empty prune
state-prune urls url e = ground (arith, lookup-prune_states urls url e.endpoint_state)

module _ (devices : Devices Entry) (s : devices.State) (v : devices.IsValid s) (k : String) where
  -- In a valid store, setting the state of one URL is read back at that URL of that device, and
  -- leaves every other device and URL as it was; the empty URL has no state.
  pub get-set_endpoint_state :
      (url : String) (state : EndpointState) (j other : String)
      → get_endpoint_state devices j other (set_endpoint_state devices k url state s) ≡ (
          if not (url == "") && (k == j && url == other)
          then state
          else get_endpoint_state devices j other s)
  unfolding get_endpoint_state set_endpoint_state
  get-set_endpoint_state url state j other = elim (Bool-cases (url == "")) [
    | inl blank ↦ rw blank
    | inr proper ↦ rw proper (
        ground (
          arith,
          devices.entry_of-mutate k (put_state url state) s v j,
          state-put_state url other state (devices.entry_of s k),
          eq_iff k j,
          eq_iff url other,
          eq_iff url "",
          eq_iff other "",
        ))
  ]

  -- In a valid store, pruning a device keeps exactly the states of the URLs that it still has, and
  -- leaves the other devices as they were.
  get-prune_to_urls :
      (urls : List String) (j url : String)
      → get_endpoint_state devices j url (prune_to_urls devices k urls s) ≡ (
          if (k == j) && not (contains urls url)
          then no_state
          else get_endpoint_state devices j url s)
  unfolding get_endpoint_state prune_to_urls
  get-prune_to_urls urls j url = ground (
    arith,
    devices.entry_of-mutate k (prune urls) s v j,
    state-prune urls url (devices.entry_of s k),
    eq_iff k j,
  )

  pub staleness-set_device_staleness :
      (state : Staleness) (j : String)
      → get_device_staleness devices j (set_device_staleness devices k state s)
        ≡ (if k == j then some state else get_device_staleness devices j s)
  unfolding get_device_staleness set_device_staleness
  staleness-set_device_staleness state j =
      ground (arith, devices.entry_of-mutate k (λ e. record e { staleness = some state }) s v j)
