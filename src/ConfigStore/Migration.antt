-- ===== src/ConfigStore/Migration.antt =====
-- `normalize_device_config` of webui/forwarders/config_store.py, on configurations as they were saved
-- by older versions. A key that is absent is none; `rest` has the keys that no migration reads.
pub mod Current
mod Tests
use Prim.Native.Char.{code}
use google_find_my_tools_web.Prelude.{
  ◌||◌, ℕ, ◌+◌, ◌/◌, ◌%◌, max, Bool, true, false, ◌&&◌, not, Option, none, some, List, [], ◌∷◌, map,
  String, ltb, leb, nat_beq, string_eq, option_eq, if◌then◌else◌, ◌==◌,
}
use google_find_my_tools_web.Prelude.Dict.{Dict}
use google_find_my_tools_web.ConfigStore.Interval.{seconds_to_cron}
use google_find_my_tools_web.Prelude.Int.{pos}
use google_find_my_tools_web.LogText.{str}
use google_find_my_tools_web.Template.{append}
use google_find_my_tools_web.Forwarding.{EndpointState}

-- The sub-dict of an old Traccar or PhoneTrack destination.
pub record Destination : Type 0 where
  pub url : Option String
  pub base_url : Option String
  pub device_id : Option String
  pub device_name : Option String

pub record SavedEndpoint : Type 0 where
  pub kind : Option String
  pub url : Option String
  pub method : Option String
  pub headers : Option (Dict String String)
  pub body_type : Option String
  pub body : Option String
  pub variables : Option (Dict String String)
  pub params : Option (Dict String String)
  pub traccar : Option Destination
  pub phonetrack : Option Destination
  pub cron : Option String
  pub state : Option EndpointState
  pub rest : Dict String String

pub record SavedConfig : Type 0 where
  pub endpoints : Option (List SavedEndpoint)
  pub destination : Option String
  pub traccar : Option Destination
  pub phonetrack : Option Destination
  pub last_forward_status : Option String
  pub last_forward_time : Option ℕ
  pub poll_interval_seconds : Option ℕ
  pub rest : Dict String String

unfoldable pub blank_if_none : Option String → String
blank_if_none none = ""
blank_if_none (some text) = text

abbrev pub no_destination : Destination
no_destination = record { url = none; base_url = none; device_id = none; device_name = none }

unfoldable pub or_no_destination : Option Destination → Destination
or_no_destination none = no_destination
or_no_destination (some destination) = destination

-- `text.rstrip("/")`
unfoldable pub rstrip_slash : String → String
rstrip_slash String.[] = String.[]
rstrip_slash (String.◌∷◌ c text) =
    let rest = rstrip_slash text in
    if nat_beq (code c) 47 && rest == "" then String.[] else String.◌∷◌ c rest

unfoldable pub has_question : String → Bool
has_question String.[] = false
has_question (String.◌∷◌ c text) = nat_beq (code c) 63 || has_question text

-- `"&".join(f"{k}={v}" ...)`
unfoldable pub query : Dict String String → String
unfolding append
query [] = ""
query ((k, v) ∷ []) = append k (append "=" v)
query ((k, v) ∷ params) = append k (append "=" (append v (append "&" (query params))))

unfoldable pub fold : Option (Dict String String) → SavedEndpoint → SavedEndpoint
unfolding blank_if_none has_question query append
fold none entry = entry
fold (some []) entry = entry
fold (some (param ∷ params)) entry =
    let url : String = blank_if_none entry.url in
    let separator : String = if has_question url then "&" else "?" in
    record entry {
      url = some (append url (append separator (query (param ∷ params))));
      params = none;
    }

unfoldable pub fold_params_into_url : SavedEndpoint → SavedEndpoint
unfolding fold
fold_params_into_url entry = fold entry.params entry

abbrev pub traccar_query : String
traccar_query =
    "?id={{device_id}}&lat={{latitude}}&lon={{longitude}}&timestamp={{google_timestamp}}&altitude={{altitude_m}}&accuracy={{accuracy_m}}"

abbrev pub phonetrack_query : String
phonetrack_query =
    "?lat={{latitude}}&lon={{longitude}}&timestamp={{google_timestamp}}&alt={{altitude_m}}&acc={{accuracy_m}}"

unfoldable pub as_get : String → SavedEndpoint → SavedEndpoint
as_get url entry = record entry {
  method = some "GET";
  url = some url;
  headers = some [];
  body_type = some "none";
  body = some "";
  traccar = none;
  phonetrack = none;
}

-- The three legacy types. The preset "custom" is a GET with an empty URL.
unfoldable pub from_traccar : SavedEndpoint → SavedEndpoint
unfolding as_get or_no_destination blank_if_none rstrip_slash append
from_traccar entry =
    let sub : Destination = or_no_destination entry.traccar in
    record (as_get (append (append (rstrip_slash (blank_if_none sub.url)) "/") traccar_query)
      entry) { variables = some (("device_id", blank_if_none sub.device_id) ∷ []) }

unfoldable pub from_phonetrack : SavedEndpoint → SavedEndpoint
unfolding as_get or_no_destination blank_if_none rstrip_slash append
from_phonetrack entry =
    let sub : Destination = or_no_destination entry.phonetrack in
    let base : String =
      append (append (rstrip_slash (blank_if_none sub.base_url)) "/")
        (blank_if_none sub.device_name) in
    as_get (append base phonetrack_query) entry

unfoldable pub from_unknown : SavedEndpoint → SavedEndpoint
unfolding as_get
from_unknown entry = record (as_get "" entry) {
  kind = elim entry.kind [ none ↦ some "custom" | some kind ↦ some kind ];
}

unfoldable pub with_url : Option String → SavedEndpoint → SavedEndpoint
unfolding from_traccar from_phonetrack from_unknown
with_url (some url) entry = entry
with_url none entry =
    if entry.kind == some "traccar"
    then from_traccar entry
    else if entry.kind == some "phonetrack"
    then from_phonetrack entry
    else from_unknown entry

unfoldable pub migrate_legacy_endpoint : SavedEndpoint → SavedEndpoint
unfolding fold_params_into_url with_url
migrate_legacy_endpoint entry = fold_params_into_url (with_url entry.url entry)

unfoldable pub strip_endpoint_state : SavedEndpoint → SavedEndpoint
strip_endpoint_state entry = record entry { state = none }

unfoldable pub migrated : SavedEndpoint → SavedEndpoint
unfolding strip_endpoint_state migrate_legacy_endpoint
migrated entry = strip_endpoint_state (migrate_legacy_endpoint entry)

abbrev pub no_endpoint : SavedEndpoint
no_endpoint = record {
  kind = none;
  url = none;
  method = none;
  headers = none;
  body_type = none;
  body = none;
  variables = none;
  params = none;
  traccar = none;
  phonetrack = none;
  cron = none;
  state = none;
  rest = [];
}

-- The endpoint of a record that had one destination. An empty sub-dict counts as none.
unfoldable pub only_endpoint : SavedConfig → (cron_expr : String) → List SavedEndpoint
only_endpoint device_cfg cron_expr =
    if device_cfg.destination == some "traccar"
    then elim device_cfg.traccar [
      | none ↦ []
      | some old ↦
          record no_endpoint { kind = some "traccar"; traccar = some old; cron = some cron_expr }
          ∷ []
    ]
    else if device_cfg.destination == some "phonetrack"
    then elim device_cfg.phonetrack [
      | none ↦ []
      | some old ↦
          record no_endpoint {
            kind = some "phonetrack";
            phonetrack = some old;
            cron = some cron_expr;
          }
          ∷ []
    ]
    else []

unfoldable pub with_endpoints :
    Option (List SavedEndpoint) → (default_poll_interval_s : ℕ) → SavedConfig → SavedConfig
unfolding migrated seconds_to_cron only_endpoint
with_endpoints (some endpoints) default_poll_interval_s device_cfg = record device_cfg {
  endpoints = some (map migrated endpoints);
}
with_endpoints none default_poll_interval_s device_cfg =
    let cron_expr : String =
      seconds_to_cron default_poll_interval_s device_cfg.poll_interval_seconds in
    record {
      endpoints = some (map migrated (only_endpoint device_cfg cron_expr));
      destination = none;
      traccar = none;
      phonetrack = none;
      last_forward_status = none;
      last_forward_time = none;
      poll_interval_seconds = none;
      rest = device_cfg.rest;
    }

-- The code returns the same object if nothing changes, which is then an equal one.
unfoldable pub normalize_device_config : (default_poll_interval_s : ℕ) → SavedConfig → SavedConfig
unfolding with_endpoints
normalize_device_config default_poll_interval_s device_cfg =
    with_endpoints device_cfg.endpoints default_poll_interval_s device_cfg
