-- ===== src/SettingsForm/Saves.antt =====
-- `save_device_yaml_route` and `update_device_settings` of webui/routers/settings.py outside demo mode:
-- a device's configuration checked, written and its endpoint states pruned. The endpoints are the
-- dicts that the route writes. Whether the write and the restart raise is an argument.
pub mod Written
pub mod Resaved
mod Tests
use google_find_my_tools_web.Prelude.{
  ◌⊎◌, ℕ, ◌+◌, inl, inr, Bool, Option, none, some, List, [], ◌∷◌, String, string_eq, if◌then◌else◌,
  map,
}
use google_find_my_tools_web.Prelude.Dict.{Dict, lookup}
use google_find_my_tools_web.Forwarding.{EndpointState}
use google_find_my_tools_web.DeviceStore.Interface.{Devices}
use google_find_my_tools_web.LatestValues.{prune_states}
use google_find_my_tools_web.SettingsForm.{
  Form, Python, Endpoint, Existing, parse_endpoints_form, unless_blank, unless_empty,
}
use google_find_my_tools_web.SettingsForm.YamlDoc.{Parsed, DocError, from_yaml_doc}

-- The values of `device_meta` stand as texts.
pub record Config (E : Type 0) : Type 0 where
  pub display_name : String
  pub google_name : Option String
  pub device_meta : Option (Dict String String)
  pub endpoints : List E

-- What the routes read and write of a device's entry.
pub record Entry (E : Type 0) : Type 0 where
  pub config : Option (Config E)
  pub endpoint_state : Option (Dict String EndpointState)

-- How `config_store.set_device_config` and `scheduler.restart_device` end.
pub data Ending : Type 0 where
  done : Ending
  write_raises restart_raises : String → Ending

pub data Raised : Type 0 where
  key_error type_error : Raised

pub data Reply (Error : Type 0) : Type 0 where
  refused : Error → Reply Error
  failed_to_save : String → Reply Error
  server_error : Raised → Reply Error
  saved : Reply Error

pub data YamlError : Type 0 where
  document_error : DocError → YamlError
  cron_error : List ℕ → YamlError

-- A value of a YAML endpoint: its text if it is one, whether a set can hold it, and `str(v)`.
pub record Values (V : Type 0) : Type 0 where
  pub as_text : V → Option String
  pub hashable : V → Bool
  pub str : V → String

unfoldable pub kept_name : Option String → Option String
unfolding unless_blank
kept_name none = none
kept_name (some name) = unless_blank name

unfoldable pub kept_meta : Option (Dict String String) → Option (Dict String String)
unfolding unless_empty
kept_meta none = none
kept_meta (some meta) = unless_empty meta

module _ {E : Type 0} where
  -- `device_cfg`, with what is carried on from the file.
  unfoldable pub device_cfg : (display_name : String) → List E → Option (Config E) → Config E
  unfolding kept_name kept_meta
  device_cfg display_name endpoints none = record {
    display_name = display_name;
    google_name = none;
    device_meta = none;
    endpoints = endpoints;
  }
  device_cfg display_name endpoints (some existing) = record {
    display_name = display_name;
    google_name = kept_name existing.google_name;
    device_meta = kept_meta existing.device_meta;
    endpoints = endpoints;
  }

  module _ (devices : Devices (Entry E)) where
    open devices use {State, entry_of, mutate}

    unfoldable pub set_device_config : String → Config E → State → State
    set_device_config canonic_id cfg = mutate canonic_id (λ e. record e { config = some cfg })

    unfoldable pub prune : String → List String → State → State
    unfolding prune_states
    prune canonic_id urls =
        mutate canonic_id (λ e. record e { endpoint_state = prune_states urls e.endpoint_state })

    -- The end of both routes; the set of the URLs is built behind the write.
    unfoldable pub write :
        {Error : Type 0}
        → Ending
        → String
        → Config E
        → Raised ⊎ List String
        → State
        → Reply Error × State
    unfolding set_device_config prune
    write (write_raises e) canonic_id cfg urls s = (failed_to_save e, s)
    write (restart_raises e) canonic_id cfg urls s =
        (failed_to_save e, set_device_config canonic_id cfg s)
    write done canonic_id cfg (inl raised) s =
        (server_error raised, set_device_config canonic_id cfg s)
    write done canonic_id cfg (inr urls) s =
        (saved, prune canonic_id urls (set_device_config canonic_id cfg s))

-- The form's route: the endpoints on file, and what they are to the form.
module _ {F : Type 0} (python : Python F) (default_cron : String)
    (devices : Devices (Entry (Endpoint F))) where
  open devices use {State, entry_of}

  unfoldable pub existing_endpoints : Option (Config (Endpoint F)) → List Existing
  existing_endpoints none = []
  existing_endpoints (some existing) =
      map (λ e. record { url = some e.url; variables = e.variables }) existing.endpoints

  unfoldable pub save_parsed :
      Ending
      → String
      → (display_name : String) → List (Endpoint F) × List (ℕ × String)
      → State
      → Reply (List (ℕ × String)) × State
  unfolding write device_cfg
  save_parsed ending canonic_id display_name (endpoints, error ∷ errors) s =
      (refused (error ∷ errors), s)
  save_parsed ending canonic_id display_name (endpoints, []) s =
      write devices ending canonic_id
        (device_cfg display_name endpoints (entry_of s canonic_id).config)
        (inr (map (λ e. e.url) endpoints)) s

  unfoldable pub update_device_settings :
      Ending → String → (display_name : String) → Form → State → Reply (List (ℕ × String)) × State
  unfolding save_parsed existing_endpoints parse_endpoints_form
  update_device_settings ending canonic_id display_name form s =
      save_parsed ending canonic_id display_name
        (parse_endpoints_form python default_cron form
          (existing_endpoints (entry_of s canonic_id).config))
        s

-- The YAML editor's route.
module _ {V : Type 0} (values : Values V) (is_valid : String → Bool)
    (devices : Devices (Entry (Dict String V))) where
  open values use {as_text, hashable, str}
  open devices use {State, entry_of}

  -- `str(ep.get("cron", ""))`
  unfoldable pub cron_of : Option V → String
  cron_of none = ""
  cron_of (some v) = str v

  -- The numbers of the endpoints, from `i`, whose schedule is refused.
  unfoldable pub cron_errors : ℕ → List (Dict String V) → List ℕ
  unfolding cron_of lookup
  cron_errors i [] = []
  cron_errors i (ep ∷ endpoints) =
      let rest = cron_errors (i + 1) endpoints in
      if is_valid (cron_of (lookup "cron" ep)) then rest else i ∷ rest

  -- A value that is no text is no key of `endpoint_state`.
  unfoldable pub add_url : Option String → List String → List String
  add_url none urls = urls
  add_url (some url) urls = url ∷ urls

  -- `{ep["url"] for ep in endpoints}`
  unfoldable pub urls_of : List (Dict String V) → Raised ⊎ List String
  unfolding add_url lookup
  urls_of [] = inr []
  urls_of (ep ∷ endpoints) = elim (lookup "url" ep) [
    | none ↦ inl key_error
    | some v ↦
        if hashable v
        then (elim (urls_of endpoints) [
          | inl raised ↦ inl raised
          | inr urls ↦ inr (add_url (as_text v) urls)
        ])
        else inl type_error
  ]

  unfoldable pub save_endpoints :
      Ending
      → String
      → (display_name : String) → List (Dict String V)
      → List ℕ
      → State
      → Reply YamlError × State
  unfolding write device_cfg urls_of
  save_endpoints ending canonic_id display_name endpoints (i ∷ errors) s =
      (refused (cron_error (i ∷ errors)), s)
  save_endpoints ending canonic_id display_name endpoints [] s =
      write devices ending canonic_id
        (device_cfg display_name endpoints (entry_of s canonic_id).config) (urls_of endpoints) s

  unfoldable pub save_device_yaml : Ending → String → Parsed V → State → Reply YamlError × State
  unfolding save_endpoints from_yaml_doc cron_errors
  save_device_yaml ending canonic_id yaml s = elim (from_yaml_doc yaml) [
    | inl error ↦ (refused (document_error error), s)
    | inr (endpoints, display_name) ↦
        save_endpoints ending canonic_id display_name endpoints (cron_errors 0 endpoints) s
  ]
