-- ===== src/SettingsForm/Saves/Written.antt =====
-- What the two routes of webui/routers/settings.py leave in a device's entry.
use mathlib.Core.Path.{subst}
use google_find_my_tools_web.Prelude.{
  arith, ◌≢◌, eq_iff, ◌⊎◌, ◌≡◌, refl, sym, ap, ◌∙◌, inl, inr, Bool, false, Option, none, some, List,
  [], ◌∷◌, String, string_eq, if◌then◌else◌, ◌==◌, map, contains, eq_refl, Bool-cases, Option-cases,
}
use google_find_my_tools_web.Prelude.Dict.{Dict, lookup}
use google_find_my_tools_web.Forwarding.{EndpointState}
use google_find_my_tools_web.DeviceStore.Interface.{Devices}
use google_find_my_tools_web.LatestValues.{prune_states, or_no_states}
use google_find_my_tools_web.LatestValues.Laws.{lookup-prune_states}
use google_find_my_tools_web.SettingsForm.{
  Form, Python, Endpoint, parse_endpoints_form, unless_blank, unless_empty,
}
use google_find_my_tools_web.SettingsForm.YamlDoc.{Parsed, from_yaml_doc}
use google_find_my_tools_web.SettingsForm.Saves.{
  Config, Entry, done, Raised, server_error, saved, key_error, type_error, Values, device_cfg,
  kept_name, kept_meta, set_device_config, prune, write, existing_endpoints, save_parsed,
  update_device_settings, cron_errors, urls_of, save_endpoints, save_device_yaml,
}

-- The state of a URL in an entry.
abbrev pub state_of : {E : Type 0} → (url : String) → Entry E → Option EndpointState
state_of url e = lookup url (or_no_states e.endpoint_state)

-- What becomes of a value that is carried on: it stays unless it is missing or empty.
abbrev pub Carried : {A : Type 0} → (empty : A) (old new : Option A) → Type 0
Carried empty none new = new ≡ none
Carried empty (some a) new = (a ≡ empty) × (new ≡ none) ⊎ (a ≢ empty) × (new ≡ some a)

abbrev pub google_name_of : {E : Type 0} → Option (Config E) → Option String
google_name_of none = none
google_name_of (some cfg) = cfg.google_name

abbrev pub device_meta_of : {E : Type 0} → Option (Config E) → Option (Dict String String)
device_meta_of none = none
device_meta_of (some cfg) = cfg.device_meta

-- The configuration that a save leaves.
abbrev pub Replaces : {E : Type 0} → String → List E → (old : Option (Config E)) → Config E → Type 0
Replaces display_name endpoints old cfg =
    (cfg.display_name ≡ display_name)
    × (cfg.endpoints ≡ endpoints)
    × Carried "" (google_name_of old) cfg.google_name
    × Carried [] (device_meta_of old) cfg.device_meta

kept_name-Carried : (name : Option String) → Carried "" name (kept_name name)
unfolding kept_name unless_blank
kept_name-Carried none = refl
kept_name-Carried (some name) = elim (Bool-cases (name == "")) [
  | inl blank ↦ inl ((eq_iff name "").0 blank, rw blank refl)
  | inr says ↦ inr (λ e. ground (arith, says, (eq_iff name "").1 e), rw says refl)
]

kept_meta-Carried : (meta : Option (Dict String String)) → Carried [] meta (kept_meta meta)
unfolding kept_meta unless_empty
kept_meta-Carried none = refl
kept_meta-Carried (some []) = inl (refl, refl)
kept_meta-Carried (some (kv ∷ meta)) = inr (λ e. cc e, refl)

device_cfg-Replaces :
    {E : Type 0}
    → (display_name : String) (endpoints : List E) (old : Option (Config E))
    → Replaces display_name endpoints old (device_cfg display_name endpoints old)
unfolding device_cfg
device_cfg-Replaces display_name endpoints none = (refl, refl, refl, refl)
device_cfg-Replaces display_name endpoints (some cfg) =
    (refl, refl, kept_name-Carried cfg.google_name, kept_meta-Carried cfg.device_meta)

module _ {E : Type 0} (devices : Devices (Entry E)) (s : devices.State) (v : devices.IsValid s)
    (k : String) where
  open devices use {State, entry_of, entry_of-mutate, mutate-IsValid}

  pub entry-set_device_config :
      (cfg : Config E) (j : String)
      → entry_of (set_device_config devices k cfg s) j
        ≡ (if k == j then record (entry_of s k) { config = some cfg } else entry_of s j)
  unfolding set_device_config
  entry-set_device_config cfg j = entry_of-mutate k (λ e. record e { config = some cfg }) s v j

  pub entry-prune :
      (cfg : Config E) (urls : List String) (j : String)
      → entry_of (prune devices k urls (set_device_config devices k cfg s)) j ≡ (
          if k == j
          then record {
            config = some cfg;
            endpoint_state = prune_states urls (entry_of s k).endpoint_state;
          }
          else entry_of s j)
  unfolding prune set_device_config
  entry-prune cfg urls j =
      let to : Entry E → Entry E = λ e. record e { config = some cfg } in
      let keep : Entry E → Entry E =
        λ e. record e { endpoint_state = prune_states urls e.endpoint_state } in
      elim (Bool-cases (k == j)) [
        | inl same ↦
            entry_of-mutate k keep _ (mutate-IsValid k to s v) j
            ∙ rw same (ap keep (entry_of-mutate k to s v k ∙ rw (eq_refl k) refl))
        | inr differs ↦
            entry_of-mutate k keep _ (mutate-IsValid k to s v) j
            ∙ rw differs (entry_of-mutate k to s v j ∙ rw differs refl)
      ]

module _ {F : Type 0} (python : Python F) (default_cron : String)
    (devices : Devices (Entry (Endpoint F))) (s : devices.State) (v : devices.IsValid s)
    (k : String) where
  open devices use {State, entry_of}

  -- In a valid store, a form without errors that is written without an error is answered as saved:
  -- the device then has the given name and the endpoints of the form; the name and the data of
  -- Google's account stay as they were, but for an empty one, which goes; exactly the states of the
  -- URLs that are among its endpoints are kept; and no other device is changed.
  pub update_device_settings-saved :
      (display_name : String) (form : Form) (endpoints : List (Endpoint F))
      → parse_endpoints_form python default_cron form
          (existing_endpoints python default_cron devices (entry_of s k).config)
        ≡ (endpoints, [])
      → (let reply =
            update_device_settings python default_cron devices done k display_name form s in
          (reply.0 ≡ saved)
          × ((cfg : Config (Endpoint F)) × ((entry_of reply.1 k).config ≡ some cfg)
              × Replaces display_name endpoints (entry_of s k).config cfg)
          × ((url : String)
              → state_of url (entry_of reply.1 k) ≡ (
                  if contains (map (λ e. e.url) endpoints) url
                  then state_of url (entry_of s k)
                  else none))
          × ((j : String) → (k == j) ≡ false → entry_of reply.1 j ≡ entry_of s j))
  unfolding update_device_settings save_parsed write
  update_device_settings-saved display_name form endpoints parsed =
      let cfg : Config (Endpoint F) = device_cfg display_name endpoints (entry_of s k).config in
      let urls : List String = map (λ e. e.url) endpoints in
      let after : State = prune devices k urls (set_device_config devices k cfg s) in
      let here : entry_of after k ≡ record {
        config = some cfg;
        endpoint_state = prune_states urls (entry_of s k).endpoint_state;
      } =
        entry-prune devices s v k cfg urls k ∙ rw (eq_refl k) refl in
      let answer : update_device_settings python default_cron devices done k display_name form s
          ≡ (saved, after) =
        ap (λ p. save_parsed python default_cron devices done k display_name p s) parsed in
      subst
        (λ reply.
          (reply.0 ≡ saved)
          × ((new : Config (Endpoint F)) × ((entry_of reply.1 k).config ≡ some new)
              × Replaces display_name endpoints (entry_of s k).config new)
          × ((url : String)
              → state_of url (entry_of reply.1 k)
                ≡ (if contains urls url then state_of url (entry_of s k) else none))
          × ((j : String) → (k == j) ≡ false → entry_of reply.1 j ≡ entry_of s j))
        (sym answer)
        (
          refl,
          (
            cfg,
            ap (λ e. e.config) here,
            device_cfg-Replaces display_name endpoints (entry_of s k).config,
          ),
          λ url.
              ap (state_of url) here ∙ lookup-prune_states urls url (entry_of s k).endpoint_state,
          λ j differs. entry-prune devices s v k cfg urls j ∙ rw differs refl,
        )

-- An endpoint of the document has no URL.
abbrev pub LacksUrl : {V : Type 0} → List (Dict String V) → Type 0
LacksUrl [] = ⊥
LacksUrl (ep ∷ endpoints) = (lookup "url" ep ≡ none) ⊎ LacksUrl endpoints

module _ {V : Type 0} (values : Values V) (is_valid : String → Bool)
    (devices : Devices (Entry (Dict String V))) (s : devices.State) (v : devices.IsValid s)
    (k : String) where
  open devices use {State, entry_of}

  urls_of-LacksUrl :
      (endpoints : List (Dict String V))
      → LacksUrl endpoints
      → (raised : Raised) × (urls_of values is_valid devices endpoints ≡ inl raised)
  unfolding urls_of
  urls_of-LacksUrl [] h = absurd h
  urls_of-LacksUrl (ep ∷ endpoints) (inl absent) = (key_error, rw (urls_of, absent) refl)
  urls_of-LacksUrl (ep ∷ endpoints) (inr later) = elim (Option-cases (lookup "url" ep)) [
    | inl absent ↦ (key_error, rw (urls_of, absent) refl)
    | inr (u, found) ↦
        let (raised, e) = urls_of-LacksUrl endpoints later in
        elim (Bool-cases (values.hashable u)) [
          | inl hashes ↦ (raised, rw (urls_of, found, hashes, e) refl)
          | inr unhashable ↦ (type_error, rw (urls_of, found, unhashable) refl)
        ]
  ]

  -- In a valid store, a YAML document that is in order, with schedules that are valid but an
  -- endpoint without a URL, is saved to the device's entry, and then the request ends in a server
  -- error with the endpoint states as they were.
  pub save_device_yaml-raised :
      (yaml : Parsed V) (endpoints : List (Dict String V)) (display_name : String)
      → from_yaml_doc yaml ≡ inr (endpoints, display_name)
      → cron_errors values is_valid devices 0 endpoints ≡ []
      → LacksUrl endpoints
      → (let reply = save_device_yaml values is_valid devices done k yaml s in
          ((raised : Raised) × (reply.0 ≡ server_error raised))
          × (entry_of reply.1 k ≡ record (entry_of s k) {
            config = some (device_cfg display_name endpoints (entry_of s k).config);
          }))
  unfolding save_device_yaml save_endpoints write
  save_device_yaml-raised yaml endpoints display_name doc crons lacks =
      let cfg : Config (Dict String V) = device_cfg display_name endpoints (entry_of s k).config in
      let (raised, urls) = urls_of-LacksUrl endpoints lacks in
      let answer : save_device_yaml values is_valid devices done k yaml s
          ≡ (server_error raised, set_device_config devices k cfg s) =
        rw (save_device_yaml, doc, crons, urls) refl in
      subst
        (λ reply.
          ((raised : Raised) × (reply.0 ≡ server_error raised))
          × (entry_of reply.1 k ≡ record (entry_of s k) { config = some cfg }))
        (sym answer)
        ((raised, refl), entry-set_device_config devices s v k cfg k ∙ rw (eq_refl k) refl)
