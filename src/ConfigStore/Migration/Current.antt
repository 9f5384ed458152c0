-- ===== src/ConfigStore/Migration/Current.antt =====
-- The shape of what `normalize_device_config` of webui/forwarders/config_store.py returns.
use google_find_my_tools_web.Prelude.{
  sym, ℕ, ◌≡◌, refl, ◌⊎◌, inl, inr, ap, ◌∙◌, ◌∷◌, [], List, map, Option, none, some, String, All,
  Bool-cases, ◌==◌, string_eq, option_eq,
}
use google_find_my_tools_web.Prelude.Dict.{Dict}
use google_find_my_tools_web.ConfigStore.Migration.{
  SavedEndpoint, SavedConfig, fold, with_url, with_endpoints, fold_params_into_url,
  migrate_legacy_endpoint, strip_endpoint_state, migrated, as_get, from_traccar, from_phonetrack,
  from_unknown, normalize_device_config,
}

abbrev Folded : Option (Dict String String) → Type 0
Folded params = (params ≡ none) ⊎ (params ≡ some [])

-- A URL of its own, no parameters beside it, and no runtime state.
pub record Current (entry : SavedEndpoint) : Type 0 where
  pub url : (url : String) × (entry.url ≡ some url)
  pub params : Folded entry.params
  pub state : entry.state ≡ none

fold-Folded :
    (params : Option (Dict String String)) (entry : SavedEndpoint)
    → Folded params
    → fold params entry ≡ entry
unfolding fold
fold-Folded params entry (inl e) = ap (λ p. fold p entry) e
fold-Folded params entry (inr e) = ap (λ p. fold p entry) e

record-state : (entry : SavedEndpoint) → entry.state ≡ none → record entry { state = none } ≡ entry
record-state entry e = ap (λ s. record entry { state = s }) (sym e)

migrated-Current_lem : (entry : SavedEndpoint) → Current entry → migrated entry ≡ entry
unfolding migrated migrate_legacy_endpoint fold_params_into_url with_url strip_endpoint_state
migrated-Current_lem entry current =
    let (url, e) = current.url in
    let same : with_url entry.url entry ≡ entry = ap (λ u. with_url u entry) e in
    ap (λ entry. strip_endpoint_state (fold_params_into_url entry)) same
    ∙ ap strip_endpoint_state (fold-Folded entry.params entry current.params)
    ∙ record-state entry current.state

with_url-some :
    (saved : Option String) (entry : SavedEndpoint)
    → entry.url ≡ saved
    → (url : String) × ((with_url saved entry).url ≡ some url)
unfolding with_url from_traccar from_phonetrack from_unknown as_get
with_url-some (some url) entry e = (url, e)
with_url-some none entry e = elim (Bool-cases (entry.kind == some "traccar")) [
  | inl traccar ↦ rw (traccar) (_, refl)
  | inr other ↦ elim (Bool-cases (entry.kind == some "phonetrack")) [
    | inl phonetrack ↦ rw (other, phonetrack) (_, refl)
    | inr unknown ↦ rw (other, unknown) (_, refl)
  ]
]

fold-url :
    (params : Option (Dict String String)) (entry : SavedEndpoint) (url : String)
    → entry.url ≡ some url
    → entry.params ≡ params
    → ((folded : String) × ((fold params entry).url ≡ some folded))
      × Folded (fold params entry).params
unfolding fold
fold-url none entry url e f = ((url, e), inl f)
fold-url (some []) entry url e f = ((url, e), inr f)
fold-url (some (param ∷ params)) entry url e f = ((_, refl), inl refl)

migrated-Current : (entry : SavedEndpoint) → Current (migrated entry)
unfolding migrated migrate_legacy_endpoint fold_params_into_url strip_endpoint_state
migrated-Current entry =
    let (url, e) = with_url-some entry.url entry refl in
    let shaped : SavedEndpoint = with_url entry.url entry in
    let (own, folded) = fold-url shaped.params shaped url e refl in
    record { url = own; params = folded; state = refl }

All-migrated : (entries : List SavedEndpoint) → All Current (map migrated entries)
All-migrated [] = tt
All-migrated (entry ∷ entries) = (migrated-Current entry, All-migrated entries)

map-migrated : (entries : List SavedEndpoint) → All Current entries → map migrated entries ≡ entries
map-migrated [] current = refl
map-migrated (entry ∷ entries) (current, others) =
    cc (migrated-Current_lem entry current, map-migrated entries others)

-- A list of endpoints, all of them in the current shape.
abbrev pub IsCurrent : SavedConfig → Type 0
IsCurrent device_cfg =
    (entries : List SavedEndpoint) × (device_cfg.endpoints ≡ some entries) × All Current entries

normalize-unchanged :
    (default_poll_interval_s : ℕ) (device_cfg : SavedConfig)
    → IsCurrent device_cfg
    → normalize_device_config default_poll_interval_s device_cfg ≡ device_cfg
unfolding normalize_device_config with_endpoints
normalize-unchanged default device_cfg (entries, e, current) =
    ap (λ saved. with_endpoints saved default device_cfg) e
    ∙ ap (λ es. record device_cfg { endpoints = some es }) (map-migrated entries current)
    ∙ ap (λ saved. record device_cfg { endpoints = saved }) (sym e)

with_endpoints-IsCurrent :
    (saved : Option (List SavedEndpoint)) (default : ℕ) (device_cfg : SavedConfig)
    → IsCurrent (with_endpoints saved default device_cfg)
unfolding with_endpoints
with_endpoints-IsCurrent (some entries) default device_cfg = (_, refl, All-migrated entries)
with_endpoints-IsCurrent none default device_cfg = (_, refl, All-migrated _)

-- Whatever was saved, a normalized configuration has a list of endpoints, each with a URL, with no
-- parameters beside it and without runtime state; and it is normalized again to itself.
pub normalize-IsCurrent :
    (default_poll_interval_s : ℕ) (device_cfg : SavedConfig)
    → IsCurrent (normalize_device_config default_poll_interval_s device_cfg)
      × (normalize_device_config default_poll_interval_s
            (normalize_device_config default_poll_interval_s device_cfg)
          ≡ normalize_device_config default_poll_interval_s device_cfg)
unfolding normalize_device_config
normalize-IsCurrent default device_cfg =
    let current : IsCurrent (normalize_device_config default device_cfg) =
      with_endpoints-IsCurrent device_cfg.endpoints default device_cfg in
    (current, normalize-unchanged default (normalize_device_config default device_cfg) current)
