-- ===== src/SettingsForm/Saves/Resaved.antt =====
-- `update_device_settings` of webui/routers/settings.py on the page's own form, posted unchanged.
use mathlib.Core.Path.{subst}
use google_find_my_tools_web.Prelude.{
  inl, inr, arith, eq_iff, ◌≡◌, refl, ap, ◌∙◌, true, Option, none, some, [], String, string_eq, map,
  contains, All,
}
use google_find_my_tools_web.Prelude.Dict.{Dict}
use google_find_my_tools_web.DeviceStore.Interface.{Devices}
use google_find_my_tools_web.SettingsForm.{
  Form, Python, Endpoint, parse_endpoints_form, unless_empty,
}
use google_find_my_tools_web.SettingsForm.Posted.{Browser}
use google_find_my_tools_web.SettingsForm.Fields.{Filled}
use google_find_my_tools_web.SettingsForm.Resaved.{
  Canonical, Strips, Posts, parse_endpoints_form-Posts,
}
use google_find_my_tools_web.SettingsForm.Saves.{
  Config, Entry, done, saved, existing_endpoints, update_device_settings,
}
use google_find_my_tools_web.SettingsForm.Saves.Written.{
  state_of, Carried, Replaces, update_device_settings-saved,
}

-- What the page shows of the device beside its endpoints is there only if it says something.
abbrev pub HasMeta : Option (Dict String String) → Type 0
HasMeta none = Unit
HasMeta (some meta) = unless_empty meta ≡ some meta

name-same : (old new : Option String) → Filled old → Carried "" old new → new ≡ old
name-same none new h carried = carried
name-same (some name) new h (inl (blank, gone)) =
    absurd (ground (arith, h, (eq_iff name "").1 blank))
name-same (some name) new h (inr (says, kept)) = kept

meta-same : (old new : Option (Dict String String)) → HasMeta old → Carried [] old new → new ≡ old
unfolding unless_empty
meta-same none new h carried = carried
meta-same (some meta) new h (inl (blank, gone)) = absurd (cc (ap unless_empty blank, h))
meta-same (some meta) new h (inr (says, kept)) = kept

Replaces-same :
    {E : Type 0}
    → (cfg new : Config E) → Filled cfg.google_name
    → HasMeta cfg.device_meta
    → Replaces cfg.display_name cfg.endpoints (some cfg) new
    → new ≡ cfg
Replaces-same cfg new name meta (display, endpoints, google, data_) = λ i. record {
  display_name = display i;
  google_name = name-same cfg.google_name new.google_name name google i;
  device_meta = meta-same cfg.device_meta new.device_meta meta data_ i;
  endpoints = endpoints i;
}

module _ {F : Type 0} (python : Python F) (default_cron : String) (browser : Browser F)
    (devices : Devices (Entry (Endpoint F))) (s : devices.State) (v : devices.IsValid s)
    (k : String) where
  open devices use {State, entry_of}

  -- In a valid store, for a device whose saved endpoints and names are as the form saves them and
  -- stand in the page's inputs as they are, if str.strip leaves two texts alone: the page's own
  -- form, posted unchanged and written without an error, is answered as saved, leaves the
  -- configuration on file as it was, and keeps the state of each endpoint that is configured.
  pub update_device_settings-Posts :
      (cfg : Config (Endpoint F)) (form : Form)
      → (entry_of s k).config ≡ some cfg
      → Filled cfg.google_name
      → HasMeta cfg.device_meta
      → Strips python default_cron browser
      → All (Canonical python default_cron browser) cfg.endpoints
      → Posts python default_cron browser form (form.getlist "ep_order") cfg.endpoints
      → (let reply =
            update_device_settings python default_cron devices done k cfg.display_name form s in
          (reply.0 ≡ saved)
          × ((entry_of reply.1 k).config ≡ some cfg)
          × ((url : String)
              → contains (map (λ e. e.url) cfg.endpoints) url ≡ true
              → state_of url (entry_of reply.1 k) ≡ state_of url (entry_of s k)))
  unfolding existing_endpoints
  update_device_settings-Posts cfg form config name meta strips canonical posts =
      let parsed : parse_endpoints_form python default_cron form
            (existing_endpoints python default_cron devices (entry_of s k).config)
          ≡ (cfg.endpoints, []) =
        rw config (
          parse_endpoints_form-Posts python default_cron browser form cfg.endpoints strips canonical
            posts) in
      let (answer, (new, written, replaces), states, others) =
        update_device_settings-saved python default_cron devices s v k cfg.display_name form
          cfg.endpoints parsed in
      let onto : Replaces cfg.display_name cfg.endpoints (some cfg) new =
        subst (λ old. Replaces cfg.display_name cfg.endpoints old new) config replaces in
      (
        answer,
        written ∙ ap some (Replaces-same cfg new name meta onto),
        λ url there. states url ∙ rw there refl,
      )
