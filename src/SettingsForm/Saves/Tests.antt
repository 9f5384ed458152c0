-- ===== src/SettingsForm/Saves/Tests.antt =====
-- Saves of webui/routers/settings.py, and the theorems of both routes at concrete inputs.
use google_find_my_tools_web.Prelude.{
  contains, inl, ℕ, ◌≡◌, refl, true, false, none, some, [], ◌∷◌, String, string_eq, if◌then◌else◌,
  ◌==◌,
}
use google_find_my_tools_web.SettingsForm.{Endpoint, parse_endpoints_form}
use google_find_my_tools_web.Prelude.Dict.{Dict, erase, lookup}
use google_find_my_tools_web.SettingsForm.YamlDoc.{
  read_items, read_listing, Parsed, document, list, mapping, from_yaml_doc, without_type,
}
use google_find_my_tools_web.SettingsForm.Saves.{
  device_cfg, existing_endpoints, Raised, cron_errors, cron_of, Config, Entry, Values, done, saved,
  server_error, update_device_settings, save_device_yaml,
}
use google_find_my_tools_web.SettingsForm.Saves.Written.{
  state_of, Replaces, update_device_settings-saved, save_device_yaml-raised,
}
use google_find_my_tools_web.SettingsForm.Saves.Resaved.{update_device_settings-Posts}
use google_find_my_tools_web.Forwarding.{no_state}
use google_find_my_tools_web.DeviceStore.Interface.{Devices, memory_devices}
use google_find_my_tools_web.SettingsForm.Resaved.{parse_endpoints_form-Posts}
use google_find_my_tools_web.SettingsForm.Sample.{
  python, browser, hook, form, default, hook-Canonical, strips, posts,
}

abbrev tag : Config (Endpoint ℕ)
tag = record {
  display_name = "Keys";
  google_name = some "Tag";
  device_meta = none;
  endpoints = hook ∷ [];
}

abbrev entry : Entry (Endpoint ℕ)
entry = record {
  config = some tag;
  endpoint_state = some (("http://host/a", no_state) ∷ ("http://gone", no_state) ∷ []);
}

abbrev devices : Devices (Entry (Endpoint ℕ))
devices = memory_devices (Entry (Endpoint ℕ))

update_device_settings-Posts_example :
    let reply = update_device_settings python default devices done "tag" "Keys" form (λ k. entry) in
    (reply.0 ≡ saved)
    × ((reply.1 "tag").config ≡ some tag)
    × ((url : String)
        → contains ("http://host/a" ∷ []) url ≡ true
        → state_of url (reply.1 "tag") ≡ state_of url entry)
update_device_settings-Posts_example =
    update_device_settings-Posts python default browser devices (λ k. entry) tt "tag" tag form refl
      refl tt strips (hook-Canonical, tt) posts

renamed-parsed :
    parse_endpoints_form python default form
      (existing_endpoints python default devices entry.config)
    ≡ (hook ∷ [], [])
unfolding existing_endpoints
renamed-parsed =
    parse_endpoints_form-Posts python default browser form (hook ∷ []) strips (hook-Canonical, tt)
      posts

update_device_settings-saved_example :
    let reply = update_device_settings python default devices done "tag" "Bag" form (λ k. entry) in
    (reply.0 ≡ saved)
    × ((cfg : Config (Endpoint ℕ)) × ((reply.1 "tag").config ≡ some cfg)
        × Replaces "Bag" (hook ∷ []) (some tag) cfg)
    × ((url : String)
        → state_of url (reply.1 "tag")
          ≡ (if contains ("http://host/a" ∷ []) url then state_of url entry else none))
    × ((j : String) → ("tag" == j) ≡ false → reply.1 j ≡ entry)
update_device_settings-saved_example =
    update_device_settings-saved python default devices (λ k. entry) tt "tag" "Bag" form (hook ∷ [])
      renamed-parsed

abbrev values : Values String
values = record { as_text = λ v. some v; hashable = λ v. true; str = λ v. v }

abbrev webhook : Dict String String
webhook = ("method", "GET") ∷ ("cron", "*/5 * * * *") ∷ []

abbrev yaml : Parsed String
yaml = document (some (list (mapping webhook ∷ []))) none

abbrev yaml_entry : Entry (Dict String String)
yaml_entry = record { config = none; endpoint_state = some (("http://gone", no_state) ∷ []) }

save_device_yaml-raised_example :
    let reply =
      save_device_yaml values python.is_valid
        (memory_devices (Entry (Dict String String)))
        done
        "tag"
        yaml
        (λ k. yaml_entry) in
    ((raised : Raised) × (reply.0 ≡ server_error raised))
    × (reply.1 "tag" ≡ record yaml_entry { config = some (device_cfg "" (webhook ∷ []) none) })
unfolding python from_yaml_doc read_items read_listing without_type erase cron_errors cron_of lookup
save_device_yaml-raised_example =
    save_device_yaml-raised values python.is_valid (memory_devices (Entry (Dict String String)))
      (λ k. yaml_entry) tt "tag" yaml (webhook ∷ []) "" refl refl (inl refl)
