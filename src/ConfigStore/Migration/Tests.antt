-- ===== src/ConfigStore/Migration/Tests.antt =====
-- Runs of the migrations of config_store.py, and their theorem at a concrete configuration.
use google_find_my_tools_web.Prelude.{◌≡◌, ◌∷◌, [], none, refl, some, option_eq, string_eq}
use google_find_my_tools_web.ConfigStore.Migration.{
  SavedConfig, Destination, no_destination, no_endpoint, normalize_device_config, migrated,
  with_endpoints, with_url, fold, fold_params_into_url, query, has_question, from_traccar,
  from_phonetrack, from_unknown, as_get, or_no_destination, blank_if_none, rstrip_slash,
  migrate_legacy_endpoint, strip_endpoint_state, only_endpoint, phonetrack_query,
}
use google_find_my_tools_web.ConfigStore.Interval.{
  seconds_to_cron, round_60, at_most, at_least_1, or_default_interval,
}
use google_find_my_tools_web.ConfigStore.Migration.Current.{IsCurrent, normalize-IsCurrent}
use google_find_my_tools_web.LogText.{str, digits, digit, char_in}
use google_find_my_tools_web.Template.{append}

program : Unit {0}
unfolding normalize_device_config migrated seconds_to_cron round_60 at_most at_least_1
    or_default_interval with_endpoints with_url fold fold_params_into_url query has_question
    from_traccar from_phonetrack from_unknown as_get or_no_destination blank_if_none rstrip_slash
    migrate_legacy_endpoint strip_endpoint_state only_endpoint str digits digit char_in append
program = tt

half_hour : seconds_to_cron 300 (some 1800) ≡ "*/30 * * * *"
unfolding program
half_hour = refl

rounded_to_even : seconds_to_cron 300 (some 9000) ≡ "0 */2 * * *"
unfolding program
rounded_to_even = refl

abbrev phone : Destination
phone = record no_destination { base_url = some "https://n//"; device_name = some "keys" }

abbrev old : SavedConfig
old = record {
  endpoints = none;
  destination = some "phonetrack";
  traccar = none;
  phonetrack = some phone;
  last_forward_status = some "ok";
  last_forward_time = some 5;
  poll_interval_seconds = none;
  rest = [];
}

upgraded :
    (normalize_device_config 300 old).endpoints
    ≡ some (
        record no_endpoint {
          kind = some "phonetrack";
          url = some (append "https://n/keys" phonetrack_query);
          method = some "GET";
          headers = some [];
          body_type = some "none";
          body = some "";
          cron = some "*/5 * * * *";
        }
        ∷ [])
unfolding program
upgraded = refl

folded :
    (migrated (record no_endpoint {
      url = some "https://d/?a=1";
      params = some (("b", "{{latitude}}") ∷ ("c", "") ∷ []);
    })).url
    ≡ some "https://d/?a=1&b={{latitude}}&c="
unfolding program
folded = refl

normalize-IsCurrent_example :
    IsCurrent (normalize_device_config 300 old)
    × (normalize_device_config 300 (normalize_device_config 300 old)
        ≡ normalize_device_config 300 old)
normalize-IsCurrent_example = normalize-IsCurrent 300 old
