-- ===== src/SettingsForm/Tests.antt =====
-- Runs of the form of webui/forwarders/settings_service.py, and its theorems at concrete inputs.
use google_find_my_tools_web.Prelude.{ℕ, ◌≡◌, refl, none, some, List, [], ◌∷◌, String, string_eq}
use google_find_my_tools_web.SettingsForm.{
  kv_rows, value_or, Endpoint, code_name, field_name, key, parse_loop, parse_endpoints_form,
}
use google_find_my_tools_web.SettingsForm.Blocks.{has_dash, with_values, parse_loop-other}
use google_find_my_tools_web.SettingsForm.Posted.{inputs}
use google_find_my_tools_web.SettingsForm.Sample.{
  strip, number, python, first, every, form_of, hook, posted, form, default,
}

program : Unit {0}
unfolding parse_endpoints_form field_name code_name key inputs
program = tt

-- A block without a URL is left out, and one whose schedule cannot be read is kept with an error.
skipped :
    parse_endpoints_form python default
      (form_of (("ep_order", "1") ∷ ("ep-1-cron", "never") ∷ posted))
      []
    ≡ (record hook { variables = none } ∷ [], [])
unfolding parse_endpoints_form strip number python first every form_of field_name code_name key
    value_or kv_rows
skipped = refl

abbrev late : List (Endpoint ℕ) × List (ℕ × String)
late =
    parse_endpoints_form python default
      (form_of (("ep_order", "1") ∷ ("ep-1-url", " http://host/b") ∷ ("ep-1-cron", "never") ∷ []))
      []

bad_schedule : late.1 ≡ (1, "never") ∷ []
unfolding parse_endpoints_form strip number python first every form_of field_name code_name key
    value_or kv_rows
bad_schedule = refl

parse_loop-other_example :
    parse_loop python default
      (with_values "ep-1-url" (some "x") ("x" ∷ []) form)
      []
      ("7" ∷ [])
      ([], [])
    ≡ parse_loop python default form [] ("7" ∷ []) ([], [])
unfolding key has_dash
parse_loop-other_example =
    parse_loop-other "1" "url" (some "x") ("x" ∷ []) form refl python default [] ("7" ∷ []) ([], [])
      refl
