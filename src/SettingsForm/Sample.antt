-- ===== src/SettingsForm/Sample.antt =====
-- A form of webui/forwarders/settings_service.py with one endpoint, as tests use it.
use mathlib.Core.Path.{fun_ext}
use Prim.Native.Char.{code}
use google_find_my_tools_web.Prelude.{
  ℕ, ◌≡◌, refl, true, false, Option, none, some, List, [], ◌∷◌, String, string_eq, nat_beq,
  if◌then◌else◌, ◌==◌,
}
use google_find_my_tools_web.SettingsForm.{
  unless_empty, value_or, select, Form, Python, Endpoint, Field, status, last_known, crowdsourced,
  aggregated, semantic, code_name, field_name, key,
}
use google_find_my_tools_web.Prelude.Dict.{lookup}
use google_find_my_tools_web.SettingsForm.Blocks.{block}
use google_find_my_tools_web.SettingsForm.Posted.{
  or_blank, Browser, inputs, header_keys, header_values, among, has_code,
}
use google_find_my_tools_web.SettingsForm.Resaved.{Canonical, Strips, Posts}

-- The white space at the front of a text.
unfoldable pub strip : String → String
strip String.[] = String.[]
strip (String.◌∷◌ c text) = if nat_beq (code c) 32 then strip text else String.◌∷◌ c text

unfoldable pub number : String → Option ℕ
number text = if text == "25" then some 25 else none

unfoldable pub python : Python ℕ
unfolding strip number
python = record {
  strip = strip;
  upper = λ text. if text == "post" then "POST" else text;
  is_valid = λ text. text == "*/5 * * * *";
  float = number;
  of_number = λ n. n;
}

-- A number input of a page shows 25 alone.
unfoldable pub browser : Browser ℕ
browser = record {
  line = λ text. text;
  area = λ text. text;
  show = λ n. "25";
  is_zero = λ n. nat_beq n 0;
}

unfoldable pub first : String → List (String × String) → Option String
first k [] = none
first k ((j, v) ∷ posted) = if j == k then some v else first k posted

unfoldable pub every : String → List (String × String) → List String
every k [] = []
every k ((j, v) ∷ posted) = let rest = every k posted in if j == k then v ∷ rest else rest

unfoldable pub form_of : List (String × String) → Form
unfolding first every
form_of posted = record { get = λ k. first k posted; getlist = λ k. every k posted }

abbrev pub hook : Endpoint ℕ
hook = record {
  method = "POST";
  url = "http://host/a";
  headers = some (("X-Key", "secret") ∷ []);
  body_type = some "json";
  body = some "{}";
  alias = none;
  cron = "*/5 * * * *";
  min_movement_m = some 25;
  min_update_gap_m = none;
  skip_if_already_seen = some false;
  only_most_recent = none;
  filter_by_status = true;
  blocked_statuses = some (aggregated ∷ []);
  skip_if_not_own_report = false;
  max_accuracy_m = none;
  variables = some (("token", "t") ∷ []);
}

abbrev pub posted : List (String × String)
posted =
    ("ep_order", "7")
    ∷ ("ep-7-method", "POST")
    ∷ ("ep-7-url", "http://host/a")
    ∷ ("ep-7-header_key", "X-Key")
    ∷ ("ep-7-header_value", "secret")
    ∷ ("ep-7-body_type", "json")
    ∷ ("ep-7-body", "{}")
    ∷ ("ep-7-alias", "")
    ∷ ("ep-7-cron", "*/5 * * * *")
    ∷ ("ep-7-skip_if_close", "1")
    ∷ ("ep-7-min_movement_m", "25")
    ∷ ("ep-7-skip_if_stale", "0")
    ∷ ("ep-7-min_update_gap_m", "30")
    ∷ ("ep-7-skip_if_already_seen", "0")
    ∷ ("ep-7-only_most_recent", "1")
    ∷ ("ep-7-filter_by_status", "1")
    ∷ ("ep-7-skip_if_not_own_report", "0")
    ∷ ("ep-7-skip_if_inaccurate", "0")
    ∷ ("ep-7-max_accuracy_m", "100")
    ∷ ("ep-7-status_LAST_KNOWN", "1")
    ∷ ("ep-7-status_CROWDSOURCED", "1")
    ∷ ("ep-7-status_AGGREGATED", "0")
    ∷ ("ep-7-status_SEMANTIC", "1")
    ∷ []

abbrev pub form : Form
form = form_of posted

abbrev pub default : String
default = "*/15 * * * *"

pub posted-read : (name : Field) → block form "7" name ≡ inputs browser hook name
unfolding first field_name code_name key inputs browser form_of value_or
posted-read Field.url = refl
posted-read Field.method = refl
posted-read Field.body_type = refl
posted-read Field.body = refl
posted-read Field.alias = refl
posted-read Field.cron = refl
posted-read Field.skip_if_close = refl
posted-read Field.min_movement_m = refl
posted-read Field.skip_if_stale = refl
posted-read Field.min_update_gap_m = refl
posted-read Field.skip_if_already_seen = refl
posted-read Field.only_most_recent = refl
posted-read Field.filter_by_status = refl
posted-read Field.skip_if_not_own_report = refl
posted-read Field.skip_if_inaccurate = refl
posted-read Field.max_accuracy_m = refl
posted-read (status last_known) = refl
posted-read (status crowdsourced) = refl
posted-read (status aggregated) = refl
posted-read (status semantic) = refl

pub hook-Canonical : Canonical python default browser hook
unfolding strip number browser python select unless_empty lookup among value_or has_code or_blank
hook-Canonical = record {
  url = (refl, refl);
  method = (refl, refl, refl);
  headers = ((refl, refl, refl, refl, refl, tt), refl);
  body_type = (refl, refl, refl, refl);
  body = (refl, refl);
  alias = (tt, refl);
  cron = (refl, refl, refl, refl);
  movement = (refl, refl, refl);
  gap = tt;
  accuracy = tt;
  seen = refl;
  recent = tt;
  statuses = (refl, refl);
}

pub strips : Strips python default browser
unfolding strip python
strips = record { blank = refl; plain = refl }

pub posts : Posts python default browser form (form.getlist "ep_order") (hook ∷ [])
unfolding every first key Posts form_of browser header_keys header_values
posts = (fun_ext posted-read, refl, refl, tt)
