-- ===== src/SettingsForm/Posted.antt =====
-- What templates/settings/_endpoint_fields.html makes a browser post of an endpoint that nobody
-- edits, to webui/forwarders/settings_service.py.
use google_find_my_tools_web.Prelude.{
  Bool, true, false, not, Option, none, some, List, [], ◌∷◌, String, string_eq, contains,
  if◌then◌else◌,
}
use google_find_my_tools_web.SettingsForm.{Dict, Endpoint, Field, Code, value_or}
use google_find_my_tools_web.SettingsForm.{last_known, crowdsourced, aggregated, semantic}

unfoldable pub or_blank : Option String → String
or_blank none = ""
or_blank (some text) = text

unfoldable pub same_code : Code → Code → Bool
same_code last_known last_known = true
same_code crowdsourced crowdsourced = true
same_code aggregated aggregated = true
same_code semantic semantic = true
same_code _ _ = false

unfoldable pub among : List Code → Code → Bool
unfolding same_code
among [] code = false
among (other ∷ rest) code = if same_code other code then true else among rest code

unfoldable pub has_code : Option (List Code) → Code → Bool
unfolding among
has_code none code = false
has_code (some found) code = among found code

unfoldable pub flag : Bool → String
flag on = if on then "1" else "0"

unfoldable pub is_some {ℓ} : {A : Type ℓ} → Option A → Bool
is_some none = false
is_some (some a) = true

unfoldable pub not_off : Option Bool → Bool
not_off none = true
not_off (some b) = b

-- What is posted of a text in a line of input and in a text area, and of a number in its input; and
-- whether Python takes a number for false.
pub record Browser {ℓ} (F : Type ℓ) : Type ℓ where
  pub line : String → String
  pub area : String → String
  pub show : F → String
  pub is_zero : F → Bool

-- A `select` in which an option is selected only if it is the value: the browser posts the first
-- option if none is.
unfoldable pub chosen : (first : String) → List String → String → String
chosen first options value = if contains (first ∷ options) value then value else first

abbrev pub other_methods : List String
other_methods = "POST" ∷ "PUT" ∷ "PATCH" ∷ "DELETE" ∷ []

abbrev pub body_types : List String
body_types = "form" ∷ "json" ∷ "raw" ∷ []

module _ {ℓ} {F : Type ℓ} (browser : Browser F) where
  open browser use {line, area, show, is_zero}

  -- The columns of the table of headers.
  unfoldable pub header_keys : Dict String String → List String
  header_keys [] = []
  header_keys ((k, v) ∷ headers) = line k ∷ header_keys headers

  unfoldable pub header_values : Dict String String → List String
  header_values [] = []
  header_values ((k, v) ∷ headers) = line v ∷ header_values headers

  -- `endpoint.min_movement_m or 50`, in an input that is hidden, but posted, while its toggle is off.
  unfoldable pub shown : (default : String) → Option F → String
  shown default none = default
  shown default (some x) = if is_zero x then default else show x

  -- The inputs of a block as the page fills them.
  unfoldable pub inputs : Endpoint F → Field → Option String
  unfolding or_blank has_code flag is_some not_off shown chosen value_or
  inputs e Field.url = some e.url
  inputs e Field.method = some (chosen "GET" other_methods (value_or (some e.method) "GET"))
  inputs e Field.body_type = some (chosen "none" body_types (value_or e.body_type "none"))
  inputs e Field.body = some (area (or_blank e.body))
  inputs e Field.alias = some (line (or_blank e.alias))
  inputs e Field.cron = some (line (value_or (some e.cron) "*/5 * * * *"))
  inputs e Field.skip_if_close = some (flag (is_some e.min_movement_m))
  inputs e Field.min_movement_m = some (shown "50" e.min_movement_m)
  inputs e Field.skip_if_stale = some (flag (is_some e.min_update_gap_m))
  inputs e Field.min_update_gap_m = some (shown "30" e.min_update_gap_m)
  inputs e Field.skip_if_already_seen = some (flag (not_off e.skip_if_already_seen))
  inputs e Field.only_most_recent = some (flag (not_off e.only_most_recent))
  inputs e Field.filter_by_status = some (flag e.filter_by_status)
  inputs e Field.skip_if_not_own_report = some (flag e.skip_if_not_own_report)
  inputs e Field.skip_if_inaccurate = some (flag (is_some e.max_accuracy_m))
  inputs e Field.max_accuracy_m = some (shown "100" e.max_accuracy_m)
  inputs e (Field.status code) = some (flag (not (has_code e.blocked_statuses code)))
