-- ===== src/SettingsForm.antt =====
-- `parse_endpoints_form` of webui/forwarders/settings_service.py: the endpoints of a posted form. The
-- form is Starlette's, `get` and `getlist`; str.strip, str.upper, float and croniter are arguments.
pub mod Blocks
pub mod Fields
pub mod Posted
pub mod Resaved
pub mod YamlDoc
pub mod Saves
mod Sample
mod Tests
use google_find_my_tools_web.Prelude.{
  zero, suc, ℕ, ◌+◌, Bool, true, false, not, Option, none, some, List, [], ◌∷◌, ◌++◌, String,
  length, string_eq, option_eq, if◌then◌else◌, ◌==◌,
}
use google_find_my_tools_web.Prelude.Dict.{Dict, insert}
use google_find_my_tools_web.Template.{append}

pub record Form : Type 0 where
  pub get : String → Option String
  pub getlist : String → List String

pub record Python {ℓ} (F : Type ℓ) : Type ℓ where
  pub strip : String → String
  pub upper : String → String
  pub is_valid : String → Bool
  pub float : String → Option F
  pub of_number : ℕ → F

-- `policy.STATUS_CHOICES`
pub data Code : Type 0 where
  last_known crowdsourced aggregated semantic : Code

abbrev pub codes : List Code
codes = last_known ∷ crowdsourced ∷ aggregated ∷ semantic ∷ []

-- The fields of one block of the form, but for its table of headers.
pub data Field : Type 0 where
  url method body_type body alias cron : Field
  skip_if_close min_movement_m skip_if_stale min_update_gap_m : Field
  skip_if_already_seen only_most_recent filter_by_status : Field
  skip_if_not_own_report skip_if_inaccurate max_accuracy_m : Field
  status : Code → Field

unfoldable pub code_name : Code → String
code_name last_known = "LAST_KNOWN"
code_name crowdsourced = "CROWDSOURCED"
code_name aggregated = "AGGREGATED"
code_name semantic = "SEMANTIC"

unfoldable pub field_name : Field → String
unfolding code_name append
field_name url = "url"
field_name method = "method"
field_name body_type = "body_type"
field_name body = "body"
field_name alias = "alias"
field_name cron = "cron"
field_name skip_if_close = "skip_if_close"
field_name min_movement_m = "min_movement_m"
field_name skip_if_stale = "skip_if_stale"
field_name min_update_gap_m = "min_update_gap_m"
field_name skip_if_already_seen = "skip_if_already_seen"
field_name only_most_recent = "only_most_recent"
field_name filter_by_status = "filter_by_status"
field_name skip_if_not_own_report = "skip_if_not_own_report"
field_name skip_if_inaccurate = "skip_if_inaccurate"
field_name max_accuracy_m = "max_accuracy_m"
field_name (status code) = append "status_" (code_name code)

-- `f"ep-{idx}-{name}"`
unfoldable pub key : (idx name : String) → String
unfolding append
key idx name = append "ep-" (append idx (append "-" name))

-- The dict that is saved. A threshold stands for its toggle too, and a key that is absent is none.
pub record Endpoint {ℓ} (F : Type ℓ) : Type ℓ where
  pub method : String
  pub url : String
  pub headers : Option (Dict String String)
  pub body_type : Option String
  pub body : Option String
  pub alias : Option String
  pub cron : String
  pub min_movement_m : Option F
  pub min_update_gap_m : Option F
  pub skip_if_already_seen : Option Bool
  pub only_most_recent : Option Bool
  pub filter_by_status : Bool
  pub blocked_statuses : Option (List Code)
  pub skip_if_not_own_report : Bool
  pub max_accuracy_m : Option F
  pub variables : Option (Dict String String)

-- What the form reads of an endpoint that is on file.
pub record Existing : Type 0 where
  pub url : Option String
  pub variables : Option (Dict String String)

unfoldable pub value_or : Option String → (default : String) → String
value_or none default = default
value_or (some value) default = if value == "" then default else value

unfoldable pub unless_blank : String → Option String
unless_blank text = if text == "" then none else some text

unfoldable pub unless_empty {ℓ} : {A : Type ℓ} → List A → Option (List A)
unless_empty [] = none
unless_empty (x ∷ xs) = some (x ∷ xs)

unfoldable pub select : (Code → Bool) → List Code → List Code
select off [] = []
select off (code ∷ rest) =
    let others = select off rest in if off code then code ∷ others else others

unfoldable pub nth : ℕ → List Existing → Option Existing
nth n [] = none
nth zero (endpoint ∷ endpoints) = some endpoint
nth (suc n) (endpoint ∷ endpoints) = nth n endpoints

-- The variables of the endpoint that is on file at the same position with the same URL.
unfoldable pub carried : String → Option Existing → Option (Dict String String)
carried address none = none
carried address (some existing) = if existing.url == some address then existing.variables else none

module _ {ℓ} {F : Type ℓ} (python : Python F) (default_cron : String) where
  open python use {strip, upper, is_valid, float, of_number}

  unfoldable pub kv_rows : (keys values : List String) → Dict String String → Dict String String
  unfolding insert
  kv_rows (k ∷ keys) (v ∷ values) d =
      kv_rows keys values (if strip k == "" then d else insert (strip k) v d)
  kv_rows _ _ d = d

  unfoldable pub float_or : String → (default : ℕ) → F
  float_or text default =
      if text == ""
      then of_number default
      else (elim (float text) [ none ↦ of_number default | some x ↦ x ])

  module _ (fields : Field → Option String) where
    unfoldable pub field : Field → (default : String) → String
    unfolding value_or
    field name default = value_or (fields name) default

    unfoldable pub is_on : Field → Bool
    unfolding field
    is_on name = field name "0" == "1"

    -- `False` if a toggle that is on by default is off
    unfoldable pub switched_off : Field → Option Bool
    unfolding field
    switched_off name = if field name "1" == "1" then none else some false

    unfoldable pub threshold : (toggle number : Field) → (default : ℕ) → Option F
    unfolding is_on field float_or
    threshold toggle number default =
        if is_on toggle then some (float_or (field number "") default) else none

    unfoldable pub body_type_of : Option String
    unfolding field
    body_type_of =
        let text : String = strip (field body_type "none") in
        if text == "" then none else if text == "none" then none else some text

    unfoldable pub method_of : String
    unfolding field
    method_of =
        let text : String = upper (strip (field method "GET")) in if text == "" then "GET" else text

    unfoldable pub blocked : Option (List Code)
    unfolding is_on field select unless_empty
    blocked =
        if is_on filter_by_status
        then unless_empty (select (λ code. not (field (status code) "1" == "1")) codes)
        else none

    unfoldable pub cron_expr : String
    unfolding field
    cron_expr = strip (field cron "")

    unfoldable pub url_of : String
    unfolding field
    url_of = strip (field url "")

    -- The entry of a block with a URL.
    unfoldable pub entry_of :
        (header_keys header_values : List String) → Option Existing → Endpoint F
    unfolding field is_on switched_off threshold body_type_of method_of blocked cron_expr url_of
        kv_rows unless_empty unless_blank carried
    entry_of header_keys header_values existing = record {
      method = method_of;
      url = url_of;
      headers = unless_empty (kv_rows header_keys header_values []);
      body_type = body_type_of;
      body = unless_blank (field body "");
      alias = unless_blank (strip (field alias ""));
      cron = if cron_expr == "" then default_cron else cron_expr;
      min_movement_m = threshold skip_if_close min_movement_m 50;
      min_update_gap_m = threshold skip_if_stale min_update_gap_m 30;
      skip_if_already_seen = switched_off skip_if_already_seen;
      only_most_recent = switched_off only_most_recent;
      filter_by_status = is_on filter_by_status;
      blocked_statuses = blocked;
      skip_if_not_own_report = is_on skip_if_not_own_report;
      max_accuracy_m = threshold skip_if_inaccurate max_accuracy_m 100;
      variables = carried url_of existing;
    }

    -- `not cron_expr or not croniter.is_valid(cron_expr)`
    unfoldable pub bad_cron : Bool
    unfolding cron_expr
    bad_cron = if cron_expr == "" then true else not (is_valid cron_expr)

  -- The endpoints and the errors before a block, and behind it: the number of an endpoint, from 1,
  -- with the text that is no cron expression.
  unfoldable pub placed :
      (url : String) (bad_cron : Bool) (cron_expr : String)
      → Endpoint F
      → List (Endpoint F) × List (ℕ × String)
      → List (Endpoint F) × List (ℕ × String)
  placed address bad expr entry (endpoints, errors) =
      if address == "" then (endpoints, errors) else (
        endpoints ++ (entry ∷ []),
        if bad then errors ++ ((length endpoints + 1, expr) ∷ []) else errors,
      )

  unfoldable pub step :
      List Existing
      → List (Endpoint F) × List (ℕ × String)
      → (fields : Field → Option String) → (header_keys header_values : List String)
      → List (Endpoint F) × List (ℕ × String)
  unfolding placed entry_of bad_cron url_of cron_expr nth
  step existing_endpoints parsed fields header_keys header_values =
      placed (url_of fields) (bad_cron fields) (cron_expr fields)
        (entry_of fields header_keys header_values (nth (length parsed.0) existing_endpoints))
        parsed

  unfoldable pub parse_loop :
      Form
      → List Existing
      → List String
      → List (Endpoint F) × List (ℕ × String)
      → List (Endpoint F) × List (ℕ × String)
  unfolding step key field_name
  parse_loop form existing_endpoints [] parsed = parsed
  parse_loop form existing_endpoints (idx ∷ order) parsed =
      parse_loop form existing_endpoints order (
        step existing_endpoints parsed (λ name. form.get (key idx (field_name name)))
          (form.getlist (key idx "header_key")) (form.getlist (key idx "header_value")))

  unfoldable pub parse_endpoints_form : Form → List Existing → List (Endpoint F) × List (ℕ × String)
  unfolding parse_loop
  parse_endpoints_form form existing_endpoints =
      parse_loop form existing_endpoints (form.getlist "ep_order") ([], [])
