-- ===== src/CustomForwarder.antt =====
-- webui/forwarders/custom.py: the context of the templates, and the request that is sent. Its
-- location is that of decrypt_locations.py with its `status_id`; a key that is absent and one whose
-- value is false stand for each other wherever the source writes `or`.
pub mod Previewed
mod Tests
use Prim.Native.Char.{Char, code}
use google_find_my_tools_web.Prelude.{
  ℕ, zero, suc, Bool, true, false, ◌||◌, ◌&&◌, not, Option, none, some, List, [], ◌∷◌, String,
  nat_beq, string_eq, if◌then◌else◌, ◌==◌, contains,
}
use google_find_my_tools_web.Prelude.Dict.{Dict, lookup, insert}
use google_find_my_tools_web.Prelude.Int.{ℤ, pos}
use google_find_my_tools_web.LogText.{str}
use google_find_my_tools_web.Reading.{Position, Location}
use google_find_my_tools_web.Template.{append, render}

-- What the templates of an endpoint are made of.
pub record Endpoint : Type 0 where
  pub url : String
  pub method : String
  pub headers : Dict String String
  pub body_type : String
  pub body : String
  pub alias : String
  pub variables : Dict String String

-- A reading of a device, and what is known of the device, each value as its text.
pub record Source : Type 0 where
  pub location : Location
  pub status_id : Option ℤ
  pub current_timestamp : ℕ
  pub device_name : String
  pub device_alias : Option String
  pub tracker_id : String
  pub device_meta : Dict String (Option String)

pub record Request : Type 0 where
  pub method : String
  pub url : String
  pub headers : Dict String String
  pub content : Option String
  -- `data`
  pub form : Option (Dict String String)

pub record Preview : Type 0 where
  pub method : String
  pub url : String
  pub headers : Dict String String
  pub body_type : String
  pub body : String

abbrev pub named_device_meta_keys : List String
named_device_meta_keys = "manufacturer" ∷ "model" ∷ "type" ∷ "type_id" ∷ "image_url" ∷ []

unfoldable pub or_blank : Option String → String
or_blank none = ""
or_blank (some text) = text

-- `or`, for two texts
unfoldable pub or_text : String → String → String
or_text text default = if text == "" then default else text

unfoldable pub text_of_bool : Bool → String
text_of_bool true = "True"
text_of_bool false = "False"

-- `str` of the numbers that are floats, `str.strip`, `str.upper`, `str.splitlines`, and `\w`.
pub record Python : Type 0 where
  pub degrees : ℤ → String
  pub altitude : ℤ → String
  pub accuracy : ℕ → String
  pub strip : String → String
  pub upper : String → String
  pub splitlines : String → List String
  pub is_word : Char → Bool

unfoldable pub text_of {ℓ} : {A : Type ℓ} → (A → String) → Option A → Option String
text_of show none = none
text_of show (some value) = some (show value)

unfoldable pub latitude_of : Option Position → Option ℤ
latitude_of none = none
latitude_of (some p) = some p.latitude

unfoldable pub longitude_of : Option Position → Option ℤ
longitude_of none = none
longitude_of (some p) = some p.longitude

-- The loop over the named keys.
unfoldable pub put_named :
    Dict String (Option String)
    → List String
    → Dict String (Option String)
    → Dict String (Option String)
unfolding or_blank
put_named meta [] ctx = ctx
put_named meta (key ∷ keys) ctx =
    put_named meta keys (insert key (some (found (lookup key meta))) ctx)
  where
    found : Option (Option String) → String
    found none = ""
    found (some value) = or_blank value

-- The loop over the rest of the metadata.
unfoldable pub put_labels :
    Dict String (Option String) → Dict String (Option String) → Dict String (Option String)
unfolding or_blank append
put_labels [] ctx = ctx
put_labels ((key, value) ∷ meta) ctx = put_labels meta (
    if contains named_device_meta_keys key
    then ctx
    else insert (append "label_" key) (some (or_blank value)) ctx)

-- `ctx.update`
unfoldable pub update :
    Dict String String → Dict String (Option String) → Dict String (Option String)
unfolding insert
update [] ctx = ctx
update ((key, value) ∷ variables) ctx = update variables (insert key (some value) ctx)

unfoldable pub key_value : String → Option (String × String)
key_value String.[] = none
key_value (String.◌∷◌ c line) = elim (key_value line) [
  | none ↦ if nat_beq (code c) 61 then some ("", line) else none
  | some (key, value) ↦
      if nat_beq (code c) 61 then some ("", line) else some (String.◌∷◌ c key, value)
]

unfoldable pub set_default : String → String → Dict String String → Dict String String
unfolding lookup insert
set_default key value headers = elim (lookup key headers) [
  | none ↦ insert key value headers
  | some found ↦ headers
]

module _ (python : Python) where
  unfoldable pub build_context : Endpoint → Source → Dict String (Option String)
  unfolding text_of latitude_of longitude_of put_named put_labels update or_blank or_text str
      text_of_bool
  build_context endpoint source =
      let location : Location = source.location in
      let time : Option String = text_of (λ t. str (pos t)) location.time in
      let alias : String = elim source.device_alias [
        | none ↦ source.device_name
        | some alias ↦ alias
      ] in
      let ctx : Dict String (Option String) =
        ("latitude", text_of python.degrees (latitude_of location.position))
        ∷ ("longitude", text_of python.degrees (longitude_of location.position))
        ∷ ("altitude_m", text_of python.altitude location.altitude)
        ∷ ("accuracy_m", text_of python.accuracy location.accuracy)
        ∷ ("status", some (or_blank location.status))
        ∷ ("status_id", some (or_blank (text_of str source.status_id)))
        ∷ ("is_semantic", some (text_of_bool location.is_semantic))
        ∷ ("semantic_name", some (or_blank location.semantic_name))
        ∷ ("own_report", some (text_of_bool location.is_own_report))
        ∷ ("google_timestamp", time)
        ∷ ("current_timestamp", some (str (pos source.current_timestamp)))
        ∷ ("fix_timestamp", time)
        ∷ ("device_name", some source.device_name)
        ∷ ("device_alias", some alias)
        ∷ ("endpoint_alias", some endpoint.alias)
        ∷ ("tracker_id", some source.tracker_id)
        ∷ [] in
      update endpoint.variables
        (put_labels source.device_meta (put_named source.device_meta named_device_meta_keys ctx))

  unfoldable pub render_all : Dict String (Option String) → Dict String String → Dict String String
  render_all ctx [] = []
  render_all ctx ((key, value) ∷ headers) =
      (key, render python.is_word ctx value) ∷ render_all ctx headers

  unfoldable pub method_of : Endpoint → String
  unfolding or_text
  method_of endpoint = or_text (python.upper (python.strip (or_text endpoint.method "GET"))) "GET"

  -- The lines of a form.
  unfoldable pub form_data :
      Dict String (Option String) → List String → Dict String String → Dict String String
  unfolding key_value insert
  form_data ctx [] fields = fields
  form_data ctx (line ∷ lines) fields = form_data ctx lines (elim (key_value line) [
    | none ↦ fields
    | some (key, value) ↦
        insert (python.strip key) (render python.is_word ctx (python.strip value)) fields
  ])

  -- The request for a reading with a position, outside the demo mode, if the template of its URL is
  -- not blank.
  unfoldable pub request : Endpoint → Source → Request
  unfolding build_context render_all method_of form_data set_default or_text
  request endpoint source =
      let ctx : Dict String (Option String) = build_context endpoint source in
      let headers : Dict String String = render_all ctx endpoint.headers in
      let body_type : String = or_text endpoint.body_type "none" in
      let has_body : Bool = not (python.strip endpoint.body == "") in
      let plain : Request = record {
        method = method_of endpoint;
        url = render python.is_word ctx (python.strip endpoint.url);
        headers = headers;
        content = none;
        form = none;
      } in
      let body : String = render python.is_word ctx endpoint.body in
      if body_type == "json" && has_body
      then record plain {
        content = some body;
        headers = set_default "Content-Type" "application/json" headers;
      }
      else if body_type == "raw" && has_body
      then record plain { content = some body }
      else if body_type == "form" && has_body
      then record plain { form = some (form_data ctx (python.splitlines endpoint.body) []) }
      else plain

  unfoldable pub preview_request : Endpoint → Source → Preview
  unfolding build_context render_all method_of or_text
  preview_request endpoint source =
      let ctx : Dict String (Option String) = build_context endpoint source in
      let body_type : String = or_text endpoint.body_type "none" in
      record {
        method = method_of endpoint;
        url = render python.is_word ctx (python.strip endpoint.url);
        headers = render_all ctx endpoint.headers;
        body_type = body_type;
        body = if body_type == "none" then "" else render python.is_word ctx endpoint.body;
      }
