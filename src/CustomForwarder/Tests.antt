-- ===== src/CustomForwarder/Tests.antt =====
-- A run of webui/forwarders/custom.py, and its theorem at a concrete endpoint. Only what these
-- texts need of Python is here.
use google_find_my_tools_web.Prelude.{◌||◌, ◌≡◌, refl, none, some, [], ◌∷◌, true, false, ◌&&◌, leb}
use google_find_my_tools_web.Prelude.Dict.{lookup, insert}
use google_find_my_tools_web.Prelude.Int.{pos}
use google_find_my_tools_web.LogText.{str}
use google_find_my_tools_web.Reading.{Location}
use Prim.Native.Char.{Char, code}
use google_find_my_tools_web.Template.{
  append, size, closes, token, word, named, token_at, sub, repl, render,
}
use google_find_my_tools_web.CustomForwarder.{
  nat_beq, Bool, Endpoint, Source, Python, request, preview_request, build_context, render_all,
  method_of, form_data, set_default, or_text, or_blank, key_value, update, put_labels, put_named,
  text_of, latitude_of, longitude_of, text_of_bool,
}
use google_find_my_tools_web.CustomForwarder.Previewed.{Extends, content_of, preview_request-Agrees}

abbrev is_word : Char → Bool
is_word c = (leb 97 (code c) && leb (code c) 122) || nat_beq (code c) 95

abbrev python : Python
python = record {
  degrees = λ n. str n;
  altitude = λ n. str n;
  accuracy = λ n. str (pos n);
  strip = λ text. text;
  upper = λ text. text;
  splitlines = λ text. text ∷ [];
  is_word = is_word;
}

program : Unit {0}
unfolding append size closes token word named token_at sub repl render lookup insert request
    preview_request build_context render_all method_of form_data set_default or_text or_blank
    key_value update put_labels put_named text_of latitude_of longitude_of text_of_bool
program = tt

abbrev place : Location
place = record {
  position = none;
  altitude = none;
  time = some 1000;
  is_semantic = true;
  semantic_name = some "Home";
  status = some "SEMANTIC";
  accuracy = none;
  is_own_report = false;
  map_links = none;
  google_maps_link = none;
  first_seen = none;
}

abbrev source : Source
source = record {
  location = place;
  status_id = some (pos 0);
  current_timestamp = 1060;
  device_name = "Keys";
  device_alias = none;
  tracker_id = "a";
  device_meta = ("model", some "ESP32") ∷ ("sim", none) ∷ [];
}

abbrev webhook : Endpoint
webhook = record {
  url = "https://d/{{tracker_id}}?n={{device_alias}}&alt={{altitude_m}}";
  method = "POST";
  headers = ("X-Model", "{{model}}") ∷ [];
  body_type = "json";
  body = "[{{semantic_name}}{{label_sim}}{{typo}}{{mine}}]";
  alias = "";
  variables = ("mine", "!") ∷ [];
}

posted : request python webhook source ≡ record {
  method = "POST";
  url = "https://d/a?n=Keys&alt=";
  headers = ("X-Model", "ESP32") ∷ ("Content-Type", "application/json") ∷ [];
  content = some "[Home{{typo}}!]";
  form = none;
}
unfolding program
posted = refl

abbrev old_style : Endpoint
old_style = record webhook { body_type = "form"; body = "id={{tracker_id}}=1" }

form_posted : (request python old_style source).form ≡ some (("id", "a=1") ∷ [])
unfolding program
form_posted = refl

preview_request-Agrees_example :
    ((preview_request python webhook source).method ≡ (request python webhook source).method)
    × ((preview_request python webhook source).url ≡ (request python webhook source).url)
    × Extends
        (preview_request python webhook source).headers
        (request python webhook source).headers
    × ((request python webhook source).content
        ≡ content_of python webhook (preview_request python webhook source))
preview_request-Agrees_example = preview_request-Agrees python webhook source
