-- ===== src/Template/Tests.antt =====
-- Runs of `_render` and `render_template`, and their theorem at a concrete template. The word
-- characters here are the lower case letters and `_`.
use Prim.Native.Char.{Char, code}
use google_find_my_tools_web.Prelude.{
  ◌≡◌, refl, String, Option, none, some, [], ◌∷◌, List, Bool, ◌&&◌, ◌||◌, leb, nat_beq, string_eq,
}
use google_find_my_tools_web.Prelude.Dict.{Dict, lookup}
use google_find_my_tools_web.Template.{
  append, size, closes, token, word, named, token_at, sub, repl, get, render, render_template,
}
use google_find_my_tools_web.Template.Parts.{Part, print}
use google_find_my_tools_web.Template.Rendered.{Split, Fills, InContext, InMessage, render-filled}

program : Unit {0}
unfolding append size closes token word named token_at sub repl get render render_template lookup
program = tt

abbrev is_word : Char → Bool
is_word c = (leb 97 (code c) && leb (code c) 122) || nat_beq (code c) 95

abbrev ctx : Dict String (Option String)
ctx = ("lat", some "52.5") ∷ ("alt", none) ∷ []

sent :
    render is_word ctx "?a={{lat}}&b={{alt}}&c={{lon}}&d={{{lat}}}"
    ≡ "?a=52.5&b=&c={{lon}}&d={52.5}"
unfolding program
sent = refl

abbrev names : Dict String String
names = ("device_name", "Keys") ∷ ("threshold", "1 day") ∷ []

message :
    render_template is_word names "No update from {{device_name}} in over {{threshold}}"
    ≡ "No update from Keys in over 1 day"
unfolding program
message = refl

render-filled_example :
    (parts : List Part) × Split is_word parts
    × (print parts ≡ "?a={{lat}}")
    × Fills (InContext ctx) parts (render is_word ctx "?a={{lat}}")
    × Fills (InMessage names) parts (render_template is_word names "?a={{lat}}")
render-filled_example = render-filled is_word "?a={{lat}}" ctx names refl
