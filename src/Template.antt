-- ===== src/Template.antt =====
-- The {{name}} templates of webui/forwarders/custom.py and webui/staleness.py: `_TOKEN_RE.sub`,
-- `_render` and `render_template`. Which characters are `\w` is an argument.
pub mod Parts
pub mod Rendered
mod Tests
pub mod Tokens
use Prim.Native.Char.{Char, code}
use google_find_my_tools_web.Prelude.{
  ℕ, zero, suc, ◌+◌, Bool, true, false, ◌&&◌, Option, none, some, String, nat_beq, string_eq,
  if◌then◌else◌, ◌==◌,
}
use google_find_my_tools_web.Prelude.Dict.{Dict, lookup}

unfoldable pub append : String → String → String
append String.[] rest = rest
append (String.◌∷◌ c text) rest = String.◌∷◌ c (append text rest)

unfoldable pub size : String → ℕ
size String.[] = 0
size (String.◌∷◌ c text) = suc (size text)

unfoldable pub closes : String → Bool
closes String.[] = false
closes (String.◌∷◌ c String.[]) = false
closes (String.◌∷◌ c (String.◌∷◌ d text)) = nat_beq (code c) 125 && nat_beq (code d) 125

-- `{{name}}`
unfoldable pub token : String → String
unfolding append
token name = String.◌∷◌ "{" (String.◌∷◌ "{" (append name "}}"))

-- The context of a forwarder has the text of each value, or nothing for a value that is not set.
unfoldable pub repl : Dict String (Option String) → String → String
unfolding token lookup
repl ctx key = elim (lookup key ctx) [
  | none ↦ token key
  | some none ↦ ""
  | some (some value) ↦ value
]

unfoldable pub get : Dict String String → String → String
unfolding token lookup
get ctx name = elim (lookup name ctx) [ none ↦ token name | some value ↦ value ]

module _ (is_word : Char → Bool) where
  -- The longest run of word characters, and what is behind it.
  unfoldable pub word : String → String × String
  word String.[] = ("", "")
  word (String.◌∷◌ c text) =
      let (run, rest) = word text in
      if is_word c then (String.◌∷◌ c run, rest) else ("", String.◌∷◌ c text)

  unfoldable pub named : String × String → Option String
  unfolding closes
  named (String.[], rest) = none
  named (String.◌∷◌ c run, rest) = if closes rest then some (String.◌∷◌ c run) else none

  -- The name of the token that a text begins with.
  unfoldable pub token_at : String → Option String
  unfolding word named
  token_at String.[] = none
  token_at (String.◌∷◌ c String.[]) = none
  token_at (String.◌∷◌ c (String.◌∷◌ d text)) =
      if nat_beq (code c) 123 && nat_beq (code d) 123 then named (word text) else none

  -- `_TOKEN_RE.sub`, where the first `skip` characters belong to a token before them.
  unfoldable pub sub : (repl : String → String) → (skip : ℕ) → String → String
  unfolding token_at append size
  sub repl skip String.[] = String.[]
  sub repl (suc skip) (String.◌∷◌ c text) = sub repl skip text
  sub repl zero (String.◌∷◌ c text) = elim (token_at (String.◌∷◌ c text)) [
    | none ↦ String.◌∷◌ c (sub repl zero text)
    | some name ↦ append (repl name) (sub repl (size name + 3) text)
  ]

  -- `_render`
  unfoldable pub render : Dict String (Option String) → String → String
  unfolding sub repl
  render ctx template = if template == "" then "" else sub (repl ctx) 0 template

  unfoldable pub render_template : Dict String String → String → String
  unfolding sub get
  render_template ctx template = if template == "" then "" else sub (get ctx) 0 template
