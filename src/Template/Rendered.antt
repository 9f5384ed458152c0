-- ===== src/Template/Rendered.antt =====
-- The output of a template of webui/forwarders/custom.py or webui/staleness.py, part by part.
use Prim.Native.Char.{Char}
use mathlib.Core.Path.{subst}
use text.Mathlib.TextLemmas.{cons≢nil}
use google_find_my_tools_web.Prelude.{
  none, some, Option-cases, ◌⊎◌, string_eq, inr, eq_iff, inl, sym, Bool-cases, ap, ◌==◌, Option,
  ◌∙◌, refl, false, String, ◌∷◌, ◌≡◌, [], List, Bool,
}
use google_find_my_tools_web.Prelude.Dict.{Dict, lookup}
use google_find_my_tools_web.Template.{
  append, size, token, sub, repl, get, render, render_template, token_at,
}
use google_find_my_tools_web.Template.Parts.{
  Part, literal, variable, print, filled, Word, Proper, size-braces, token_at-token, sub-print,
}
use google_find_my_tools_web.Template.Tokens.{
  without, parse, parse-none, parse-some, print-parse, parse-Proper,
}

cons-nonempty : (c : Char) (text : String) → (String.◌∷◌ c text == "") ≡ false
cons-nonempty c text = elim (Bool-cases (String.◌∷◌ c text == "")) [
  | inl empty ↦ absurd (cons≢nil ((eq_iff (String.◌∷◌ c text) "").0 empty))
  | inr other ↦ other
]

abbrev braces : String → String
braces name = String.◌∷◌ "{" (String.◌∷◌ "{" (append name "}}"))

-- The text of a name of a forwarder's context: the token of an unknown name, nothing for a value
-- that is not set, and else the value.
abbrev pub InContext : Dict String (Option String) → (name text : String) → Type 0
InContext ctx name text =
    (lookup name ctx ≡ none) × (text ≡ braces name)
    ⊎ (lookup name ctx ≡ some none) × (text ≡ "")
    ⊎ (lookup name ctx ≡ some (some text))

-- The text of a name in a message.
abbrev pub InMessage : Dict String String → (name text : String) → Type 0
InMessage names name text =
    (lookup name names ≡ none) × (text ≡ braces name) ⊎ (lookup name names ≡ some text)

-- The literals as they stand, with a text for each name between them.
abbrev pub Fills : (String → String → Type 0) → List Part → String → Type 0
Fills value [] text = text ≡ ""
Fills value (literal c ∷ parts) text =
    (rest : String) × (text ≡ String.◌∷◌ c rest) × Fills value parts rest
Fills value (variable name ∷ parts) text =
    (put : String) × (rest : String) × value name put
    × (text ≡ append put rest)
    × Fills value parts rest

repl-InContext :
    (ctx : Dict String (Option String)) (name : String) → InContext ctx name (repl ctx name)
unfolding repl token
repl-InContext ctx name = elim (Option-cases (lookup name ctx)) [
  | inl unknown ↦ inl (unknown, rw (repl, unknown) refl)
  | inr (none, unset) ↦ inr (inl (unset, rw (repl, unset) refl))
  | inr (some value, set) ↦ inr (inr (set ∙ ap (λ v. some (some v)) (rw (repl, set) refl)))
]

get-InMessage : (names : Dict String String) (name : String) → InMessage names name (get names name)
unfolding get token
get-InMessage names name = elim (Option-cases (lookup name names)) [
  | inl unknown ↦ inl (unknown, rw (get, unknown) refl)
  | inr (value, known) ↦ inr (known ∙ ap some (rw (get, known) refl))
]

filled-Fills :
    (with_ : String → String) (value : String → String → Type 0) (parts : List Part)
    → ((name : String) → value name (with_ name))
    → Fills value parts (filled with_ parts)
unfolding filled
filled-Fills with_ value [] h = refl
filled-Fills with_ value (literal c ∷ parts) h = (_, refl, filled-Fills with_ value parts h)
filled-Fills with_ value (variable name ∷ parts) h =
    (_, _, h name, refl, filled-Fills with_ value parts h)

module _ (is_word : Char → Bool) where
  parse-skip :
      (skipped rest : String)
      → parse is_word (size skipped) (append skipped rest) ≡ parse is_word 0 rest
  unfolding parse append size
  parse-skip String.[] rest = refl
  parse-skip (String.◌∷◌ c skipped) rest = parse-skip skipped rest

  parse-token :
      (name rest : String)
      → Word is_word name
      → is_word "}" ≡ false
      → parse is_word 0 (append (token name) rest) ≡ variable name ∷ parse is_word 0 rest
  unfolding token append size
  parse-token name rest w brace =
      let inside : String = String.◌∷◌ "{" (append name "}}") in
      parse-some is_word "{" (append inside rest) name (token_at-token is_word name rest w brace)
      ∙ ap (λ n. variable name ∷ parse is_word n (append inside rest))
          (sym (size-braces is_word name))
      ∙ ap (λ parts. variable name ∷ parts) (parse-skip inside rest)

  -- No other parts make up the same template.
  parse-print :
      (parts : List Part)
      → Proper is_word parts
      → is_word "}" ≡ false
      → parse is_word 0 (print parts) ≡ parts
  unfolding print parse
  parse-print [] proper brace = refl
  parse-print (literal c ∷ parts) (none_here, proper) brace =
      parse-none is_word c (print parts) none_here
      ∙ ap (λ ps. literal c ∷ ps) (parse-print parts proper brace)
  parse-print (variable name ∷ parts) (w, proper) brace =
      parse-token name (print parts) w brace
      ∙ ap (λ ps. variable name ∷ ps) (parse-print parts proper brace)

  replaced :
      (with_ : String → String) (template : String) (parts : List Part)
      → Proper is_word parts
      → print parts ≡ template
      → is_word "}" ≡ false
      → sub is_word with_ 0 template ≡ filled with_ parts
  replaced with_ template parts proper printed brace =
      ap (sub is_word with_ 0) (sym printed) ∙ sub-print is_word with_ parts proper brace

  render-sub :
      (ctx : Dict String (Option String)) (template : String)
      → render is_word ctx template ≡ sub is_word (repl ctx) 0 template
  unfolding render sub
  render-sub ctx String.[] = refl
  render-sub ctx (String.◌∷◌ c template) = rw (cons-nonempty c template) refl

  render_template-sub :
      (names : Dict String String) (template : String)
      → render_template is_word names template ≡ sub is_word (get names) 0 template
  unfolding render_template sub
  render_template-sub names String.[] = refl
  render_template-sub names (String.◌∷◌ c template) = rw (cons-nonempty c template) refl

  -- No token stands at a literal character, and the variables have names of word characters.
  abbrev pub Split : List Part → Type 0
  Split [] = Unit
  Split (literal c ∷ parts) =
      ((name rest : String)
        → Word is_word name
        → String.◌∷◌ c (print parts) ≡ append (braces name) rest
        → ⊥)
      × Split parts
  Split (variable name ∷ parts) = Word is_word name × Split parts

  no_token :
      (text name rest : String)
      → token_at is_word text ≡ none
      → is_word "}" ≡ false
      → Word is_word name
      → text ≡ append (braces name) rest
      → ⊥
  unfolding token
  no_token text name rest none_here brace w e =
      cc (none_here, ap (token_at is_word) e, token_at-token is_word name rest w brace)

  Proper-Split : (parts : List Part) → Proper is_word parts → is_word "}" ≡ false → Split parts
  Proper-Split [] proper brace = tt
  Proper-Split (literal c ∷ parts) (none_here, proper) brace = (
    λ name rest w e. no_token (String.◌∷◌ c (print parts)) name rest none_here brace w e,
    Proper-Split parts proper brace,
  )
  Proper-Split (variable name ∷ parts) (w, proper) brace = (w, Proper-Split parts proper brace)

  -- If `}` is no word character: a template is the text of a list of literal characters and
  -- variables, whose names are made of word characters, and no token begins at a literal character;
  -- and both renderings keep its literals and put in the place of each variable its value, nothing
  -- if the value is not set, or the token itself if the name is unknown.
  pub render-filled :
      (template : String) (ctx : Dict String (Option String)) (names : Dict String String)
      → is_word "}" ≡ false
      → (parts : List Part) × Split parts
        × (print parts ≡ template)
        × Fills (InContext ctx) parts (render is_word ctx template)
        × Fills (InMessage names) parts (render_template is_word names template)
  unfolding without
  render-filled template ctx names brace =
      let parts : List Part = parse is_word 0 template in
      let proper : Proper is_word parts = parse-Proper is_word 0 template in
      let printed : print parts ≡ template = print-parse is_word 0 template in
      (
        parts,
        Proper-Split parts proper brace,
        printed,
        subst (Fills (InContext ctx) parts)
            (sym
              (render-sub ctx template ∙ replaced (repl ctx) template parts proper printed brace))
            (filled-Fills (repl ctx) (InContext ctx) parts (repl-InContext ctx)),
        subst (Fills (InMessage names) parts)
            (sym (
              render_template-sub names template
              ∙ replaced (get names) template parts proper printed brace))
            (filled-Fills (get names) (InMessage names) parts (get-InMessage names)),
      )
