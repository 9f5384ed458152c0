-- ===== src/Template/Parts.antt =====
-- The templates of webui/forwarders/custom.py and webui/staleness.py as lists of parts.
use Prim.Native.Char.{Char}
use google_find_my_tools_web.Prelude.{
  sym, ◌∙◌, arith, suc, ◌+◌, ◌∷◌, some, false, true, [], ap, refl, none, Bool, List, String, ◌≡◌,
}
use google_find_my_tools_web.Template.{append, size, closes, token, word, named, token_at, sub}

pub data Part : Type 0 where
  literal : Char → Part
  variable : String → Part

unfoldable pub print : List Part → String
unfolding token
print [] = ""
print (literal c ∷ parts) = String.◌∷◌ c (print parts)
print (variable name ∷ parts) = append (token name) (print parts)

-- The text with each variable replaced.
unfoldable pub filled : (repl : String → String) → List Part → String
filled repl [] = ""
filled repl (literal c ∷ parts) = String.◌∷◌ c (filled repl parts)
filled repl (variable name ∷ parts) = append (repl name) (filled repl parts)

pub append_assoc : (a b c : String) → append (append a b) c ≡ append a (append b c)
unfolding append
append_assoc String.[] b c = refl
append_assoc (String.◌∷◌ x a) b c = ap (λ text. String.◌∷◌ x text) (append_assoc a b c)

module _ (is_word : Char → Bool) where
  abbrev pub AllWord : String → Type 0
  AllWord String.[] = Unit
  AllWord (String.◌∷◌ c name) = (is_word c ≡ true) × AllWord name

  -- `\w+`
  abbrev pub Word : String → Type 0
  Word String.[] = ⊥
  Word (String.◌∷◌ c name) = (is_word c ≡ true) × AllWord name

  -- No literal character begins a token, and the variables have names.
  abbrev pub Proper : List Part → Type 0
  Proper [] = Unit
  Proper (literal c ∷ parts) = (token_at is_word (String.◌∷◌ c (print parts)) ≡ none) × Proper parts
  Proper (variable name ∷ parts) = Word name × Proper parts

  word-append :
      (name rest : String)
      → AllWord name
      → is_word "}" ≡ false
      → word is_word (append name (String.◌∷◌ "}" rest)) ≡ (name, String.◌∷◌ "}" rest)
  unfolding word append
  word-append String.[] rest all_word brace = rw (brace) refl
  word-append (String.◌∷◌ c name) rest (is, all_word) brace =
      rw (is, word-append name rest all_word brace) refl

  pub sub-skip :
      (repl : String → String) (skipped rest : String)
      → sub is_word repl (size skipped) (append skipped rest) ≡ sub is_word repl 0 rest
  unfolding sub append size
  sub-skip repl String.[] rest = refl
  sub-skip repl (String.◌∷◌ c skipped) rest = sub-skip repl skipped rest

  pub token_at-token :
      (name rest : String)
      → Word name
      → is_word "}" ≡ false
      → token_at is_word (append (token name) rest) ≡ some name
  unfolding token_at token named closes append
  token_at-token String.[] rest w brace = absurd w
  token_at-token (String.◌∷◌ c name) rest (is, all_word) brace =
      rw (is, append_assoc name "}}" rest, word-append name (String.◌∷◌ "}" rest) all_word brace)
        refl

  size-append : (a b : String) → size (append a b) ≡ size a + size b
  unfolding append size
  size-append String.[] b = omega arith
  size-append (String.◌∷◌ c a) b = omega (arith, size-append a b)

  pub size-braces : (name : String) → suc (size (append name "}}")) ≡ size name + 3
  unfolding size
  size-braces name = omega (arith, size-append name "}}")

  sub-some :
      (repl : String → String) (c : Char) (text name : String)
      → token_at is_word (String.◌∷◌ c text) ≡ some name
      → sub is_word repl 0 (String.◌∷◌ c text)
        ≡ append (repl name) (sub is_word repl (size name + 3) text)
  unfolding sub
  sub-some repl c text name e = rw (sub, e) refl

  sub-none :
      (repl : String → String) (c : Char) (text : String)
      → token_at is_word (String.◌∷◌ c text) ≡ none
      → sub is_word repl 0 (String.◌∷◌ c text) ≡ String.◌∷◌ c (sub is_word repl 0 text)
  unfolding sub
  sub-none repl c text e = rw (sub, e) refl

  sub-token :
      (repl : String → String) (name rest : String)
      → Word name
      → is_word "}" ≡ false
      → sub is_word repl 0 (append (token name) rest) ≡ append (repl name) (sub is_word repl 0 rest)
  unfolding token append size
  sub-token repl name rest w brace =
      let inside : String = String.◌∷◌ "{" (append name "}}") in
      sub-some repl "{" (append inside rest) name (token_at-token name rest w brace)
      ∙ ap (λ n. append (repl name) (sub is_word repl n (append inside rest)))
          (sym (size-braces name))
      ∙ ap (append (repl name)) (sub-skip repl inside rest)

  sub-empty : (repl : String → String) → sub is_word repl 0 "" ≡ ""
  unfolding sub
  sub-empty repl = refl

  pub sub-print :
      (repl : String → String) (parts : List Part)
      → Proper parts
      → is_word "}" ≡ false
      → sub is_word repl 0 (print parts) ≡ filled repl parts
  unfolding print filled
  sub-print repl [] proper brace = sub-empty repl
  sub-print repl (literal c ∷ parts) (none_here, proper) brace =
      sub-none repl c (print parts) none_here
      ∙ ap (λ text. String.◌∷◌ c text) (sub-print repl parts proper brace)
  sub-print repl (variable name ∷ parts) (w, proper) brace =
      sub-token repl name (print parts) w brace
      ∙ ap (append (repl name)) (sub-print repl parts proper brace)
