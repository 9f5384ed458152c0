-- ===== src/Template/Tokens.antt =====
-- Every template of webui/forwarders/custom.py and webui/staleness.py is made of parts, in one way.
use Prim.Native.Char.{Char, code}
use mathlib.Core.Path.{subst}
use text.Mathlib.TextEquality.{Char-path}
use text.Mathlib.TextLemmas.{tail-eq_of_cons-eq}
use google_find_my_tools_web.Prelude.{
  string_eq, Option-cases, if◌then◌else◌, zero, ◌&&◌, suc, arith, nat_beq, ◌∙◌, [], inr, inl, sym,
  ap, refl, true, ℕ, ◌+◌, Bool-cases, List, none, some, Bool, String, ◌∷◌, ◌≡◌,
}
use google_find_my_tools_web.Template.{append, size, closes, token, word, named, token_at}
use google_find_my_tools_web.Template.Parts.{
  Part, literal, variable, print, append_assoc, Word, AllWord, Proper, size-braces,
}

module _ (is_word : Char → Bool) where
  -- What `word` and `token_at` split.
  word-splits :
      (text : String)
      → ((AllWord is_word) (word is_word text).0)
        × (append (word is_word text).0 (word is_word text).1 ≡ text)
  unfolding word append
  word-splits String.[] = (tt, refl)
  word-splits (String.◌∷◌ c text) = elim (Bool-cases (is_word c)) [
    | inl is ↦ rw (is) ((is, (word-splits text).0), ap (λ t. String.◌∷◌ c t) (word-splits text).1)
    | inr other ↦ rw (other) (tt, refl)
  ]

  closes-shape : (text : String) → closes text ≡ true → (rest : String) × (text ≡ append "}}" rest)
  unfolding closes append
  closes-shape String.[] e = absurd (ground arith)
  closes-shape (String.◌∷◌ c String.[]) e = absurd (ground arith)
  closes-shape (String.◌∷◌ c (String.◌∷◌ d rest)) e =
      (rest, cc (Char-path c "}" (ground arith), Char-path d "}" (ground arith)))

  named-shape :
      (run rest name : String)
      → (AllWord is_word) run
      → named is_word (run, rest) ≡ some name
      → (run ≡ name) × (Word is_word) name × (closes rest ≡ true)
  unfolding named
  named-shape String.[] rest name all_word e = absurd (cc e)
  named-shape (String.◌∷◌ c run) rest name (is, all_word) e = elim (Bool-cases (closes rest)) [
    | inr unclosed ↦ absurd (
        subst (λ b. (if b then some (String.◌∷◌ c run) else none) ≡ some name → ⊥) (sym unclosed)
          (λ h. cc h) e)
    | inl closed ↦
        let same : some (String.◌∷◌ c run) ≡ some name =
          subst (λ b. (if b then some (String.◌∷◌ c run) else none) ≡ some name) closed e in
        let equal : String.◌∷◌ c run ≡ name = cc same in
        (equal, subst (Word is_word) equal (is, all_word), closed)
  ]

  token_at-shape :
      (text name : String)
      → token_at is_word text ≡ some name
      → (rest : String) × (text ≡ append (token name) rest) × (Word is_word) name
  unfolding token_at token append
  token_at-shape String.[] name e = absurd (cc e)
  token_at-shape (String.◌∷◌ c String.[]) name e = absurd (cc e)
  token_at-shape (String.◌∷◌ c (String.◌∷◌ d text)) name e =
      elim (Bool-cases (nat_beq (code c) 123 && nat_beq (code d) 123)) [
        | inr other ↦ absurd (
            subst (λ b. (if b then named is_word (word is_word text) else none) ≡ some name → ⊥)
              (sym other) (λ h. cc h) e)
        | inl braces ↦
            let found : named is_word (word is_word text) ≡ some name =
              subst (λ b. (if b then named is_word (word is_word text) else none) ≡ some name)
                braces e in
            let (all_word, split) = word-splits text in
            let (same, w, closed) =
              named-shape (word is_word text).0 (word is_word text).1 name all_word found in
            let (rest, shut) = closes-shape (word is_word text).1 closed in
            let c_brace : c ≡ "{" = Char-path c "{" (ground arith) in
            let d_brace : d ≡ "{" = Char-path d "{" (ground arith) in
            let tail : text ≡ append (append name "}}") rest =
              sym split
              ∙ ap (λ run. append run (word is_word text).1) same
              ∙ ap (append name) shut
              ∙ sym (append_assoc name "}}" rest) in
            (rest, cc (c_brace, d_brace, tail), w)
      ]

  unfoldable pub without : ℕ → String → String
  without zero text = text
  without (suc n) String.[] = String.[]
  without (suc n) (String.◌∷◌ c text) = without n text

  -- The parts of a text behind its first characters.
  unfoldable pub parse : (skip : ℕ) → String → List Part
  unfolding token_at
  parse skip String.[] = []
  parse (suc skip) (String.◌∷◌ c text) = parse skip text
  parse zero (String.◌∷◌ c text) = elim (token_at is_word (String.◌∷◌ c text)) [
    | none ↦ literal c ∷ parse zero text
    | some name ↦ variable name ∷ parse (size name + 3) text
  ]

  without-size : (skipped rest : String) → without (size skipped) (append skipped rest) ≡ rest
  unfolding without size append
  without-size String.[] rest = refl
  without-size (String.◌∷◌ c skipped) rest = without-size skipped rest

  pub parse-none :
      (c : Char) (text : String)
      → token_at is_word (String.◌∷◌ c text) ≡ none
      → parse 0 (String.◌∷◌ c text) ≡ literal c ∷ parse 0 text
  unfolding parse
  parse-none c text e = rw (parse, e) refl

  pub parse-some :
      (c : Char) (text name : String)
      → token_at is_word (String.◌∷◌ c text) ≡ some name
      → parse 0 (String.◌∷◌ c text) ≡ variable name ∷ parse (size name + 3) text
  unfolding parse
  parse-some c text name e = rw (parse, e) refl

  token-without :
      (c : Char) (text name rest : String)
      → String.◌∷◌ c text ≡ append (token name) rest
      → append (token name) (without (size name + 3) text) ≡ String.◌∷◌ c text
  unfolding token append size
  token-without c text name rest e =
      let inside : String = String.◌∷◌ "{" (append name "}}") in
      let behind : without (size name + 3) text ≡ rest =
        ap (without (size name + 3)) (tail-eq_of_cons-eq e)
        ∙ ap (λ n. without n (append inside rest)) (sym (size-braces is_word name))
        ∙ without-size inside rest in
      ap (append (token name)) behind ∙ sym e

  pub print-parse : (skip : ℕ) (text : String) → print (parse skip text) ≡ without skip text
  unfolding print without parse
  print-parse zero String.[] = refl
  print-parse (suc skip) String.[] = refl
  print-parse (suc skip) (String.◌∷◌ c text) = print-parse skip text
  print-parse zero (String.◌∷◌ c text) =
      elim (Option-cases (token_at is_word (String.◌∷◌ c text))) [
        | inl e ↦ ap print (parse-none c text e) ∙ ap (λ t. String.◌∷◌ c t) (print-parse zero text)
        | inr (name, e) ↦
            let (rest, shape, w) = token_at-shape (String.◌∷◌ c text) name e in
            ap print (parse-some c text name e)
            ∙ ap (append (token name)) (print-parse (size name + 3) text)
            ∙ token-without c text name rest shape
      ]

  pub parse-Proper : (skip : ℕ) (text : String) → (Proper is_word) (parse skip text)
  unfolding parse without
  parse-Proper zero String.[] = tt
  parse-Proper (suc skip) String.[] = tt
  parse-Proper (suc skip) (String.◌∷◌ c text) = parse-Proper skip text
  parse-Proper zero (String.◌∷◌ c text) =
      elim (Option-cases (token_at is_word (String.◌∷◌ c text))) [
        | inl e ↦ subst (Proper is_word) (sym (parse-none c text e)) (
          ap (λ t. token_at is_word (String.◌∷◌ c t)) (print-parse zero text) ∙ e,
          parse-Proper zero text,
        )
        | inr (name, e) ↦
            let (rest, shape, w) = token_at-shape (String.◌∷◌ c text) name e in
            subst (Proper is_word) (sym (parse-some c text name e))
              (w, parse-Proper (size name + 3) text)
      ]
