-- ===== src/TokenCache/Tests.antt =====
-- Runs of token_cache.py, and its theorems at concrete files.
use google_find_my_tools_web.Prelude.{
  ℕ, Bool, true, false, Option, none, some, [], ◌∷◌, String, string_eq, ◌≡◌, refl, nat_beq,
  nat_beq_refl, ◌==◌, if◌then◌else◌, inl,
}
use google_find_my_tools_web.Prelude.Dict.{Dict, lookup, insert}
use google_find_my_tools_web.TokenCache.{
  missing, holds, Store, Cipher, encrypt_all, get_cached_value, set_cached_value,
}
use google_find_my_tools_web.TokenCache.Map.{Works, view, set-view}
use google_find_my_tools_web.TokenCache.Migration.{set-plain}

-- A text, or a value that was encrypted under a key.
data Value : Type 0 where
  text : String → Value
  boxed : ℕ → Value → Value

abbrev is_boxed : Value → Bool
is_boxed (text t) = false
is_boxed (boxed k v) = true

abbrev unbox : ℕ → Value → Option Value
unbox key (text t) = none
unbox key (boxed k v) = if nat_beq k key then some v else none

abbrev box : Cipher Value ℕ
box = record {
  seal = λ key nonce v. boxed key v;
  is_sealed = is_boxed;
  unseal = unbox;
  is_true = λ v. true;
}

box-Works : Works box
box-Works = record { opens = λ key nonce v. rw (nat_beq_refl key); marks = λ key nonce v. refl }

program : Unit {0}
unfolding get_cached_value set_cached_value lookup insert encrypt_all
program = tt

abbrev on_file : Store Value
on_file = record {
  content = holds (("username", text "me") ∷ []);
  legacy = none;
  last_load_ok = true;
}

abbrev to_migrate : Store Value
to_migrate = record on_file { content = missing; legacy = some (("aas_token", text "secret") ∷ []) }

wrong_key :
    (get_cached_value box
      (some 8)
      0
      "k"
      (set_cached_value box (some 7) 0 "k" (text "v") on_file).1).0
    ≡ none
unfolding program
wrong_key = refl

set-view_example :
    ((set_cached_value box (some 7) 0 "k" (text "v") on_file).0 ≡ true)
    × (view box (some 7) (set_cached_value box (some 7) 0 "k" (text "v") on_file).1 "username" ≡ (
        if ◌==◌ {A = String} "k" "username"
        then some (text "v")
        else view box (some 7) on_file "username"))
set-view_example =
    set-view box box-Works (some 7) 0 "k" (text "v") on_file
      (inl (("username", text "me") ∷ [], refl)) refl "username"

token_there :
    lookup {K = String} "aas_token" (("aas_token", text "secret") ∷ []) ≡ some (text "secret")
unfolding lookup
token_there = refl

set-plain_example :
    ((get_cached_value box (some 7) 0 "aas_token" to_migrate).1.content
      ≡ holds (encrypt_all box (some 7) 0 (("aas_token", text "secret") ∷ [])))
    × ((file : Dict String Value) × ((set_cached_value box
            (some 7)
            0
            "k"
            (text "v")
            to_migrate).1.content
          ≡ holds file)
        × (lookup {K = String} "aas_token" file ≡ some (text "secret")))
set-plain_example =
    set-plain box 7 0 "k" (text "v") to_migrate (("aas_token", text "secret") ∷ []) "aas_token"
      (text "secret") refl refl token_there refl
