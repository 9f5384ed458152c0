-- ===== src/LogText/RoundTrip.antt =====
-- A line of webui/system_log_store.py and webui/forwarders/log_store.py read back.
use google_find_my_tools_web.Prelude.{
  ap, ◌≤◌, inr, length, zero, All, inl, Bool-cases, arith, refl, ◌∷◌, ◌≡◌, String,
}
use google_find_my_tools_web.LogText.{
  true, [], suc, List, false, Char, Bool, ℕ, is_break, is_tab, squeeze, sanitize, split, join,
  before_tab, onto_first,
}

-- No tab, carriage return or newline.
abbrev pub Clean : String → Type 0
Clean String.[] = Unit
Clean (String.◌∷◌ c text) = (is_break c ≡ false) × Clean text

squeeze-Clean : (in_run : Bool) (text : String) → Clean (squeeze in_run text)
unfolding squeeze is_break is_tab
squeeze-Clean in_run String.[] = tt
squeeze-Clean true (String.◌∷◌ c text) = elim (Bool-cases (is_break c)) [
  | inl breaks ↦ rw (breaks) (squeeze-Clean true text)
  | inr plain ↦ rw (plain) (plain, squeeze-Clean false text)
]
squeeze-Clean false (String.◌∷◌ c text) = elim (Bool-cases (is_break c)) [
  | inl breaks ↦ rw (breaks) (refl, squeeze-Clean true text)
  | inr plain ↦ rw (plain) (plain, squeeze-Clean false text)
]

pub sanitize-Clean : (text : String) → Clean (sanitize text)
unfolding sanitize
sanitize-Clean text = squeeze-Clean false text

squeeze-unchanged : (in_run : Bool) (text : String) → Clean text → squeeze in_run text ≡ text
unfolding squeeze
squeeze-unchanged in_run String.[] clean = refl
squeeze-unchanged in_run (String.◌∷◌ c text) (plain, clean) =
    rw (plain, squeeze-unchanged false text clean) refl

pub sanitize-unchanged : (text : String) → Clean text → sanitize text ≡ text
unfolding sanitize
sanitize-unchanged text clean = squeeze-unchanged false text clean

Clean-no_tab : (c : Char) → is_break c ≡ false → is_tab c ≡ false
unfolding is_break
Clean-no_tab c plain = ground arith

split-before_tab :
    (n : ℕ) (field rest : String)
    → Clean field
    → split (suc n) (before_tab field rest) ≡ field ∷ split n rest
unfolding split before_tab onto_first is_tab
split-before_tab n String.[] rest clean = refl
split-before_tab n (String.◌∷◌ c field) rest (plain, clean) =
    rw (Clean-no_tab c plain, split-before_tab n field rest clean) refl

pub split-Clean : (n : ℕ) (field : String) → Clean field → split n field ≡ field ∷ []
unfolding split onto_first
split-Clean zero field clean = refl
split-Clean (suc n) String.[] clean = refl
split-Clean (suc n) (String.◌∷◌ c field) (plain, clean) =
    rw (Clean-no_tab c plain, split-Clean (suc n) field clean) refl

-- Up to n + 1 texts without breaks come back from their line.
pub split-join :
    (n : ℕ) (field : String) (fields : List String)
    → All Clean (field ∷ fields)
    → length fields ≤ n
    → split n (join (field ∷ fields)) ≡ field ∷ fields
unfolding join
split-join n field [] (clean, rest) small = split-Clean n field clean
split-join zero field (next ∷ fields) clean small = absurd (omega arith)
split-join (suc n) field (next ∷ fields) (clean, rest) small =
    rw (split-before_tab n field (join (next ∷ fields)) clean)
      (ap (λ fs. field ∷ fs) (split-join n next fields rest (omega arith)))

pub sanitize_idem : (text : String) → sanitize (sanitize text) ≡ sanitize text
sanitize_idem text = sanitize-unchanged (sanitize text) (sanitize-Clean text)
