-- ===== src/LogText/Numbers.antt =====
-- `str` of a number and `int` of its text, for the times of the log lines.
use Prim.Native.Char.{code}
use google_find_my_tools_web.Prelude.{
  eq_iff, string_eq, [], ◌==◌, map, ◌≤◌, ◌∷◌, All, length, ◌/◌, inr, sym, ◌%◌, zero, ◌∙◌, inl, ◌*◌,
  ap, ◌+◌, refl, arith, Bool-cases, ◌<◌, ◌≡◌,
}
use google_find_my_tools_web.Prelude.Int.{ℤ, pos, negsuc}
use google_find_my_tools_web.LogText.{
  none, List, false, ltb, true, Bool, String, ℕ, suc, some, is_break, is_tab, char_in, digit,
  digits, str, is_digit, is_space, number, non_negative, negative, signed, strip_left, int,
  sanitize, split, join,
}
use google_find_my_tools_web.LogText.RoundTrip.{Clean, sanitize-Clean, split-join, split-Clean}

-- Characters with the codes from n on.
abbrev Consecutive : ℕ → String → Type 0
Consecutive n String.[] = Unit
Consecutive n (String.◌∷◌ c text) = (code c ≡ n) × Consecutive (suc n) text

abbrev size : String → ℕ
size String.[] = 0
size (String.◌∷◌ c text) = suc (size text)

code-char_in :
    (n k : ℕ) (text : String) → Consecutive k text → n < size text → code (char_in n text) ≡ k + n
unfolding char_in
code-char_in n k String.[] h small = absurd (omega arith)
code-char_in zero k (String.◌∷◌ c text) (e, h) small = omega (arith, e)
code-char_in (suc n) k (String.◌∷◌ c text) (e, h) small =
    omega (arith, code-char_in n (suc k) text h (omega arith))

code-digit : (n : ℕ) → n < 10 → code (digit n) ≡ 48 + n
unfolding digit
code-digit n small =
    code-char_in n 48 "0123456789"
      (refl, (refl, (refl, (refl, (refl, (refl, (refl, (refl, (refl, (refl, tt)))))))))) small

is_digit-digit : (n : ℕ) → n < 10 → is_digit (digit n) ≡ true
unfolding is_digit
is_digit-digit n small = ground (arith, code-digit n small)

number-digit :
    (n d : ℕ) (after_digit : Bool) (text : String)
    → d < 10
    → number n after_digit (String.◌∷◌ (digit d) text) ≡ number (10 * n + d) true text
unfolding number
number-digit n d after_digit text small =
    rw (number, is_digit-digit d small)
      (ap (λ k. number k true text) (omega (arith, code-digit d small)))

number-digits :
    (fuel n : ℕ) (text : String)
    → n < fuel
    → number 0 false (digits fuel n text) ≡ number n true text
unfolding digits
number-digits zero n text enough = absurd (omega arith)
number-digits (suc fuel) n text enough = elim (Bool-cases (ltb n 10)) [
  | inl one_digit ↦
      rw (digits, one_digit)
        (number-digit 0 (n % 10) false text (omega arith)
          ∙ ap (λ k. number k true text) (ground arith))
  | inr more ↦
      rw (digits, more)
        (number-digits fuel (n / 10) (String.◌∷◌ (digit (n % 10)) text) (ground arith)
          ∙ number-digit (n / 10) (n % 10) true text (omega arith)
          ∙ ap (λ k. number k true text) (omega arith))
]

-- A digit comes first, and no breaks come before the text.
digits-head :
    (fuel n : ℕ) (text : String)
    → n < fuel
    → (d : ℕ) × (rest : String) × (digits fuel n text ≡ String.◌∷◌ (digit d) rest) × (d < 10)
unfolding digits
digits-head zero n text enough = absurd (omega arith)
digits-head (suc fuel) n text enough = elim (Bool-cases (ltb n 10)) [
  | inl one_digit ↦ rw (digits, one_digit) (n % 10, text, refl, omega arith)
  | inr more ↦
      rw (digits, more)
        (digits-head fuel (n / 10) (String.◌∷◌ (digit (n % 10)) text) (ground arith))
]

digit-plain : (d : ℕ) → d < 10 → is_break (digit d) ≡ false
unfolding is_break is_tab
digit-plain d small = ground (arith, code-digit d small)

digits-Clean : (fuel n : ℕ) (text : String) → Clean text → Clean (digits fuel n text)
unfolding digits
digits-Clean zero n text clean = clean
digits-Clean (suc fuel) n text clean = elim (Bool-cases (ltb n 10)) [
  | inl one_digit ↦ rw (digits, one_digit) (digit-plain (n % 10) (omega arith), clean)
  | inr more ↦
      rw (digits, more)
        (digits-Clean fuel (n / 10) (String.◌∷◌ (digit (n % 10)) text)
          (digit-plain (n % 10) (omega arith), clean))
]

pub str-Clean : (z : ℤ) → Clean (str z)
unfolding str is_break is_tab
str-Clean (pos n) = digits-Clean (suc n) n "" tt
str-Clean (negsuc n) = (refl, digits-Clean (suc (suc n)) (suc n) "" tt)

int-digit :
    (d : ℕ) (rest : String)
    → d < 10
    → int (String.◌∷◌ (digit d) rest) ≡ non_negative (number 0 false (String.◌∷◌ (digit d) rest))
unfolding int strip_left signed is_space
int-digit d rest small = ground (arith, code-digit d small)

int-minus : (text : String) → int (String.◌∷◌ "-" text) ≡ negative (number 0 false text)
unfolding int strip_left signed is_space
int-minus text = refl

pub int-str : (z : ℤ) → int (str z) ≡ some z
unfolding str non_negative negative number
int-str (pos n) =
    let (d, rest, e, small) = digits-head (suc n) n "" (omega arith) in
    ap int e
    ∙ int-digit d rest small
    ∙ ap non_negative (sym (ap (number 0 false) e))
    ∙ ap non_negative (number-digits (suc n) n "" (omega arith))
    ∙ refl
int-str (negsuc n) =
    int-minus (digits (suc (suc n)) (suc n) "")
    ∙ ap negative (number-digits (suc (suc n)) (suc n) "" (omega arith))
    ∙ refl

All-sanitize : (fields : List String) → All Clean (map sanitize fields)
All-sanitize [] = tt
All-sanitize (field ∷ fields) = (sanitize-Clean field, All-sanitize fields)

length-sanitize : (fields : List String) → length (map sanitize fields) ≡ length fields
length-sanitize [] = refl
length-sanitize (field ∷ fields) = ap suc (length-sanitize fields)

-- A time and up to n texts come back from their line, as they stand in it.
pub split-line :
    (n : ℕ) (time : ℤ) (fields : List String)
    → length fields ≤ n
    → split n (join (str time ∷ map sanitize fields)) ≡ str time ∷ map sanitize fields
split-line n time fields small =
    split-join n (str time) (map sanitize fields) (str-Clean time, All-sanitize fields)
      (omega (arith, length-sanitize fields))

first : List String → String
first [] = ""
first (text ∷ texts) = text

int-empty : int "" ≡ none
unfolding int strip_left signed
int-empty = refl

-- Which is never the empty line.
pub line-proper :
    (time : ℤ) (fields : List String) → (join (str time ∷ map sanitize fields) == "") ≡ false
unfolding first
line-proper time fields = elim (Bool-cases (join (str time ∷ map sanitize fields) == "")) [
  | inl empty ↦
      let line : join (str time ∷ map sanitize fields) ≡ "" =
        (eq_iff (join (str time ∷ map sanitize fields)) "").0 empty in
      let same : str time ∷ map sanitize fields ≡ "" ∷ [] =
        sym (split-line (length fields) time fields (omega arith))
        ∙ ap (split (length fields)) line
        ∙ split-Clean (length fields) "" tt in
      let no_time : int (str time) ≡ none = ap int (ap first same) ∙ int-empty in cc (int-str time)
  | inr proper ↦ proper
]
