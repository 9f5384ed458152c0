-- ===== src/LogText.antt =====
-- The lines that webui/system_log_store.py and webui/forwarders/log_store.py share: texts without
-- breaks behind a time, with a tab between them. A text is its characters; a number in a text has
-- digits, a sign and white space of ASCII only.
use Prim.Native.Char.{Char, code, nul}
use google_find_my_tools_web.Prelude.{
  ◌&&◌, ◌*◌, ◌+◌, ◌-◌, ◌/◌, ◌%◌, ◌∷◌, ◌||◌, [], Bool, List, Option, String, false, if◌then◌else◌,
  leb, ltb, nat_beq, none, some, suc, true, zero, ℕ,
}
use google_find_my_tools_web.Prelude.Int.{ℤ, negsuc, pos}
pub mod Numbers
pub mod RoundTrip
mod Tests

unfoldable pub is_tab : Char → Bool
is_tab c = nat_beq (code c) 9

-- `[\t\r\n]`
unfoldable pub is_break : Char → Bool
unfolding is_tab
is_break c = is_tab c || (nat_beq (code c) 13 || nat_beq (code c) 10)

-- The text with one space for each run of breaks, the first one left out in a run.
unfoldable pub squeeze : (in_run : Bool) → String → String
squeeze in_run String.[] = String.[]
squeeze in_run (String.◌∷◌ c text) =
    let rest = squeeze (is_break c) text in
    if is_break c then (if in_run then rest else String.◌∷◌ " " rest) else String.◌∷◌ c rest

unfoldable pub sanitize : String → String
unfolding squeeze
sanitize text = squeeze false text

-- The text, a tab, and the rest.
unfoldable pub before_tab : String → String → String
before_tab String.[] rest = String.◌∷◌ "\t" rest
before_tab (String.◌∷◌ c text) rest = String.◌∷◌ c (before_tab text rest)

-- `"\t".join(fields)`
unfoldable pub join : List String → String
join [] = ""
join (field ∷ []) = field
join (field ∷ fields) = before_tab field (join fields)

unfoldable pub onto_first : Char → List String → List String
onto_first c [] = []
onto_first c (field ∷ fields) = String.◌∷◌ c field ∷ fields

-- `text.split("\t", n)`
unfoldable pub split : (n : ℕ) → String → List String
split zero text = text ∷ []
split (suc n) String.[] = "" ∷ []
split (suc n) (String.◌∷◌ c text) =
    let after = split n text in
    let within = split (suc n) text in if is_tab c then "" ∷ after else onto_first c within

unfoldable pub char_in : ℕ → String → Char
char_in n String.[] = nul
char_in zero (String.◌∷◌ c text) = c
char_in (suc n) (String.◌∷◌ c text) = char_in n text

unfoldable pub digit : ℕ → Char
unfolding char_in
digit n = char_in n "0123456789"

-- The digits of n before a text.
unfoldable pub digits : (fuel : ℕ) → ℕ → String → String
digits zero n text = text
digits (suc fuel) n text = elim (ltb n 10) [
  | true ↦ String.◌∷◌ (digit (n % 10)) text
  | false ↦ digits fuel (n / 10) (String.◌∷◌ (digit (n % 10)) text)
]

-- `str`
unfoldable pub str : ℤ → String
unfolding digits
str (pos n) = digits (suc n) n ""
str (negsuc n) = String.◌∷◌ "-" (digits (suc (suc n)) (suc n) "")

unfoldable pub is_digit : Char → Bool
is_digit c = leb 48 (code c) && leb (code c) 57

unfoldable pub is_space : Char → Bool
is_space c =
    nat_beq (code c) 32
    || (leb 9 (code c) && leb (code c) 13)
    || (leb 28 (code c) && leb (code c) 31)

unfoldable pub blank : String → Bool
unfolding is_space
blank String.[] = true
blank (String.◌∷◌ c text) = is_space c && blank text

-- The number that goes on in a text, where a digit came last or not; one `_` may stand between two
-- digits, and white space behind the last.
unfoldable pub number : (so_far : ℕ) → (after_digit : Bool) → String → Option ℕ
unfolding is_digit blank
number n after_digit String.[] = if after_digit then some n else none
number n after_digit (String.◌∷◌ c text) = elim (is_digit c) [
  | true ↦ number (10 * n + (code c - 48)) true text
  | false ↦ elim (after_digit && nat_beq (code c) 95) [
    | true ↦ number n false text
    | false ↦ if after_digit && blank (String.◌∷◌ c text) then some n else none
  ]
]

unfoldable pub non_negative : Option ℕ → Option ℤ
non_negative none = none
non_negative (some n) = some (pos n)

unfoldable pub negative : Option ℕ → Option ℤ
negative none = none
negative (some zero) = some (pos 0)
negative (some (suc n)) = some (negsuc n)

unfoldable pub signed : String → Option ℤ
unfolding number non_negative negative
signed String.[] = none
signed (String.◌∷◌ c text) =
    if nat_beq (code c) 45
    then negative (number 0 false text)
    else if nat_beq (code c) 43
    then non_negative (number 0 false text)
    else non_negative (number 0 false (String.◌∷◌ c text))

unfoldable pub strip_left : String → String
unfolding is_space
strip_left String.[] = String.[]
strip_left (String.◌∷◌ c text) =
    let rest = strip_left text in if is_space c then rest else String.◌∷◌ c text

-- `int`, with none for a ValueError
unfoldable pub int : String → Option ℤ
unfolding strip_left signed
int text = signed (strip_left text)
