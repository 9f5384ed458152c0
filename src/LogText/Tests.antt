-- ===== src/LogText/Tests.antt =====
-- Runs of the texts that system_log_store.py and forwarders/log_store.py share.
use google_find_my_tools_web.Prelude.{◌≡◌, ◌∷◌, [], none, refl, some}
use google_find_my_tools_web.Prelude.Int.{negsuc, pos}
use google_find_my_tools_web.LogText.{
  sanitize, squeeze, is_break, is_tab, split, onto_first, str, digits, digit, char_in, int,
  strip_left, signed, number, is_digit, is_space, blank, non_negative, negative,
}

program : Unit {0}
unfolding sanitize squeeze is_break is_tab split onto_first str digits digit char_in int strip_left
    signed number is_digit is_space blank non_negative negative
program = tt

runs : sanitize "a\t\r\nb\n" ≡ "a b "
unfolding program
runs = refl

limited : split 1 "a\tb\tc" ≡ "a" ∷ "b\tc" ∷ []
unfolding program
limited = refl

printed : str (negsuc 1064) ≡ "-1065"
unfolding program
printed = refl

recent : str (pos 1752570000) ≡ "1752570000"
unfolding program
recent = refl

padded : int " +1_752 " ≡ some (pos 1752)
unfolding program
padded = refl

not_a_number : int "17 5" ≡ none
unfolding program
not_a_number = refl
