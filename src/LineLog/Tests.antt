-- ===== src/LineLog/Tests.antt =====
-- A run of line_log_io.py, and its theorem at a concrete input: a log of texts without tabs.
use google_find_my_tools_web.Prelude.{
  inr, ap, inl, Bool-cases, false, ◌==◌, eq_iff, arith, ◌⊎◌, ◌+◌, ◌≤◌, refl, ◌++◌, ◌≡◌, ◌∷◌,
  string_eq, length,
}
use google_find_my_tools_web.LineLog.{
  none, [], Option, String, some, List, compact_slack, Log, lines_of, last_n, read_lines,
  write_lines, append_line,
}
use google_find_my_tools_web.LineLog.Bounds.{RoundTrips, Holds, append_line-bounded}

program : Unit {0}
unfolding lines_of last_n read_lines write_lines append_line
program = tt

-- An entry is written behind a mark.
abbrev format : String → String
format entry = String.◌∷◌ "x" entry

abbrev parse : String → Option String
parse String.[] = none
parse (String.◌∷◌ c line) = some line

abbrev full : Log
full = record { lines = some ("xa" ∷ "xb" ∷ []); count = some 202 }

compacted :
    append_line format parse "c" 2 full ≡ record { lines = some ("xb" ∷ "xc" ∷ []); count = some 2 }
unfolding program
compacted = refl

not_empty : (entry : String) → (format entry == "") ≡ false
not_empty entry = elim (Bool-cases (format entry == "")) [
  | inl same ↦ let e : some entry ≡ none = ap parse ((eq_iff (format entry) "").0 same) in cc
  | inr other ↦ other
]

marks : RoundTrips format parse
marks = record {
  read_back = λ entry. entry;
  parses = λ entry. refl;
  stable = λ entry. refl;
  proper = not_empty;
}

abbrev two : Log
two = record { lines = some ("xa" ∷ "xb" ∷ []); count = none }

two-Holds : Holds format parse marks two ("a" ∷ "b" ∷ [])
unfolding program
two-Holds = record { lines = refl; counted = λ n e. cc }

append_line-bounded_example :
    (dropped kept : List String) × (("a" ∷ "b" ∷ []) ++ ("c" ∷ []) ≡ dropped ++ kept)
    × Holds format parse marks (append_line format parse "c" 5 two) kept
    × (length kept ≤ 5 + compact_slack)
    × ((dropped ≡ []) ⊎ (length kept ≡ 5))
append_line-bounded_example =
    append_line-bounded format parse marks "c" 5 two ("a" ∷ "b" ∷ []) (omega arith) two-Holds
      (omega arith)
