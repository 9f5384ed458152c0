-- ===== src/LineLog.antt =====
-- webui/line_log_io.py: the bounded line logs, with a file that can be read and written. An entry's
-- line has no newline in it, so a file is its list of lines.
pub mod Bounds
pub mod Newest
mod Tests
use google_find_my_tools_web.Prelude.{
  ◌-◌, ◌==◌, ltb, nat_beq, zero, if◌then◌else◌, ◌∷◌, map, [], none, suc, ◌++◌, List, ◌+◌, some, ℕ,
  String, Option, string_eq, length,
}

abbrev pub compact_slack : ℕ
compact_slack = 200

-- A file, if there is one, and its cached line count.
pub record Log : Type 0 where
  pub lines : Option (List String)
  pub count : Option ℕ

unfoldable pub lines_of : Option (List String) → List String
lines_of none = []
lines_of (some lines) = lines

-- The list without its first n entries.
unfoldable pub drop {ℓ} : {A : Type ℓ} → ℕ → List A → List A
drop zero xs = xs
drop (suc n) [] = []
drop (suc n) (x ∷ xs) = drop n xs

-- `entries[-n:]`, which is everything for n = 0.
unfoldable pub last_n {ℓ} : {A : Type ℓ} → ℕ → List A → List A
unfolding drop
last_n n xs = if nat_beq n 0 then xs else drop (length xs - n) xs

or_count : Option ℕ → ℕ → ℕ
or_count none n = n
or_count (some count) n = count

module _ {ℓ} {E : Type ℓ} (format_line : E → String) (parse_line : String → Option E) where
  parse_all : List String → List E
  parse_all [] = []
  parse_all (line ∷ lines) =
      let rest = parse_all lines in
      if line == ""
      then rest
      else elim (parse_line line) [ none ↦ rest | some entry ↦ entry ∷ rest ]

  unfoldable pub read_lines : Option (List String) → List E
  unfolding lines_of parse_all
  read_lines lines = parse_all (lines_of lines)

  unfoldable pub write_lines : List E → Option (List String)
  write_lines entries = some (map format_line entries)

  unfoldable pub append_line : E → (max_entries : ℕ) → Log → Log
  unfolding read_lines write_lines last_n lines_of or_count
  append_line entry max_entries log =
      let count = or_count log.count (length (read_lines log.lines)) + 1 in
      let lines = some (lines_of log.lines ++ (format_line entry ∷ [])) in
      if ltb (max_entries + compact_slack) count
      then (let entries = last_n max_entries (read_lines lines) in
          record { lines = write_lines entries; count = some (length entries) })
      else record { lines = lines; count = some count }
