-- ===== src/SystemLogStore.antt =====
-- webui/system_log_store.py over a file that can be read and written, and the handler of
-- webui/log_capture.py.
pub mod Newest
mod Tests
use google_find_my_tools_web.Prelude.{
  string_eq, ◌∷◌, take, [], Bool, List, Option, String, none, some, ℕ, if◌then◌else◌, ◌==◌,
}
use google_find_my_tools_web.Prelude.Int.{ℤ}
use google_find_my_tools_web.LineLog.{Log, append_line, read_lines}
use google_find_my_tools_web.LogText.{int, join, sanitize, split, str}
use mathlib.Core.List.{reverse}

pub record Entry : Type 0 where
  pub time : ℤ
  pub level : String
  pub logger : String
  pub message : String

unfoldable pub format_line : Entry → String
unfolding join sanitize str
format_line entry =
    join
      (str entry.time ∷ sanitize entry.level ∷ sanitize entry.logger ∷ sanitize entry.message ∷ [])

unfoldable pub entry_of : List String → Option Entry
unfolding int
entry_of (time_s ∷ level ∷ logger_name ∷ message ∷ []) = elim (int time_s) [
  | none ↦ none
  | some entry_time ↦
      some (record { time = entry_time; level = level; logger = logger_name; message = message })
]
entry_of _ = none

unfoldable pub parse_line : String → Option Entry
unfolding split entry_of
parse_line line = entry_of (split 3 line)

unfoldable pub append : String → String → String → ℤ → (max_entries : ℕ) → Log → Log
unfolding format_line parse_line append_line
append level logger_name message when_ max_entries log =
    append_line format_line parse_line
      (record { time = when_; level = level; logger = logger_name; message = message }) max_entries
      log

-- In demo mode, the entries of demo_data.
unfoldable pub recent_entries :
    (is_demo_mode : Bool) → (demo_entries : List Entry) → (limit : ℕ) → Log → List Entry
unfolding parse_line read_lines take
recent_entries is_demo_mode demo_entries limit log =
    if is_demo_mode
    then take limit demo_entries
    else take limit (reverse (read_lines format_line parse_line log.lines))

-- A `logging.LogRecord`, with what `format` makes of it, if it does not raise.
pub record LogRecord : Type 0 where
  pub name : String
  pub levelname : String
  pub created : ℤ
  pub formatted : Option String

unfoldable pub emit : LogRecord → (max_entries : ℕ) → Log → Log
unfolding append
emit log_record max_entries log =
    if log_record.name == "uvicorn.access" then log else elim log_record.formatted [
      | none ↦ log
      | some message ↦
          append log_record.levelname log_record.name message log_record.created max_entries log
    ]
