-- ===== src/SystemLogStore/Newest.antt =====
-- The lines of webui/system_log_store.py, and what the page sees after a record.
use google_find_my_tools_web.Prelude.{
  take, ◌+◌, length, ◌≤◌, string_eq, false, List, ℕ, ◌==◌, ◌∙◌, map, ap, arith, [], refl, ◌∷◌, some,
  String, ◌≡◌,
}
use google_find_my_tools_web.LogText.{sanitize, str}
use google_find_my_tools_web.LogText.RoundTrip.{sanitize_idem}
use google_find_my_tools_web.LogText.Numbers.{line-proper, int-str, split-line}
use google_find_my_tools_web.LineLog.{Log, append_line, compact_slack}
use google_find_my_tools_web.LineLog.Bounds.{RoundTrips, Holds}
use google_find_my_tools_web.LineLog.Newest.{Newest, append_line-Newest}
use mathlib.Core.List.{reverse}
use google_find_my_tools_web.SystemLogStore.{
  LogRecord, emit, append, recent_entries, Entry, format_line, entry_of, parse_line,
}

-- An entry as its line shows it.
abbrev pub shown : Entry → Entry
shown entry = record {
  time = entry.time;
  level = sanitize entry.level;
  logger = sanitize entry.logger;
  message = sanitize entry.message;
}

entry_of-shown :
    (entry : Entry)
    → entry_of (str entry.time ∷ map sanitize (entry.level ∷ entry.logger ∷ entry.message ∷ []))
      ≡ some (shown entry)
unfolding entry_of
entry_of-shown entry = rw (entry_of, int-str entry.time) refl

pub parse-format : (entry : Entry) → parse_line (format_line entry) ≡ some (shown entry)
unfolding parse_line format_line
parse-format entry =
    ap entry_of
      (split-line 3 entry.time (entry.level ∷ entry.logger ∷ entry.message ∷ []) (omega arith))
    ∙ entry_of-shown entry

pub format-shown : (entry : Entry) → format_line (shown entry) ≡ format_line entry
unfolding format_line
format-shown entry =
    rw (sanitize_idem entry.level, sanitize_idem entry.logger, sanitize_idem entry.message) refl

pub format-proper : (entry : Entry) → (format_line entry == "") ≡ false
unfolding format_line
format-proper entry = line-proper entry.time (entry.level ∷ entry.logger ∷ entry.message ∷ [])

abbrev pub lines : RoundTrips format_line parse_line
lines = record {
  read_back = shown;
  parses = parse-format;
  stable = format-shown;
  proper = format-proper;
}

abbrev pub entry_for : LogRecord → String → Entry
entry_for log_record message = record {
  time = log_record.created;
  level = log_record.levelname;
  logger = log_record.name;
  message = message;
}

emit-append :
    (log_record : LogRecord) (message : String) (max_entries : ℕ) (log : Log)
    → (log_record.name == "uvicorn.access") ≡ false
    → log_record.formatted ≡ some message
    → emit log_record max_entries log
      ≡ append_line format_line parse_line (entry_for log_record message) max_entries log
unfolding emit append
emit-append log_record message max_entries log heard formatted = rw (emit, heard, formatted) refl

-- A record of a logger that is listened to, with a message, is shown first on the page, and behind
-- it the entries before it, from the newest back to the oldest one that a compaction leaves; if the
-- log has these entries, not more than the limit and the slack, and the limit is not 0.
recent_entries-emit :
    (log_record : LogRecord) (message : String) (max_entries : ℕ) (log : Log)
    (entries demo_entries : List Entry) (limit : ℕ)
    → (log_record.name == "uvicorn.access") ≡ false
    → log_record.formatted ≡ some message
    → 1 ≤ max_entries
    → Holds format_line parse_line lines log entries
    → length entries ≤ max_entries + compact_slack
    → (before : List Entry) × Newest format_line parse_line lines
        (entry_for log_record message)
        max_entries
        (emit log_record max_entries log)
        entries
        before
      × (recent_entries false demo_entries limit (emit log_record max_entries log)
          ≡ take limit (shown (entry_for log_record message) ∷ reverse (map shown before)))
unfolding recent_entries
recent_entries-emit log_record message max_entries log entries demo_entries limit heard formatted
      positive h small =
    let (before, newest) =
      append_line-Newest format_line parse_line lines (entry_for log_record message) max_entries log
        entries positive h small in
    rw (emit-append log_record message max_entries log heard formatted)
      (before, newest, ap (take limit) newest.reads)
