-- ===== src/SystemLogStore/Tests.antt =====
-- Runs of system_log_store.py and log_capture.py.
use google_find_my_tools_web.Prelude.{◌∷◌, [], none, some, refl}
use google_find_my_tools_web.Prelude.Int.{pos}
use google_find_my_tools_web.LineLog.{Log, lines_of}
use google_find_my_tools_web.LineLog.Bounds.{Holds}
use google_find_my_tools_web.SystemLogStore.{Entry, LogRecord, format_line, parse_line}
use google_find_my_tools_web.SystemLogStore.Newest.{lines}

abbrev failure : LogRecord
failure = record {
  name = "webui.scheduler";
  levelname = "ERROR";
  created = pos 1752570000;
  formatted = some "Failed:\nTraceback";
}

abbrev start : Entry
start = record { time = pos 1752569990; level = "INFO"; logger = "webui"; message = "Started" }

abbrev empty_log : Log
empty_log = record { lines = none; count = none }

abbrev one_line : Log
one_line = record { lines = some (format_line start ∷ []); count = none }

one_line-Holds : Holds format_line parse_line lines one_line (start ∷ [])
unfolding lines_of
one_line-Holds = record { lines = refl; counted = λ n e. cc }
