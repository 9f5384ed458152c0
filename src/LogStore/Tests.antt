-- ===== src/LogStore/Tests.antt =====
-- Runs of forwarders/log_store.py, and its theorems at concrete inputs.
use google_find_my_tools_web.Prelude.{arith, map, ◌≡◌, ◌∷◌, [], List, false, none, some, refl}
use google_find_my_tools_web.Prelude.Int.{pos}
use google_find_my_tools_web.LineLog.Newest.{Newest}
use google_find_my_tools_web.LogStore.{
  take, Entry, Store, append, format_line, level_of, or_nothing, parse_line, recent_entries,
  starts_with,
}
use google_find_my_tools_web.LogStore.Lines.{lines, shown}
use google_find_my_tools_web.LogStore.Appends.{Keeps, entry_for, recent_entries-append}
use mathlib.Core.List.{reverse}

skipped : level_of "disabled" ≡ "skipped"
unfolding level_of starts_with
skipped = refl

failed : level_of "error: 500" ≡ "error"
unfolding level_of starts_with
failed = refl

abbrev attempt : Entry
attempt = entry_for (pos 1752570000) "a" "Keys" "dawarich" "https://d" "error:\n500" "{}" ""

-- No log yet, and one entry in the file before it.
abbrev upgraded : Store
upgraded = record { log = record { lines = none; count = none }; legacy = some (attempt ∷ []) }

upgraded-Keeps : Keeps upgraded (attempt ∷ [])
unfolding or_nothing
upgraded-Keeps = record { stored = λ written e. absurd (cc e); absent = λ e. (refl, refl) }

abbrev sent : Entry
sent = entry_for (pos 1752570060) "a" "Keys" "dawarich" "https://d" "ok" "{}" "201"

abbrev after : Store
after =
    append false (pos 1752570060) "a" "Keys" "dawarich" "https://d" "ok" "{}" "201" 1000 upgraded

recent_entries-append_example :
    (before : List Entry) × Newest format_line parse_line lines sent 1000 after.log
      (attempt ∷ [])
      before
    × ((recent_entries false [] 500 after).0 ≡ take 500 (shown sent ∷ reverse (map shown before)))
recent_entries-append_example =
    recent_entries-append (pos 1752570060) "a" "Keys" "dawarich" "https://d" "ok" "{}" "201" 1000
      upgraded (attempt ∷ []) [] 500 (omega arith) upgraded-Keeps (omega arith)
