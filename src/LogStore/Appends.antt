-- ===== src/LogStore/Appends.antt =====
-- What the page sees of webui/forwarders/log_store.py after an attempt is appended.
use google_find_my_tools_web.Prelude.{◌∙◌, ◌∷◌, ◌+◌, length, map, ◌≤◌, ap, refl, ◌≡◌}
use google_find_my_tools_web.Prelude.Int.{ℤ}
use google_find_my_tools_web.LineLog.{Log, compact_slack, read_lines, write_lines, lines_of}
use google_find_my_tools_web.LineLog.Bounds.{Holds}
use google_find_my_tools_web.LineLog.Newest.{Newest, append_line-Newest, append_line-some}
use google_find_my_tools_web.LogStore.{
  take, false, some, none, ℕ, String, Option, List, Entry, Store, format_line, parse_line, migrate,
  materialized, or_nothing, read_all, append, recent_entries,
}
use google_find_my_tools_web.LogStore.Lines.{lines, shown}
use mathlib.Core.List.{reverse}

-- The entries of the log file or, if there is none, those that the first use migrates.
pub record Keeps (store : Store) (entries : List Entry) : Type 0 where
  pub stored :
      (written : List String)
      → store.log.lines ≡ some written
      → Holds format_line parse_line lines store.log entries
  pub absent :
      store.log.lines ≡ none → (or_nothing store.legacy ≡ entries) × (store.log.count ≡ none)

written-Holds :
    (count : Option ℕ) (entries : List Entry)
    → count ≡ none
    → Holds format_line parse_line lines
        (record { lines = write_lines format_line parse_line entries; count = count })
        entries
unfolding write_lines lines_of
written-Holds count entries uncounted = record { lines = refl; counted = λ n e. cc }

store_of : Option (List String) → Option ℕ → Option (List Entry) → Store
store_of written count legacy = record {
  log = record { lines = written; count = count };
  legacy = legacy;
}

parts-Holds :
    (written : Option (List String)) (count : Option ℕ) (legacy : Option (List Entry))
    (entries : List Entry)
    → Keeps (store_of written count legacy) entries
    → Holds format_line parse_line lines (materialized (store_of written count legacy)).log entries
unfolding materialized migrate or_nothing store_of lines_of
parts-Holds (some written) count legacy entries keeps = keeps.stored written refl
parts-Holds none count none entries keeps =
    let (same, uncounted) = keeps.absent refl in
    record { lines = ap (map format_line) same; counted = λ n e. cc }
parts-Holds none count (some old) entries keeps =
    let (same, uncounted) = keeps.absent refl in rw (← same) (written-Holds count old uncounted)

materialized-Holds :
    (store : Store) (entries : List Entry)
    → Keeps store entries
    → Holds format_line parse_line lines (materialized store).log entries
unfolding store_of
materialized-Holds store entries keeps =
    parts-Holds store.log.lines store.log.count store.legacy entries keeps

parts-read :
    (found : Option (List String)) (count : Option ℕ) (legacy : Option (List Entry))
    (written : List String)
    → found ≡ some written
    → (read_all (store_of found count legacy)).0 ≡ read_lines format_line parse_line found
unfolding read_all store_of
parts-read none count legacy written e = absurd (cc e)
parts-read (some found) count legacy written e = refl

read_all-some :
    (store : Store) (written : List String)
    → store.log.lines ≡ some written
    → (read_all store).0 ≡ read_lines format_line parse_line store.log.lines
unfolding store_of
read_all-some store written e = parts-read store.log.lines store.log.count store.legacy written e

abbrev pub entry_for :
    ℤ → (canonic_id device_name endpoint_type target status payload response : String) → Entry
entry_for time canonic_id device_name endpoint_type target status payload response = record {
  time = time;
  canonic_id = canonic_id;
  device_name = device_name;
  endpoint_type = endpoint_type;
  target = target;
  status = status;
  payload = some payload;
  response = some response;
  level = none;
}

-- If the log file, or where there is none the file before it, has these entries, not more than the
-- limit and the slack, and the limit is not 0: after an append the page shows the new entry first
-- and then the old ones, from the newest back to the oldest one that a compaction leaves.
pub recent_entries-append :
    (time : ℤ) (canonic_id device_name endpoint_type target status payload response : String)
    (max_entries : ℕ) (store : Store) (entries demo_entries : List Entry) (limit : ℕ)
    → 1 ≤ max_entries
    → Keeps store entries
    → length entries ≤ max_entries + compact_slack
    → (let entry =
          entry_for time canonic_id device_name endpoint_type target status payload response in
        let after =
          append false time canonic_id device_name endpoint_type target status payload response
            max_entries store in
        (before : List Entry) × Newest format_line parse_line lines entry max_entries after.log
          entries before
        × ((recent_entries false demo_entries limit after).0
            ≡ take limit (shown entry ∷ reverse (map shown before))))
unfolding recent_entries append
recent_entries-append time canonic_id device_name endpoint_type target status payload response
      max_entries store entries demo_entries limit positive keeps small =
    let entry : Entry =
      entry_for time canonic_id device_name endpoint_type target status payload response in
    let log : Log = (materialized store).log in
    let (before, newest) =
      append_line-Newest format_line parse_line lines entry max_entries log entries positive
        (materialized-Holds store entries keeps) small in
    let (written, e) = append_line-some format_line parse_line lines entry max_entries log in
    (
      before,
      newest,
      ap (λ es. take limit (reverse es))
            (read_all-some
              (append false time canonic_id device_name endpoint_type target status payload response
                max_entries store)
              written e)
          ∙ ap (take limit) newest.reads,
    )
