-- ===== src/LogStore.antt =====
-- webui/forwarders/log_store.py over files that can be read and written, with legacy entries that
-- have all the fields of their time.
pub mod Appends
pub mod Lines
mod Tests
use google_find_my_tools_web.Prelude.{
  nat_beq, false, string_eq, true, ◌∷◌, take, [], Bool, List, Option, String, none, some, ℕ,
  if◌then◌else◌, ◌==◌, ◌&&◌,
}
use google_find_my_tools_web.Prelude.Int.{ℤ}
use google_find_my_tools_web.LineLog.{Log, append_line, read_lines, write_lines}
use google_find_my_tools_web.LogText.{int, join, sanitize, split, str}
use mathlib.Core.List.{reverse}
use Prim.Native.Char.{code}

pub record Entry : Type 0 where
  pub time : ℤ
  pub canonic_id : String
  pub device_name : String
  pub endpoint_type : String
  pub target : String
  pub status : String
  pub payload : Option String
  pub response : Option String
  pub level : Option String

-- `text.startswith(prefix)`
unfoldable pub starts_with : (prefix text : String) → Bool
starts_with String.[] text = true
starts_with (String.◌∷◌ p prefix) String.[] = false
starts_with (String.◌∷◌ p prefix) (String.◌∷◌ c text) =
    nat_beq (code p) (code c) && starts_with prefix text

unfoldable pub level_of : String → String
unfolding starts_with
level_of status =
    if status == "ok" then "ok" else if starts_with "error" status then "error" else "skipped"

unfoldable pub or_empty : Option String → String
or_empty none = ""
or_empty (some text) = text

unfoldable pub format_line : Entry → String
unfolding join sanitize str or_empty
format_line entry = join (
    str entry.time
    ∷ sanitize entry.canonic_id
    ∷ sanitize entry.device_name
    ∷ sanitize entry.endpoint_type
    ∷ sanitize entry.target
    ∷ sanitize entry.status
    ∷ sanitize (or_empty entry.payload)
    ∷ sanitize (or_empty entry.response)
    ∷ [])

-- Lines from before there was a payload, or a response.
unfoldable pub with_columns : List String → List String
with_columns (a ∷ b ∷ c ∷ d ∷ e ∷ f ∷ []) = a ∷ b ∷ c ∷ d ∷ e ∷ f ∷ "" ∷ "" ∷ []
with_columns (a ∷ b ∷ c ∷ d ∷ e ∷ f ∷ g ∷ []) = a ∷ b ∷ c ∷ d ∷ e ∷ f ∷ g ∷ "" ∷ []
with_columns parts = parts

unfoldable pub entry_of : List String → Option Entry
unfolding int level_of
entry_of
      (time_s ∷ canonic_id ∷ device_name ∷ endpoint_type ∷ target ∷ status ∷ payload ∷ response
        ∷ []) =
    elim (int time_s) [
      | none ↦ none
      | some entry_time ↦ some (record {
        time = entry_time;
        canonic_id = canonic_id;
        device_name = device_name;
        endpoint_type = endpoint_type;
        target = target;
        status = status;
        payload = some payload;
        response = some response;
        level = some (level_of status);
      })
    ]
entry_of _ = none

unfoldable pub parse_line : String → Option Entry
unfolding split entry_of with_columns
parse_line line = entry_of (with_columns (split 7 line))

-- The log, and the entries of the JSON file before it, if they can be read.
pub record Store : Type 0 where
  pub log : Log
  pub legacy : Option (List Entry)

-- `_migrate_from_legacy_json`
unfoldable pub migrate : Store → Option (List Entry) × Store
unfolding format_line parse_line write_lines
migrate store = elim store.legacy [
  | none ↦ (none, store)
  | some entries ↦ (
    some entries,
    record store {
      log = record { lines = write_lines format_line parse_line entries; count = store.log.count };
    },
  )
]

unfoldable pub or_nothing : Option (List Entry) → List Entry
or_nothing none = []
or_nothing (some entries) = entries

unfoldable pub read_all : Store → List Entry × Store
unfolding parse_line read_lines migrate or_nothing
read_all store = elim store.log.lines [
  | none ↦ (or_nothing (migrate store).0, (migrate store).1)
  | some lines ↦ (read_lines format_line parse_line store.log.lines, store)
]

unfoldable pub materialized : Store → Store
unfolding migrate
materialized store = elim store.log.lines [ none ↦ (migrate store).1 | some lines ↦ store ]

unfoldable pub append :
    (is_demo_mode : Bool)
    → (time : ℤ) → (canonic_id device_name endpoint_type target status payload response : String)
    → (max_entries : ℕ) → Store
    → Store
unfolding format_line parse_line append_line materialized
append is_demo_mode time canonic_id device_name endpoint_type target status payload response
      max_entries store =
    if is_demo_mode
    then store
    else let ready = materialized store in
      let entry : Entry = record {
        time = time;
        canonic_id = canonic_id;
        device_name = device_name;
        endpoint_type = endpoint_type;
        target = target;
        status = status;
        payload = some payload;
        response = some response;
        level = none;
      } in
      record ready { log = append_line format_line parse_line entry max_entries ready.log }

unfoldable pub recent_entries :
    (is_demo_mode : Bool) → (demo_entries : List Entry) → (limit : ℕ) → Store → List Entry × Store
unfolding take read_all
recent_entries is_demo_mode demo_entries limit store =
    if is_demo_mode
    then (take limit demo_entries, store)
    else (let (entries, after) = read_all store in (take limit (reverse entries), after))
