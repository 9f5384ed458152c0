-- ===== src/LocationStore.antt =====
-- webui/device_location_store.py: the last location of each device, over the entries of
-- devices.yaml. `create_map_links` of decrypt_locations.py is an argument.
pub mod Seen
pub mod Newest
pub mod Order
mod Tests
use Prim.Native.Nat.{max, ℕ}
use google_find_my_tools_web.Prelude.{
  String, [], option_beq_iff, string_eq, option_eq, arith, nat_eq, option_eq, ◌↔◌, leb, ◌&&◌, false,
  nat_beq, ◌+◌, some, map, true, ◌∷◌, ◌==◌, not, if◌then◌else◌, ◌≡◌, Bool, Eq, List, none, Option,
}
use google_find_my_tools_web.Prelude.Dict.{Dict, lookup, insert}
use google_find_my_tools_web.Reading.{Position, position_eq, Location}
use google_find_my_tools_web.Device.{LastLocation, Entry}
use google_find_my_tools_web.DeviceStore.Interface.{Devices}

-- `_location_key`
pub record LocationKey : Type 0 where
  pub time : Option ℕ
  pub position : Option Position
  pub status : Option String
  pub semantic_name : Option String

unfoldable pub location_key : Location → LocationKey
location_key loc = record {
  time = loc.time;
  position = loc.position;
  status = loc.status;
  semantic_name = loc.semantic_name;
}

unfoldable pub key_beq : LocationKey → LocationKey → Bool
key_beq a b =
    a.time == b.time
    && (a.position == b.position && (a.status == b.status && a.semantic_name == b.semantic_name))

pub key_beq_iff : (a b : LocationKey) → (key_beq a b ≡ true) ↔ (a ≡ b)
unfolding key_beq
key_beq_iff a b = ground (
  arith,
  option_beq_iff a.time b.time,
  option_beq_iff a.position b.position,
  option_beq_iff a.status b.status,
  option_beq_iff a.semantic_name b.semantic_name,
)

instance abbrev pub key_eq : Eq LocationKey
key_eq = record { beq = key_beq; beq_iff = key_beq_iff }

-- `a or b` at a number that may be missing: 0 counts as missing.
pub or_else : Option ℕ → Option ℕ → Option ℕ
or_else none other = other
or_else (some n) other = if nat_beq n 0 then other else some n

-- What is in the file under "location", `{}` if nothing is.
abbrev pub nothing : LastLocation
nothing = record { locations = []; fetched_at = none; newest_fix_time = none }

unfoldable pub location_of : Entry → LastLocation
location_of e = elim e.location [ none ↦ nothing | some location ↦ location ]

backfill_links : (Position → String) → Option Position → Location → Location
backfill_links create_map_links none loc = loc
backfill_links create_map_links (some p) loc = record loc {
  map_links = some (create_map_links p);
  google_maps_link = none;
}

backfill_seen : Option ℕ → Option ℕ → Location → Location
backfill_seen none (some fallback) loc = record loc { first_seen = some fallback }
backfill_seen _ _ loc = loc

lacks_links : Location → Bool
lacks_links loc = elim loc.map_links [ none ↦ not loc.is_semantic | some links ↦ false ]

-- `_migrate_location`
pub migrate_location : (Position → String) → Option ℕ → Location → Location
unfolding backfill_links backfill_seen lacks_links
migrate_location create_map_links fallback loc =
    let migrated =
      if lacks_links loc then backfill_links create_map_links loc.position loc else loc in
    backfill_seen migrated.first_seen fallback migrated

-- The times that `[loc["time"] for loc in locations if loc.get("time") is not None]` lists.
pub times_of : List Location → List ℕ
times_of [] = []
times_of (loc ∷ locations) =
    let rest = times_of locations in elim loc.time [ none ↦ rest | some t ↦ t ∷ rest ]

-- `max(times)` of a list that may be empty.
pub maximum : List ℕ → Option ℕ
maximum [] = none
maximum (t ∷ ts) = elim (maximum ts) [ none ↦ some t | some m ↦ some (max t m) ]

keep_time : Option ℕ → List Location → List Location
keep_time newest [] = []
keep_time newest (loc ∷ locations) =
    let rest = keep_time newest locations in if loc.time == newest then loc ∷ rest else rest

pub most_recent_only : List Location → List Location
unfolding keep_time times_of maximum
most_recent_only locations = elim (maximum (times_of locations)) [
  | none ↦ locations
  | some newest ↦ keep_time (some newest) locations
]

-- The sort key: a reading with no time comes below every time.
pub time_key : Location → ℕ
time_key loc = elim loc.time [ none ↦ 0 | some t ↦ t + 1 ]

place : Location → List Location → List Location
place loc [] = loc ∷ []
place loc (other ∷ rest) =
    if leb (time_key other) (time_key loc) then loc ∷ other ∷ rest else other ∷ place loc rest

-- `sorted(locations, key=_time_key, reverse=True)`, which keeps the order of equal keys.
pub sort_newest_first : List Location → List Location
unfolding time_key place
sort_newest_first [] = []
sort_newest_first (loc ∷ locations) = place loc (sort_newest_first locations)

-- `_max_fix_time`: of real fixes with a time other than 0.
real_times : List Location → List ℕ
real_times [] = []
real_times (loc ∷ locations) =
    let rest = real_times locations in
    if loc.is_semantic
    then rest
    else elim loc.time [ none ↦ rest | some t ↦ if nat_beq t 0 then rest else t ∷ rest ]

pub max_fix_time : List Location → Option ℕ
unfolding real_times maximum
max_fix_time locations = maximum (real_times locations)

-- `max([t for t in candidates if t])`, or nothing.
pub newest_of : List (Option ℕ) → Option ℕ
newest_of [] = none
newest_of (none ∷ candidates) = newest_of candidates
newest_of (some t ∷ candidates) =
    let rest = newest_of candidates in
    if nat_beq t 0 then rest else elim rest [ none ↦ some t | some m ↦ some (max t m) ]

-- `get_newest_fix_time`, of the entry of the device.
unfoldable pub newest_fix_time : Entry → Option ℕ
unfolding location_of max_fix_time newest_of
newest_fix_time e =
    let location = location_of e in
    newest_of (location.newest_fix_time ∷ max_fix_time location.locations ∷ [])

-- `previously_seen`: when each reading on file was first seen, by the comprehension that fills it.
pub note_seen : Option ℕ → Dict LocationKey (Option ℕ) → List Location → Dict LocationKey (Option ℕ)
unfolding or_else
note_seen prior seen [] = seen
note_seen prior seen (loc ∷ rest) =
    note_seen prior (insert (location_key loc) (or_else loc.first_seen prior) seen) rest

-- A reading with its `first_seen`, and the transient "_new_this_fetch".
pub record Stamped : Type 0 where
  pub loc : Location
  pub new_this_fetch : Bool

stamp_one : ℕ → Option (Option ℕ) → Location → Stamped
stamp_one fetched_at none loc = record {
  loc = record loc { first_seen = some fetched_at };
  new_this_fetch = true;
}
stamp_one fetched_at (some first_seen) loc = record {
  loc = record loc { first_seen = first_seen };
  new_this_fetch = false;
}

-- The loop of `_stamp`.
pub stamp_all : ℕ → Dict LocationKey (Option ℕ) → List Location → List Stamped
unfolding stamp_one
stamp_all fetched_at seen [] = []
stamp_all fetched_at seen (loc ∷ locations) =
    let stamped = stamp_one fetched_at (lookup (location_key loc) seen) loc in
    stamped ∷ stamp_all fetched_at (insert (location_key loc) stamped.loc.first_seen seen) locations

-- What `set_last_location` makes of the entry, and the list that it returns.
pub stamp : List Location → (fetched_at : ℕ) → Entry → Entry × List Stamped
unfolding location_of note_seen stamp_all max_fix_time newest_of
stamp locations fetched_at e =
    let location = location_of e in
    let stamped =
      stamp_all fetched_at (note_seen location.fetched_at [] location.locations) locations in
    let persisted = map (λ s. s.loc) stamped in
    (
      record e {
        location = some (record {
          locations = persisted;
          fetched_at = some fetched_at;
          newest_fix_time = newest_of (
              location.newest_fix_time
              ∷ max_fix_time location.locations
              ∷ max_fix_time persisted
              ∷ []);
        });
      },
      stamped,
    )

-- `_read` of `get_last_location`: the entry with its readings migrated, and the readings.
migrate_entry : (Position → String) → Entry → Entry
migrate_entry create_map_links e = elim e.location [
  | none ↦ e
  | some location ↦ record e {
    location = some (record location {
      locations = map (migrate_location create_map_links location.fetched_at) location.locations;
    });
  }
]

module _ (devices : Devices Entry) where
  open devices use {State, entry_of, mutate}

  pub set_last_location : String → List Location → (fetched_at : ℕ) → State → List Stamped × State
  unfolding stamp
  set_last_location canonic_id locations fetched_at s = (
    (stamp locations fetched_at (entry_of s canonic_id)).1,
    mutate canonic_id (λ e. (stamp locations fetched_at e).0) s,
  )

  unfoldable pub get_newest_fix_time : String → State → Option ℕ
  unfolding newest_fix_time
  get_newest_fix_time canonic_id s = newest_fix_time (entry_of s canonic_id)

  pub get_last_location : (Position → String) → String → State → Option LastLocation × State
  unfolding migrate_entry
  get_last_location create_map_links canonic_id s = (
    (migrate_entry create_map_links (entry_of s canonic_id)).location,
    mutate canonic_id (migrate_entry create_map_links) s,
  )
