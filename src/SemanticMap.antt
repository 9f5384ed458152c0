-- ===== src/SemanticMap.antt =====
-- webui/forwarders/semantic_map.py. `str.casefold` and `create_map_links` are arguments.
pub mod Mapped
mod Tests
use Prim.Native.Char.{code}
use google_find_my_tools_web.Prelude.{
  nat_beq, map, [], not, false, true, ◌∷◌, ◌||◌, none, ◌==◌, ◌&&◌, Bool, some, List, if◌then◌else◌,
  ℕ, String, Option, string_eq, contains, nat_eq,
}
use google_find_my_tools_web.Prelude.Int.{ℤ}
use google_find_my_tools_web.Reading.{Position, Location}
use google_find_my_tools_web.Forwarding.Policy.{whitespace}

-- One value of `semantic_location_map`; an accuracy that it lacks is `none`.
pub record Coords : Type 0 where
  pub latitude : ℤ
  pub longitude : ℤ
  pub altitude : Option ℤ
  pub accuracy : Option ℕ
  pub match_partial : Bool

pub lstrip : String → String
lstrip String.[] = ""
lstrip (String.◌∷◌ c s) =
    let rest = lstrip s in if contains whitespace (code c) then rest else String.◌∷◌ c s

pub rstrip : String → String
rstrip String.[] = ""
rstrip (String.◌∷◌ c s) =
    let rest = rstrip s in
    if contains whitespace (code c) && rest == "" then "" else String.◌∷◌ c rest

pub is_prefix : String → String → Bool
is_prefix String.[] text = true
is_prefix (String.◌∷◌ c prefix) String.[] = false
is_prefix (String.◌∷◌ c prefix) (String.◌∷◌ d text) =
    nat_beq (code c) (code d) && is_prefix prefix text

-- `part in text`
pub is_substring : String → String → Bool
unfolding is_prefix
is_substring part String.[] = is_prefix part ""
is_substring part (String.◌∷◌ c text) = is_prefix part (String.◌∷◌ c text) || is_substring part text

module _ (casefold : String → String) (create_map_links : Position → String) where
  pub matches : (entry_name : String) (partial : Bool) (semantic_name : String) → Bool
  unfolding is_substring
  matches entry_name partial semantic_name =
      if partial
      then is_substring (casefold entry_name) (casefold semantic_name)
      else entry_name == semantic_name

  -- The loop over the mapping.
  pub find_coords : List (String × Coords) → (name : String) → Option Coords
  unfolding matches
  find_coords [] name = none
  find_coords ((entry_name, entry) ∷ mapping) name =
      if matches entry_name entry.match_partial name then some entry else find_coords mapping name

  pub name_of : Option String → String
  unfolding lstrip rstrip
  name_of none = ""
  name_of (some semantic_name) = rstrip (lstrip semantic_name)

  accuracy_or : Option ℕ → Option ℕ → Option ℕ
  accuracy_or none accuracy = accuracy
  accuracy_or (some mapped) accuracy = some mapped

  -- The copy with the coordinates.
  pub with_coords : Coords → Location → Location
  unfolding accuracy_or
  with_coords coords loc =
      let position : Position = record {
        latitude = coords.latitude;
        longitude = coords.longitude;
      } in
      record loc {
        position = some position;
        altitude = coords.altitude;
        accuracy = accuracy_or coords.accuracy loc.accuracy;
        map_links = some (create_map_links position);
      }

  or_unchanged : Option Coords → Location → Location
  or_unchanged none loc = loc
  or_unchanged (some coords) loc = with_coords coords loc

  map_one : List (String × Coords) → Location → Location
  unfolding find_coords name_of or_unchanged
  map_one mapping loc =
      let name = name_of loc.semantic_name in
      if loc.is_semantic && not (name == "")
      then or_unchanged (find_coords mapping name) loc
      else loc

  pub apply_semantic_mapping : List Location → List (String × Coords) → List Location
  unfolding map_one
  apply_semantic_mapping locations [] = locations
  apply_semantic_mapping locations (entry ∷ mapping) = map (map_one (entry ∷ mapping)) locations
