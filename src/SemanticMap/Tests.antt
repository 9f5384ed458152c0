-- ===== src/SemanticMap/Tests.antt =====
-- Runs of semantic_map.py.
use google_find_my_tools_web.Prelude.{
  refl, ◌≡◌, false, true, [], some, ◌∷◌, String, map, none, string_eq,
}
use google_find_my_tools_web.Prelude.Int.{pos}
use google_find_my_tools_web.Reading.{Position, Location}
use google_find_my_tools_web.SemanticMap.{
  Coords, lstrip, rstrip, is_prefix, is_substring, matches, find_coords, name_of, with_coords,
  apply_semantic_mapping,
}

program : Unit {0}
unfolding lstrip rstrip is_prefix is_substring matches find_coords name_of with_coords
    apply_semantic_mapping
program = tt

abbrev near : String → Location
near name = record {
  position = none;
  altitude = none;
  time = some 1;
  is_semantic = true;
  semantic_name = some name;
  status = some "SEMANTIC";
  accuracy = some 0;
  is_own_report = false;
  map_links = none;
  google_maps_link = none;
  first_seen = none;
}

abbrev room : Coords
room = record {
  latitude = pos 1;
  longitude = pos 2;
  altitude = none;
  accuracy = none;
  match_partial = true;
}

abbrev same : String → String
same text = text

abbrev links : Position → String
links p = "links"

placed :
    map
      (λ (loc : Location). loc.position)
      (apply_semantic_mapping same links
        (near " Nest Mini " ∷ near "Hub" ∷ [])
        (("Mini", room) ∷ []))
    ≡ some (record { latitude = pos 1; longitude = pos 2 }) ∷ none ∷ []
unfolding program
placed = refl
