-- ===== src/LocationStore/Tests.antt =====
-- Runs of device_location_store.py, and its theorems at concrete inputs.
use google_find_my_tools_web.Prelude.{refl, ◌∷◌}
use google_find_my_tools_web.Prelude.Int.{pos}
use google_find_my_tools_web.Prelude.Dict.{lookup, insert}
use google_find_my_tools_web.Reading.{Location}
use google_find_my_tools_web.Device.{Entry, empty}
use google_find_my_tools_web.DeviceStore.Interface.{memory_devices}
use google_find_my_tools_web.LocationStore.{
  false, true, none, [], map, some, List, ◌≡◌, ℕ, location_key, key_beq, location_of, Stamped,
  stamp, stamp_all, note_seen, newest_of, max_fix_time, newest_fix_time, set_last_location, maximum,
  sort_newest_first, most_recent_only, migrate_location,
}
use google_find_my_tools_web.LocationStore.Seen
use google_find_my_tools_web.LocationStore.Seen.{fresh_flags, keys_of}

program : Unit {0}
unfolding location_key key_beq location_of stamp stamp_all note_seen newest_of max_fix_time
    newest_fix_time set_last_location maximum sort_newest_first most_recent_only migrate_location
    lookup insert
program = tt

abbrev fix : ℕ → Location
fix t = record {
  position = some (record { latitude = pos 525000000; longitude = pos 134000000 });
  altitude = none;
  time = some t;
  is_semantic = false;
  semantic_name = none;
  status = some "CROWDSOURCED";
  accuracy = some 20;
  is_own_report = false;
  map_links = none;
  google_maps_link = none;
  first_seen = none;
}

-- A report drops out of the second response and comes back in the third: it counts as new again.
dropped_and_back :
    (map
        (λ (s : Stamped). s.new_this_fetch)
        (stamp (fix 1 ∷ []) 30 (stamp (fix 2 ∷ []) 20 (stamp (fix 1 ∷ fix 1 ∷ []) 10 empty).0).0).1
      ≡ true ∷ [])
    × (map (λ (s : Stamped). s.new_this_fetch) (stamp (fix 1 ∷ fix 1 ∷ []) 10 empty).1
        ≡ true ∷ false ∷ [])
unfolding program
dropped_and_back = (refl, refl)

migrated : (migrate_location (λ p. "links") (some 5) (fix 1)).map_links ≡ some "links"
unfolding program
migrated = refl

most_recent : most_recent_only (fix 1 ∷ fix 3 ∷ fix 2 ∷ []) ≡ fix 3 ∷ []
unfolding program
most_recent = refl

stamp-flags_example :
    map (λ (s : Stamped). s.new_this_fetch) (stamp (fix 1 ∷ []) 10 empty).1
    ≡ fresh_flags (keys_of (location_of empty).locations) (fix 1 ∷ [])
stamp-flags_example = Seen.stamp-flags (fix 1 ∷ []) 10 empty

refetch-flags_example :
    map
      (λ (s : Stamped). s.new_this_fetch)
      (set_last_location
        (memory_devices Entry)
        "tag"
        (fix 1 ∷ [])
        20
        (set_last_location (memory_devices Entry) "tag" (fix 1 ∷ []) 10 (λ k. empty)).1).0
    ≡ fresh_flags (keys_of (fix 1 ∷ [])) (fix 1 ∷ [])
refetch-flags_example =
    Seen.refetch-flags (memory_devices Entry) "tag" (fix 1 ∷ []) (fix 1 ∷ []) 10 20 (λ k. empty) tt

abbrev history : List (List Location × ℕ)
history = (fix 2 ∷ [], 20) ∷ (fix 7 ∷ fix 1 ∷ [], 10) ∷ []
