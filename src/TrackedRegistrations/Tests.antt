-- ===== src/TrackedRegistrations/Tests.antt =====
-- A run of tracked_registrations.py.
use google_find_my_tools_web.Prelude.{
  refl, ◌==◌, ◌≡◌, if◌then◌else◌, false, none, [], ℕ, ◌∷◌, String, some, Option, string_eq,
  option_eq, nat_eq,
}
use google_find_my_tools_web.TrackedRegistrations.{
  TrackedEntry, AccountDevice, found, device_type_id, matches, matching, resolve_tracked_status,
}

abbrev value_of : String → Option ℕ
value_of name = if name == "DEVICE_TYPE_KEYS" then some 3 else none

program : Unit {0}
unfolding device_type_id matches matching resolve_tracked_status
program = tt

abbrev keys : TrackedEntry
keys = record {
  display_name = some "Keys";
  manufacturer_name = some "M";
  model_name = some "T";
  device_type = "DEVICE_TYPE_KEYS";
}

abbrev tracker : Option ℕ → AccountDevice
tracker type_id = record {
  is_phone = false;
  name = some "Keys";
  manufacturer = some "M";
  model = some "T";
  type_id = type_id;
}

one_of_two :
    resolve_tracked_status value_of (keys ∷ []) (tracker (some 3) ∷ tracker (some 4) ∷ [])
    ≡ (keys, found (tracker (some 3))) ∷ []
unfolding program
one_of_two = refl
