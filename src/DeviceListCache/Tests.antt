-- ===== src/DeviceListCache/Tests.antt =====
-- A run of device_list_cache.py.
use google_find_my_tools_web.Prelude.{refl, String, ◌∷◌, ◌≡◌}
use google_find_my_tools_web.DeviceListCache.{
  [], some, List, init, get_or_fetch, invalidate, Event, asked, invalidated, after,
}

program : Unit {0}
unfolding init get_or_fetch invalidate after
program = tt

abbrev events : List (Event String)
events = asked 15 "b" 16 ∷ asked 10 "a" 12 ∷ []

hit : (get_or_fetch 8 19 "c" 20 (after 8 events)).0 ≡ some "a"
unfolding program
hit = refl

dropped : (get_or_fetch 8 19 "c" 20 (after 8 (invalidated ∷ events))).0 ≡ some "c"
unfolding program
dropped = refl
