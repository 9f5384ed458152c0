-- ===== src/Colors/Tests.antt =====
-- Runs of colors.py.
use google_find_my_tools_web.Prelude.{refl}
use google_find_my_tools_web.Colors.{◌≡◌, hash_from, hue_for_device, item, location_color}

program : Unit {0}
unfolding hash_from hue_for_device item location_color
program = tt

colour : location_color "ab" 6 ≡ (270, 48)
unfolding program
colour = refl
