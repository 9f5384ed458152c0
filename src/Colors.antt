-- ===== src/Colors.antt =====
-- webui/colors.py: the colour of a device's location, as hue and lightness. The hash is 32 bits wide.
mod Tests
use Prim.Native.Char.{code}
use google_find_my_tools_web.Prelude.{
  ap, refl, arith, ◌≡◌, zero, ◌^◌, [], ◌≤◌, ◌+◌, ◌/◌, ◌∷◌, ◌%◌, suc, ◌*◌, String, List, ℕ, length,
}

abbrev pub shade_lightness : List ℕ
shade_lightness = 38 ∷ 48 ∷ 58 ∷ 68 ∷ 30 ∷ []

abbrev pub hue_steps : ℕ
hue_steps = 12

-- The loop, from a hash on: `(h * 31 + ord(ch)) & 0xFFFFFFFF`.
pub hash_from : ℕ → String → ℕ
hash_from h String.[] = h
hash_from h (String.◌∷◌ ch rest) = hash_from ((h * 31 + code ch) % 2 ^ 32) rest

pub hue_for_device : String → ℕ
unfolding hash_from
hue_for_device canonic_id = hash_from 0 canonic_id % hue_steps * (360 / hue_steps)

pub item : List ℕ → ℕ → ℕ
item [] i = 0
item (x ∷ xs) zero = x
item (x ∷ xs) (suc i) = item xs i

-- Hue and lightness; the saturation is 70%.
pub location_color : String → (index : ℕ) → ℕ × ℕ
unfolding hue_for_device item
location_color canonic_id index =
    (hue_for_device canonic_id, item shade_lightness (index % length shade_lightness))

hash-bound : (h : ℕ) (s : String) → suc h ≤ 2 ^ 32 → suc (hash_from h s) ≤ 2 ^ 32
unfolding hash_from
hash-bound h String.[] b = b
hash-bound h (String.◌∷◌ ch rest) b = hash-bound ((h * 31 + code ch) % 2 ^ 32) rest (omega arith)

-- The hash stays within 32 bits, the hue is one of the twelve multiples of 30 below 360, and the
-- shades repeat every five locations.
location_color-range :
    (canonic_id : String) (index : ℕ)
    → (suc (hash_from 0 canonic_id) ≤ 2 ^ 32)
      × ((step : ℕ) × (suc step ≤ hue_steps) × ((location_color canonic_id index).0 ≡ step * 30))
      × (location_color canonic_id (index + 5) ≡ location_color canonic_id index)
unfolding location_color hue_for_device
location_color-range canonic_id index = (
  hash-bound 0 canonic_id (omega arith),
  (hash_from 0 canonic_id % hue_steps, omega arith, refl),
  ap (λ i. (hue_for_device canonic_id, item shade_lightness i)) (omega arith),
)
