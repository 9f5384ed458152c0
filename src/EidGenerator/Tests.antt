-- ===== src/EidGenerator/Tests.antt =====
-- A run of eid_generator.py.
use google_find_my_tools_web.Prelude.{◌∷◌, refl, ◌++◌, ◌≡◌}
use google_find_my_tools_web.EidGenerator.{
  [], some, ℕ, List, masked, to_bytes, get_masked_timestamp, repeat, block, from_bytes, calculate_r,
}

program : Unit {0}
unfolding masked to_bytes get_masked_timestamp repeat block from_bytes calculate_r
program = tt

abbrev first_block : List ℕ
first_block = repeat 11 255 ++ (10 ∷ 0 ∷ 0 ∷ 8 ∷ 0 ∷ []) ++ repeat 11 0 ++ (10 ∷ 0 ∷ 0 ∷ 8 ∷ 0 ∷ [])

at_2500 : block 2500 ≡ some first_block
unfolding program
at_2500 = refl
