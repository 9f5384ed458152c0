-- ===== src/EspIdf/Tests.antt =====
-- Runs of esp_idf_provisioning.py, and its theorems at a concrete history.
use google_find_my_tools_web.Prelude.{ℕ, true, none, ◌≡◌, refl, inl, arith}
use google_find_my_tools_web.EspIdf.{
  Disk, Call, Removal, no_source, no_tools, exits_zero, half_cloned, empty_tools, is_provisioned,
  provision, interrupted, cleanup_interrupted,
}
use google_find_my_tools_web.EspIdf.Interrupted.{Sound}
use google_find_my_tools_web.EspIdf.Installs.{
  Reach, here, called, cut_cleaning, Installed, Reach-Sound, provision-succeeds,
}

program : Unit {0}
unfolding is_provisioned provision interrupted cleanup_interrupted
program = tt

abbrev fresh : Disk
fresh = record { source = no_source; tools = no_tools; marker = none }

abbrev removal : Removal
removal = record { keeps = true; finishes = true }

abbrev at : ℕ → Call
at now = record {
  now = now;
  stale_source = removal;
  stale_tools = removal;
  source = removal;
  clone = exits_zero;
  install = exits_zero;
  idf_py = true;
}

-- A clone that is cut off when `tools/idf.py` is already there.
cut_clone :
    interrupted 100 (at 5) 5 fresh
    ≡ record { source = half_cloned true; tools = empty_tools; marker = none }
unfolding program
cut_clone = refl

-- A clean-up of an install of time 5 that is cut off at time 200.
abbrev half_deleted : Disk
half_deleted = cleanup_interrupted 100 (at 200) 1 (provision 100 (at 5) fresh).1

still_provisioned : is_provisioned half_deleted ≡ true
unfolding program
still_provisioned = refl

fresh-Sound : Sound 100 0 fresh
unfolding program
fresh-Sound = inl (inl refl)

history : Reach 100 0 fresh 200 half_deleted
history = cut_cleaning (called here (at 5) (omega arith) refl) (at 200) 1 (omega arith)

Reach-Sound_example : Sound 100 200 half_deleted
Reach-Sound_example = Reach-Sound 100 0 fresh 200 half_deleted history fresh-Sound

provision-succeeds_example :
    ((provision 100 (at 300) half_deleted).0 ≡ true)
    × Installed 300 (provision 100 (at 300) half_deleted).1
provision-succeeds_example =
    provision-succeeds 100 0 fresh 200 half_deleted (at 300) fresh-Sound history (omega arith) refl
      (refl, refl, refl)
