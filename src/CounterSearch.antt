-- ===== src/CounterSearch.antt =====
-- FMDNCrypto/foreign_tracker_cryptor.py: `decrypt_with_counter_search`. What `decrypt` makes of a
-- report at a counter is an argument.
pub mod Nearby
mod Tests
use google_find_my_tools_web.Prelude.{
  ℕ, zero, suc, ◌+◌, ◌-◌, ◌*◌, ◌%◌, List, [], ◌∷◌, ltb, if◌then◌else◌,
}
use google_find_my_tools_web.EidGenerator.{rotation_period}

-- How a call of `decrypt` ends: the plaintext, a ValueError, or another exception.
pub data Outcome {ℓ κ} (A : Type ℓ) (E : Type κ) : Type (ℓ ⊔ κ) where
  ok : A → Outcome A E
  value_error : E → Outcome A E
  raised : E → Outcome A E

-- `COUNTER_SEARCH_SLOTS`
abbrev pub counter_search_slots : ℕ
counter_search_slots = 3

-- `reported_counter - reported_counter % ROTATION_PERIOD`
unfoldable pub base_of : ℕ → ℕ
base_of reported = reported - reported % rotation_period

module _ {ℓ κ} {A : Type ℓ} {E : Type κ} (decrypt : ℕ → Outcome A E) where
  -- What is left of the loop, after the outcome of one candidate.
  unfoldable pub or_later : ℕ → Outcome A E → Outcome (A × ℕ) E → Outcome (A × ℕ) E
  or_later candidate (ok plaintext) later = ok (plaintext, candidate)
  or_later candidate (value_error e) later = later
  or_later candidate (raised e) later = raised e

  -- `for candidate in (base - slot * ROTATION_PERIOD, base + slot * ROTATION_PERIOD)`
  unfoldable pub try_slot : (base slot : ℕ) → Outcome (A × ℕ) E → Outcome (A × ℕ) E
  unfolding or_later
  try_slot base slot later =
      let ahead =
        or_later (base + slot * rotation_period) (decrypt (base + slot * rotation_period)) later in
      if ltb base (slot * rotation_period)
      then ahead
      else or_later (base - slot * rotation_period) (decrypt (base - slot * rotation_period)) ahead

  -- `for slot in range(1, COUNTER_SEARCH_SLOTS + 1)`, with the slots that are left.
  unfoldable pub search_slots : (left slot base : ℕ) → E → Outcome (A × ℕ) E
  unfolding try_slot
  search_slots zero slot base reported_error = value_error reported_error
  search_slots (suc left) slot base reported_error =
      try_slot base slot (search_slots left (suc slot) base reported_error)

  unfoldable pub search_after : ℕ → Outcome A E → Outcome (A × ℕ) E
  unfolding search_slots base_of
  search_after reported (ok plaintext) = ok (plaintext, reported)
  search_after reported (value_error e) = search_slots counter_search_slots 1 (base_of reported) e
  search_after reported (raised e) = raised e

  unfoldable pub decrypt_with_counter_search : ℕ → Outcome (A × ℕ) E
  unfolding search_after
  decrypt_with_counter_search reported = search_after reported (decrypt reported)
