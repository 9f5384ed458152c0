-- ===== src/CounterSearch/Tests.antt =====
-- Runs of the counter search, and its theorem at a concrete report.
use google_find_my_tools_web.Prelude.{
  ℕ, String, ◌/◌, ◌≡◌, ◌⊎◌, ◌+◌, ◌≤◌, refl, arith, nat_beq, ltb, ◌<◌, if◌then◌else◌,
}
use google_find_my_tools_web.EidGenerator.{rotation_period}
use google_find_my_tools_web.CounterSearch.{
  Outcome, ok, value_error, raised, base_of, or_later, try_slot, search_slots, search_after,
  counter_search_slots, decrypt_with_counter_search,
}
use google_find_my_tools_web.CounterSearch.Nearby.{periods, EncryptedIn, Apart, search_near}

abbrev report : ℕ → Outcome String String
report c =
    if ltb (c / rotation_period) periods
    then (if nat_beq (c / rotation_period) 5 then ok "here" else value_error "MAC check failed")
    else raised "int too big to convert"

report-EncryptedIn : EncryptedIn report 5 "here"
report-EncryptedIn = record {
  fits = omega arith;
  hits = λ c e. ground (arith, e);
  misses = λ c n b. ("MAC check failed", ground (arith, n, b));
  overflows = λ c b. ("int too big to convert", ground (arith, b));
}

found_two_later : decrypt_with_counter_search report 3500 ≡ ok ("here", 5120)
unfolding decrypt_with_counter_search search_after search_slots try_slot or_later base_of
found_two_later = refl

not_four_later : decrypt_with_counter_search report 1500 ≡ value_error "MAC check failed"
unfolding decrypt_with_counter_search search_after search_slots try_slot or_later base_of
not_four_later = refl

-- The slot before the last one of four bytes is tried, and the one behind it raises.
beyond_four_bytes : decrypt_with_counter_search report 4294967295 ≡ raised "int too big to convert"
unfolding decrypt_with_counter_search search_after search_slots try_slot or_later base_of
beyond_four_bytes = refl

search_near_example :
    (5 ≤ 3500 / rotation_period + counter_search_slots)
      × (3500 / rotation_period ≤ 5 + counter_search_slots)
      × ((c : ℕ) × (c / rotation_period ≡ 5)
          × (decrypt_with_counter_search report 3500 ≡ ok ("here", c)))
    ⊎ Apart 5 (3500 / rotation_period)
      × (3500 / rotation_period + counter_search_slots < periods)
      × ((e : String) × (report 3500 ≡ value_error e)
          × (decrypt_with_counter_search report 3500 ≡ value_error e))
    ⊎ (periods ≤ 3500 / rotation_period + counter_search_slots)
      × ((e : String) × (decrypt_with_counter_search report 3500 ≡ raised e))
search_near_example = search_near report report-EncryptedIn 3500
