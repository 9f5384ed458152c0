-- ===== src/DecryptLocations/Tests.antt =====
-- Runs of decrypt_locations.py, and its theorem at a concrete response.
use google_find_my_tools_web.Prelude.{
  ℕ, ◌/◌, List, [], ◌∷◌, none, some, String, ◌≡◌, refl, nat_beq, if◌then◌else◌, false,
}
use google_find_my_tools_web.Prelude.Int.{pos}
use google_find_my_tools_web.CounterSearch.{decrypt_with_counter_search, ok, value_error}
use google_find_my_tools_web.DecryptLocations.{
  Bytes, Report, Decoder, is_empty, decrypt_location_response_locations, all_reports,
}
use google_find_my_tools_web.DecryptLog.{Logs, known_correction}
use google_find_my_tools_web.DecryptLocations.Selection.{
  in_order, Caught, readable, errors, Selects, decrypt-Selects,
}
use google_find_my_tools_web.DecryptLocations.Logged.{LoggedOnce}

program : Unit {0}
unfolding decrypt_location_response_locations decrypt_with_counter_search is_empty all_reports
program = tt

-- Own reports decrypt, and those of others in the sixth rotation period alone.
abbrev decoder : Decoder String
decoder = record {
  semantic = 0;
  is_mcu = false;
  own_report = λ b. ok b;
  foreign_report = λ b key c. if nat_beq (c / 1024) 5 then ok b else value_error "MAC check failed";
  parse = λ b.
      ok (record { position = record { latitude = pos 7; longitude = pos 8 }; altitude = pos 9 });
  status_name = λ s. some "LAST_KNOWN";
  unknown_status = λ s. "STATUS_UNKNOWN";
}

abbrev report : Bytes → ℕ → Report
report key offset = record {
  status = 1;
  seconds = 100;
  location_name = "";
  encrypted_location = 4 ∷ [];
  public_key_random = key;
  device_time_offset = offset;
  accuracy = 10;
  is_own_report = false;
}

abbrev network : List Report
network = report [] 0 ∷ report (1 ∷ []) 3500 ∷ report (1 ∷ []) 0 ∷ []

abbrev logs : Logs
logs = record {
  mac_failure_count = 2;
  mac_failure_window_start = 0;
  logged_counter_corrections = [];
  summaries = [];
  correction_lines = [];
}

network-Caught : Caught decoder (in_order network none)
unfolding program
network-Caught = (λ e q. cc, (λ e q. cc, (λ e q. cc, tt)))

one_found :
    (decrypt_location_response_locations decoder "tag" 3600
      (report (1 ∷ []) 0 ∷ [])
      none
      logs).1.summaries
    ≡ 2 ∷ []
unfolding program
one_found = refl

decrypt-Selects_example :
    Selects decoder "tag" 3600
      (readable decoder (in_order network none))
      (errors decoder (in_order network none))
      (decrypt_location_response_locations decoder "tag" 3600 network none logs).0
decrypt-Selects_example = decrypt-Selects decoder "tag" 3600 network none logs network-Caught

logs-LoggedOnce : LoggedOnce logs
unfolding known_correction
logs-LoggedOnce name c = refl
