-- ===== src/DecryptLocations.antt =====
-- NovaApi/ExecuteAction/LocateTracker/decrypt_locations.py: which reports of a response become
-- readings, and what is logged of the others. The ciphers, the parser of the plaintext and the
-- names of the generated `Status` are arguments; coordinates are integers of 1e-7 degrees, and the
-- links of a place are its coordinates.
pub mod Items
pub mod Selection
pub mod Logged
mod Tests
use google_find_my_tools_web.Prelude.{
  ℕ, ◌+◌, ◌-◌, Bool, true, false, ◌&&◌, ◌||◌, Option, none, some, List, [], ◌∷◌, ◌++◌, String,
  nat_beq, leb, contains, Eq, if◌then◌else◌, string_eq, ◌==◌,
}
use google_find_my_tools_web.Prelude.Int.{ℤ, pos, negsuc, sub_ℕ, int_eq, int_beq}
use google_find_my_tools_web.DecryptLog.{Logs, log_counter_correction, log_mac_failure}
use google_find_my_tools_web.Reading.{Position}
use google_find_my_tools_web.CounterSearch.{
  Outcome, ok, value_error, raised, decrypt_with_counter_search,
}

abbrev pub Bytes : Type 0
Bytes = List ℕ

-- An entry of `networkLocations`, or `recentLocation`, with its timestamp.
pub record Report : Type 0 where
  pub status : ℕ
  pub seconds : ℕ
  pub location_name : String
  pub encrypted_location : Bytes
  pub public_key_random : Bytes
  pub device_time_offset : ℕ
  pub accuracy : ℕ
  pub is_own_report : Bool

-- `WrappedLocation`
pub record Wrapped : Type 0 where
  pub decrypted_location : Bytes
  pub time : ℕ
  pub accuracy : ℕ
  pub status : ℕ
  pub is_own_report : Bool
  pub name : String

pub record Plain : Type 0 where
  pub position : Position
  pub altitude : ℤ

-- An item of `results`.
pub record Decrypted : Type 0 where
  pub position : Option Position
  pub altitude : Option ℤ
  pub time : ℕ
  pub is_semantic : Bool
  pub semantic_name : Option String
  pub status : String
  pub status_id : ℕ
  pub accuracy : ℕ
  pub is_own_report : Bool
  pub map_links : Option (Option Position)

-- `reports.networkLocations` with `recentLocation` behind them, if there is one.
pub all_reports : List Report → Option Report → List Report
all_reports network none = network
all_reports network (some recent) = network ++ recent ∷ []

-- `-limit <= value <= limit`
within : ℕ → ℤ → Bool
within limit (pos n) = leb n limit
within limit (negsuc n) = leb (n + 1) limit

-- `create_map_links` of coordinates that are numbers: `none` is the empty dict.
pub create_map_links : Position → Option Position
unfolding within
create_map_links p =
    if within 900_000_000 p.latitude && within 1_800_000_000 p.longitude then some p else none

pub semantic_location : Report → Wrapped
semantic_location r = record {
  decrypted_location = [];
  time = r.seconds;
  accuracy = 0;
  status = r.status;
  is_own_report = true;
  name = r.location_name;
}

pub report_location : Report → Bytes → Wrapped
report_location r plaintext = record {
  decrypted_location = plaintext;
  time = r.seconds;
  accuracy = r.accuracy;
  status = r.status;
  is_own_report = r.is_own_report;
  name = "";
}

pub is_empty : Bytes → Bool
is_empty [] = true
is_empty (b ∷ bytes) = false

-- How the whole function ends.
pub data Ending {ℓ} (E : Type ℓ) : Type ℓ where
  locations : List Decrypted → Ending E
  raises : E → Ending E

-- The loop over the reports goes on, or an exception that it does not catch ends it.
pub record Progress {ℓ} (E : Type ℓ) : Type ℓ where
  pub location_time_array : List Wrapped
  pub undecryptable : List E
  pub logs : Logs

pub data Loop {ℓ} (E : Type ℓ) : Type ℓ where
  going : Progress E → Loop E
  stopped : E → Logs → Loop E

abbrev pub nothing_yet {ℓ} : {E : Type ℓ} → Logs → Progress E
nothing_yet logs = record { location_time_array = []; undecryptable = []; logs = logs }

-- The calls of a report: `decrypt_aes_gcm` under the hash of the identity key, where `value_error`
-- stands for the InvalidTag too; `decrypt` of the cryptor; the parser of a location; and
-- `Status.Name`.
pub record Decoder {ℓ} (E : Type ℓ) : Type ℓ where
  pub semantic : ℕ
  pub is_mcu : Bool
  pub own_report : Bytes → Outcome Bytes E
  pub foreign_report : Bytes → Bytes → ℕ → Outcome Bytes E
  pub parse : Bytes → Outcome Plain E
  pub status_name : ℕ → Option String
  pub unknown_status : ℕ → String

module _ {ℓ} {E : Type ℓ} (d : Decoder E) (name : String) (now : ℕ) where
  open d use {semantic, is_mcu, own_report, foreign_report, parse, status_name, unknown_status}

  pub keep : Wrapped → Progress E → Progress E
  keep w p = record p { location_time_array = p.location_time_array ++ w ∷ [] }

  -- The `except` clause.
  pub skip : E → Progress E → Progress E
  unfolding log_mac_failure
  skip e p = record p {
    undecryptable = p.undecryptable ++ e ∷ [];
    logs = log_mac_failure now p.logs;
  }

  pub after_own : Report → Progress E → Outcome Bytes E → Loop E
  unfolding keep skip report_location
  after_own r p (ok plaintext) = going (keep (report_location r plaintext) p)
  after_own r p (value_error e) = going (skip e p)
  after_own r p (raised e) = stopped e p.logs

  pub time_offset : Report → ℕ
  time_offset r = if is_mcu then 0 else r.device_time_offset

  pub after_search : Report → Progress E → Outcome (Bytes × ℕ) E → Loop E
  unfolding keep skip report_location time_offset log_counter_correction
  after_search r p (ok (plaintext, counter)) =
      let offset = time_offset r in
      let logs =
        if nat_beq counter offset
        then p.logs
        else log_counter_correction name (sub_ℕ counter offset) p.logs in
      going (keep (report_location r plaintext) (record p { logs = logs }))
  after_search r p (value_error e) = going (skip e p)
  after_search r p (raised e) = stopped e p.logs

  pub step : Report → Progress E → Loop E
  unfolding keep semantic_location after_own after_search is_empty time_offset
  step r p =
      if nat_beq r.status semantic
      then going (keep (semantic_location r) p)
      else if is_empty r.public_key_random
      then after_own r p (own_report r.encrypted_location)
      else after_search r p (
          decrypt_with_counter_search (foreign_report r.encrypted_location r.public_key_random)
            (time_offset r))

  pub go_on : Loop E → (Progress E → Loop E) → Loop E
  go_on (stopped e logs) rest = stopped e logs
  go_on (going p) rest = rest p

  pub collect : List Report → Progress E → Loop E
  unfolding step go_on
  collect [] p = going p
  collect (r ∷ reports) p = go_on (step r p) (λ q. collect reports q)

  -- `_status_name`
  pub name_of : ℕ → Option String → String
  name_of status none = unknown_status status
  name_of status (some known) = known

  pub result_of : Wrapped → Option Plain → Decrypted
  unfolding name_of create_map_links
  result_of w none = record {
    position = none;
    altitude = none;
    time = w.time;
    is_semantic = true;
    semantic_name = some w.name;
    status = name_of w.status (status_name w.status);
    status_id = w.status;
    accuracy = w.accuracy;
    is_own_report = w.is_own_report;
    map_links = none;
  }
  result_of w (some plain) = record {
    position = some plain.position;
    altitude = some plain.altitude;
    time = w.time;
    is_semantic = false;
    semantic_name = none;
    status = name_of w.status (status_name w.status);
    status_id = w.status;
    accuracy = w.accuracy;
    is_own_report = w.is_own_report;
    map_links = some (create_map_links plain.position);
  }

  pub prepend : Decrypted → Ending E → Ending E
  prepend r (locations results) = locations (r ∷ results)
  prepend r (raises e) = raises e

  pub after_parse : Wrapped → Outcome Plain E → Ending E → Ending E
  unfolding result_of prepend
  after_parse w (ok plain) rest = prepend (result_of w (some plain)) rest
  after_parse w (value_error e) rest = raises e
  after_parse w (raised e) rest = raises e

  -- The loop that makes the results.
  pub results : List Wrapped → Ending E
  unfolding result_of prepend after_parse
  results [] = locations []
  results (w ∷ wrapped) =
      let rest = results wrapped in
      if nat_beq w.status semantic
      then prepend (result_of w none) rest
      else after_parse w (parse w.decrypted_location) rest

  -- `undecryptable[-1]`, or the empty result if nothing failed.
  pub nothing_found : List E → Ending E
  nothing_found [] = locations []
  nothing_found (e ∷ []) = raises e
  nothing_found (e ∷ e' ∷ errors) = nothing_found (e' ∷ errors)

  pub conclude : List Wrapped → List E → Ending E
  unfolding results nothing_found
  conclude [] errors = nothing_found errors
  conclude (w ∷ wrapped) errors = results (w ∷ wrapped)

  pub ending : Loop E → Ending E × Logs
  unfolding conclude
  ending (going p) = (conclude p.location_time_array p.undecryptable, p.logs)
  ending (stopped e logs) = (raises e, logs)

  pub decrypt_location_response_locations : List Report → Option Report → Logs → Ending E × Logs
  unfolding all_reports collect ending
  decrypt_location_response_locations network recent logs =
      ending (collect (all_reports network recent) (nothing_yet logs))
