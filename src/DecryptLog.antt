-- ===== src/DecryptLog.antt =====
-- The logging of NovaApi/ExecuteAction/LocateTracker/decrypt_locations.py: `_log_counter_correction`
-- and `_log_mac_failure`.
use google_find_my_tools_web.Prelude.{
  ℕ, ◌+◌, ◌-◌, Bool, false, ◌&&◌, ◌||◌, List, [], ◌∷◌, ◌++◌, String, leb, nat_beq, string_eq,
  if◌then◌else◌, ◌==◌,
}
use google_find_my_tools_web.Prelude.Int.{ℤ, int_beq}

-- The module's globals, and the summaries that were logged.
pub record Logs : Type 0 where
  pub mac_failure_count : ℕ
  pub mac_failure_window_start : ℕ
  pub logged_counter_corrections : List (String × ℤ)
  pub summaries : List ℕ
  pub correction_lines : List (String × ℤ)

unfoldable pub known_correction : List (String × ℤ) → String → ℤ → Bool
known_correction [] name correction = false
known_correction ((other, b) ∷ corrections) name correction =
    other == name && int_beq b correction || known_correction corrections name correction

-- `_log_counter_correction`
unfoldable pub log_counter_correction : String → ℤ → Logs → Logs
unfolding known_correction
log_counter_correction name correction logs =
    if known_correction logs.logged_counter_corrections name correction then logs else record logs {
      logged_counter_corrections = (name, correction) ∷ logs.logged_counter_corrections;
      correction_lines = logs.correction_lines ++ (name, correction) ∷ [];
    }

-- The flush of `_log_mac_failure`, an hour after the window began.
unfoldable pub flush : (now : ℕ) → Logs → Logs
flush now logs =
    if leb 3600 (now - logs.mac_failure_window_start)
    then record logs {
      summaries =
          if nat_beq logs.mac_failure_count 0
          then logs.summaries
          else logs.summaries ++ logs.mac_failure_count ∷ [];
      mac_failure_count = 0;
      mac_failure_window_start = now;
    }
    else logs

-- `_log_mac_failure`
unfoldable pub log_mac_failure : (now : ℕ) → Logs → Logs
unfolding flush
log_mac_failure now logs =
    let logs' = flush now logs in record logs' { mac_failure_count = logs'.mac_failure_count + 1 }
