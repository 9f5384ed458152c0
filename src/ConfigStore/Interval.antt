-- ===== src/ConfigStore/Interval.antt =====
-- `_seconds_to_cron` of webui/forwarders/config_store.py.
use google_find_my_tools_web.Prelude.{
  ℕ, ◌+◌, ◌/◌, ◌%◌, ◌&&◌, ◌||◌, Option, none, some, String, ltb, leb, nat_beq, if◌then◌else◌,
}
use google_find_my_tools_web.Prelude.Int.{pos}
use google_find_my_tools_web.LogText.{str}
use google_find_my_tools_web.Template.{append}

-- `round(seconds / 60)`, where a half goes to the even neighbour.
unfoldable pub round_60 : ℕ → ℕ
round_60 n =
    if ltb (n % 60) 30 || (nat_beq (n % 60) 30 && nat_beq (n / 60 % 2) 0)
    then n / 60
    else n / 60 + 1

unfoldable pub at_most : ℕ → ℕ → ℕ
at_most bound n = if ltb bound n then bound else n

unfoldable pub at_least_1 : ℕ → ℕ
at_least_1 n = if ltb n 1 then 1 else n

-- `seconds or default`
unfoldable pub or_default_interval : ℕ → Option ℕ → ℕ
or_default_interval default none = default
or_default_interval default (some seconds) = if nat_beq seconds 0 then default else seconds

unfoldable pub seconds_to_cron : (default_poll_interval_s : ℕ) → Option ℕ → String
unfolding round_60 at_most at_least_1 or_default_interval append str
seconds_to_cron default_poll_interval_s seconds =
    let minutes : ℕ = at_least_1 (round_60 (or_default_interval default_poll_interval_s seconds)) in
    if leb minutes 59
    then append "*/" (append (str (pos minutes)) " * * * *")
    else append "0 */" (append (str (pos (at_most 23 (at_least_1 (round_60 minutes))))) " * * *")
