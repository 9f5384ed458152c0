-- ===== src/Throttle.antt =====
-- NovaApi/query_throttle.py: the account-wide rate limiter. Times are numbers of clock ticks, so a
-- test `now - t >= window` is written `t + window ≤ now`, and a delay, which the source cuts off at
-- 0.0 by `max`, is a truncated difference.
pub mod Window
pub mod Waiting
mod Tests
use google_find_my_tools_web.Prelude.{
  ℕ, zero, suc, ◌+◌, ◌-◌, max, Bool, ◌&&◌, Option, none, some, List, [], ◌∷◌, ◌++◌, ltb, leb,
  if◌then◌else◌, length,
}

-- What `self._settings()` returns.
pub record Settings : Type 0 where
  pub window : ℕ
  pub max_per_window : ℕ
  pub min_spread : ℕ

-- `QueryThrottle`. The deque holds the oldest request first.
pub record QueryThrottle : Type 0 where
  pub sent_at : List ℕ
  pub last_sent_at : Option ℕ
  pub waiting : ℕ

pub init : QueryThrottle
init = record { sent_at = []; last_sent_at = none; waiting = 0 }

-- The `while` loop that pops the requests which have left the window.
pub expire : (window now : ℕ) → List ℕ → List ℕ
expire window now [] = []
expire window now (t ∷ ts) = if leb (t + window) now then expire window now ts else t ∷ ts

-- `window - (now - self._sent_at[0])`; the deque is not empty where this is asked.
pub oldest_delay : (window now : ℕ) → List ℕ → ℕ
oldest_delay window now [] = 0
oldest_delay window now (t ∷ ts) = t + window - now

pub window_delay : Settings → ℕ → List ℕ → ℕ
unfolding oldest_delay
window_delay s now sent =
    if ltb 0 s.max_per_window && leb s.max_per_window (length sent)
    then oldest_delay s.window now sent
    else 0

pub spread_delay : Settings → ℕ → Option ℕ → ℕ
spread_delay s now none = 0
spread_delay s now (some last) = if ltb 0 s.min_spread then last + s.min_spread - now else 0

pub delay_of : Settings → ℕ → List ℕ → Option ℕ → ℕ
delay_of s now sent last = max (window_delay s now sent) (spread_delay s now last)

-- `_consume_slot_or_get_delay`: the delay, with the slot reserved if it is 0.
pub consume_slot_or_get_delay : Settings → ℕ → QueryThrottle → ℕ × QueryThrottle
consume_slot_or_get_delay s now q =
    let kept = expire s.window now q.sent_at in
    let delay = delay_of s now kept q.last_sent_at in
    if leb delay 0
    then (delay, record q { sent_at = kept ++ now ∷ []; last_sent_at = some now })
    else (delay, record q { sent_at = kept })

-- The calls of `_consume_slot_or_get_delay` that any callers make, by the clock readings under the
-- lock: the readings at which a request went out, in order.
pub admissions : Settings → List ℕ → QueryThrottle → List ℕ
admissions s [] q = []
admissions s (now ∷ calls) q =
    let (delay, q') = consume_slot_or_get_delay s now q in
    let rest = admissions s calls q' in if leb delay 0 then now ∷ rest else rest

-- The loop of `wait_turn`. `sleep now d` is the clock after a sleep of `d` that began at `now`. The
-- result is the clock when the turn came; `none` is a wait that has not ended within the fuel.
pub wait_loop :
    (sleep : ℕ → ℕ → ℕ) → Settings → (fuel now : ℕ) → QueryThrottle → Option (ℕ × QueryThrottle)
wait_loop sleep s zero now q = none
wait_loop sleep s (suc fuel) now q =
    let (delay, q') = consume_slot_or_get_delay s now q in
    let rest = wait_loop sleep s fuel (sleep now delay) q' in
    if leb delay 0 then some (now, q') else rest

pub leave : Option (ℕ × QueryThrottle) → Option (ℕ × QueryThrottle)
leave none = none
leave (some (now, q)) = some (now, record q { waiting = q.waiting - 1 })

-- `wait_turn`, whose `finally` takes the caller out of the count again.
pub wait_turn :
    (sleep : ℕ → ℕ → ℕ) → Settings → (fuel now : ℕ) → QueryThrottle → Option (ℕ × QueryThrottle)
unfolding leave
wait_turn sleep s fuel now q =
    leave (wait_loop sleep s fuel now (record q { waiting = q.waiting + 1 }))
