-- ===== src/Throttle/Waiting.antt =====
-- Why `wait_turn` of QueryThrottle ends for a caller whom no other caller overtakes.
use google_find_my_tools_web.Prelude.{
  ℕ, zero, suc, ◌+◌, ◌-◌, ◌≤◌, ◌<◌, ◌≡◌, refl, inl, inr, false, Option, none, some, List, [], ◌∷◌,
  leb, length, arith, Bool-cases,
}
use google_find_my_tools_web.Throttle.{
  Settings, QueryThrottle, expire, delay_of, window_delay, spread_delay, consume_slot_or_get_delay,
  wait_loop, wait_turn,
}

-- The oldest request has left the window.
Old : (window now : ℕ) → List ℕ → Type 0
Old window now [] = Unit
Old window now (t ∷ ts) = t + window ≤ now

-- What is left to wait for after a first sleep: the spread has passed, and if the deque is full its
-- oldest request has left the window.
record IsRested (s : Settings) (now : ℕ) (q : QueryThrottle) : Type 0 where
  spread : spread_delay s now q.last_sent_at ≡ 0
  room : 0 < s.max_per_window → s.max_per_window ≤ length q.sent_at → Old s.window now q.sent_at

length-expire-le : (window now : ℕ) (xs : List ℕ) → length (expire window now xs) ≤ length xs
unfolding expire
length-expire-le window now [] = omega arith
length-expire-le window now (x ∷ xs) = ground (arith, length-expire-le window now xs)

length-expire-lt :
    (window now x : ℕ) (xs : List ℕ)
    → x + window ≤ now
    → length (expire window now (x ∷ xs)) ≤ length xs
unfolding expire
length-expire-lt window now x xs h = ground (arith, length-expire-le window now xs)

spread_passed :
    (s : Settings) (now now' : ℕ) (last : Option ℕ)
    → now + spread_delay s now last ≤ now'
    → spread_delay s now' last ≡ 0
unfolding spread_delay
spread_passed s now now' none h = refl
spread_passed s now now' (some last) h = ground arith

window_passed :
    (s : Settings) (now now' : ℕ) (kept : List ℕ)
    → now + window_delay s now kept ≤ now'
    → 0 < s.max_per_window
    → s.max_per_window ≤ length kept
    → Old s.window now' kept
unfolding window_delay Old
window_passed s now now' [] h p q = tt
window_passed s now now' (t ∷ ts) h p q = ground arith

window_delay-pos :
    (s : Settings) (now : ℕ) (kept : List ℕ)
    → 0 < window_delay s now kept
    → (0 < s.max_per_window) × (s.max_per_window ≤ length kept)
unfolding window_delay
window_delay-pos s now kept h = ground arith

full_shrinks :
    (s : Settings) (now : ℕ) (sent : List ℕ)
    → (0 < s.max_per_window → s.max_per_window ≤ length sent → Old s.window now sent)
    → 0 < window_delay s now (expire s.window now sent)
    → length (expire s.window now sent) < length sent
unfolding Old
full_shrinks s now [] room p =
    let (a, b) = window_delay-pos s now (expire s.window now []) p in
    absurd (omega (arith, length-expire-le s.window now []))
full_shrinks s now (x ∷ xs) room p =
    let (a, b) = window_delay-pos s now (expire s.window now (x ∷ xs)) p in
    let old : x + s.window ≤ now = room a (omega (arith, length-expire-le s.window now (x ∷ xs))) in
    omega (arith, length-expire-lt s.window now x xs old)

-- Rested, a caller waits on only if some request has left the deque since.
expire_shrinks :
    (s : Settings) (now : ℕ) (q : QueryThrottle)
    → IsRested s now q
    → leb (delay_of s now (expire s.window now q.sent_at) q.last_sent_at) 0 ≡ false
    → length (expire s.window now q.sent_at) < length q.sent_at
unfolding delay_of
expire_shrinks s now q r h = full_shrinks s now q.sent_at r.room (ground (arith, r.spread))

module _ (sleep : ℕ → ℕ → ℕ) (sleeps : (now d : ℕ) → now + d ≤ sleep now d) (s : Settings) where
  -- After a sleep of the delay that was returned, the caller is rested.
  IsRested-sleep :
      (now : ℕ) (q : QueryThrottle) (kept : List ℕ)
      → IsRested s (sleep now (delay_of s now kept q.last_sent_at)) (record q { sent_at = kept })
  unfolding delay_of
  IsRested-sleep now q kept =
      let later = sleeps now (delay_of s now kept q.last_sent_at) in
      record {
        spread = spread_passed s now _ q.last_sent_at (omega arith);
        room = window_passed s now _ kept (omega arith);
      }

  wait_loop_rested :
      (fuel now : ℕ) (q : QueryThrottle)
      → IsRested s now q
      → length q.sent_at < fuel
      → (r : ℕ × QueryThrottle) × (wait_loop sleep s fuel now q ≡ some r)
  unfolding wait_loop consume_slot_or_get_delay
  wait_loop_rested zero now q r h = elim h [ ]
  wait_loop_rested (suc fuel) now q r h =
      let kept = expire s.window now q.sent_at in
      let delay = delay_of s now kept q.last_sent_at in
      elim (Bool-cases (leb delay 0)) [
        | inl go ↦ rw (go, go) (_, refl)
        | inr stay ↦
            rw (stay, stay)
              (wait_loop_rested fuel (sleep now delay) (record q { sent_at = kept })
                (IsRested-sleep now q kept) (omega (arith, expire_shrinks s now q r stay)))
      ]

  wait_loop_total :
      (fuel now : ℕ) (q : QueryThrottle)
      → length q.sent_at < fuel
      → (r : ℕ × QueryThrottle) × (wait_loop sleep s (suc fuel) now q ≡ some r)
  unfolding wait_loop consume_slot_or_get_delay
  wait_loop_total fuel now q h =
      let kept = expire s.window now q.sent_at in
      let delay = delay_of s now kept q.last_sent_at in
      elim (Bool-cases (leb delay 0)) [
        | inl go ↦ rw (go, go) (_, refl)
        | inr stay ↦
            rw (stay, stay)
              (wait_loop_rested fuel (sleep now delay) (record q { sent_at = kept })
                (IsRested-sleep now q kept)
                (omega (arith, length-expire-le s.window now q.sent_at)))
      ]

  -- The turn that a wait returns was taken at the clock that it returns, and counts no one in.
  wait_loop_takes :
      (fuel now : ℕ) (q : QueryThrottle) (r : ℕ × QueryThrottle)
      → wait_loop sleep s fuel now q ≡ some r
      → (r.1.last_sent_at ≡ some r.0) × (r.1.waiting ≡ q.waiting) × (now ≤ r.0)
  unfolding wait_loop consume_slot_or_get_delay
  wait_loop_takes zero now q r h = cc
  wait_loop_takes (suc fuel) now q r h =
      let kept = expire s.window now q.sent_at in
      let delay = delay_of s now kept q.last_sent_at in
      let ih = wait_loop_takes fuel (sleep now delay) (record q { sent_at = kept }) r in
      elim (Bool-cases (leb delay 0)) [
        | inl go ↦ ground arith
        | inr stay ↦
            let (last, count, late) = ih (ground arith) in
            (last, count, omega (arith, sleeps now delay))
      ]

  -- With no other caller in between and a sleep that lasts as long as it is asked to, `wait_turn`
  -- returns from every state, after at most two attempts more than there are requests on record;
  -- then the request is the last one sent, and the caller is out of the count of the waiting.
  pub wait_turn_total :
      (now : ℕ) (q : QueryThrottle)
      → (end : ℕ) × (q' : QueryThrottle) × (wait_turn sleep s (suc (suc (length q.sent_at))) now q
          ≡ some (end, q'))
        × (q'.last_sent_at ≡ some end)
        × (q'.waiting ≡ q.waiting)
        × (now ≤ end)
  unfolding wait_turn
  wait_turn_total now q =
      let q' = record q { waiting = q.waiting + 1 } in
      let (r, e) = wait_loop_total (suc (length q.sent_at)) now q' (omega arith) in
      let (last, count, late) = wait_loop_takes _ now q' r e in
      (r.0, record r.1 { waiting = r.1.waiting - 1 }, rw e, last, omega (arith, count), late)
