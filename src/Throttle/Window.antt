-- ===== src/Throttle/Window.antt =====
-- The rolling window and the spread of QueryThrottle, over every sequence of calls.
use mathlib.Core.List.{append-nil, append_assoc}
use google_find_my_tools_web.Prelude.{
  ℕ, ◌+◌, ◌≤◌, ◌<◌, ◌≡◌, refl, ◌&&◌, true, false, Option, none, some, inl, inr, List, [], ◌∷◌, ◌++◌,
  ltb, leb, if◌then◌else◌, length, arith, Bool-cases, ltb→lt,
}
use google_find_my_tools_web.Throttle.{
  Settings, QueryThrottle, expire, delay_of, window_delay, spread_delay, consume_slot_or_get_delay,
  admissions, init, spread_delay,
}

-- How many of the times lie in [from, from + window).
pub count_within : (window from : ℕ) → List ℕ → ℕ
count_within window from [] = 0
count_within window from (t ∷ ts) =
    (if leb from t && ltb t (from + window) then 1 else 0) + count_within window from ts

-- The clock readings do not go back.
abbrev pub Chronological : ℕ → List ℕ → Type 0
Chronological start [] = Unit
Chronological start (t ∷ ts) = (start ≤ t) × Chronological t ts

abbrev After : ℕ → Option ℕ → ℕ → Type 0
After spread none t = Unit
After spread (some last) t = last + spread ≤ t

-- Each time is at least `spread` after the one before it, and the first one after `last`.
abbrev pub Spaced : ℕ → Option ℕ → List ℕ → Type 0
Spaced spread last [] = Unit
Spaced spread last (t ∷ ts) = After spread last t × Spaced spread (some t) ts

module _ (w from : ℕ) where
  count_within-append :
      (xs ys : List ℕ)
      → count_within w from (xs ++ ys) ≡ count_within w from xs + count_within w from ys
  unfolding count_within
  count_within-append [] ys = omega arith
  count_within-append (x ∷ xs) ys = omega (arith, count_within-append xs ys)

  count_within-le-length : (xs : List ℕ) → count_within w from xs ≤ length xs
  unfolding count_within
  count_within-le-length [] = omega arith
  count_within-le-length (x ∷ xs) = ground (arith, count_within-le-length xs)

  -- What the loop pops has left every window that reaches past `now`.
  count_within-expire :
      (now : ℕ) (xs : List ℕ)
      → now < from + w
      → count_within w from (expire w now xs) ≡ count_within w from xs
  unfolding count_within expire
  count_within-expire now [] h = refl
  count_within-expire now (x ∷ xs) h = ground (arith, count_within-expire now xs)

-- What the invariant says of a throttle, last called at `now`, and of the times `sent` so far.
record Tracks (s : Settings) (now : ℕ) (q : QueryThrottle) (sent : List ℕ) : Type 0 where
  agrees :
      (from : ℕ)
      → now < from + s.window
      → count_within s.window from sent ≡ count_within s.window from q.sent_at
  bounded : (from : ℕ) → count_within s.window from sent ≤ s.max_per_window

abbrev pub Fresh : (window now : ℕ) → List ℕ → Type 0
Fresh window now [] = Unit
Fresh window now (t ∷ ts) = now < t + window

pub expire-Fresh : (window now : ℕ) (xs : List ℕ) → Fresh window now (expire window now xs)
unfolding expire
expire-Fresh window now [] = tt
expire-Fresh window now (x ∷ xs) = elim (Bool-cases (leb (x + window) now)) [
  | inl old ↦ rw old (expire-Fresh window now xs)
  | inr fresh ↦ rw fresh (ground arith)
]

-- A slot is reserved only while the deque is not full.
room :
    (s : Settings) (now : ℕ) (kept : List ℕ) (last : Option ℕ)
    → 0 < s.max_per_window
    → Fresh s.window now kept
    → delay_of s now kept last ≡ 0
    → length kept < s.max_per_window
unfolding delay_of window_delay
room s now [] last p h e = omega arith
room s now (x ∷ xs) last p h e = ground arith

pub delay-consume :
    (s : Settings) (now : ℕ) (q : QueryThrottle)
    → (consume_slot_or_get_delay s now q).0
      ≡ delay_of s now (expire s.window now q.sent_at) q.last_sent_at
unfolding consume_slot_or_get_delay
delay-consume s now q = ground arith

delay-eq-zero :
    (s : Settings) (now : ℕ) (q : QueryThrottle)
    → leb (consume_slot_or_get_delay s now q).0 0 ≡ true
    → delay_of s now (expire s.window now q.sent_at) q.last_sent_at ≡ 0
delay-eq-zero s now q h = ground (arith, delay-consume s now q)

lt_of_le : {a b c : ℕ} → a ≤ b → b < c → a < c
lt_of_le h k = omega arith

module _ (s : Settings) (some_max : 0 < s.max_per_window) where
  -- One more request, at a time when the deque has room.
  count_within-admit :
      (now now' : ℕ) (q : QueryThrottle) (sent : List ℕ) (from : ℕ)
      → now ≤ now'
      → delay_of s now' (expire s.window now' q.sent_at) q.last_sent_at ≡ 0
      → Tracks s now q sent
      → count_within s.window from (sent ++ now' ∷ []) ≤ s.max_per_window
  unfolding count_within
  count_within-admit now now' q sent from le e t =
      let kept = expire s.window now' q.sent_at in
      elim (Bool-cases (ltb now' (from + s.window))) [
        | inl inside ↦ ground (
          arith,
          count_within-append s.window from sent (now' ∷ []),
          count_within-expire s.window from now' q.sent_at (ltb→lt now' (from + s.window) inside),
          t.agrees from (lt_of_le le (ltb→lt now' (from + s.window) inside)),
          count_within-le-length s.window from kept,
          room s now' kept q.last_sent_at some_max (expire-Fresh s.window now' q.sent_at) e,
        )
        | inr outside ↦
            ground (arith, count_within-append s.window from sent (now' ∷ []), t.bounded from)
      ]

  Tracks-admit :
      (now now' : ℕ) (q : QueryThrottle) (sent : List ℕ)
      → now ≤ now'
      → delay_of s now' (expire s.window now' q.sent_at) q.last_sent_at ≡ 0
      → Tracks s now q sent
      → Tracks s now' (consume_slot_or_get_delay s now' q).1 (sent ++ now' ∷ [])
  unfolding consume_slot_or_get_delay
  Tracks-admit now now' q sent le e t = rw e (record {
    agrees = λ from h. omega (
      arith,
      count_within-append s.window from sent (now' ∷ []),
      count_within-append s.window from (expire s.window now' q.sent_at) (now' ∷ []),
      count_within-expire s.window from now' q.sent_at h,
      t.agrees from (omega arith),
    );
    bounded = λ from. count_within-admit now now' q sent from le e t;
  })

  Tracks-wait :
      (now now' : ℕ) (q : QueryThrottle) (sent : List ℕ)
      → now ≤ now'
      → leb (delay_of s now' (expire s.window now' q.sent_at) q.last_sent_at) 0 ≡ false
      → Tracks s now q sent
      → Tracks s now' (consume_slot_or_get_delay s now' q).1 sent
  unfolding consume_slot_or_get_delay
  Tracks-wait now now' q sent le e t = rw e (record {
    agrees = λ from h.
        omega
          (arith, t.agrees from (omega arith), count_within-expire s.window from now' q.sent_at h);
    bounded = t.bounded;
  })

  admissions-Tracks :
      (start : ℕ) (calls : List ℕ) (q : QueryThrottle) (sent : List ℕ)
      → Chronological start calls
      → Tracks s start q sent
      → (from : ℕ) → count_within s.window from (sent ++ admissions s calls q) ≤ s.max_per_window
  unfolding admissions
  admissions-Tracks start [] q sent c t from = rw append-nil (t.bounded from)
  admissions-Tracks start (now ∷ calls) q sent c t from =
      elim (Bool-cases (leb (consume_slot_or_get_delay s now q).0 0)) [
        | inl go ↦
            let e = delay-eq-zero s now q go in
            rw go (
              rw append_assoc at (
                admissions-Tracks now calls (consume_slot_or_get_delay s now q).1 (sent ++ now ∷ [])
                  c.1 (Tracks-admit start now q sent c.0 e t) from))
        | inr stay ↦ rw stay (
            admissions-Tracks now calls (consume_slot_or_get_delay s now q).1 sent c.1
              (Tracks-wait start now q sent c.0 (rw (← delay-consume) stay) t) from)
      ]

-- From a fresh throttle with a limit above 0 and settings that stay the same, whatever callers make
-- the calls, at clock readings that do not go back, no window of `window` ticks holds more than
-- `max_per_window` requests.
pub admissions_bounded :
    (s : Settings) (start : ℕ) (calls : List ℕ) (from : ℕ)
    → 0 < s.max_per_window
    → Chronological start calls
    → count_within s.window from (admissions s calls init) ≤ s.max_per_window
unfolding init count_within
admissions_bounded s start calls from p c =
    admissions-Tracks s p start calls init [] c
      (record { agrees = λ _ _. refl; bounded = λ _. omega arith }) from

leb-zero : (n : ℕ) → leb n 0 ≡ true → n ≡ 0
leb-zero n h = ground arith

delay-After :
    (s : Settings) (now : ℕ) (kept : List ℕ) (last : Option ℕ)
    → 0 < s.min_spread
    → delay_of s now kept last ≡ 0
    → After s.min_spread last now
unfolding delay_of spread_delay
delay-After s now kept none p e = tt
delay-After s now kept (some last) p e = ground arith

-- With a `min_spread` above 0, whatever the state and the calls, every request goes out at least
-- `min_spread` ticks after the one before it.
pub admissions-Spaced :
    (s : Settings) (calls : List ℕ) (q : QueryThrottle)
    → 0 < s.min_spread
    → Spaced s.min_spread q.last_sent_at (admissions s calls q)
unfolding admissions consume_slot_or_get_delay
admissions-Spaced s [] q p = tt
admissions-Spaced s (now ∷ calls) q p =
    let kept = expire s.window now q.sent_at in
    let sent = record q { sent_at = kept ++ now ∷ []; last_sent_at = some now } in
    elim (Bool-cases (leb (delay_of s now kept q.last_sent_at) 0)) [
      | inl go ↦
          rw (go, go)
            (
              delay-After s now kept q.last_sent_at p (leb-zero _ go),
              admissions-Spaced s calls sent p,
            )
      | inr stay ↦ rw (stay, stay) (admissions-Spaced s calls (record q { sent_at = kept }) p)
    ]
