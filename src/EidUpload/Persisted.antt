-- ===== src/EidUpload/Persisted.antt =====
-- webui/eid_upload.py: `_clock_zero`, which keeps a tracker's clock zero in its entry of
-- devices.yaml and makes a new estimate once the one on file is a day old. What a locate comes to
-- is an argument.
use google_find_my_tools_web.Prelude.{
  refl, inr, inl, arith, ◌≤◌, ◌≡◌, Bool-cases, ◌*◌, ℕ, ◌+◌, List, [], ◌∷◌, Option, none, some, Bool,
  false, ltb, if◌then◌else◌,
}
use google_find_my_tools_web.Prelude.Int.{ℤ}

-- The sub-key "clock_zero" of an entry.
pub record Saved : Type 0 where
  pub clock_zero : ℤ
  pub saved_at : ℕ

-- How the locate ends: with no raw response, or with what `_estimate_from_raw_response` makes of it.
pub data Located : Type 0 where
  not_located : Located
  estimated : Option ℤ → Located

-- A call of `_clock_zero`: the time at its start, the locate it makes if it has to, and the time at
-- which it stores the estimate.
pub record Call : Type 0 where
  pub now : ℕ
  pub located : Located
  pub stored_at : ℕ

-- `CLOCK_ZERO_TTL_S`
abbrev pub clock_zero_ttl_s : ℕ
clock_zero_ttl_s = 24 * 3600

abbrev pub zero_of : Option Saved → Option ℤ
zero_of none = none
zero_of (some saved) = some saved.clock_zero

-- From the locate on.
unfoldable pub calibrate : Located → (stored_at : ℕ) → Option Saved → Option ℤ × Option Saved
calibrate not_located stored_at saved = (zero_of saved, saved)
calibrate (estimated none) stored_at saved = (zero_of saved, saved)
calibrate (estimated (some estimate)) stored_at saved =
    (some estimate, some (record { clock_zero = estimate; saved_at = stored_at }))

-- `now - saved_at < CLOCK_ZERO_TTL_S`
abbrev pub is_fresh : ℕ → Option Saved → Bool
is_fresh now none = false
is_fresh now (some saved) = ltb now (saved.saved_at + clock_zero_ttl_s)

unfoldable pub clock_zero : Call → Option Saved → Option ℤ × Option Saved
unfolding calibrate
clock_zero c saved =
    if is_fresh c.now saved then (zero_of saved, saved) else calibrate c.located c.stored_at saved

pub after : List Call → Option Saved → Option Saved
unfolding clock_zero
after [] saved = saved
after (c ∷ calls) saved = after calls (clock_zero c saved).1

-- The estimate that a call makes, if it gets one.
abbrev pub estimate_of : Call → Option ℤ
estimate_of c = elim c.located [ not_located ↦ none | estimated e ↦ e ]

abbrev stored_times : Option ℤ → ℕ → List ℕ → List ℕ
stored_times none t times = times
stored_times (some z) t times = t ∷ times

-- The times at which calls put an estimate on file.
unfoldable pub stores : List Call → Option Saved → List ℕ
stores [] saved = []
stores (c ∷ calls) saved =
    let rest = stores calls (clock_zero c saved).1 in
    if is_fresh c.now saved then rest else stored_times (estimate_of c) c.stored_at rest

-- An estimate is stored after its call began.
abbrev pub InOrder : List Call → Type 0
InOrder [] = Unit
InOrder (c ∷ calls) = (c.now ≤ c.stored_at) × InOrder calls

abbrev pub NotYet : Option Saved → ℕ → Type 0
NotYet none t = Unit
NotYet (some saved) t = saved.saved_at + clock_zero_ttl_s ≤ t

-- From the one on file on, each comes a day or more after the one before it.
abbrev pub DaysApart : Option ℕ → List ℕ → Type 0
DaysApart last [] = Unit
DaysApart none (t ∷ times) = DaysApart (some t) times
DaysApart (some last) (t ∷ times) = (last + clock_zero_ttl_s ≤ t) × DaysApart (some t) times

abbrev pub saved_time : Option Saved → Option ℕ
saved_time none = none
saved_time (some saved) = some saved.saved_at

DaysApart-cons :
    (saved : Option Saved) (c : Call) (times : List ℕ)
    → is_fresh c.now saved ≡ false
    → c.now ≤ c.stored_at
    → DaysApart (some c.stored_at) times
    → DaysApart (saved_time saved) (c.stored_at ∷ times)
DaysApart-cons none c times f o h = h
DaysApart-cons (some saved) c times f o h = (ground (arith, f), h)

clock_zero-old :
    (c : Call) (saved : Option Saved) (l : Located)
    → c.located ≡ l
    → is_fresh c.now saved ≡ false
    → (clock_zero c saved).1 ≡ (calibrate l c.stored_at saved).1
unfolding clock_zero
clock_zero-old c saved l e f = rw (f, e)

stores-step :
    (c : Call) (calls : List Call) (saved : Option Saved) (l : Located)
    → c.located ≡ l
    → is_fresh c.now saved ≡ false
    → c.now ≤ c.stored_at
    → ((s : Option Saved) → DaysApart (saved_time s) (stores calls s))
    → DaysApart (saved_time saved) (stores (c ∷ calls) saved)
unfolding stores calibrate
stores-step c calls saved not_located e f o ih =
    rw f (rw (clock_zero-old c saved not_located e f) (rw e (ih saved)))
stores-step c calls saved (estimated none) e f o ih =
    rw f (rw (clock_zero-old c saved (estimated none) e f) (rw e (ih saved)))
stores-step c calls saved (estimated (some z)) e f o ih = rw f (
    rw (clock_zero-old c saved (estimated (some z)) e f) (
      rw e (
        DaysApart-cons saved c _ f o
          (ih (some (record { clock_zero = z; saved_at = c.stored_at }))))))

-- From the estimate on file on, a new one is stored a day or more after the one before it.
stores-DaysApart :
    (calls : List Call) (saved : Option Saved)
    → InOrder calls
    → DaysApart (saved_time saved) (stores calls saved)
unfolding stores clock_zero
stores-DaysApart [] saved o = tt
stores-DaysApart (c ∷ calls) saved (o, os) = elim (Bool-cases (is_fresh c.now saved)) [
  | inl fresh ↦ rw fresh (stores-DaysApart calls saved os)
  | inr old ↦ stores-step c calls saved c.located refl old o (λ s. stores-DaysApart calls s os)
]
