-- ===== src/Staleness/Watched.antt =====
-- Which notices webui/staleness.py gives over any number of checks of a device that is watched.
use google_find_my_tools_web.Prelude.{
  not, ◌||◌, ℕ, suc, ◌+◌, ◌≡◌, refl, ap, ◌∙◌, arith, Bool, true, false, Option, none, some, List,
  [], ◌∷◌, String, ltb,
}
use google_find_my_tools_web.Device.{Staleness}
use google_find_my_tools_web.Staleness.{
  default_message_template, or_text, alert_context, AlertContext, Duration, Notice, stale,
  recovered, check, should_fire, repeat_due, compute_status, exceeds, age,
}
use google_find_my_tools_web.Staleness.Episodes.{notices, noted, settled}
use google_find_my_tools_web.Staleness.Thresholds.{above-sub_ℕ}

-- The newest fix is older than the threshold.
abbrev pub overdue : (threshold : ℕ) → Option ℕ → (now : ℕ) → Bool
overdue threshold none now = false
overdue threshold (some fix) now = ltb (fix + threshold) now

-- The times of the notices, each with whether it is an alert, from whether an alert is out: an
-- alert at the first check that finds the device overdue, a recovery at the first one that does not.
abbrev pub expected : (threshold : ℕ) → (alert : Bool) → List (ℕ × Option ℕ) → List (ℕ × Bool)
expected threshold alert [] = []
expected threshold true ((now, newest) ∷ checks) = elim (overdue threshold newest now) [
  | true ↦ expected threshold true checks
  | false ↦ (now, false) ∷ expected threshold false checks
]
expected threshold false ((now, newest) ∷ checks) = elim (overdue threshold newest now) [
  | true ↦ (now, true) ∷ expected threshold true checks
  | false ↦ expected threshold false checks
]

abbrev pub is_alert : Notice → Bool
is_alert (stale template context) = true
is_alert (recovered alias threshold) = false

abbrev pub shown : List (ℕ × Notice) → List (ℕ × Bool)
shown [] = []
shown ((now, notice) ∷ rest) = (now, is_alert notice) ∷ shown rest

-- Alerts are on, with this threshold and no repeat.
abbrev pub Watches : (threshold : ℕ) → Staleness → Type 0
Watches threshold cfg =
    (cfg.enabled ≡ true)
    × (cfg.muted ≡ false)
    × (cfg.repeat_s ≡ none)
    × (cfg.threshold_s ≡ some threshold)

is_stale-overdue :
    (t : ℕ) (newest : Option ℕ) (cfg : Staleness) (now : ℕ)
    → Watches (suc t) cfg
    → (compute_status newest cfg now).is_stale ≡ overdue (suc t) newest now
unfolding compute_status exceeds age
is_stale-overdue t none cfg now (on, muted, repeat, threshold) = rw (on, threshold) refl
is_stale-overdue t (some fix) cfg now (on, muted, repeat, threshold) =
    rw (on, threshold) (ground (arith, above-sub_ℕ now fix (suc t)))

-- What a check comes to, by whether the device is overdue and an alert is out.
Turned : (old alert : Bool) → Staleness → ℕ → Option (Staleness × Notice) → Type 0
Turned true true cfg now o = o ≡ none
Turned true false cfg now o =
    (template : String) × (context : AlertContext) × (o
      ≡ some (
        record cfg { alert_active = true; last_alert_sent_at = some now },
        stale template context,
      ))
Turned false true cfg now o =
    (alias : String) × (threshold : Duration) × (o
      ≡ some (
        record cfg { alert_active = false; last_alert_sent_at = none },
        recovered alias threshold,
      ))
Turned false false cfg now o = o ≡ none

watched :
    (threshold : ℕ) (cfg : Staleness)
    → Watches threshold cfg
    → (not cfg.enabled || cfg.muted) ≡ false
watched threshold cfg w = ground (arith, w.0, w.1)

module _ (canonic_id name alias : String) where
  check-Turned :
      (t : ℕ) (newest : Option ℕ) (cfg : Staleness) (now : ℕ) (old alert : Bool)
      → Watches (suc t) cfg
      → (compute_status newest cfg now).is_stale ≡ old
      → cfg.alert_active ≡ alert
      → Turned old alert cfg now (check canonic_id name alias newest cfg now)
  unfolding check Turned should_fire repeat_due
  check-Turned t newest cfg now true true w s a =
      let holds : should_fire cfg now ≡ false = rw (a, w.2) refl in
      rw (check, watched (suc t) cfg w, s, holds) refl
  check-Turned t newest cfg now true false w s a =
      let fires : should_fire cfg now ≡ true = rw a refl in
      (
        or_text cfg.message_template default_message_template,
        alert_context canonic_id name alias (compute_status newest cfg now),
        rw (check, watched (suc t) cfg w, s, fires) refl,
      )
  check-Turned t newest cfg now false true w s a = (
    alias,
    (alert_context canonic_id name alias (compute_status newest cfg now)).threshold,
    rw (check, watched (suc t) cfg w, s) (simp a refl),
  )
  check-Turned t newest cfg now false false w s a =
      rw (check, watched (suc t) cfg w, s) (simp a refl)

  -- The notices behind a check, by what it comes to.
  shown-Turned :
      (t now : ℕ) (newest : Option ℕ) (cfg : Staleness) (o : Option (Staleness × Notice))
      (later : Staleness → List (ℕ × Notice)) (checks : List (ℕ × Option ℕ)) (old alert : Bool)
      → Watches (suc t) cfg
      → overdue (suc t) newest now ≡ old
      → cfg.alert_active ≡ alert
      → Turned old alert cfg now o
      → ((next : Staleness)
          → Watches (suc t) next
          → shown (later next) ≡ expected (suc t) next.alert_active checks)
      → shown (noted now o (later (settled cfg o)))
        ≡ expected (suc t) alert ((now, newest) ∷ checks)
  unfolding Turned noted settled
  shown-Turned t now newest cfg o later checks true true w e a turned h =
      rw (turned, expected, e) (h cfg w ∙ ap (λ b. expected (suc t) b checks) a)
  shown-Turned t now newest cfg o later checks true false w e a (template, context, turned) h =
      rw (turned, expected, e) (ap (λ rest. (now, true) ∷ rest) (h _ w))
  shown-Turned t now newest cfg o later checks false true w e a (other, threshold, turned) h =
      rw (turned, expected, e) (ap (λ rest. (now, false) ∷ rest) (h _ w))
  shown-Turned t now newest cfg o later checks false false w e a turned h =
      rw (turned, expected, e) (h cfg w ∙ ap (λ b. expected (suc t) b checks) a)

  -- With alerts on and not muted, a threshold above 0 and no repeat, over any checks: the notices
  -- are one alert at the first check at which the newest fix is older than the threshold, then one
  -- recovery at the first check at which it is not, and so on in turn, from whether an alert is out
  -- at the start; and no others.
  pub notices-expected :
      (t : ℕ) (checks : List (ℕ × Option ℕ)) (cfg : Staleness)
      → Watches (suc t) cfg
      → shown (notices canonic_id name alias checks cfg) ≡ expected (suc t) cfg.alert_active checks
  unfolding notices
  notices-expected t [] cfg w = refl
  notices-expected t ((now, newest) ∷ checks) cfg w =
      shown-Turned t now newest cfg _ (notices canonic_id name alias checks) checks
        (overdue (suc t) newest now) cfg.alert_active w refl refl
        (check-Turned t newest cfg now _ _ w (is_stale-overdue t newest cfg now w) refl)
        (notices-expected t checks)
