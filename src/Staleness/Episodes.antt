-- ===== src/Staleness/Episodes.antt =====
-- The notices of webui/staleness.py over any number of checks of one device.
use google_find_my_tools_web.Prelude.{
  sym, ap, ◌∙◌, refl, arith, inr, inl, false, ◌≤◌, [], true, ◌||◌, ◌≡◌, not, ◌+◌, ◌∷◌, Bool-cases,
}
use google_find_my_tools_web.Device.{Staleness}
use google_find_my_tools_web.Staleness.{
  List, some, none, String, ℕ, Bool, Option, AlertContext, Duration, Notice, stale, recovered,
  should_fire, check, repeat_due, compute_status,
}

unfoldable pub settled : Staleness → Option (Staleness × Notice) → Staleness
settled cfg none = cfg
settled cfg (some (cfg', notice)) = cfg'

unfoldable pub noted : ℕ → Option (Staleness × Notice) → List (ℕ × Notice) → List (ℕ × Notice)
noted now none later = later
noted now (some (cfg', notice)) later = (now, notice) ∷ later

-- The checks of one device, each at its time and with the newest fix time that it finds: the
-- notices with their times, and the record after them.
unfoldable pub notices :
    (canonic_id name alias : String) → List (ℕ × Option ℕ) → Staleness → List (ℕ × Notice)
unfolding settled noted
notices canonic_id name alias [] cfg = []
notices canonic_id name alias ((now, newest) ∷ checks) cfg =
    let outcome = check canonic_id name alias newest cfg now in
    noted now outcome (notices canonic_id name alias checks (settled cfg outcome))

abbrev Since : ℕ → Option ℕ → ℕ → Type 0
Since repeat none now = Unit
Since repeat (some last) now = last + repeat ≤ now

-- An alert that follows another one with no recovery in between comes `repeat` seconds later or more.
abbrev pub Repeats : ℕ → Option ℕ → List (ℕ × Notice) → Type 0
Repeats repeat last [] = Unit
Repeats repeat last ((now, stale template context) ∷ rest) =
    Since repeat last now × Repeats repeat (some now) rest
Repeats repeat last ((now, recovered alias threshold) ∷ rest) = Repeats repeat none rest

-- What one check does to the record, by its notice.
data Outcome (cfg : Staleness) (now : ℕ) : Option (Staleness × Notice) → Type 0 where
  quiet : Outcome cfg now none
  alerted :
      (template : String) (context : AlertContext)
      → should_fire cfg now ≡ true
      → Outcome cfg now (
          some (
            record cfg { alert_active = true; last_alert_sent_at = some now },
            stale template context,
          ))
  cleared :
      (alias : String) (threshold : Duration)
      → cfg.alert_active ≡ true
      → Outcome cfg now (
          some (
            record cfg { alert_active = false; last_alert_sent_at = none },
            recovered alias threshold,
          ))

check-Outcome :
    (canonic_id name alias : String) (newest : Option ℕ) (cfg : Staleness) (now : ℕ)
    → Outcome cfg now (check canonic_id name alias newest cfg now)
unfolding check
check-Outcome canonic_id name alias newest cfg now =
    elim (Bool-cases (not cfg.enabled || cfg.muted)) [
      | inl off ↦ rw off quiet
      | inr on ↦ elim (Bool-cases (compute_status newest cfg now).is_stale) [
        | inl old ↦ elim (Bool-cases (should_fire cfg now)) [
          | inl fires ↦ rw (on, old, fires) (alerted _ _ fires)
          | inr holds ↦ rw (on, old, holds) quiet
        ]
        | inr fresh ↦ elim (Bool-cases cfg.alert_active) [
          | inl active ↦ rw (on, fresh) (simp active (cleared _ _ active))
          | inr idle ↦ rw (on, fresh) (simp idle quiet)
        ]
      ]
    ]

repeat-settled :
    (cfg : Staleness) (now : ℕ) (o : Option (Staleness × Notice))
    → Outcome cfg now o
    → (settled cfg o).repeat_s ≡ cfg.repeat_s
unfolding settled
repeat-settled cfg now o quiet = refl
repeat-settled cfg now o (alerted template context fires) = refl
repeat-settled cfg now o (cleared alias threshold active) = refl

-- The time of the last alert is on file while an alert is out, and only then.
abbrev pub IsDated : Staleness → Type 0
IsDated cfg = cfg.alert_active ≡ false → cfg.last_alert_sent_at ≡ none

Since-due :
    (repeat : ℕ) (last : Option ℕ) (now : ℕ) (active : Bool)
    → (active ≡ false → last ≡ none)
    → (not active || repeat_due (some repeat) last now) ≡ true
    → Since repeat last now
unfolding repeat_due
Since-due repeat none now active d fires = tt
Since-due repeat (some last) now true d fires = ground arith
Since-due repeat (some last) now false d fires = let h : some last ≡ none = d refl in cc

Repeats-step :
    (repeat : ℕ) (cfg : Staleness) (now : ℕ) (o : Option (Staleness × Notice))
    (rest : List (ℕ × Notice))
    → Outcome cfg now o
    → IsDated cfg
    → cfg.repeat_s ≡ some repeat
    → Repeats repeat (settled cfg o).last_alert_sent_at rest
    → Repeats repeat cfg.last_alert_sent_at (noted now o rest)
unfolding settled noted should_fire
Repeats-step repeat cfg now o rest quiet d e a = a
Repeats-step repeat cfg now o rest (alerted template context fires) d e a = (
  Since-due repeat cfg.last_alert_sent_at now cfg.alert_active d
      (ap (λ r. not cfg.alert_active || repeat_due r cfg.last_alert_sent_at now) (sym e) ∙ fires),
  a,
)
Repeats-step repeat cfg now o rest (cleared alias threshold active) d e a = a

IsDated-settled :
    (cfg : Staleness) (now : ℕ) (o : Option (Staleness × Notice))
    → Outcome cfg now o
    → IsDated cfg
    → IsDated (settled cfg o)
unfolding settled
IsDated-settled cfg now o quiet d = d
IsDated-settled cfg now o (alerted template context fires) d = λ h. cc
IsDated-settled cfg now o (cleared alias threshold active) d = λ h. refl

module _ (canonic_id name alias : String) where
  -- With a repeat of some seconds, and the time of the last alert on file only while an alert is
  -- out, two alerts with no recovery in between are never closer than that.
  notices-Repeats :
      (repeat : ℕ) (checks : List (ℕ × Option ℕ)) (cfg : Staleness)
      → IsDated cfg
      → cfg.repeat_s ≡ some repeat
      → Repeats repeat cfg.last_alert_sent_at (notices canonic_id name alias checks cfg)
  unfolding notices
  notices-Repeats repeat [] cfg d e = tt
  notices-Repeats repeat ((now, newest) ∷ checks) cfg d e =
      let o = check canonic_id name alias newest cfg now in
      let out = check-Outcome canonic_id name alias newest cfg now in
      Repeats-step repeat cfg now o _ out d e (
        notices-Repeats repeat checks (settled cfg o) (IsDated-settled cfg now o out d)
          (repeat-settled cfg now o out ∙ e))
