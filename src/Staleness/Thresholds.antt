-- ===== src/Staleness/Thresholds.antt =====
-- When webui/staleness.py calls a fix old: `display_status`.
use google_find_my_tools_web.Staleness.{age}
use google_find_my_tools_web.Prelude.{
  refl, inr, inl, Bool-cases, arith, none, ◌+◌, ◌↔◌, suc, ◌≤◌, true, some, ◌≡◌, ℕ, Option,
}
use google_find_my_tools_web.Prelude.Int.{ℤ, sub_ℕ, above}
use google_find_my_tools_web.Device.{Staleness}
use google_find_my_tools_web.Staleness.{age, display_status, display_age, threshold_of, fresh}

pub above-sub_ℕ :
    (now fix threshold : ℕ)
    → (above (sub_ℕ now fix) threshold ≡ true) ↔ (suc (fix + threshold) ≤ now)
above-sub_ℕ now fix threshold = ground arith

-- A device is shown as fresh only if it has a fix that was made no longer ago than the threshold
-- that is shown with it.
display_status-fresh :
    (last_fix_time : Option ℕ) (cfg : Option Staleness) (threshold now : ℕ) (a : ℤ)
    → display_status last_fix_time cfg now ≡ fresh a threshold
    → (threshold ≡ threshold_of cfg)
      × ((fix : ℕ) × (last_fix_time ≡ some fix) × (now ≤ fix + threshold))
unfolding display_status display_age age
display_status-fresh none cfg threshold now a h = absurd (ground arith)
display_status-fresh (some fix) cfg threshold now a h =
    elim (Bool-cases (above (sub_ℕ now fix) (threshold_of cfg))) [
      | inl old ↦ absurd (ground arith)
      | inr young ↦
          (ground (arith, h), (fix, refl, ground (arith, above-sub_ℕ now fix (threshold_of cfg))))
    ]
