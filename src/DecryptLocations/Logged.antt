-- ===== src/DecryptLocations/Logged.antt =====
-- What decrypt_locations.py logs: failures in hourly summaries, and corrections of counters.
use google_find_my_tools_web.Prelude.{
  ap, refl, ◌∙◌, length-append, length, ℕ, ◌+◌, ◌&&◌, List, [], ◌∷◌, ◌++◌, String, ◌≡◌, arith,
  Bool-cases, inl, inr, if◌then◌else◌, ◌==◌, string_eq, eq_iff, leb, ◌-◌,
}
use google_find_my_tools_web.Prelude.Int.{ℤ, int_beq, int_beq_iff}
use google_find_my_tools_web.DecryptLocations.Selection.{Caught, errors, collect-Collected}
use google_find_my_tools_web.DecryptLocations.{
  nothing_yet, all_reports, Option, ending, decrypt_location_response_locations, raised,
  time_offset, value_error, ok, Bytes, is_empty, Outcome, nat_beq, Report, Progress, keep, stopped,
  go_on, step, going, skip, after_search, collect, after_own, Decoder, Loop,
}
use google_find_my_tools_web.DecryptLog.{
  Logs, known_correction, log_counter_correction, flush, log_mac_failure,
}

-- How often a correction was logged.
abbrev pub times : String → ℤ → List (String × ℤ) → ℕ
times name c [] = 0
times name c ((other, b) ∷ lines) =
    (if other == name && int_beq b c then 1 else 0) + times name c lines

-- Each correction that is known was logged once, and no other one.
abbrev pub LoggedOnce : Logs → Type 0
LoggedOnce logs =
    (name : String) (c : ℤ)
    → times name c logs.correction_lines
      ≡ (if known_correction logs.logged_counter_corrections name c then 1 else 0)

-- The failures of all summaries, and those since the last one.
abbrev pub sum : List ℕ → ℕ
sum [] = 0
sum (n ∷ ns) = n + sum ns

abbrev pub total : Logs → ℕ
total logs = sum logs.summaries + logs.mac_failure_count

times-snoc :
    (name other : String) (c b : ℤ) (lines : List (String × ℤ))
    → times name c (lines ++ (other, b) ∷ [])
      ≡ times name c lines + (if other == name && int_beq b c then 1 else 0)
times-snoc name other c b [] = ground arith
times-snoc name other c b ((x, y) ∷ lines) = ground (arith, times-snoc name other c b lines)

sum-snoc : (ns : List ℕ) (n : ℕ) → sum (ns ++ n ∷ []) ≡ sum ns + n
sum-snoc [] n = omega arith
sum-snoc (m ∷ ns) n = omega (arith, sum-snoc ns n)

log_mac_failure-total : (now : ℕ) (logs : Logs) → total (log_mac_failure now logs) ≡ total logs + 1
unfolding log_mac_failure flush
log_mac_failure-total now logs = ground (arith, sum-snoc logs.summaries logs.mac_failure_count)

log_counter_correction-total :
    (name : String) (c : ℤ) (logs : Logs) → total (log_counter_correction name c logs) ≡ total logs
unfolding log_counter_correction
log_counter_correction-total name c logs = ground arith

log_mac_failure-LoggedOnce :
    (now : ℕ) (logs : Logs) → LoggedOnce logs → LoggedOnce (log_mac_failure now logs)
unfolding log_mac_failure flush
log_mac_failure-LoggedOnce now logs h name c =
    elim (Bool-cases (leb 3600 (now - logs.mac_failure_window_start))) [
      | inl over ↦ rw over (h name c)
      | inr within ↦ rw within (h name c)
    ]

log_counter_correction-LoggedOnce :
    (name : String) (c : ℤ) (logs : Logs)
    → LoggedOnce logs
    → LoggedOnce (log_counter_correction name c logs)
unfolding log_counter_correction known_correction
log_counter_correction-LoggedOnce name c logs h n b = ground (
  arith,
  h n b,
  h name c,
  times-snoc n name b c logs.correction_lines,
  eq_iff name n,
  int_beq_iff c b,
)

abbrev logs_of {ℓ} : {E : Type ℓ} → Loop E → Logs
logs_of (going p) = p.logs
logs_of (stopped e logs) = logs

-- `start` failures were counted before the loop.
abbrev Counted {ℓ} : {E : Type ℓ} → (start : ℕ) → Loop E → Type 0
Counted start (going p) = total p.logs ≡ start + length p.undecryptable
Counted start (stopped e logs) = Unit

module _ {ℓ} {E : Type ℓ} (d : Decoder E) (name : String) (now : ℕ) where
  open d use {semantic, is_mcu, own_report, foreign_report}

  skip-Counted :
      (start : ℕ) (e : E) (p : Progress E)
      → total p.logs ≡ start + length p.undecryptable
      → total (skip d name now e p).logs ≡ start + length (skip d name now e p).undecryptable
  unfolding skip
  skip-Counted start e p h =
      omega (arith, log_mac_failure-total now p.logs, length-append p.undecryptable (e ∷ []))

  after_own-Counted :
      (start : ℕ) (r : Report) (p : Progress E) (out : Outcome Bytes E)
      → total p.logs ≡ start + length p.undecryptable
      → Counted start (after_own d name now r p out)
  unfolding after_own keep
  after_own-Counted start r p (ok b) h = h
  after_own-Counted start r p (value_error e) h = skip-Counted start e p h
  after_own-Counted start r p (raised e) h = tt

  after_search-Counted :
      (start : ℕ) (r : Report) (p : Progress E) (out : Outcome (Bytes × ℕ) E)
      → total p.logs ≡ start + length p.undecryptable
      → Counted start (after_search d name now r p out)
  unfolding after_search keep
  after_search-Counted start r p (ok (b, counter)) h =
      elim (Bool-cases (nat_beq counter (time_offset d name now r))) [
        | inl same ↦ rw same h
        | inr other ↦ rw other (log_counter_correction-total name _ p.logs ∙ h)
      ]
  after_search-Counted start r p (value_error e) h = skip-Counted start e p h
  after_search-Counted start r p (raised e) h = tt

  step-Counted :
      (start : ℕ) (r : Report) (p : Progress E)
      → total p.logs ≡ start + length p.undecryptable
      → Counted start (step d name now r p)
  unfolding step keep
  step-Counted start r p h = elim (Bool-cases (nat_beq r.status semantic)) [
    | inl place ↦ rw place h
    | inr other ↦ elim (Bool-cases (is_empty r.public_key_random)) [
      | inl own ↦ rw (other, own) (after_own-Counted start r p _ h)
      | inr foreign ↦ rw (other, foreign) (after_search-Counted start r p _ h)
    ]
  ]

  go_on-Counted :
      (start : ℕ) (l : Loop E) (rest : Progress E → Loop E)
      → ((q : Progress E) → total q.logs ≡ start + length q.undecryptable → Counted start (rest q))
      → Counted start l
      → Counted start (go_on d name now l rest)
  unfolding go_on
  go_on-Counted start (going q) rest ih h = ih q h
  go_on-Counted start (stopped e logs) rest ih h = tt

  collect-Counted :
      (start : ℕ) (reports : List Report) (p : Progress E)
      → total p.logs ≡ start + length p.undecryptable
      → Counted start (collect d name now reports p)
  unfolding collect
  collect-Counted start [] p h = h
  collect-Counted start (r ∷ reports) p h =
      go_on-Counted start (step d name now r p) _ (λ q k. collect-Counted start reports q k)
        (step-Counted start r p h)

  -- If nothing but failures to decrypt comes up, the failures in all hourly summaries and in the
  -- running count grow by exactly the undecryptable reports of the response.
  decrypt-total :
      (network : List Report) (recent : Option Report) (logs : Logs)
      → Caught d (all_reports network recent)
      → total (decrypt_location_response_locations d name now network recent logs).1
        ≡ total logs + length (errors d (all_reports network recent))
  unfolding decrypt_location_response_locations ending
  decrypt-total network recent logs h =
      let reports = all_reports network recent in
      let (q, e, l, u) = collect-Collected d name now reports (nothing_yet logs) h in
      let c : Counted (total logs) (collect d name now reports (nothing_yet logs)) =
        collect-Counted (total logs) reports (nothing_yet logs) (omega arith) in
      rw e (rw e at c ∙ ap (λ es. total logs + length es) u)

  after_own-LoggedOnce :
      (r : Report) (p : Progress E) (out : Outcome Bytes E)
      → LoggedOnce p.logs
      → LoggedOnce (logs_of (after_own d name now r p out))
  unfolding after_own keep skip
  after_own-LoggedOnce r p (ok b) h = h
  after_own-LoggedOnce r p (value_error e) h = log_mac_failure-LoggedOnce now p.logs h
  after_own-LoggedOnce r p (raised e) h = h

  after_search-LoggedOnce :
      (r : Report) (p : Progress E) (out : Outcome (Bytes × ℕ) E)
      → LoggedOnce p.logs
      → LoggedOnce (logs_of (after_search d name now r p out))
  unfolding after_search keep skip
  after_search-LoggedOnce r p (ok (b, counter)) h =
      elim (Bool-cases (nat_beq counter (time_offset d name now r))) [
        | inl same ↦ rw same h
        | inr other ↦ rw other (log_counter_correction-LoggedOnce name _ p.logs h)
      ]
  after_search-LoggedOnce r p (value_error e) h = log_mac_failure-LoggedOnce now p.logs h
  after_search-LoggedOnce r p (raised e) h = h

  step-LoggedOnce :
      (r : Report) (p : Progress E) → LoggedOnce p.logs → LoggedOnce (logs_of (step d name now r p))
  unfolding step keep
  step-LoggedOnce r p h = elim (Bool-cases (nat_beq r.status semantic)) [
    | inl place ↦ rw place h
    | inr other ↦ elim (Bool-cases (is_empty r.public_key_random)) [
      | inl own ↦ rw (other, own) (after_own-LoggedOnce r p _ h)
      | inr foreign ↦ rw (other, foreign) (after_search-LoggedOnce r p _ h)
    ]
  ]

  go_on-LoggedOnce :
      (l : Loop E) (rest : Progress E → Loop E)
      → ((q : Progress E) → LoggedOnce q.logs → LoggedOnce (logs_of (rest q)))
      → LoggedOnce (logs_of l)
      → LoggedOnce (logs_of (go_on d name now l rest))
  unfolding go_on
  go_on-LoggedOnce (going q) rest ih h = ih q h
  go_on-LoggedOnce (stopped e logs) rest ih h = h

  collect-LoggedOnce :
      (reports : List Report) (p : Progress E)
      → LoggedOnce p.logs
      → LoggedOnce (logs_of (collect d name now reports p))
  unfolding collect
  collect-LoggedOnce [] p h = h
  collect-LoggedOnce (r ∷ reports) p h =
      go_on-LoggedOnce (step d name now r p) _ (λ q k. collect-LoggedOnce reports q k)
        (step-LoggedOnce r p h)

  ending-logs : (l : Loop E) → (ending d name now l).1 ≡ logs_of l
  unfolding ending
  ending-logs (going p) = refl
  ending-logs (stopped e logs) = refl

  -- Each correction goes on being logged once.
  decrypt-LoggedOnce :
      (network : List Report) (recent : Option Report) (logs : Logs)
      → LoggedOnce logs
      → LoggedOnce (decrypt_location_response_locations d name now network recent logs).1
  unfolding decrypt_location_response_locations
  decrypt-LoggedOnce network recent logs h =
      rw (ending-logs (collect d name now (all_reports network recent) (nothing_yet logs)))
        (collect-LoggedOnce (all_reports network recent) (nothing_yet logs) h)
