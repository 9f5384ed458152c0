-- ===== src/DecryptLocations/Selection.antt =====
-- Which reports of a response come out of decrypt_locations.py as readings.
use google_find_my_tools_web.Prelude.{
  ◌⊎◌, ap, ◌∙◌, inr, refl, sym, inl, Bool-cases, ◌++◌, List, [], ◌∷◌, ◌≡◌, nat_beq, if◌then◌else◌,
}
use mathlib.Core.Path.{subst}
use google_find_my_tools_web.DecryptLocations.Items.{Made, results-Made}
use mathlib.Core.List.{append_assoc, append-nil}
use google_find_my_tools_web.CounterSearch.{
  Outcome, ok, value_error, raised, decrypt_with_counter_search,
}
use google_find_my_tools_web.DecryptLocations.{
  true, Ending, locations, nothing_yet, all_reports, Option, none, some, go_on, raises, ending,
  conclude, nothing_found, decrypt_location_response_locations, collect, skip, time_offset, keep,
  step, going, after_search, after_own, Loop, ℕ, String, Progress, Bytes, Report, Wrapped, Decoder,
  semantic_location, report_location, is_empty,
}
use google_find_my_tools_web.DecryptLog.{Logs}

-- The reports of the network in their order, and behind them the recent one.
abbrev pub in_order : List Report → Option Report → List Report
in_order network none = network
in_order network (some recent) = network ++ recent ∷ []

all_reports-in_order :
    (network : List Report) (recent : Option Report)
    → all_reports network recent ≡ in_order network recent
unfolding all_reports
all_reports-in_order network none = refl
all_reports-in_order network (some recent) = refl

module _ {ℓ} {E : Type ℓ} (d : Decoder E) where
  open d use {semantic, is_mcu, own_report, foreign_report}

  -- What a report gives by itself: a place, a failure that is skipped, or an exception.
  abbrev plaintext : {A : Type 0} → (A → Bytes) → Report → Outcome A E → Outcome Wrapped E
  plaintext f r (ok a) = ok (record {
    decrypted_location = f a;
    time = r.seconds;
    accuracy = r.accuracy;
    status = r.status;
    is_own_report = r.is_own_report;
    name = "";
  })
  plaintext f r (value_error e) = value_error e
  plaintext f r (raised e) = raised e

  abbrev pub reading : Report → Outcome Wrapped E
  reading r =
      if nat_beq r.status semantic
      then ok (record {
        decrypted_location = [];
        time = r.seconds;
        accuracy = 0;
        status = r.status;
        is_own_report = true;
        name = r.location_name;
      })
      else if is_empty r.public_key_random
      then plaintext (λ b. b) r (own_report r.encrypted_location)
      else plaintext (λ found. found.0) r
          (decrypt_with_counter_search (foreign_report r.encrypted_location r.public_key_random)
            (if is_mcu then 0 else r.device_time_offset))

  -- Nothing but a failure to decrypt comes up.
  abbrev pub Caught : List Report → Type ℓ
  Caught [] = Unit
  Caught (r ∷ reports) = ((e : E) → reading r ≡ raised e → ⊥) × Caught reports

  abbrev add_readable : Outcome Wrapped E → List Wrapped → List Wrapped
  add_readable (ok w) ws = w ∷ ws
  add_readable _ ws = ws

  abbrev pub readable : List Report → List Wrapped
  readable [] = []
  readable (r ∷ reports) = add_readable (reading r) (readable reports)

  abbrev add_error : Outcome Wrapped E → List E → List E
  add_error (value_error e) es = e ∷ es
  add_error _ es = es

  abbrev pub errors : List Report → List E
  errors [] = []
  errors (r ∷ reports) = add_error (reading r) (errors reports)

  abbrev Stepped : Progress E → Outcome Wrapped E → Loop E → Type ℓ
  Stepped p out l =
      (q : Progress E) × (l ≡ going q)
      × (q.location_time_array ≡ p.location_time_array ++ add_readable out [])
      × (q.undecryptable ≡ p.undecryptable ++ add_error out [])

  module _ (name : String) (now : ℕ) where
    after_own-Stepped :
        (r : Report) (p : Progress E) (out : Outcome Bytes E)
        → ((e : E) → plaintext (λ b. b) r out ≡ raised e → ⊥)
        → Stepped p (plaintext (λ b. b) r out) (after_own d name now r p out)
    unfolding after_own keep skip report_location
    after_own-Stepped r p (ok b) h = (_, refl, refl, sym (append-nil _))
    after_own-Stepped r p (value_error e) h = (_, refl, sym (append-nil _), refl)
    after_own-Stepped r p (raised e) h = absurd (h e refl)

    after_search-Stepped :
        (r : Report) (p : Progress E) (out : Outcome (Bytes × ℕ) E)
        → ((e : E) → plaintext (λ found. found.0) r out ≡ raised e → ⊥)
        → Stepped p (plaintext (λ found. found.0) r out) (after_search d name now r p out)
    unfolding after_search keep skip report_location
    after_search-Stepped r p (ok (b, c)) h = (_, refl, refl, sym (append-nil _))
    after_search-Stepped r p (value_error e) h = (_, refl, sym (append-nil _), refl)
    after_search-Stepped r p (raised e) h = absurd (h e refl)

    step-Stepped :
        (r : Report) (p : Progress E)
        → ((e : E) → reading r ≡ raised e → ⊥)
        → Stepped p (reading r) (step d name now r p)
    unfolding step semantic_location time_offset keep
    step-Stepped r p h = elim (Bool-cases (nat_beq r.status semantic)) [
      | inl place ↦ rw place (_, refl, refl, sym (append-nil _))
      | inr other ↦ elim (Bool-cases (is_empty r.public_key_random)) [
        | inl own ↦ rw (other, own) (after_own-Stepped r p _ (λ e q. h e (rw (other, own) q)))
        | inr foreign ↦
            rw (other, foreign) (after_search-Stepped r p _ (λ e q. h e (rw (other, foreign) q)))
      ]
    ]

    abbrev pub Collected : List Report → Progress E → Type ℓ
    Collected reports p =
        (q : Progress E) × (collect d name now reports p ≡ going q)
        × (q.location_time_array ≡ p.location_time_array ++ readable reports)
        × (q.undecryptable ≡ p.undecryptable ++ errors reports)

    add_readable_rest :
        (out : Outcome Wrapped E) (rest : List Wrapped)
        → add_readable out [] ++ rest ≡ add_readable out rest
    add_readable_rest (ok w) rest = refl
    add_readable_rest (value_error e) rest = refl
    add_readable_rest (raised e) rest = refl

    add_error_rest :
        (out : Outcome Wrapped E) (rest : List E) → add_error out [] ++ rest ≡ add_error out rest
    add_error_rest (ok w) rest = refl
    add_error_rest (value_error e) rest = refl
    add_error_rest (raised e) rest = refl

    pub collect-Collected :
        (reports : List Report) (p : Progress E) → Caught reports → Collected reports p
    unfolding collect go_on
    collect-Collected [] p h = (p, refl, sym (append-nil _), sym (append-nil _))
    collect-Collected (r ∷ reports) p (h, hs) =
        let (q, e, l, u) = step-Stepped r p h in
        let (q', e', l', u') = collect-Collected reports q hs in
        (
          q',
          rw e e',
          l'
              ∙ rw l (append_assoc p.location_time_array _ _)
              ∙ ap (λ ws. p.location_time_array ++ ws)
                  (add_readable_rest (reading r) (readable reports)),
          u'
              ∙ rw u (append_assoc p.undecryptable _ _)
              ∙ ap (λ es. p.undecryptable ++ es) (add_error_rest (reading r) (errors reports)),
        )

    decrypt-conclude :
        (network : List Report) (recent : Option Report) (logs : Logs)
        → Caught (all_reports network recent)
        → (decrypt_location_response_locations d name now network recent logs).0
          ≡ conclude d name now
              (readable (all_reports network recent))
              (errors (all_reports network recent))
    unfolding decrypt_location_response_locations ending
    decrypt-conclude network recent logs h =
        let (q, e, l, u) = collect-Collected (all_reports network recent) (nothing_yet logs) h in
        rw (e, l, u) refl

    split_last :
        (e : E) (es : List E)
        → (front : List E) × ((last : E) × (e ∷ es ≡ front ++ last ∷ [])
            × (nothing_found d name now (e ∷ es) ≡ raises last))
    unfolding nothing_found
    split_last e [] = ([], (e, refl, refl))
    split_last e (e' ∷ es) =
        let (front, (last, q, found)) = split_last e' es in
        (e ∷ front, (last, ap (λ l. e ∷ l) q, found))

    -- The results are made of the locations, or the first one that cannot be parsed is raised; else
    -- the last error; and without either the result is empty.
    abbrev pub Selects : List Wrapped → List E → Ending E → Type ℓ
    Selects ws es out =
        ((w : Wrapped) × ((rest : List Wrapped) × (ws ≡ w ∷ rest) × Made d ws out))
        ⊎ (ws ≡ [])
          × ((front : List E) × ((last : E) × (es ≡ front ++ last ∷ []) × (out ≡ raises last)))
        ⊎ (ws ≡ []) × (es ≡ []) × (out ≡ locations [])

    conclude-Selects : (ws : List Wrapped) (es : List E) → Selects ws es (conclude d name now ws es)
    unfolding conclude nothing_found
    conclude-Selects (w ∷ ws) es = inl (w, (ws, refl, results-Made d name now (w ∷ ws)))
    conclude-Selects [] [] = inr (inr (refl, refl, refl))
    conclude-Selects [] (e ∷ es) = inr (inl (refl, split_last e es))

    -- If nothing but failures to decrypt comes up in the loop over the reports, in their order with
    -- the recent one last: if some are readable, each gives one result in this order, a place by
    -- its name or a position with the altitude that its plaintext parses to, or the exception of
    -- the first plaintext that cannot be parsed is raised; if none is, the error of the last
    -- undecryptable one is raised; and without reports the result is empty.
    pub decrypt-Selects :
        (network : List Report) (recent : Option Report) (logs : Logs)
        → Caught (in_order network recent)
        → Selects
            (readable (in_order network recent))
            (errors (in_order network recent))
            (decrypt_location_response_locations d name now network recent logs).0
    decrypt-Selects network recent logs h =
        let same = all_reports-in_order network recent in
        subst
          (λ reports.
            Caught reports
            → Selects (readable reports) (errors reports)
                (decrypt_location_response_locations d name now network recent logs).0)
          same (λ caught. rw (decrypt-conclude network recent logs caught) (conclude-Selects _ _)) h
