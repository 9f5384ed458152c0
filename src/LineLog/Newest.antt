-- ===== src/LineLog/Newest.antt =====
-- A log of webui/line_log_io.py read newest first, after an append.
use google_find_my_tools_web.Prelude.{
  Bool-cases, refl, length-append, arith, ◌∙◌, ap, sym, ◌≡◌, ◌⊎◌, ◌++◌, ◌∷◌, ◌≤◌, ◌+◌, inl, inr,
}
use google_find_my_tools_web.LineLog.{
  ltb, some, or_count, write_lines, ℕ, map, length, [], Option, String, List, Log, append_line,
  read_lines, compact_slack,
}
use google_find_my_tools_web.LineLog.Bounds.{
  RoundTrips, Holds, append_line-bounded, read_lines-Holds, map-snoc, length-snoc,
}
use mathlib.Core.List.{reverse, reverse-append, head-eq_of_cons-eq, tail-eq_of_cons-eq}

snoc-suffix {ℓ} :
    {A : Type ℓ}
    → (xs : List A) (x : A) (dropped kept : List A) → xs ++ (x ∷ []) ≡ dropped ++ kept
    → 1 ≤ length kept
    → (before : List A) × (kept ≡ before ++ (x ∷ [])) × (xs ≡ dropped ++ before)
snoc-suffix xs x [] kept e some_kept = (xs, sym e, refl)
snoc-suffix [] x (d ∷ dropped) kept e some_kept =
    absurd (omega (arith, ap length e, length-append dropped kept))
snoc-suffix (y ∷ xs) x (d ∷ dropped) kept e some_kept =
    let (before, f, g) = snoc-suffix xs x dropped kept (tail-eq_of_cons-eq e) some_kept in
    (before, f, ap (λ ys. y ∷ ys) g ∙ ap (λ z. z ∷ dropped ++ before) (head-eq_of_cons-eq e))

module _ {ℓ} {E : Type ℓ} (format_line : E → String) (parse_line : String → Option E)
    (r : RoundTrips format_line parse_line) where
  -- What an append leaves of the entries before it, and how the log reads.
  pub record Newest (entry : E) (max_entries : ℕ) (log : Log) (entries before : List E)
      : Type ℓ where
    pub suffix :
        (dropped : List E) × (entries ≡ dropped ++ before)
        × ((dropped ≡ []) ⊎ (length before + 1 ≡ max_entries))
    pub holds : Holds format_line parse_line r log (before ++ (entry ∷ []))
    pub small : length before + 1 ≤ max_entries + compact_slack
    pub reads :
        reverse (read_lines format_line parse_line log.lines)
        ≡ r.read_back entry ∷ reverse (map r.read_back before)

  reverse-snoc :
      (before : List E) (entry : E)
      → reverse (map r.read_back (before ++ (entry ∷ [])))
        ≡ r.read_back entry ∷ reverse (map r.read_back before)
  reverse-snoc before entry =
      ap reverse (map-snoc r.read_back before entry)
      ∙ reverse-append (map r.read_back before) (r.read_back entry ∷ [])

  pub append_line-Newest :
      (entry : E) (max_entries : ℕ) (log : Log) (entries : List E)
      → 1 ≤ max_entries
      → Holds format_line parse_line r log entries
      → length entries ≤ max_entries + compact_slack
      → (before : List E) × Newest entry max_entries
          (append_line format_line parse_line entry max_entries log)
          entries
          before
  append_line-Newest entry max_entries log entries positive h small =
      let (dropped, kept, e, held, bound, full) =
        append_line-bounded format_line parse_line r entry max_entries log entries positive h
          small in
      let longer = length-snoc entries entry in
      let parts = length-append dropped kept in
      let some_kept : 1 ≤ length kept = elim full [
        | inl all ↦ omega (arith, ap length e, ap length all)
        | inr as_many ↦ omega arith
      ] in
      let (before, f, g) = snoc-suffix entries entry dropped kept e some_kept in
      let counted : length kept ≡ length before + 1 = ap length f ∙ length-snoc before entry in
      (
        before,
        record {
          suffix = (dropped, g, elim full [ inl all ↦ inl all | inr as_many ↦ inr (omega arith) ]);
          holds = rw (← f) held;
          small = omega arith;
          reads =
              ap reverse (read_lines-Holds format_line parse_line r _ kept held)
              ∙ ap (λ es. reverse (map r.read_back es)) f
              ∙ reverse-snoc before entry;
        },
      )

  pub append_line-some :
      (entry : E) (max_entries : ℕ) (log : Log)
      → (written : List String) × ((append_line format_line parse_line entry max_entries log).lines
          ≡ some written)
  unfolding append_line write_lines
  append_line-some entry max_entries log =
      elim (Bool-cases (
        ltb (max_entries + compact_slack)
          (or_count log.count (length (read_lines format_line parse_line log.lines)) + 1))) [
            | inl full ↦ rw (full) (_, refl)
            | inr roomy ↦ rw (roomy) (_, refl)
          ]
