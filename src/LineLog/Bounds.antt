-- ===== src/LineLog/Bounds.antt =====
-- The size and the content of a log of webui/line_log_io.py after an append.
use google_find_my_tools_web.Prelude.{
  inr, inl, Bool-cases, sym, if◌then◌else◌, ◌∙◌, none, false, ◌⊎◌, refl, zero, ap, arith, ◌==◌, ◌+◌,
  ◌∷◌, ◌≤◌, ◌-◌, ◌≡◌, ◌++◌, string_eq, length,
}
use google_find_my_tools_web.LineLog.{
  nat_beq, ltb, suc, ◌∷◌, [], some, map, Option, List, String, ℕ, compact_slack, Log, lines_of,
  drop, last_n, or_count, parse_all, read_lines, write_lines, append_line,
}

-- The line of an entry gives back the entry, up to changes that its line does not show.
pub record RoundTrips {ℓ} {E : Type ℓ} (format_line : E → String) (parse_line : String → Option E)
    : Type ℓ where
  pub read_back : E → E
  pub parses : (entry : E) → parse_line (format_line entry) ≡ some (read_back entry)
  pub stable : (entry : E) → format_line (read_back entry) ≡ format_line entry
  pub proper : (entry : E) → (format_line entry == "") ≡ false

length-drop {ℓ} : {A : Type ℓ} → (n : ℕ) (xs : List A) → length (drop n xs) ≡ length xs - n
unfolding drop
length-drop zero xs = omega arith
length-drop (suc n) [] = omega arith
length-drop (suc n) (x ∷ xs) = ground (arith, length-drop n xs)

drop-suffix {ℓ} :
    {A : Type ℓ} → (n : ℕ) (xs : List A) → (dropped : List A) × (xs ≡ dropped ++ drop n xs)
unfolding drop
drop-suffix zero xs = ([], refl)
drop-suffix (suc n) [] = ([], refl)
drop-suffix (suc n) (x ∷ xs) =
    let (dropped, e) = drop-suffix n xs in (x ∷ dropped, ap (λ ys. x ∷ ys) e)

pub length-snoc {ℓ} : {A : Type ℓ} → (xs : List A) (x : A) → length (xs ++ (x ∷ [])) ≡ length xs + 1
length-snoc [] x = omega arith
length-snoc (y ∷ xs) x = ground (arith, length-snoc xs x)

pub map-snoc {ℓ κ} :
    {A : Type ℓ} {B : Type κ}
    → (f : A → B) (xs : List A) (x : A) → map f (xs ++ (x ∷ [])) ≡ map f xs ++ (f x ∷ [])
map-snoc f [] x = refl
map-snoc f (y ∷ xs) x = ap (λ ys. f y ∷ ys) (map-snoc f xs x)

drop-map {ℓ κ} :
    {A : Type ℓ} {B : Type κ}
    → (f : A → B) (n : ℕ) (xs : List A) → drop n (map f xs) ≡ map f (drop n xs)
unfolding drop
drop-map f zero xs = refl
drop-map f (suc n) [] = refl
drop-map f (suc n) (x ∷ xs) = drop-map f n xs

length-map {ℓ κ} :
    {A : Type ℓ} {B : Type κ} → (f : A → B) (xs : List A) → length (map f xs) ≡ length xs
length-map f [] = refl
length-map f (x ∷ xs) = ap suc (length-map f xs)

last_n-map {ℓ κ} :
    {A : Type ℓ} {B : Type κ}
    → (f : A → B) (n : ℕ) (xs : List A) → last_n n (map f xs) ≡ map f (last_n n xs)
unfolding last_n
last_n-map f n xs = elim (Bool-cases (nat_beq n 0)) [
  | inl all ↦ rw (all) refl
  | inr some_only ↦ rw (some_only, length-map f xs, drop-map f (length xs - n) xs) refl
]

module _ {ℓ} {E : Type ℓ} (format_line : E → String) (parse_line : String → Option E)
    (r : RoundTrips format_line parse_line) where
  parse_all-map :
      (entries : List E)
      → parse_all format_line parse_line (map format_line entries) ≡ map r.read_back entries
  unfolding parse_all
  parse_all-map [] = refl
  parse_all-map (entry ∷ entries) =
      rw (r.proper entry, r.parses entry)
        (ap (λ es. r.read_back entry ∷ es) (parse_all-map entries))

  map-read_back :
      (entries : List E) → map format_line (map r.read_back entries) ≡ map format_line entries
  map-read_back [] = refl
  map-read_back (entry ∷ entries) = cc (r.stable entry, map-read_back entries)

  -- What a compaction keeps of the entries that it reads.
  compacted :
      (n : ℕ) (entries : List E)
      → last_n n (parse_all format_line parse_line (map format_line entries))
        ≡ map r.read_back (last_n n entries)
  compacted n entries = ap (last_n n) (parse_all-map entries) ∙ last_n-map r.read_back n entries

  -- The log holds these entries, and a cached count is theirs.
  pub record Holds (log : Log) (entries : List E) : Type ℓ where
    pub lines : lines_of log.lines ≡ map format_line entries
    pub counted : (n : ℕ) → log.count ≡ some n → n ≡ length entries

  pub read_lines-Holds :
      (log : Log) (entries : List E)
      → Holds log entries
      → read_lines format_line parse_line log.lines ≡ map r.read_back entries
  unfolding read_lines
  read_lines-Holds log entries h =
      ap (λ lines. parse_all format_line parse_line lines) h.lines ∙ parse_all-map entries

  count-Holds :
      (entries : List E) (count : Option ℕ)
      → ((n : ℕ) → count ≡ some n → n ≡ length entries)
      → or_count count (length entries) ≡ length entries
  unfolding or_count
  count-Holds entries none h = refl
  count-Holds entries (some n) h = h n refl

  last_n-drop :
      (n : ℕ) (entries : List E) → 1 ≤ n → last_n n entries ≡ drop (length entries - n) entries
  unfolding last_n
  last_n-drop n entries positive = ground arith

  last_n-suffix :
      (n : ℕ) (entries : List E)
      → 1 ≤ n
      → n ≤ length entries
      → (dropped : List E) × (entries ≡ dropped ++ last_n n entries)
        × (length (last_n n entries) ≡ n)
  last_n-suffix n entries positive h =
      let (dropped, e) = drop-suffix (length entries - n) entries in
      rw (last_n-drop n entries positive)
        (dropped, e, omega (arith, length-drop (length entries - n) entries))

  -- The two branches of an append, for the entries.
  after_append : E → ℕ → List E → List E
  after_append entry max_entries entries =
      if ltb (max_entries + compact_slack) (length entries + 1)
      then last_n max_entries (entries ++ (entry ∷ []))
      else entries ++ (entry ∷ [])

  after_append-cases :
      (entry : E) (max_entries : ℕ) (entries : List E)
      → (after_append entry max_entries entries ≡ entries ++ (entry ∷ []))
          × (length entries + 1 ≤ max_entries + compact_slack)
        ⊎ (after_append entry max_entries entries ≡ last_n max_entries (entries ++ (entry ∷ [])))
          × (max_entries + compact_slack ≤ length entries)
  unfolding after_append
  after_append-cases entry max_entries entries =
      elim (Bool-cases (ltb (max_entries + compact_slack) (length entries + 1))) [
        | inl full ↦ inr (rw full, ground arith)
        | inr roomy ↦ inl (rw roomy, ground arith)
      ]

  append_line-Holds :
      (entry : E) (max_entries : ℕ) (log : Log) (entries : List E)
      → Holds log entries
      → Holds
          (append_line format_line parse_line entry max_entries log)
          (after_append entry max_entries entries)
  unfolding append_line read_lines write_lines lines_of after_append
  append_line-Holds entry max_entries log entries h =
      let counted : or_count log.count
            (length (parse_all format_line parse_line (lines_of log.lines)))
          ≡ length entries =
        ap (λ ls. or_count log.count (length (parse_all format_line parse_line ls))) h.lines
        ∙ ap (λ es. or_count log.count (length es)) (parse_all-map entries)
        ∙ ap (or_count log.count) (length-map r.read_back entries)
        ∙ count-Holds entries log.count h.counted in
      let lines : lines_of log.lines ++ (format_line entry ∷ [])
          ≡ map format_line (entries ++ (entry ∷ [])) =
        ap (λ ls. ls ++ (format_line entry ∷ [])) h.lines
        ∙ sym (map-snoc format_line entries entry) in
      elim (Bool-cases (ltb (max_entries + compact_slack) (length entries + 1))) [
        | inl full ↦
            let kept = last_n max_entries (entries ++ (entry ∷ [])) in
            rw (counted, full, lines, compacted max_entries (entries ++ (entry ∷ [])))
              (record {
                lines = map-read_back kept;
                counted = λ n e. cc (length-map r.read_back kept);
              })
        | inr roomy ↦
            rw (counted, roomy)
              (record { lines = lines; counted = λ n e. ground (arith, length-snoc entries entry) })
      ]

  -- If lines give back what was written, up to what they do not show, the limit is not 0, and the
  -- log is within the limit and the slack with a cached count, if any, that is right, then an
  -- append leaves all entries with the new one at the end, or the newest `max_entries` of them; and
  -- the log is again within the limit and the slack, with a right count.
  pub append_line-bounded :
      (entry : E) (max_entries : ℕ) (log : Log) (entries : List E)
      → 1 ≤ max_entries
      → Holds log entries
      → length entries ≤ max_entries + compact_slack
      → (dropped kept : List E) × (entries ++ (entry ∷ []) ≡ dropped ++ kept)
        × Holds (append_line format_line parse_line entry max_entries log) kept
        × (length kept ≤ max_entries + compact_slack)
        × ((dropped ≡ []) ⊎ (length kept ≡ max_entries))
  append_line-bounded entry max_entries log entries positive h small =
      let held = append_line-Holds entry max_entries log entries h in
      let longer = length-snoc entries entry in
      elim (after_append-cases entry max_entries entries) [
        | inl (e, roomy) ↦ ([], entries ++ (entry ∷ []), refl, rw (← e) held, omega arith, inl refl)
        | inr (e, full) ↦
            let (dropped, f, g) =
              last_n-suffix max_entries (entries ++ (entry ∷ [])) positive (omega arith) in
            (
              dropped,
              last_n max_entries (entries ++ (entry ∷ [])),
              f,
              rw (← e) held,
              omega arith,
              inr g,
            )
      ]
