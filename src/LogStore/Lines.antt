-- ===== src/LogStore/Lines.antt =====
-- The lines of webui/forwarders/log_store.py read back.
use Prim.Native.Char.{Char, code}
use google_find_my_tools_web.Prelude.{
  map, string_eq, ◌∷◌, ◌==◌, eq_iff, ◌∙◌, sym, ◌&&◌, ap, arith, refl, inr, inl, Bool-cases, ◌≡◌,
}
use text.Mathlib.TextLemmas.{cons≢nil, head-eq_of_cons-eq, tail-eq_of_cons-eq}
use google_find_my_tools_web.LineLog.Bounds.{RoundTrips}
use google_find_my_tools_web.LogText.{sanitize, squeeze, is_break, is_tab, str}
use google_find_my_tools_web.LogText.RoundTrip.{sanitize_idem}
use google_find_my_tools_web.LogText.Numbers.{int-str, split-line, line-proper}
use google_find_my_tools_web.LogStore.{
  [], List, true, some, nat_beq, false, String, Entry, starts_with, level_of, or_empty, format_line,
  with_columns, entry_of, parse_line,
}

-- No break and no space.
abbrev Solid : String → Type 0
Solid String.[] = Unit
Solid (String.◌∷◌ p prefix) = (is_break p ≡ false) × (nat_beq (code p) 32 ≡ false) × Solid prefix

starts_with-squeeze :
    (prefix text : String)
    → Solid prefix
    → starts_with prefix (squeeze false text) ≡ starts_with prefix text
unfolding starts_with squeeze is_break is_tab
starts_with-squeeze String.[] text solid = refl
starts_with-squeeze (String.◌∷◌ p prefix) String.[] solid = refl
starts_with-squeeze (String.◌∷◌ p prefix) (String.◌∷◌ c text) (plain, no_space, solid) =
    elim (Bool-cases (is_break c)) [
      | inl breaks ↦ rw (breaks) (ground arith)
      | inr other ↦
          rw (other)
            (ap (λ b. nat_beq (code p) (code c) && b) (starts_with-squeeze prefix text solid))
    ]

space_only : (p : Char) → nat_beq (code p) 32 ≡ false → code p ≡ 32 → ⊥
space_only p other same = ground arith

squeeze-break :
    (c : Char) (text : String)
    → is_break c ≡ true
    → squeeze false (String.◌∷◌ c text) ≡ String.◌∷◌ " " (squeeze true text)
unfolding squeeze
squeeze-break c text breaks = rw (breaks) refl

squeeze-plain :
    (c : Char) (text : String)
    → is_break c ≡ false
    → squeeze false (String.◌∷◌ c text) ≡ String.◌∷◌ c (squeeze false text)
unfolding squeeze
squeeze-plain c text plain = rw (plain) refl

squeezed-Solid : (text goal : String) → Solid goal → squeeze false text ≡ goal → text ≡ goal
unfolding squeeze
squeezed-Solid String.[] goal solid e = e
squeezed-Solid (String.◌∷◌ c text) String.[] solid e = elim (Bool-cases (is_break c)) [
  | inl breaks ↦ absurd (cons≢nil (sym (squeeze-break c text breaks) ∙ e))
  | inr other ↦ absurd (cons≢nil (sym (squeeze-plain c text other) ∙ e))
]
squeezed-Solid (String.◌∷◌ c text) (String.◌∷◌ p goal) (plain, no_space, solid) e =
    elim (Bool-cases (is_break c)) [
      | inl breaks ↦ absurd (
          space_only p no_space
            (sym (ap code (head-eq_of_cons-eq (sym (squeeze-break c text breaks) ∙ e)))))
      | inr other ↦
          let same = sym (squeeze-plain c text other) ∙ e in
          cc (head-eq_of_cons-eq same, squeezed-Solid text goal solid (tail-eq_of_cons-eq same))
    ]

ok-sanitize : (status : String) → (sanitize status == "ok") ≡ (status == "ok")
unfolding sanitize squeeze is_break is_tab
ok-sanitize status = elim (Bool-cases (status == "ok")) [
  | inl ok ↦ ap (λ text. sanitize text == "ok") ((eq_iff status "ok").0 ok) ∙ sym ok
  | inr other ↦ elim (Bool-cases (sanitize status == "ok")) [
    | inl squeezed ↦
        let same : status ≡ "ok" =
          squeezed-Solid status "ok" (refl, refl, (refl, refl, tt))
            ((eq_iff (sanitize status) "ok").0 squeezed) in
        absurd (ground (arith, eq_iff status "ok"))
    | inr stays ↦ stays ∙ sym other
  ]
]

error-sanitize :
    (status : String) → starts_with "error" (sanitize status) ≡ starts_with "error" status
unfolding sanitize is_break is_tab
error-sanitize status =
    starts_with-squeeze "error" status
      (refl, refl, (refl, refl, (refl, refl, (refl, refl, (refl, refl, tt)))))

-- A status keeps its level in a line.
level_of-sanitize : (status : String) → level_of (sanitize status) ≡ level_of status
unfolding level_of
level_of-sanitize status = rw (ok-sanitize status, error-sanitize status) refl

abbrev pub shown : Entry → Entry
shown entry = record {
  time = entry.time;
  canonic_id = sanitize entry.canonic_id;
  device_name = sanitize entry.device_name;
  endpoint_type = sanitize entry.endpoint_type;
  target = sanitize entry.target;
  status = sanitize entry.status;
  payload = some (sanitize (or_empty entry.payload));
  response = some (sanitize (or_empty entry.response));
  level = some (level_of entry.status);
}

abbrev columns : Entry → List String
columns entry =
    entry.canonic_id
    ∷ entry.device_name
    ∷ entry.endpoint_type
    ∷ entry.target
    ∷ entry.status
    ∷ or_empty entry.payload
    ∷ or_empty entry.response
    ∷ []

entry_of-shown :
    (entry : Entry)
    → entry_of (with_columns (str entry.time ∷ map sanitize (columns entry))) ≡ some (shown entry)
unfolding entry_of with_columns
entry_of-shown entry =
    rw (entry_of, with_columns, int-str entry.time, level_of-sanitize entry.status) refl

pub parse_line-format_line : (entry : Entry) → parse_line (format_line entry) ≡ some (shown entry)
unfolding parse_line format_line
parse_line-format_line entry =
    ap (λ parts. entry_of (with_columns parts))
      (split-line 7 entry.time (columns entry) (omega arith))
    ∙ entry_of-shown entry

pub format-shown : (entry : Entry) → format_line (shown entry) ≡ format_line entry
unfolding format_line or_empty
format-shown entry = simp (sanitize_idem)

pub format-proper : (entry : Entry) → (format_line entry == "") ≡ false
unfolding format_line
format-proper entry = line-proper entry.time (columns entry)

abbrev pub lines : RoundTrips format_line parse_line
lines = record {
  read_back = shown;
  parses = parse_line-format_line;
  stable = format-shown;
  proper = format-proper;
}
