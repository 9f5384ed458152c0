-- ===== src/SettingsForm/Blocks.antt =====
-- The blocks of the form of webui/forwarders/settings_service.py do not meet.
use Prim.Native.Char.{code}
use mathlib.Core.Path.{fun_ext}
use text.Mathlib.TextLemmas.{head-eq_of_cons-eq, tail-eq_of_cons-eq}
use google_find_my_tools_web.Prelude.{
  [], ◌∙◌, ℕ, ◌∷◌, contains, ◌≡◌, refl, sym, ap, ◌||◌, inl, inr, arith, Bool, true, false, Option,
  List, String, nat_beq, string_eq, eq_iff, Bool-cases, if◌then◌else◌, ◌==◌,
}
use google_find_my_tools_web.Template.{append}
use google_find_my_tools_web.SettingsForm.{
  step, Endpoint, Existing, Python, parse_loop, Form, Field, status, last_known, crowdsourced,
  aggregated, semantic, code_name, field_name, key,
}

unfoldable pub has_dash : String → Bool
has_dash String.[] = false
has_dash (String.◌∷◌ c text) = nat_beq (code c) 45 || has_dash text

has_dash-append : (idx name : String) → has_dash (append idx (String.◌∷◌ "-" name)) ≡ true
unfolding has_dash append
has_dash-append String.[] name = refl
has_dash-append (String.◌∷◌ c idx) name = ground (arith, has_dash-append idx name)

-- The last dash ends the id of a block.
append-injective :
    (i j name other : String)
    → has_dash name ≡ false
    → has_dash other ≡ false
    → append i (String.◌∷◌ "-" name) ≡ append j (String.◌∷◌ "-" other)
    → i ≡ j
unfolding append
append-injective String.[] String.[] name other p q e = refl
append-injective String.[] (String.◌∷◌ c j) name other p q e =
    absurd (cc (p, has_dash-append j other, ap has_dash (tail-eq_of_cons-eq e)))
append-injective (String.◌∷◌ c i) String.[] name other p q e =
    absurd (cc (q, has_dash-append i name, ap has_dash (tail-eq_of_cons-eq e)))
append-injective (String.◌∷◌ c i) (String.◌∷◌ d j) name other p q e =
    cc (head-eq_of_cons-eq e, append-injective i j name other p q (tail-eq_of_cons-eq e))

key-injective :
    (i j name other : String)
    → has_dash name ≡ false
    → has_dash other ≡ false
    → key i name ≡ key j other
    → i ≡ j
unfolding key append
key-injective i j name other p q e =
    append-injective i j name other p q
      (tail-eq_of_cons-eq (tail-eq_of_cons-eq (tail-eq_of_cons-eq e)))

field_name-no_dash : (name : Field) → has_dash (field_name name) ≡ false
unfolding has_dash field_name code_name append
field_name-no_dash Field.url = refl
field_name-no_dash Field.method = refl
field_name-no_dash Field.body_type = refl
field_name-no_dash Field.body = refl
field_name-no_dash Field.alias = refl
field_name-no_dash Field.cron = refl
field_name-no_dash Field.skip_if_close = refl
field_name-no_dash Field.min_movement_m = refl
field_name-no_dash Field.skip_if_stale = refl
field_name-no_dash Field.min_update_gap_m = refl
field_name-no_dash Field.skip_if_already_seen = refl
field_name-no_dash Field.only_most_recent = refl
field_name-no_dash Field.filter_by_status = refl
field_name-no_dash Field.skip_if_not_own_report = refl
field_name-no_dash Field.skip_if_inaccurate = refl
field_name-no_dash Field.max_accuracy_m = refl
field_name-no_dash (status last_known) = refl
field_name-no_dash (status crowdsourced) = refl
field_name-no_dash (status aggregated) = refl
field_name-no_dash (status semantic) = refl

-- The form with other values under one key.
unfoldable pub with_values : String → Option String → List String → Form → Form
with_values k value values form = record {
  get = λ j. if j == k then value else form.get j;
  getlist = λ j. if j == k then values else form.getlist j;
}

key-other :
    (i j name other : String)
    → has_dash name ≡ false
    → has_dash other ≡ false
    → (j == i) ≡ false
    → (key i name == key j other) ≡ false
key-other i j name other p q apart = elim (Bool-cases (key i name == key j other)) [
  | inr differs ↦ differs
  | inl same ↦
      let e : i ≡ j =
        key-injective i j name other p q ((eq_iff (key i name) (key j other)).0 same) in
      absurd (ground (arith, apart, (eq_iff j i).1 (sym e)))
]

-- The fields of a block.
abbrev pub block : Form → String → Field → Option String
block form i name = form.get (key i (field_name name))

module _ (j other : String) (value : Option String) (values : List String) (form : Form)
    (dashless : has_dash other ≡ false) where
  abbrev pub changed : Form
  changed = with_values (key j other) value values form

  get-changed :
      (i : String) (name : Field) → (j == i) ≡ false → block changed i name ≡ block form i name
  unfolding with_values
  get-changed i name apart =
      rw (key-other i j (field_name name) other (field_name-no_dash name) dashless apart) refl

  getlist-changed :
      (i name : String)
      → has_dash name ≡ false
      → (j == i) ≡ false
      → changed.getlist (key i name) ≡ form.getlist (key i name)
  unfolding with_values
  getlist-changed i name p apart = rw (key-other i j name other p dashless apart) refl

  not_first : (i : String) (order : List String) → contains (i ∷ order) j ≡ false → (j == i) ≡ false
  not_first i order h = ground (arith, h, eq_iff i j, eq_iff j i)

  -- What is posted under a name without a dash of a block that is not in the order of the form
  -- changes neither the endpoints nor the errors, whatever the ids of the blocks are.
  pub parse_loop-other {ℓ} :
      {F : Type ℓ}
      → (python : Python F) (default_cron : String) (existing_endpoints : List Existing)
        (order : List String) (parsed : List (Endpoint F) × List (ℕ × String))
      → contains order j ≡ false
      → parse_loop python default_cron changed existing_endpoints order parsed
        ≡ parse_loop python default_cron form existing_endpoints order parsed
  unfolding parse_loop has_dash
  parse_loop-other python default_cron existing [] parsed h = refl
  parse_loop-other python default_cron existing (i ∷ order) parsed h =
      let apart : (j == i) ≡ false = not_first i order h in
      let rest : contains order j ≡ false = ground (arith, h) in
      let fields : block changed i ≡ block form i = fun_ext (λ name. get-changed i name apart) in
      parse_loop-other python default_cron existing order _ rest
      ∙ ap
          (λ f. parse_loop python default_cron form existing order (
            step python default_cron existing parsed f (changed.getlist (key i "header_key"))
              (changed.getlist (key i "header_value"))))
          fields
      ∙ ap
          (λ keys. parse_loop python default_cron form existing order (
            step python default_cron existing parsed (block form i) keys
              (changed.getlist (key i "header_value"))))
          (getlist-changed i "header_key" refl apart)
      ∙ ap
          (λ vals. parse_loop python default_cron form existing order (
            step python default_cron existing parsed (block form i)
              (form.getlist (key i "header_key")) vals))
          (getlist-changed i "header_value" refl apart)
