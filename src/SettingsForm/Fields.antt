-- ===== src/SettingsForm/Fields.antt =====
-- Each field of the form of webui/forwarders/settings_service.py read back.
use google_find_my_tools_web.Prelude.{
  ℕ, ◌≡◌, refl, sym, ap, ◌∙◌, inl, inr, arith, Bool, false, not, Option, none, some, List, [], ◌∷◌,
  ◌++◌, String, string_eq, contains, true, Bool-cases, if◌then◌else◌, ◌==◌,
}
use mathlib.Core.Path.{fun_ext}
use mathlib.Core.List.{append-nil, append_assoc}
use google_find_my_tools_web.Prelude.Dict.{Dict, insert, lookup}
use google_find_my_tools_web.SettingsForm.{
  Python, Code, codes, kv_rows, unless_empty, unless_blank, value_or, select, float_or,
}
use google_find_my_tools_web.SettingsForm.Posted.{
  header_values, header_keys, or_blank, has_code, among, flag, is_some, not_off, shown, Browser,
  chosen, body_types,
}

pub flag-on : (b : Bool) → (value_or (some (flag b)) "0" == "1") ≡ b
unfolding value_or flag
flag-on true = refl
flag-on false = refl

pub flag-on_by_default : (b : Bool) → (value_or (some (flag b)) "1" == "1") ≡ b
unfolding value_or flag
flag-on_by_default true = refl
flag-on_by_default false = refl

pub value_or-text :
    (text default : String) → (text == "") ≡ false → value_or (some text) default ≡ text
unfolding value_or
value_or-text text default h = rw h refl

abbrev pub IsOff : Option Bool → Type 0
IsOff none = Unit
IsOff (some b) = b ≡ false

pub switched_off-flag :
    (b : Option Bool)
    → IsOff b
    → (if value_or (some (flag (not_off b))) "1" == "1" then none else some false) ≡ b
unfolding not_off
switched_off-flag none h = rw (flag-on_by_default true) refl
switched_off-flag (some b) h = rw (flag-on_by_default b, h) refl

-- A text that is saved only if there is something in it.
abbrev pub Filled : Option String → Type 0
Filled none = Unit
Filled (some text) = (text == "") ≡ false

pub unless_blank-text :
    (text : Option String) → Filled text → unless_blank (value_or (some (or_blank text)) "") ≡ text
unfolding unless_blank or_blank value_or
unless_blank-text none h = refl
unless_blank-text (some text) h = rw (h, h) refl

insert-new :
    (k v : String) (d : Dict String String) → lookup k d ≡ none → insert k v d ≡ d ++ ((k, v) ∷ [])
unfolding insert lookup
insert-new k v [] h = refl
insert-new k v ((j, w) ∷ d) h = elim (Bool-cases (j == k)) [
  | inl same ↦ absurd (ground (arith, h, same))
  | inr other ↦ rw other (ap (λ rest. (j, w) ∷ rest) (insert-new k v d (ground (arith, h, other))))
]

-- Statuses in the order of the page, and only with the toggle on.
abbrev pub Blocked : Bool → Option (List Code) → Type 0
Blocked on none = Unit
Blocked false (some found) = ⊥
Blocked true (some found) = (select (among found) codes ≡ found) × (unless_empty found ≡ some found)

not-not : (b : Bool) → not (not b) ≡ b
not-not true = refl
not-not false = refl

read_code :
    (found : Option (List Code)) (code : Code)
    → not (value_or (some (flag (not (has_code found code)))) "1" == "1") ≡ has_code found code
read_code found code =
    ap not (flag-on_by_default (not (has_code found code))) ∙ not-not (has_code found code)

none_selected : unless_empty (select (has_code none) codes) ≡ none
unfolding select has_code unless_empty
none_selected = refl

pub Blocked-read :
    (on : Bool) (found : Option (List Code))
    → Blocked on found
    → (if value_or (some (flag on)) "0" == "1"
        then unless_empty (
            select
              (λ code. not (value_or (some (flag (not (has_code found code)))) "1" == "1"))
              codes)
        else none)
      ≡ found
unfolding has_code unless_empty
Blocked-read false none h = rw (flag-on false) refl
Blocked-read false (some found) h = absurd h
Blocked-read true none h =
    rw (flag-on true)
      (ap (λ off. unless_empty (select off codes)) (fun_ext (read_code none)) ∙ none_selected)
Blocked-read true (some found) (same, filled) = rw (flag-on true) (
    ap (λ off. unless_empty (select off codes)) (fun_ext (read_code (some found)))
    ∙ ap unless_empty same
    ∙ filled)

module _ {ℓ} {F : Type ℓ} (python : Python F) where
  abbrev pub Stripped : Option String → Type 0
  Stripped none = Unit
  Stripped (some text) = (python.strip text ≡ text) × ((text == "") ≡ false)

  pub unless_blank-Stripped :
      (text : Option String)
      → python.strip "" ≡ ""
      → Stripped text
      → unless_blank (python.strip (value_or (some (or_blank text)) "")) ≡ text
  unfolding unless_blank or_blank value_or
  unless_blank-Stripped none blank h = rw blank refl
  unless_blank-Stripped (some text) blank (same, h) = rw (h, same, h) refl

  -- One of the options of the page.
  abbrev pub BodyType : Option String → Type 0
  BodyType none = Unit
  BodyType (some text) =
      (contains ("none" ∷ body_types) text ≡ true)
      × (python.strip text ≡ text)
      × ((text == "") ≡ false)
      × ((text == "none") ≡ false)

  pub BodyType-text :
      (text : Option String)
      → python.strip "none" ≡ "none"
      → BodyType text
      → (let shown : String = chosen "none" body_types (value_or text "none") in
          let read : String = python.strip (value_or (some shown) "none") in
          (if read == "" then none else if read == "none" then none else some read) ≡ text)
  unfolding value_or chosen
  BodyType-text none plain h = rw plain refl
  BodyType-text (some text) plain (option, same, h, other) = rw (h, option, h, same, h, other) refl

  module _ (default_cron : String) (browser : Browser F) where
    open browser use {line, show, is_zero}

    abbrev pub Shows : Option F → Type ℓ
    Shows none = Unit
    Shows (some x) =
        (is_zero x ≡ false) × (python.float (show x) ≡ some x) × ((show x == "") ≡ false)

    float_or-show :
        (x : F) (default : ℕ) → Shows (some x) → float_or python default_cron (show x) default ≡ x
    unfolding float_or
    float_or-show x default (number, parses, h) = rw (float_or, h, parses) refl

    pub threshold-shown :
        (x : Option F) (text : String) (default : ℕ)
        → Shows x
        → (if value_or (some (flag (is_some x))) "0" == "1"
            then some
                (float_or python default_cron (value_or (some (shown browser text x)) "") default)
            else none)
          ≡ x
    unfolding is_some shown
    threshold-shown none text default h = rw (flag-on false) refl
    threshold-shown (some x) text default (number, parses, h) =
        rw (flag-on true, number, value_or-text (show x) "" h)
          (ap (λ y. some y) (float_or-show x default (number, parses, h)))

  -- Header rows with names of their own, none of them among those before, that are posted as they
  -- are.
  abbrev pub Rows : Browser F → Dict String String → Dict String String → Type 0
  Rows browser before [] = Unit
  Rows browser before ((k, v) ∷ rows) =
      (browser.line k ≡ k)
      × (browser.line v ≡ v)
      × (python.strip k ≡ k)
      × ((k == "") ≡ false)
      × (lookup k before ≡ none)
      × Rows browser (before ++ ((k, v) ∷ [])) rows

  pub kv_rows-Rows :
      (default_cron : String) (browser : Browser F) (before rows : Dict String String)
      → Rows browser before rows
      → kv_rows python default_cron (header_keys browser rows) (header_values browser rows) before
        ≡ before ++ rows
  unfolding kv_rows header_keys header_values
  kv_rows-Rows default_cron browser before [] h = sym (append-nil before)
  kv_rows-Rows default_cron browser before ((k, v) ∷ rows) (key, val, same, filled, fresh, h) =
      rw
        (
          key,
          val,
          same,
          filled,
          insert-new k v before fresh,
          kv_rows-Rows default_cron browser (before ++ ((k, v) ∷ [])) rows h,
        )
        (append_assoc before ((k, v) ∷ []) rows)
