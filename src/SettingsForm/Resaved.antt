-- ===== src/SettingsForm/Resaved.antt =====
-- The form of webui/forwarders/settings_service.py saved as the page fills it.
use mathlib.Core.Path.{subst}
use mathlib.Core.List.{append-nil, append_assoc}
use google_find_my_tools_web.Prelude.{
  ℕ, ◌≡◌, refl, sym, ap, ◌∙◌, Bool, true, false, Option, none, some, List, [], ◌∷◌, ◌++◌, String,
  length, string_eq, contains, option_eq, eq_refl, if◌then◌else◌, ◌==◌, All, map,
}
use google_find_my_tools_web.Prelude.Dict.{Dict}
use google_find_my_tools_web.SettingsForm.{
  Form, Python, Endpoint, Existing, Field, key, placed, step, parse_loop, parse_endpoints_form,
  kv_rows, unless_empty, field, is_on, switched_off, threshold, body_type_of, method_of, blocked,
  unless_blank, value_or, cron_expr, url_of, entry_of, bad_cron, carried, nth,
}
use google_find_my_tools_web.SettingsForm.Blocks.{block}
use google_find_my_tools_web.SettingsForm.Posted.{
  inputs, header_keys, header_values, Browser, or_blank, chosen, other_methods,
}
use google_find_my_tools_web.SettingsForm.Fields.{
  flag-on, value_or-text, switched_off-flag, IsOff, Filled, unless_blank-text, Stripped,
  unless_blank-Stripped, BodyType, BodyType-text, Shows, threshold-shown, Rows, kv_rows-Rows,
  Blocked, Blocked-read,
}

-- No rows for no headers.
abbrev pub rows_of : Option (Dict String String) → Dict String String
rows_of none = []
rows_of (some headers) = headers

-- The endpoint as it stands on file.
abbrev pub on_file {ℓ} : {F : Type ℓ} → Endpoint F → Existing
on_file e = record { url = some e.url; variables = e.variables }

module _ {ℓ} {F : Type ℓ} (python : Python F) (default_cron : String) (browser : Browser F) where
  -- An endpoint as the form saves it: its method and its body type are options of the page, its texts
  -- have no white space at their ends, are there only if they say something, and stand in their inputs
  -- as they are; its schedule is valid; its thresholds are not 0 and can be read.
  pub record Canonical (e : Endpoint F) : Type ℓ where
    pub url : (python.strip e.url ≡ e.url) × ((e.url == "") ≡ false)
    pub method :
        (contains ("GET" ∷ other_methods) e.method ≡ true)
        × (python.upper (python.strip e.method) ≡ e.method)
        × ((e.method == "") ≡ false)
    pub headers :
        Rows python browser [] (rows_of e.headers) × (unless_empty (rows_of e.headers) ≡ e.headers)
    pub body_type : BodyType python e.body_type
    pub body : Filled e.body × (browser.area (or_blank e.body) ≡ or_blank e.body)
    pub alias : Stripped python e.alias × (browser.line (or_blank e.alias) ≡ or_blank e.alias)
    pub cron :
        (browser.line e.cron ≡ e.cron)
        × (python.strip e.cron ≡ e.cron)
        × ((e.cron == "") ≡ false)
        × (python.is_valid e.cron ≡ true)
    pub movement : Shows python default_cron browser e.min_movement_m
    pub gap : Shows python default_cron browser e.min_update_gap_m
    pub accuracy : Shows python default_cron browser e.max_accuracy_m
    pub seen : IsOff e.skip_if_already_seen
    pub recent : IsOff e.only_most_recent
    pub statuses : Blocked e.filter_by_status e.blocked_statuses

  -- What str.strip makes of two texts without white space.
  pub record Strips : Type ℓ where
    pub blank : python.strip "" ≡ ""
    pub plain : python.strip "none" ≡ "none"

  module _ (e : Endpoint F) (c : Canonical e) where
    abbrev filled : Field → Option String
    filled = inputs browser e

    url-read : url_of python default_cron filled ≡ e.url
    unfolding url_of field inputs
    url-read = ap python.strip (value_or-text e.url "" c.url.1) ∙ c.url.0

    cron-read : cron_expr python default_cron filled ≡ e.cron
    unfolding cron_expr field inputs
    cron-read =
        ap (λ text. python.strip (value_or (some (browser.line text)) ""))
          (value_or-text e.cron "*/5 * * * *" c.cron.2)
        ∙ ap (λ text. python.strip (value_or (some text) "")) c.cron.0
        ∙ ap python.strip (value_or-text e.cron "" c.cron.2)
        ∙ c.cron.1

    cron-saved :
        (if cron_expr python default_cron filled == ""
          then default_cron
          else cron_expr python default_cron filled)
        ≡ e.cron
    cron-saved = rw (cron-read, c.cron.2) refl

    method-read : method_of python default_cron filled ≡ e.method
    unfolding method_of field inputs chosen
    method-read =
        rw
          (
            value_or-text e.method "GET" c.method.2,
            c.method.0,
            value_or-text e.method "GET" c.method.2,
            c.method.1,
            c.method.2,
          )
          refl

    body-read : unless_blank (field python default_cron filled Field.body "") ≡ e.body
    unfolding field inputs
    body-read = rw c.body.1 (unless_blank-text e.body c.body.0)

    alias-read :
        Strips
        → unless_blank (python.strip (field python default_cron filled Field.alias "")) ≡ e.alias
    unfolding field inputs
    alias-read strips = rw c.alias.1 (unless_blank-Stripped python e.alias strips.blank c.alias.0)

    good_cron : bad_cron python default_cron filled ≡ false
    unfolding bad_cron
    good_cron = rw (cron-read, c.cron.2, c.cron.3) refl

    carried-read : carried (url_of python default_cron filled) (some (on_file e)) ≡ e.variables
    unfolding carried
    carried-read = rw (url-read, eq_refl e.url) refl

    headers-read :
        unless_empty (
          kv_rows python default_cron
            (header_keys browser (rows_of e.headers))
            (header_values browser (rows_of e.headers))
            [])
        ≡ e.headers
    headers-read =
        ap unless_empty
          (kv_rows-Rows python default_cron browser [] (rows_of e.headers) c.headers.0)
        ∙ c.headers.1

    entry-read :
        Strips
        → entry_of python default_cron filled
            (header_keys browser (rows_of e.headers))
            (header_values browser (rows_of e.headers))
            (some (on_file e))
          ≡ e
    unfolding entry_of inputs field is_on switched_off threshold body_type_of blocked
    entry-read strips = λ i. record {
      method = method-read i;
      url = url-read i;
      headers = headers-read i;
      body_type = BodyType-text python e.body_type strips.plain c.body_type i;
      body = body-read i;
      alias = alias-read strips i;
      cron = cron-saved i;
      min_movement_m =
          threshold-shown python default_cron browser e.min_movement_m "50" 50 c.movement i;
      min_update_gap_m =
          threshold-shown python default_cron browser e.min_update_gap_m "30" 30 c.gap i;
      skip_if_already_seen = switched_off-flag e.skip_if_already_seen c.seen i;
      only_most_recent = switched_off-flag e.only_most_recent c.recent i;
      filter_by_status = flag-on e.filter_by_status i;
      blocked_statuses = Blocked-read e.filter_by_status e.blocked_statuses c.statuses i;
      skip_if_not_own_report = flag-on e.skip_if_not_own_report i;
      max_accuracy_m =
          threshold-shown python default_cron browser e.max_accuracy_m "100" 100 c.accuracy i;
      variables = carried-read i;
    }

    placed-url :
        (before : List (Endpoint F)) (expr : String)
        → placed python default_cron e.url false expr e (before, []) ≡ (before ++ (e ∷ []), [])
    unfolding placed
    placed-url before expr = rw c.url.1 refl

    step-read :
        (existing : List Existing) (before : List (Endpoint F))
        → Strips
        → nth (length before) existing ≡ some (on_file e)
        → step python default_cron existing
            (before, [])
            filled
            (header_keys browser (rows_of e.headers))
            (header_values browser (rows_of e.headers))
          ≡ (before ++ (e ∷ []), [])
    unfolding step placed
    step-read existing before strips found =
        let put : String → Bool → Endpoint F → List (Endpoint F) × List (ℕ × String) =
          λ address bad entry.
            placed python default_cron address bad (cron_expr python default_cron filled) entry
              (before, []) in
        let keys : List String = header_keys browser (rows_of e.headers) in
        let vals : List String = header_values browser (rows_of e.headers) in
        ap
          (λ x.
            put (url_of python default_cron filled) (bad_cron python default_cron filled)
              (entry_of python default_cron filled keys vals x))
          found
        ∙ ap
            (λ entry.
              put (url_of python default_cron filled) (bad_cron python default_cron filled) entry)
            (entry-read strips)
        ∙ ap (λ bad. put (url_of python default_cron filled) bad e) good_cron
        ∙ ap (λ address. put address false e) url-read
        ∙ placed-url before (cron_expr python default_cron filled)

  -- The blocks of the form, in their order, are these endpoints as the page fills them in.
  unfoldable pub Posts : Form → List String → List (Endpoint F) → Type 0
  Posts form [] [] = Unit
  Posts form (idx ∷ order) (e ∷ endpoints) =
      (block form idx ≡ inputs browser e)
      × (form.getlist (key idx "header_key") ≡ header_keys browser (rows_of e.headers))
      × (form.getlist (key idx "header_value") ≡ header_values browser (rows_of e.headers))
      × Posts form order endpoints
  Posts form _ _ = ⊥

  nth-after :
      (before rest : List (Endpoint F)) (e : Endpoint F)
      → nth (length before) (map on_file (before ++ (e ∷ rest))) ≡ some (on_file e)
  unfolding nth
  nth-after [] rest e = refl
  nth-after (x ∷ before) rest e = nth-after before rest e

  parse_loop-Posts :
      (form : Form) (order : List String) (before endpoints : List (Endpoint F))
      → Strips
      → All Canonical endpoints
      → Posts form order endpoints
      → parse_loop python default_cron form (map on_file (before ++ endpoints)) order (before, [])
        ≡ (before ++ endpoints, [])
  unfolding parse_loop Posts
  parse_loop-Posts form [] before [] strips canonical posts =
      ap (λ es. (es, [])) (sym (append-nil before))
  parse_loop-Posts form [] before (e ∷ endpoints) strips canonical posts = absurd posts
  parse_loop-Posts form (idx ∷ order) before [] strips canonical posts = absurd posts
  parse_loop-Posts form (idx ∷ order) before (e ∷ endpoints) strips (c, canonical)
        (fields, keys, vals, posts) =
      let all : List Existing = map on_file (before ++ (e ∷ endpoints)) in
      let go : (Field → Option String)
          → List String
          → List String
          → List (Endpoint F) × List (ℕ × String) =
        λ f ks vs.
          parse_loop python default_cron form all order
            (step python default_cron all (before, []) f ks vs) in
      ap (λ f. go f (form.getlist (key idx "header_key")) (form.getlist (key idx "header_value")))
        fields
      ∙ ap (λ ks. go (inputs browser e) ks (form.getlist (key idx "header_value"))) keys
      ∙ ap (λ vs. go (inputs browser e) (header_keys browser (rows_of e.headers)) vs) vals
      ∙ ap (λ parsed. parse_loop python default_cron form all order parsed)
          (step-read e c all before strips (nth-after before endpoints e))
      ∙ subst
          (λ es.
            parse_loop python default_cron form (map on_file es) order (before ++ (e ∷ []), [])
            ≡ (es, []))
          (append_assoc before (e ∷ []) endpoints)
          (parse_loop-Posts form order (before ++ (e ∷ [])) endpoints strips canonical posts)

  -- X
  pub parse_endpoints_form-Posts :
      (form : Form) (endpoints : List (Endpoint F))
      → Strips
      → All Canonical endpoints
      → Posts form (form.getlist "ep_order") endpoints
      → parse_endpoints_form python default_cron form (map on_file endpoints) ≡ (endpoints, [])
  unfolding parse_endpoints_form
  parse_endpoints_form-Posts form endpoints strips canonical posts =
      parse_loop-Posts form (form.getlist "ep_order") [] endpoints strips canonical posts
