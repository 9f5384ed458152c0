-- ===== src/CustomForwarder/Previewed.antt =====
-- `preview_request` of webui/forwarders/custom.py and the request that is sent.
use google_find_my_tools_web.Prelude.{
  refl, ◌∙◌, ap, string_eq, ◌≡◌, ◌⊎◌, ◌&&◌, ◌||◌, ◌==◌, Bool, not, inl, inr, Option, none, some,
  String, Bool-cases, Option-cases, arith, eq_iff, if◌then◌else◌,
}
use google_find_my_tools_web.Prelude.Dict.{Dict, lookup, insert}
use google_find_my_tools_web.CustomForwarder.{
  false, true, Endpoint, Source, Python, Preview, or_text, set_default, request, preview_request,
  build_context, render_all,
}

-- The headers of the request, or these with a content type that they lack.
abbrev pub Extends : Dict String String → Dict String String → Type 0
Extends shown sent =
    (sent ≡ shown)
    ⊎ (lookup "Content-Type" shown ≡ none) × (sent ≡ insert "Content-Type" "application/json" shown)

Extends-set_default :
    (headers : Dict String String)
    → Extends headers (set_default "Content-Type" "application/json" headers)
unfolding set_default
Extends-set_default headers = elim (Option-cases (lookup "Content-Type" headers)) [
  | inr (found, e) ↦ inl (rw (set_default, e) refl)
  | inl e ↦ inr (e, rw (set_default, e) refl)
]

-- The request has the previewed body as its content where the body is sent whole.
abbrev pub content_of : Python → Endpoint → Preview → Option String
content_of python endpoint preview =
    if (or_text endpoint.body_type "none" == "json" || or_text endpoint.body_type "none" == "raw")
      && not (python.strip endpoint.body == "")
    then some preview.body
    else none

and_false : (b : Bool) → (b && false) ≡ false
and_false b = ground arith

not_none :
    (text name : String)
    → (text == name) ≡ true
    → (name == "none") ≡ false
    → (text == "none") ≡ false
not_none text name same other = ap (λ t. t == "none") ((eq_iff text name).0 same) ∙ other

-- The preview has the method and the URL of the request, and its headers, or they lack a
-- `Content-Type` and the request alone adds that of JSON; and a body that is sent as a whole, that
-- is a JSON or raw one that is not blank, is the one of the preview.
pub preview_request-Agrees :
    (python : Python) (endpoint : Endpoint) (source : Source)
    → ((preview_request python endpoint source).method ≡ (request python endpoint source).method)
      × ((preview_request python endpoint source).url ≡ (request python endpoint source).url)
      × Extends
          (preview_request python endpoint source).headers
          (request python endpoint source).headers
      × ((request python endpoint source).content
          ≡ content_of python endpoint (preview_request python endpoint source))
unfolding request preview_request
preview_request-Agrees python endpoint source =
    let type : String = or_text endpoint.body_type "none" in
    let ctx = build_context python endpoint source in
    let headers : Dict String String = render_all python ctx endpoint.headers in
    elim (Bool-cases (not (python.strip endpoint.body == ""))) [
      | inr blank ↦
          rw
            (
              blank,
              and_false (type == "json"),
              and_false (type == "raw"),
              and_false (type == "form"),
              and_false (type == "json" || type == "raw"),
            )
            (refl, refl, inl refl, refl)
      | inl whole ↦ elim (Bool-cases (type == "json")) [
        | inl json ↦
            rw (whole, json, not_none type "json" json refl)
              (refl, refl, Extends-set_default headers, refl)
        | inr not_json ↦ elim (Bool-cases (type == "raw")) [
          | inl raw ↦
              rw (whole, not_json, raw, not_none type "raw" raw refl) (refl, refl, inl refl, refl)
          | inr not_raw ↦ elim (Bool-cases (type == "form")) [
            | inl form ↦ rw (whole, not_json, not_raw, form) (refl, refl, inl refl, refl)
            | inr not_form ↦ rw (whole, not_json, not_raw, not_form) (refl, refl, inl refl, refl)
          ]
        ]
      ]
    ]
