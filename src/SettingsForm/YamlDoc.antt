-- ===== src/SettingsForm/YamlDoc.antt =====
-- `from_yaml_doc` and `to_yaml_doc` of webui/forwarders/settings_service.py, on what yaml.safe_load
-- makes of the text. The values of an endpoint are the argument `V`.
use google_find_my_tools_web.Prelude.{
  ap, refl, ◌≡◌, ◌⊎◌, ℕ, ◌+◌, inl, inr, Bool-cases, ◌==◌, Option, none, some, List, [], ◌∷◌, String,
  string_eq, map,
}
use google_find_my_tools_web.Prelude.Dict.{Dict, erase}

-- An element of `endpoints`.
pub data Item {ℓ} (V : Type ℓ) : Type ℓ where
  mapping : Dict String V → Item V
  other : Item V

-- What stands at `endpoints`, and at `display_name`.
pub data Listing {ℓ} (V : Type ℓ) : Type ℓ where
  list : List (Item V) → Listing V
  no_list : Listing V

pub data Naming : Type 0 where
  name : String → Naming
  no_name : Naming

pub data Parsed {ℓ} (V : Type ℓ) : Type ℓ where
  yaml_error : String → Parsed V
  nothing no_mapping : Parsed V
  document : Option (Listing V) → Option Naming → Parsed V

pub data DocError : Type 0 where
  invalid : String → DocError
  must_be_mapping must_be_list must_be_string : DocError
  endpoint_must_be_mapping : ℕ → DocError

unfoldable pub read_naming : Option Naming → DocError ⊎ String
read_naming none = inr ""
read_naming (some no_name) = inl must_be_string
read_naming (some (name given)) = inr given

module _ {ℓ} {V : Type ℓ} where
  -- `{k: v for k, v in ep.items() if k != "type"}`
  unfoldable pub without_type : Dict String V → Dict String V
  unfolding erase
  without_type = erase "type"

  -- The check of each endpoint, from number `i`.
  unfoldable pub read_items : ℕ → List (Item V) → DocError ⊎ List (Dict String V)
  read_items i [] = inr []
  read_items i (other ∷ items) = inl (endpoint_must_be_mapping i)
  read_items i (mapping ep ∷ items) = elim (read_items (i + 1) items) [
    | inl error ↦ inl error
    | inr parsed ↦ inr (ep ∷ parsed)
  ]

  -- `parsed.setdefault("endpoints", [])` and the checks of it.
  unfoldable pub read_listing : Option (Listing V) → DocError ⊎ List (Dict String V)
  unfolding read_items
  read_listing none = inr []
  read_listing (some no_list) = inl must_be_list
  read_listing (some (list items)) = read_items 0 items

  unfoldable pub read_document :
      DocError ⊎ List (Dict String V)
      → DocError ⊎ String
      → DocError ⊎ (List (Dict String V) × String)
  unfolding without_type
  read_document (inl error) naming = inl error
  read_document (inr endpoints) (inl error) = inl error
  read_document (inr endpoints) (inr given) = inr (map without_type endpoints, given)

  unfoldable pub from_yaml_doc : Parsed V → DocError ⊎ (List (Dict String V) × String)
  unfolding read_document read_listing read_naming
  from_yaml_doc (yaml_error e) = inl (invalid e)
  from_yaml_doc nothing = read_document (inr []) (inr "")
  from_yaml_doc no_mapping = inl must_be_mapping
  from_yaml_doc (document listing naming) =
      read_document (read_listing listing) (read_naming naming)

  pub to_yaml_doc : (display_name : String) → List (Dict String V) → Parsed V
  unfolding without_type
  to_yaml_doc display_name endpoints =
      document (some (list (map (λ ep. mapping (without_type ep)) endpoints)))
        (some (name display_name))

  without_type-again : (ep : Dict String V) → without_type (without_type ep) ≡ without_type ep
  unfolding without_type erase
  without_type-again [] = refl
  without_type-again ((k, x) ∷ ep) = elim (Bool-cases (k == "type")) [
    | inl same ↦ rw same (without_type-again ep)
    | inr differs ↦ rw differs (rw differs (ap (λ rest. (k, x) ∷ rest) (without_type-again ep)))
  ]

  read_items-written :
      (i : ℕ) (endpoints : List (Dict String V))
      → read_items i (map (λ ep. mapping (without_type ep)) endpoints)
        ≡ inr (map without_type endpoints)
  unfolding read_items
  read_items-written i [] = refl
  read_items-written i (ep ∷ endpoints) = rw (read_items-written (i + 1) endpoints) refl

  map-without_type :
      (endpoints : List (Dict String V))
      → map without_type (map without_type endpoints) ≡ map without_type endpoints
  map-without_type [] = refl
  map-without_type (ep ∷ endpoints) = λ i. without_type-again ep i ∷ map-without_type endpoints i

  -- The text of the YAML editor, read back.
  from_yaml_doc-to_yaml_doc :
      (display_name : String) (endpoints : List (Dict String V))
      → from_yaml_doc (to_yaml_doc display_name endpoints)
        ≡ inr (map without_type endpoints, display_name)
  unfolding from_yaml_doc read_document to_yaml_doc
  from_yaml_doc-to_yaml_doc display_name endpoints =
      rw (read_items-written 0 endpoints)
        (ap (λ read. inr (read, display_name)) (map-without_type endpoints))
