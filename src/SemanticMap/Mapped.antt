-- ===== src/SemanticMap/Mapped.antt =====
-- Which readings webui/forwarders/semantic_map.py gives coordinates.
use google_find_my_tools_web.Prelude.{
  refl, eq_iff, ◌==◌, inl, inr, Option, none, Bool-cases, [], false, ◌∷◌, arith, true, some, ◌≡◌,
  List, String, string_eq,
}
use google_find_my_tools_web.Reading.{Position, Location}
use google_find_my_tools_web.SemanticMap.{
  Coords, matches, find_coords, name_of, with_coords, or_unchanged, map_one, apply_semantic_mapping,
}

module _ (casefold : String → String) (create_map_links : Position → String) where
  -- The first entry that matches a name.
  pub data First (name : String) (coords : Coords) : List (String × Coords) → Type 0 where
    here :
        (entry_name : String) (mapping : List (String × Coords))
        → matches casefold create_map_links entry_name coords.match_partial name ≡ true
        → First name coords ((entry_name, coords) ∷ mapping)
    behind :
        (entry_name : String) (entry : Coords) (mapping : List (String × Coords))
        → matches casefold create_map_links entry_name entry.match_partial name ≡ false
        → First name coords mapping
        → First name coords ((entry_name, entry) ∷ mapping)

  find-First :
      (mapping : List (String × Coords)) (name : String) (coords : Coords)
      → find_coords casefold create_map_links mapping name ≡ some coords
      → First name coords mapping
  unfolding find_coords
  find-First [] name coords h = absurd (ground arith)
  find-First ((entry_name, entry) ∷ mapping) name coords h =
      elim (Bool-cases (matches casefold create_map_links entry_name entry.match_partial name)) [
        | inl hit ↦ first_at entry_name entry mapping name coords hit (rw hit at h)
        | inr miss ↦
            behind entry_name entry mapping miss (find-First mapping name coords (rw miss at h))
      ]
    where
      first_at :
          (entry_name : String) (entry : Coords) (mapping : List (String × Coords)) (name : String)
          (coords : Coords)
          → matches casefold create_map_links entry_name entry.match_partial name ≡ true
          → some entry ≡ some coords
          → First name coords ((entry_name, entry) ∷ mapping)
      first_at entry_name entry mapping name coords hit e =
          let same : entry ≡ coords = cc in rw (← same) (here entry_name mapping hit)

  abbrev pub NoneMatches : String → List (String × Coords) → Type 0
  NoneMatches name [] = Unit
  NoneMatches name ((entry_name, entry) ∷ mapping) =
      (matches casefold create_map_links entry_name entry.match_partial name ≡ false)
      × NoneMatches name mapping

  find-NoneMatches :
      (mapping : List (String × Coords)) (name : String)
      → find_coords casefold create_map_links mapping name ≡ none
      → NoneMatches name mapping
  unfolding find_coords
  find-NoneMatches [] name h = tt
  find-NoneMatches ((entry_name, entry) ∷ mapping) name h =
      elim (Bool-cases (matches casefold create_map_links entry_name entry.match_partial name)) [
        | inl hit ↦ absurd (ground arith)
        | inr miss ↦ (miss, find-NoneMatches mapping name (rw miss at h))
      ]

  -- What becomes of one reading.
  pub data Mapped (mapping : List (String × Coords)) (loc : Location) : Location → Type 0 where
    physical : loc.is_semantic ≡ false → Mapped mapping loc loc
    nameless : name_of casefold create_map_links loc.semantic_name ≡ "" → Mapped mapping loc loc
    unknown :
        NoneMatches (name_of casefold create_map_links loc.semantic_name) mapping
        → Mapped mapping loc loc
    mapped :
        (coords : Coords)
        → loc.is_semantic ≡ true
        → First (name_of casefold create_map_links loc.semantic_name) coords mapping
        → Mapped mapping loc (with_coords casefold create_map_links coords loc)

  found-Mapped :
      (mapping : List (String × Coords)) (loc : Location) (found : Option Coords)
      → loc.is_semantic ≡ true
      → find_coords casefold create_map_links mapping
          (name_of casefold create_map_links loc.semantic_name)
        ≡ found
      → Mapped mapping loc (or_unchanged casefold create_map_links found loc)
  unfolding or_unchanged
  found-Mapped mapping loc none semantic e = unknown (find-NoneMatches mapping _ e)
  found-Mapped mapping loc (some coords) semantic e =
      mapped coords semantic (find-First mapping _ coords e)

  one-Mapped :
      (mapping : List (String × Coords)) (loc : Location)
      → Mapped mapping loc (map_one casefold create_map_links mapping loc)
  unfolding map_one
  one-Mapped mapping loc = elim (Bool-cases loc.is_semantic) [
    | inr real ↦ simp real (physical real)
    | inl semantic ↦ elim (Bool-cases (name_of casefold create_map_links loc.semantic_name == "")) [
      | inl blank ↦ rw (semantic, blank) (nameless ((eq_iff _ "").0 blank))
      | inr named ↦ simp (semantic, named) (found-Mapped mapping loc _ semantic refl)
    ]
  ]

  abbrev pub Pairwise : List (String × Coords) → List Location → List Location → Type 0
  Pairwise mapping [] [] = Unit
  Pairwise mapping (loc ∷ locations) (out ∷ outs) =
      Mapped mapping loc out × Pairwise mapping locations outs
  Pairwise mapping _ _ = ⊥

  -- With a mapping that is not empty, each reading comes out in its place: unchanged if it is no
  -- semantic one, has no name, or no entry of the mapping matches its name; and otherwise with the
  -- coordinates of the first entry that does.
  apply_semantic_mapping-Pairwise :
      (locations : List Location) (entry : String × Coords) (mapping : List (String × Coords))
      → Pairwise
          (entry ∷ mapping)
          locations
          (apply_semantic_mapping casefold create_map_links locations (entry ∷ mapping))
  unfolding apply_semantic_mapping
  apply_semantic_mapping-Pairwise [] entry mapping = tt
  apply_semantic_mapping-Pairwise (loc ∷ locations) entry mapping =
      (one-Mapped (entry ∷ mapping) loc, apply_semantic_mapping-Pairwise locations entry mapping)
