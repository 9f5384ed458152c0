-- ===== src/DecryptLocations/Items.antt =====
-- What decrypt_locations.py makes of the locations of a response.
use google_find_my_tools_web.Prelude.{
  ◌≡◌, refl, ap, inl, inr, ◌⊎◌, true, false, Bool-cases, none, some, Option-cases, List, [], ◌∷◌,
  ◌++◌, String, nat_beq, ℕ,
}
use google_find_my_tools_web.CounterSearch.{Outcome, ok, value_error, raised}
use google_find_my_tools_web.DecryptLocations.{
  Decoder, Wrapped, Decrypted, Plain, Ending, locations, raises, results, result_of, prepend,
  after_parse, name_of, create_map_links,
}

Outcome-cases {ℓ κ} :
    {A : Type ℓ} {E : Type κ} (out : Outcome A E)
    → ((a : A) × (out ≡ ok a)) ⊎ ((e : E) × ((out ≡ value_error e) ⊎ (out ≡ raised e)))
Outcome-cases (ok a) = inl (a, refl)
Outcome-cases (value_error e) = inr (e, inl refl)
Outcome-cases (raised e) = inr (e, inr refl)

module _ {ℓ} {E : Type ℓ} (d : Decoder E) where
  open d use {semantic, parse, status_name, unknown_status}

  -- The name of a status, or the text for an unknown one.
  abbrev pub Named : ℕ → String → Type 0
  Named status text =
      (status_name status ≡ some text)
      ⊎ (status_name status ≡ none) × (text ≡ unknown_status status)

  abbrev pub Common : Wrapped → Decrypted → Type 0
  Common w r =
      (r.time ≡ w.time)
      × (r.status_id ≡ w.status)
      × Named w.status r.status
      × (r.accuracy ≡ w.accuracy)
      × (r.is_own_report ≡ w.is_own_report)

  -- A named place has no coordinates; any other location has those of its plaintext.
  abbrev pub Place : Wrapped → Decrypted → Type 0
  Place w r =
      Common w r
      × (r.is_semantic ≡ true)
      × (r.semantic_name ≡ some w.name)
      × (r.position ≡ none)
      × (r.altitude ≡ none)
      × (r.map_links ≡ none)

  abbrev pub Fix : Wrapped → Decrypted → Type ℓ
  Fix w r =
      Common w r
      × (r.is_semantic ≡ false)
      × (r.semantic_name ≡ none)
      × ((plain : Plain) × (parse w.decrypted_location ≡ ok plain)
          × (r.position ≡ some plain.position)
          × (r.altitude ≡ some plain.altitude)
          × (r.map_links ≡ some (create_map_links plain.position)))

  abbrev pub Item : Wrapped → Decrypted → Type ℓ
  Item w r =
      (nat_beq w.status semantic ≡ true) × Place w r ⊎ (nat_beq w.status semantic ≡ false) × Fix w r

  -- One item for each location, in their order.
  pub data Items : List Wrapped → List Decrypted → Type ℓ where
    no_items : Items [] []
    one_more :
        {w : Wrapped} {r : Decrypted} {ws : List Wrapped} {rs : List Decrypted}
        → Item w r
        → Items ws rs
        → Items (w ∷ ws) (r ∷ rs)

  -- A location that is no place and whose plaintext cannot be parsed.
  abbrev pub Unparsed : Wrapped → E → Type ℓ
  Unparsed w e =
      (nat_beq w.status semantic ≡ false)
      × ((parse w.decrypted_location ≡ value_error e) ⊎ (parse w.decrypted_location ≡ raised e))

  -- All items, or the exception of the first location that cannot be parsed.
  abbrev pub Made : List Wrapped → Ending E → Type ℓ
  Made ws out =
      ((rs : List Decrypted) × (out ≡ locations rs) × Items ws rs)
      ⊎ ((front : List Wrapped) × (w : Wrapped) × (back : List Wrapped) × (rs : List Decrypted)
          × (e : E) × (ws ≡ front ++ w ∷ back)
          × Items front rs
          × Unparsed w e
          × (out ≡ raises e))

  module _ (name : String) (now : ℕ) where
    name_of-Named : (status : ℕ) → Named status (name_of d name now status (status_name status))
    unfolding name_of
    name_of-Named status = elim (Option-cases (status_name status)) [
      | inl unknown ↦ inr (unknown, rw unknown refl)
      | inr (text, known) ↦ inl (rw known refl)
    ]

    Made-prepend :
        (w : Wrapped) (ws : List Wrapped) (r : Decrypted) (out : Ending E)
        → Item w r
        → Made ws out
        → Made (w ∷ ws) (prepend d name now r out)
    unfolding prepend
    Made-prepend w ws r out item (inl (rs, e, items)) = inl (r ∷ rs, rw e refl, one_more item items)
    Made-prepend w ws r out item (inr (front, failed, back, rs, e, split, items, bad, h)) = inr (
      w ∷ front,
      failed,
      back,
      r ∷ rs,
      e,
      ap (λ l. w ∷ l) split,
      one_more item items,
      bad,
      rw h refl,
    )

    pub results-Made : (ws : List Wrapped) → Made ws (results d name now ws)
    unfolding results after_parse result_of
    results-Made [] = inl ([], refl, no_items)
    results-Made (w ∷ ws) = elim (Bool-cases (nat_beq w.status semantic)) [
      | inl place ↦ rw place (
          Made-prepend w ws (result_of d name now w none) (results d name now ws)
            (inl (
              place,
              ((refl, refl, name_of-Named w.status, refl, refl), refl, refl, refl, refl, refl),
            ))
            (results-Made ws))
      | inr other ↦ elim (Outcome-cases (parse w.decrypted_location)) [
        | inl (plain, parsed) ↦
            rw (other, parsed)
              (Made-prepend w ws (result_of d name now w (some plain)) (results d name now ws)
                (inr (
                  other,
                  (
                    (refl, refl, name_of-Named w.status, refl, refl),
                    refl,
                    refl,
                    (plain, parsed, refl, refl, refl),
                  ),
                ))
                (results-Made ws))
        | inr (e, inl failed) ↦
            rw (other, failed) (inr ([], w, ws, [], e, refl, no_items, (other, inl failed), refl))
        | inr (e, inr failed) ↦
            rw (other, failed) (inr ([], w, ws, [], e, refl, no_items, (other, inr failed), refl))
      ]
    ]
