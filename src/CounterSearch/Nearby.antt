-- ===== src/CounterSearch/Nearby.antt =====
-- Which counters the search of foreign_tracker_cryptor.py finds.
use google_find_my_tools_web.Prelude.{
  ◌∙◌, false, ◌⊎◌, ◌%◌, Bool-cases, refl, ◌-◌, inl, inr, if◌then◌else◌, arith, zero, ◌*◌, ◌⊎◌, ◌+◌,
  ◌≤◌, ◌<◌, ℕ, ◌/◌, ◌≡◌, ◌≢◌,
}
use native.Mathlib.Decide.{ℕ_discrete}
use google_find_my_tools_web.EidGenerator.{rotation_period}
use google_find_my_tools_web.CounterSearch.{
  base_of, search_after, ltb, counter_search_slots, decrypt_with_counter_search, suc, search_slots,
  try_slot, Outcome, ok, value_error, raised, or_later,
}

-- Two periods are further apart than the search goes.
abbrev pub Apart : ℕ → ℕ → Type 0
Apart a b = (a + counter_search_slots < b) ⊎ (b + counter_search_slots < a)

suc_right : (a b : ℕ) → a + suc b ≡ suc a + b
suc_right a b = omega arith

-- The rotation periods of the counters below 2^32, which are those that fit into four bytes.
abbrev pub periods : ℕ
periods = 4_194_304

module _ {ℓ κ} {A : Type ℓ} {E : Type κ} (decrypt : ℕ → Outcome A E) where
  -- A report that was encrypted in one rotation period decrypts at the counters of this period
  -- alone, and fails with a ValueError at the other ones that fit into four bytes; at a counter
  -- that does not, another exception comes up.
  pub record EncryptedIn (period : ℕ) (plaintext : A) : Type (ℓ ⊔ κ) where
    pub fits : period < periods
    pub hits : (c : ℕ) → c / rotation_period ≡ period → decrypt c ≡ ok plaintext
    pub misses :
        (c : ℕ)
        → c / rotation_period ≢ period
        → c / rotation_period < periods
        → (e : E) × (decrypt c ≡ value_error e)
    pub overflows : (c : ℕ) → periods ≤ c / rotation_period → (e : E) × (decrypt c ≡ raised e)

  module _ {period : ℕ} {plaintext : A} (h : EncryptedIn period plaintext) where
    or_later-hit :
        (c : ℕ) (later : Outcome (A × ℕ) E)
        → c / rotation_period ≡ period
        → or_later decrypt c (decrypt c) later ≡ ok (plaintext, c)
    unfolding or_later
    or_later-hit c later e = rw (h.hits c e)

    or_later-miss :
        (c : ℕ) (later : Outcome (A × ℕ) E)
        → c / rotation_period ≢ period
        → c / rotation_period < periods
        → or_later decrypt c (decrypt c) later ≡ later
    unfolding or_later
    or_later-miss c later n b = rw ((h.misses c n b).1)

    or_later-overflow :
        (c : ℕ) (later : Outcome (A × ℕ) E)
        → periods ≤ c / rotation_period
        → (e : E) × (or_later decrypt c (decrypt c) later ≡ raised e)
    unfolding or_later
    or_later-overflow c later b = let (e, raises) = h.overflows c b in (e, rw raises)

    -- The candidate before the start is left out if it is negative, and misses if the period of the
    -- report is another one.
    earlier-miss :
        (r slot : ℕ) (x : Outcome (A × ℕ) E)
        → r < periods
        → period + slot ≢ r
        → (if ltb (r * rotation_period) (slot * rotation_period)
            then x
            else or_later decrypt
                (r * rotation_period - slot * rotation_period)
                (decrypt (r * rotation_period - slot * rotation_period))
                x)
          ≡ x
    earlier-miss r slot x b n =
        elim (Bool-cases (ltb (r * rotation_period) (slot * rotation_period))) [
          | inl before ↦ rw before
          | inr after ↦ rw after (or_later-miss _ x (λ q. n (ground arith)) (ground arith))
        ]

    abbrev SlotHit : (r slot : ℕ) → Outcome (A × ℕ) E → Type (ℓ ⊔ κ)
    SlotHit r slot out =
        ((period + slot ≡ r) ⊎ (r + slot ≡ period))
        × ((c : ℕ) × (c / rotation_period ≡ period) × (out ≡ ok (plaintext, c)))

    abbrev SlotMiss : (r slot : ℕ) → (later out : Outcome (A × ℕ) E) → Type (ℓ ⊔ κ)
    SlotMiss r slot later out =
        (period + slot ≢ r) × (r + slot ≢ period) × (r + slot < periods) × (out ≡ later)

    abbrev SlotOverflow : (r slot : ℕ) → Outcome (A × ℕ) E → Type (ℓ ⊔ κ)
    SlotOverflow r slot out = (periods ≤ r + slot) × ((e : E) × (out ≡ raised e))

    ahead-cases :
        (r slot : ℕ) (later : Outcome (A × ℕ) E)
        → r < periods
        → period + slot ≢ r
        → (let out = try_slot decrypt (r * rotation_period) slot later in
            SlotHit r slot out ⊎ SlotMiss r slot later out ⊎ SlotOverflow r slot out)
    unfolding try_slot
    ahead-cases r slot later b p =
        let back = earlier-miss r slot _ b p in
        elim (ℕ_discrete (r + slot) period) [
          | yes q ↦ inl (
            inr q,
            (
              r * rotation_period + slot * rotation_period,
              omega arith,
              back ∙ or_later-hit _ later (omega arith),
            ),
          )
          | no q ↦ elim (Bool-cases (ltb (r + slot) periods)) [
            | inl fits ↦
                let fit : r + slot < periods = ground arith in
                let missed =
                  or_later-miss (r * rotation_period + slot * rotation_period) later
                    (λ e. q (omega arith)) (omega arith) in
                inr (inl (p, q, fit, back ∙ missed))
            | inr beyond ↦
                let far : periods ≤ r + slot = ground arith in
                let (e, raises) =
                  or_later-overflow (r * rotation_period + slot * rotation_period) later
                    (omega arith) in
                inr (inr (far, (e, back ∙ raises)))
          ]
        ]

    -- What a slot of the loop comes to, around the start of period `r`.
    try_slot-cases :
        (r slot : ℕ) (later : Outcome (A × ℕ) E)
        → r < periods
        → (let out = try_slot decrypt (r * rotation_period) slot later in
            SlotHit r slot out ⊎ SlotMiss r slot later out ⊎ SlotOverflow r slot out)
    unfolding try_slot
    try_slot-cases r slot later b = elim (ℕ_discrete (period + slot) r) [
      | yes p ↦
          let back : ltb (r * rotation_period) (slot * rotation_period) ≡ false = ground arith in
          inl (
            inl p,
            (
              r * rotation_period - slot * rotation_period,
              omega arith,
              rw back (or_later-hit _ _ (omega arith)),
            ),
          )
      | no p ↦ ahead-cases r slot later b p
    ]

    -- Within `limit` periods of `r` the plaintext is found, and further away it is not; unless a
    -- counter within these periods does not fit into four bytes.
    abbrev Finds : (r limit : ℕ) → E → Outcome (A × ℕ) E → Type (ℓ ⊔ κ)
    Finds r limit e out =
        (period < r + limit)
          × (r < period + limit)
          × ((c : ℕ) × (c / rotation_period ≡ period) × (out ≡ ok (plaintext, c)))
        ⊎ ((r + limit ≤ period) ⊎ (period + limit ≤ r))
          × (r + limit ≤ periods)
          × (out ≡ value_error e)
        ⊎ (periods < r + limit) × ((e' : E) × (out ≡ raised e'))

    search_slots-Finds :
        (left slot r : ℕ) (e : E)
        → r < periods
        → r + slot ≤ periods
        → (r + slot ≤ period) ⊎ (period + slot ≤ r)
        → Finds r (slot + left) e (search_slots decrypt left slot (r * rotation_period) e)
    unfolding search_slots
    search_slots-Finds zero slot r e b fits far = inr (inl (ground arith, omega arith, refl))
    search_slots-Finds (suc left) slot r e b fits far =
        let later = search_slots decrypt left (suc slot) (r * rotation_period) e in
        elim (try_slot-cases r slot later b) [
          | inl (near, hit) ↦ inl (ground (arith, near), ground (arith, near), hit)
          | inr (inl (p, q, next, out)) ↦
              rw (out, suc_right slot left)
                (search_slots-Finds left (suc slot) r e b (omega arith) (ground arith))
          | inr (inr (beyond, (e', raises))) ↦ inr (inr (omega arith, (e', raises)))
        ]

    -- A report that decrypts in one rotation period alone is decrypted, at a counter of this
    -- period, only if that is at most three periods from the one of the reported counter. Otherwise
    -- the search ends in the error of the reported counter, if the report is further away and three
    -- more periods fit into four bytes; or, if three more periods do not fit, possibly in the
    -- exception of a counter that is too large.
    pub search_near :
        (reported : ℕ)
        → (period ≤ reported / rotation_period + counter_search_slots)
            × (reported / rotation_period ≤ period + counter_search_slots)
            × ((c : ℕ) × (c / rotation_period ≡ period)
                × (decrypt_with_counter_search decrypt reported ≡ ok (plaintext, c)))
          ⊎ Apart period (reported / rotation_period)
            × (reported / rotation_period + counter_search_slots < periods)
            × ((e : E) × (decrypt reported ≡ value_error e)
                × (decrypt_with_counter_search decrypt reported ≡ value_error e))
          ⊎ (periods ≤ reported / rotation_period + counter_search_slots)
            × ((e : E) × (decrypt_with_counter_search decrypt reported ≡ raised e))
    unfolding decrypt_with_counter_search search_after base_of
    search_near reported = elim (ℕ_discrete (reported / rotation_period) period) [
      | yes p ↦ inl (omega arith, omega arith, (reported, p, rw (h.hits reported p)))
      | no p ↦ elim (Bool-cases (ltb (reported / rotation_period) periods)) [
        | inr beyond ↦
            let (e, raises) = h.overflows reported (ground arith) in
            inr (inr (ground arith, (e, rw raises)))
        | inl fits ↦
            let b : reported / rotation_period < periods = ground arith in
            let (e, miss) = h.misses reported p b in
            let r = reported / rotation_period in
            let base : reported - reported % rotation_period ≡ r * rotation_period = omega arith in
            rw (miss, base)
              (elim (search_slots-Finds counter_search_slots 1 r e b (omega arith) (ground arith)) [
                | inl (after, before, found) ↦ inl (omega arith, omega arith, found)
                | inr (inl (far, room, lost)) ↦
                    inr (inl (ground arith, omega arith, (e, refl, lost)))
                | inr (inr (beyond, (e', raises))) ↦ inr (inr (omega arith, (e', raises)))
              ])
      ]
    ]
