-- ===== src/EidUpload/ClockZero.antt =====
-- When a tracker's clock read zero: `estimate_clock_zero` of upload_precomputed_public_key_ids.py,
-- and `_clock_zero` of webui/eid_upload.py, which keeps the estimate for a day.
use google_find_my_tools_web.Prelude.{
  refl, inr, ◌≤◌, All, arith, inl, ◌⊎◌, ℕ, ◌+◌, ◌≡◌, List, [], ◌∷◌, Option, none, some, Bool, true,
  false, leb, nat_beq, if◌then◌else◌,
}
use google_find_my_tools_web.Prelude.Int.{ℤ, pos, negsuc, sub_ℕ}
use google_find_my_tools_web.CounterSearch.{
  Outcome, ok, value_error, raised, decrypt_with_counter_search,
}
use google_find_my_tools_web.EidGenerator.{rotation_period}

-- A report with its timestamp.
pub record Sighting : Type 0 where
  pub device_time_offset : ℕ
  pub encrypted_location : List ℕ
  pub public_key_random : List ℕ
  pub seconds : ℕ

pub data Bound {ℓ} (E : Type ℓ) : Type ℓ where
  bound : ℤ → Bound E
  skipped : Bound E
  failed : E → Bound E

abbrev pub int_leb : ℤ → ℤ → Bool
int_leb (pos a) (pos b) = leb a b
int_leb (pos a) (negsuc b) = false
int_leb (negsuc a) (pos b) = true
int_leb (negsuc a) (negsuc b) = leb b a

-- `min(bounds)`
unfoldable pub min_from : ℤ → List ℤ → ℤ
min_from b [] = b
min_from b (c ∷ bounds) = min_from (if int_leb b c then b else c) bounds

-- a - n
unfoldable pub minus : ℤ → ℕ → ℤ
minus (pos a) n = sub_ℕ a n
minus (negsuc a) n = negsuc (a + n)

module _ {ℓ} {E : Type ℓ} where
  bound_found : ℕ → Outcome (List ℕ × ℕ) E → Bound E
  bound_found seconds (ok (plaintext, counter)) = bound (sub_ℕ seconds counter)
  bound_found seconds (value_error e) = skipped
  bound_found seconds (raised e) = failed e

  -- With an identity key and a key of the report the counter is searched for.
  bound_with : Option (List ℕ → List ℕ → ℕ → Outcome (List ℕ) E) → Sighting → List ℕ → Bound E
  unfolding bound_found
  bound_with none s random = bound (sub_ℕ s.seconds s.device_time_offset)
  bound_with (some decrypt) s [] = bound (sub_ℕ s.seconds s.device_time_offset)
  bound_with (some decrypt) s (b ∷ random) =
      bound_found s.seconds (
        decrypt_with_counter_search (decrypt s.encrypted_location (b ∷ random))
          s.device_time_offset)

  -- The body of the loop.
  unfoldable pub bound_of : Option (List ℕ → List ℕ → ℕ → Outcome (List ℕ) E) → Sighting → Bound E
  unfolding bound_with
  bound_of decrypt s =
      if nat_beq s.device_time_offset 0 then skipped else bound_with decrypt s s.public_key_random

  add_bound : Bound E → Outcome (List ℤ) E → Outcome (List ℤ) E
  add_bound (bound b) (ok bounds) = ok (b ∷ bounds)
  add_bound (bound b) (value_error e) = value_error e
  add_bound (bound b) (raised e) = raised e
  add_bound skipped rest = rest
  add_bound (failed e) rest = raised e

  unfoldable pub bounds :
      Option (List ℕ → List ℕ → ℕ → Outcome (List ℕ) E) → List Sighting → Outcome (List ℤ) E
  unfolding bound_of add_bound
  bounds decrypt [] = ok []
  bounds decrypt (s ∷ sightings) = add_bound (bound_of decrypt s) (bounds decrypt sightings)

  estimate_from : Outcome (List ℤ) E → Outcome (Option ℤ) E
  unfolding min_from minus
  estimate_from (ok []) = ok none
  estimate_from (ok (b ∷ bounds)) = ok (some (minus (min_from b bounds) 512))
  estimate_from (value_error e) = value_error e
  estimate_from (raised e) = raised e

  unfoldable pub estimate_clock_zero :
      Option (List ℕ → List ℕ → ℕ → Outcome (List ℕ) E) → List Sighting → Outcome (Option ℤ) E
  unfolding bounds estimate_from
  estimate_clock_zero decrypt sightings = estimate_from (bounds decrypt sightings)

  -- The bound of a sighting is no earlier than the real zero of the clock.
  abbrev pub Honest : ℕ → Bound E → Type 0
  Honest real (bound b) = int_leb (pos real) b ≡ true
  Honest real skipped = Unit
  Honest real (failed e) = ⊥

  abbrev pub AllHonest :
      Option (List ℕ → List ℕ → ℕ → Outcome (List ℕ) E) → ℕ → List Sighting → Type 0
  AllHonest decrypt real [] = Unit
  AllHonest decrypt real (s ∷ sightings) =
      Honest real (bound_of decrypt s) × AllHonest decrypt real sightings

  -- The report came in within a rotation period from the start of its own.
  abbrev pub Prompt : ℕ → Bound E → Type 0
  Prompt real (bound b) = int_leb b (pos (real + rotation_period)) ≡ true
  Prompt real skipped = ⊥
  Prompt real (failed e) = ⊥

  abbrev pub SomePrompt :
      Option (List ℕ → List ℕ → ℕ → Outcome (List ℕ) E) → ℕ → List Sighting → Type 0
  SomePrompt decrypt real [] = ⊥
  SomePrompt decrypt real (s ∷ sightings) =
      Prompt real (bound_of decrypt s) ⊎ SomePrompt decrypt real sightings

abbrev SomeUpTo : ℕ → List ℤ → Type 0
SomeUpTo y [] = ⊥
SomeUpTo y (b ∷ bs) = (int_leb b (pos y) ≡ true) ⊎ SomeUpTo y bs

int_leb-left :
    (b c : ℤ) (y : ℕ)
    → int_leb b (pos y) ≡ true
    → int_leb (if int_leb b c then b else c) (pos y) ≡ true
int_leb-left (pos b) (pos c) y h = ground arith
int_leb-left (pos b) (negsuc c) y h = ground arith
int_leb-left (negsuc b) (pos c) y h = ground arith
int_leb-left (negsuc b) (negsuc c) y h = ground arith

int_leb-right :
    (b c : ℤ) (y : ℕ)
    → int_leb c (pos y) ≡ true
    → int_leb (if int_leb b c then b else c) (pos y) ≡ true
int_leb-right (pos b) (pos c) y h = ground arith
int_leb-right (pos b) (negsuc c) y h = ground arith
int_leb-right (negsuc b) (pos c) y h = ground arith
int_leb-right (negsuc b) (negsuc c) y h = ground arith

min_from-lower :
    (real : ℕ) (b : ℤ) (bs : List ℤ)
    → int_leb (pos real) b ≡ true
    → All (λ c. int_leb (pos real) c ≡ true) bs
    → int_leb (pos real) (min_from b bs) ≡ true
unfolding min_from
min_from-lower real b [] h hs = h
min_from-lower real b (c ∷ bs) h (hc, hs) =
    min_from-lower real (if int_leb b c then b else c) bs (ground (arith, h, hc)) hs

min_from-upper :
    (y : ℕ) (b : ℤ) (bs : List ℤ)
    → (int_leb b (pos y) ≡ true) ⊎ SomeUpTo y bs
    → int_leb (min_from b bs) (pos y) ≡ true
unfolding min_from
min_from-upper y b [] (inl h) = h
min_from-upper y b [] (inr h) = elim h [ ]
min_from-upper y b (c ∷ bs) h = min_from-upper y (if int_leb b c then b else c) bs (next h)
  where
    next :
        (int_leb b (pos y) ≡ true) ⊎ SomeUpTo y (c ∷ bs)
        → (int_leb (if int_leb b c then b else c) (pos y) ≡ true) ⊎ SomeUpTo y bs
    next (inl k) = inl (int_leb-left b c y k)
    next (inr (inl k)) = inl (int_leb-right b c y k)
    next (inr (inr k)) = inr k

-- A number between two bounds.
between :
    (b : ℤ) (lo hi : ℕ)
    → int_leb (pos lo) b ≡ true
    → int_leb b (pos hi) ≡ true
    → (m : ℕ) × (b ≡ pos m) × (lo ≤ m) × (m ≤ hi)
between (pos m) lo hi h k = (m, refl, ground arith, ground arith)
between (negsuc m) lo hi h k = absurd (ground arith)

module _ {ℓ} {E : Type ℓ} (decrypt : Option (List ℕ → List ℕ → ℕ → Outcome (List ℕ) E))
    (real : ℕ) where
  Bounded : List Sighting → Type ℓ
  Bounded sightings =
      (bs : List ℤ) × (bounds decrypt sightings ≡ ok bs)
      × All (λ b. int_leb (pos real) b ≡ true) bs
      × (SomePrompt decrypt real sightings → SomeUpTo (real + rotation_period) bs)

  add_bound-Bounded :
      (s : Sighting) (sightings : List Sighting) (b : Bound E)
      → bound_of decrypt s ≡ b
      → Honest real b
      → Bounded sightings
      → Bounded (s ∷ sightings)
  unfolding Bounded bounds add_bound
  add_bound-Bounded s sightings (bound b) e h (bs, q, lower, upper) =
      (b ∷ bs, rw (e, q), (h, lower), rw e (λ p. elim p [ inl k ↦ inl k | inr k ↦ inr (upper k) ]))
  add_bound-Bounded s sightings skipped e h (bs, q, lower, upper) =
      (bs, rw (e, q), lower, rw e (λ p. elim p [ inl k ↦ absurd k | inr k ↦ upper k ]))
  add_bound-Bounded s sightings (failed x) e h rest = absurd h

  bounds-Bounded :
      (sightings : List Sighting) → AllHonest decrypt real sightings → Bounded sightings
  unfolding Bounded bounds
  bounds-Bounded [] h = ([], refl, tt, λ p. absurd p)
  bounds-Bounded (s ∷ sightings) (h, hs) =
      add_bound-Bounded s sightings (bound_of decrypt s) refl h (bounds-Bounded sightings hs)

  -- If no sighting puts the zero of the clock before the real one, and some sighting puts it at
  -- most a rotation period after it, the estimate is within half a period of the real zero.
  pub estimate_clock_zero-close :
      (sightings : List Sighting)
      → AllHonest decrypt real sightings
      → SomePrompt decrypt real sightings
      → (m : ℕ) × (estimate_clock_zero decrypt sightings ≡ ok (some (sub_ℕ m 512)))
        × (real ≤ m)
        × (m ≤ real + rotation_period)
  unfolding estimate_clock_zero Bounded
  estimate_clock_zero-close sightings h p =
      let (bs, e, lower, upper) = bounds-Bounded sightings h in rw e (close bs lower (upper p))
    where
      close :
          (bs : List ℤ)
          → All (λ b. int_leb (pos real) b ≡ true) bs
          → SomeUpTo (real + rotation_period) bs
          → (m : ℕ) × (estimate_from {E = E} (ok bs) ≡ ok (some (sub_ℕ m 512)))
            × (real ≤ m)
            × (m ≤ real + rotation_period)
      close [] l u = elim u [ ]
      close (b ∷ bs) (l, ls) u =
          let (m, q, lo, hi) =
            between (min_from b bs) real (real + rotation_period) (min_from-lower real b bs l ls)
              (min_from-upper (real + rotation_period) b bs u) in
          (m, unfold estimate_from minus in rw q refl, lo, hi)
