-- ===== src/EidUpload/Windows.antt =====
-- Which counters `get_rotating_eids` uploads, and how often.
use google_find_my_tools_web.Prelude.{
  All, max, ◌↔◌, ap, ℕ, zero, suc, ◌+◌, ◌-◌, ◌*◌, ◌≤◌, ◌<◌, ◌≡◌, ◌⊎◌, inl, inr, refl, ◌∙◌, arith,
  List, [], ◌∷◌, ◌++◌, Option, Bool, true, false, not, ◌&&◌, ◌||◌, Bool-cases, ltb, leb, nat_beq,
  nat_eq, contains, if◌then◌else◌,
}
use google_find_my_tools_web.Prelude.Int.{ℤ, pos, negsuc}
use google_find_my_tools_web.EidGenerator.{rotation_period}
use google_find_my_tools_web.EidUpload.{
  PublicKeyIdInfo, since, first_period, period_count, range_from, entry, slot_entries,
  period_entries, end_time, get_rotating_eids,
}

-- The tracker starts period `k` of its clock at `t` or later, and at `t` or earlier.
abbrev pub NotBefore : ℤ → (k t : ℕ) → Type 0
NotBefore (pos clock_zero) k t = t ≤ clock_zero + k * rotation_period
NotBefore (negsuc n) k t = t + n + 1 ≤ k * rotation_period

abbrev pub NotAfter : ℤ → (k t : ℕ) → Type 0
NotAfter (pos clock_zero) k t = clock_zero + k * rotation_period ≤ t
NotAfter (negsuc n) k t = k * rotation_period ≤ t + n + 1

first_period_iff :
    (clock_zero : ℤ) (k start : ℕ)
    → (first_period (since start clock_zero) ≤ k) ↔ NotBefore clock_zero k start
unfolding since first_period
first_period_iff (pos c) k start = ground arith
first_period_iff (negsuc n) k start = ground arith

period_count_iff :
    (clock_zero : ℤ) (m k end_date : ℕ)
    → m ≤ k
    → (k < m + period_count m (since end_date clock_zero)) ↔ NotAfter clock_zero k end_date
unfolding since period_count
period_count_iff (pos c) m k end_date h = ground arith
period_count_iff (negsuc n) m k end_date h = ground arith

module _ {ℓ} {Eid : Type ℓ} (generate_eid : ℕ → Eid) (pair_date drift_slots : ℕ) where
  -- How many entries are for a rotation period of the tracker's clock.
  abbrev pub copies : ℕ → List (PublicKeyIdInfo Eid) → ℕ
  copies q [] = 0
  copies q (e ∷ entries) =
      (if nat_beq e.timestamp (pair_date + q * rotation_period) then 1 else 0) + copies q entries

  copies-append :
      (q : ℕ) (a b : List (PublicKeyIdInfo Eid)) → copies q (a ++ b) ≡ copies q a + copies q b
  copies-append q [] b = omega arith
  copies-append q (e ∷ a) b = omega (arith, copies-append q a b)

  -- Some slot of those that are left is for period `q`.
  abbrev in_slots : (k shift left q : ℕ) → Bool
  in_slots k shift left q =
      leb (k + shift) (q + drift_slots) && ltb (q + drift_slots) (k + shift + left)

  same_offset :
      (a q : ℕ) (seen : List ℕ)
      → drift_slots ≤ a
      → a ≡ q + drift_slots
      → contains seen ((a - drift_slots) * rotation_period) ≡ contains seen (q * rotation_period)
  same_offset a q seen h e =
      ap (λ (o : ℕ). contains seen o) (let f : a - drift_slots ≡ q = omega arith in rw f)

  seen_step :
      (k shift left : ℕ) (seen : List ℕ) (q : ℕ)
      → (ltb (k + shift) drift_slots || contains seen ((k + shift - drift_slots) * rotation_period))
        ≡ true
      → (contains seen (q * rotation_period) || in_slots k (suc shift) left q)
        ≡ (contains seen (q * rotation_period) || in_slots k shift (suc left) q)
  seen_step k shift left seen q s = ground (arith, s, same_offset (k + shift) q seen)

  added_step :
      (k shift left : ℕ) (seen : List ℕ) (q : ℕ)
      → (ltb (k + shift) drift_slots || contains seen ((k + shift - drift_slots) * rotation_period))
        ≡ false
      → (contains ((k + shift - drift_slots) * rotation_period ∷ seen) (q * rotation_period)
          || in_slots k (suc shift) left q)
        ≡ (contains seen (q * rotation_period) || in_slots k shift (suc left) q)
  added_step k shift left seen q s = ground (arith, s)

  slot_entries-seen :
      (k shift left : ℕ) (seen : List ℕ) (q : ℕ)
      → contains
          (slot_entries generate_eid pair_date drift_slots k shift left seen).1
          (q * rotation_period)
        ≡ (contains seen (q * rotation_period) || in_slots k shift left q)
  unfolding slot_entries
  slot_entries-seen k shift zero seen q = ground arith
  slot_entries-seen k shift (suc left) seen q =
      let o = (k + shift - drift_slots) * rotation_period in
      let skipped = ltb (k + shift) drift_slots || contains seen o in
      elim (Bool-cases skipped) [
        | inl s ↦
            rw s (slot_entries-seen k (suc shift) left seen q ∙ seen_step k shift left seen q s)
        | inr s ↦
            rw s
              (slot_entries-seen k (suc shift) left (o ∷ seen) q ∙ added_step k shift left seen q s)
      ]

  slot_entries-copies :
      (k shift left : ℕ) (seen : List ℕ) (q : ℕ)
      → copies q (slot_entries generate_eid pair_date drift_slots k shift left seen).0
        ≡ (if in_slots k shift left q && not (contains seen (q * rotation_period)) then 1 else 0)
  unfolding slot_entries entry
  slot_entries-copies k shift zero seen q = ground arith
  slot_entries-copies k shift (suc left) seen q =
      let o = (k + shift - drift_slots) * rotation_period in
      let skipped = ltb (k + shift) drift_slots || contains seen o in
      elim (Bool-cases skipped) [
        | inl s ↦ rw s (
            slot_entries-copies k (suc shift) left seen q
            ∙ ground (arith, s, same_offset (k + shift) q seen))
        | inr s ↦ rw s (ground (arith, s, slot_entries-copies k (suc shift) left (o ∷ seen) q))
      ]

  abbrev in_periods : (m n q : ℕ) → Bool
  in_periods m n q = ltb 0 n && leb m (q + drift_slots) && ltb q (m + n + drift_slots)

  period_entries-copies :
      (m n : ℕ) (seen : List ℕ) (q : ℕ)
      → copies q (period_entries generate_eid pair_date drift_slots (range_from m n) seen)
        ≡ (if in_periods m n q && not (contains seen (q * rotation_period)) then 1 else 0)
  unfolding period_entries range_from
  period_entries-copies m zero seen q = ground arith
  period_entries-copies m (suc n) seen q =
      let s = slot_entries generate_eid pair_date drift_slots m 0 (2 * drift_slots + 1) seen in
      copies-append q s.0 _
      ∙ ground (
        arith,
        slot_entries-copies m 0 (2 * drift_slots + 1) seen q,
        slot_entries-seen m 0 (2 * drift_slots + 1) seen q,
        period_entries-copies (suc m) n s.1 q,
      )

  -- A period that starts in the time that is covered is within the drift of `q`.
  abbrev pub Near : ℤ → (start_date end_date q : ℕ) → Type 0
  Near clock_zero start_date end_date q =
      (k : ℕ) × NotBefore clock_zero k start_date
      × NotAfter clock_zero k end_date
      × (k ≤ q + drift_slots)
      × (q ≤ k + drift_slots)

  in_periods-Near :
      (clock_zero : ℤ) (start_date end_date q : ℕ)
      → let m = first_period (since start_date clock_zero) in
        let n = period_count m (since end_date clock_zero) in
        (in_periods m n q ≡ true) × Near clock_zero start_date end_date q
        ⊎ (in_periods m n q ≡ false) × ¬ Near clock_zero start_date end_date q
  in_periods-Near clock_zero start_date end_date q =
      let m = first_period (since start_date clock_zero) in
      let n = period_count m (since end_date clock_zero) in
      elim (Bool-cases (in_periods m n q)) [
        | inl inside ↦
            let k = max m (q - drift_slots) in
            inl (
              inside,
              (
                k,
                (first_period_iff clock_zero k start_date).0 (ground (arith, inside)),
                (period_count_iff clock_zero m k end_date (ground (arith, inside))).0
                    (ground (arith, inside)),
                ground (arith, inside),
                ground (arith, inside),
              ),
            )
        | inr outside ↦ inr (
          outside,
          λ (k, a, b, c, d).
              let m-le = (first_period_iff clock_zero k start_date).1 a in
              let k-lt = (period_count_iff clock_zero m k end_date m-le).1 b in
              ground (arith, outside),
        )
      ]

  -- The server takes the counter for the time since the pairing.
  abbrev pub Derived : PublicKeyIdInfo Eid → Type ℓ
  Derived e = e.truncated_eid ≡ generate_eid (e.timestamp - pair_date)

  All-append :
      (a b : List (PublicKeyIdInfo Eid)) → All Derived a → All Derived b → All Derived (a ++ b)
  All-append [] b h k = k
  All-append (e ∷ a) b (h, hs) k = (h, All-append a b hs k)

  slot_entries-Derived :
      (k shift left : ℕ) (seen : List ℕ)
      → All Derived (slot_entries generate_eid pair_date drift_slots k shift left seen).0
  unfolding slot_entries entry
  slot_entries-Derived k shift zero seen = tt
  slot_entries-Derived k shift (suc left) seen =
      let o = (k + shift - drift_slots) * rotation_period in
      let e : pair_date + o - pair_date ≡ o = omega arith in
      elim (Bool-cases (ltb (k + shift) drift_slots || contains seen o)) [
        | inl s ↦ rw s (slot_entries-Derived k (suc shift) left seen)
        | inr s ↦ rw s (rw e refl, slot_entries-Derived k (suc shift) left (o ∷ seen))
      ]

  period_entries-Derived :
      (ks seen : List ℕ) → All Derived (period_entries generate_eid pair_date drift_slots ks seen)
  unfolding period_entries
  period_entries-Derived [] seen = tt
  period_entries-Derived (k ∷ ks) seen =
      All-append _ _ (slot_entries-Derived k 0 (2 * drift_slots + 1) seen)
        (period_entries-Derived ks _)

  -- Every entry has the id of its timestamp minus the pair date. For each period of the tracker's
  -- clock there is one entry if some period that starts from the start date to the end is at most
  -- `drift_slots` away, and none otherwise.
  pub get_rotating_eids-copies :
      (clock_zero : ℤ) (start_date duration_seconds : ℕ) (now : Option ℕ) (q : ℕ)
      → let entries =
          get_rotating_eids generate_eid pair_date clock_zero start_date duration_seconds
            drift_slots now in
        let end_date = end_time start_date duration_seconds now in
        All Derived entries
        × ((copies q entries ≡ 1) × Near clock_zero start_date end_date q
            ⊎ (copies q entries ≡ 0) × ¬ Near clock_zero start_date end_date q)
  unfolding get_rotating_eids
  get_rotating_eids-copies clock_zero start_date duration_seconds now q =
      let end_date = end_time start_date duration_seconds now in
      let m = first_period (since start_date clock_zero) in
      let n = period_count m (since end_date clock_zero) in
      let e = period_entries-copies m n [] q in
      (
        period_entries-Derived (range_from m n) [],
        elim (in_periods-Near clock_zero start_date end_date q) [
          | inl (inside, near) ↦ inl (e ∙ rw inside, near)
          | inr (outside, far) ↦ inr (e ∙ rw outside, far)
        ],
      )
