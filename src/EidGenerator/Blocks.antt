-- ===== src/EidGenerator/Blocks.antt =====
-- Which timestamps share an ephemeral id in FMDNCrypto/eid_generator.py.
use mathlib.Core.Path.{subst}
use google_find_my_tools_web.Prelude.{
  inr, ◌%◌, ◌+◌, ◌∷◌, inl, ap, ◌^◌, ◌∙◌, sym, Bool-cases, ◌↔◌, arith, ◌*◌, ◌/◌, ◌≡◌,
}
use google_find_my_tools_web.EidGenerator.{
  none, [], ltb, some, List, ℕ, rotation_period, masked, to_bytes, get_masked_timestamp, repeat,
  block_of, fmap_block, block, scalar_of, encrypted, calculate_r,
}

masked-period : (timestamp : ℕ) → masked timestamp ≡ timestamp / rotation_period * rotation_period
unfolding masked
masked-period timestamp = omega arith

-- The number in bytes 12 to 15.
stamp : List ℕ → ℕ
stamp (a ∷ b ∷ c ∷ d ∷ e ∷ f ∷ g ∷ h ∷ i ∷ j ∷ k ∷ l ∷ w ∷ x ∷ y ∷ z ∷ rest) =
    ((w * 256 + x) * 256 + y) * 256 + z
stamp _ = 0

stamp-block : (n : ℕ) (bytes : List ℕ) → fmap_block (to_bytes n) ≡ some bytes → stamp bytes ≡ n
unfolding to_bytes fmap_block block_of repeat stamp
stamp-block n bytes e = elim (Bool-cases (ltb n (2 ^ 32))) [
  | inl small ↦
      let f : fmap_block (some (n / 2 ^ 24 ∷ n / 2 ^ 16 % 256 ∷ n / 2 ^ 8 % 256 ∷ n % 256 ∷ []))
          ≡ some bytes =
        rw small at e in
      let g : block_of (n / 2 ^ 24 ∷ n / 2 ^ 16 % 256 ∷ n / 2 ^ 8 % 256 ∷ n % 256 ∷ []) ≡ bytes =
        cc in
      subst (λ b. stamp b ≡ n) g (omega arith)
  | inr large ↦ let f : none ≡ some bytes = rw large at e in cc
]

same_masked : (m n : ℕ) → m / rotation_period ≡ n / rotation_period → masked m ≡ masked n
same_masked m n q = omega (arith, masked-period m, masked-period n)

-- A timestamp that fits into four bytes shares its block with another one exactly if both lie in
-- the same rotation period; and timestamps of one period have the same scalar under every key and
-- order.
block-period :
    (encrypt : List ℕ → List ℕ) (order m n : ℕ) (bytes : List ℕ)
    → block m ≡ some bytes
    → ((block n ≡ some bytes) ↔ (m / rotation_period ≡ n / rotation_period))
      × (m / rotation_period ≡ n / rotation_period
          → calculate_r encrypt order m ≡ calculate_r encrypt order n)
unfolding block get_masked_timestamp calculate_r
block-period encrypt order m n bytes e = (
  (
    (λ f.
        let p : masked m ≡ masked n =
          sym (stamp-block (masked m) bytes e) ∙ stamp-block (masked n) bytes f in
        omega (arith, masked-period m, masked-period n, p)),
    λ q. ap (λ t. fmap_block (to_bytes t)) (sym (same_masked m n q)) ∙ e,
  ),
  λ q. ap (λ t. scalar_of order (encrypted encrypt (fmap_block (to_bytes t)))) (same_masked m n q),
)
