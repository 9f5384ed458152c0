-- ===== src/FirmwareBuild/Pruned.antt =====
-- Which sandboxes `prune_old_builds` leaves.
use google_find_my_tools_web.Prelude.{
  ℕ, zero, suc, ◌+◌, ◌-◌, ◌≤◌, ◌≡◌, ◌⊎◌, inl, inr, refl, ap, arith, ◌&&◌, Bool-cases, List, [], ◌∷◌,
  ◌++◌, length, All, if◌then◌else◌, leb, leb→le, ltb,
}
use google_find_my_tools_web.FirmwareBuild.{
  Build, sweep, place, sort_by_mtime, split_at, prune_old_builds,
}
use mathlib.Core.List.{Perm}
use mathlib.Core.List.Perm

-- Each sandbox is no newer than those behind it.
OldestFirst : List Build → Type 0
OldestFirst [] = Unit
OldestFirst (b ∷ rest) = All (λ other. b.mtime ≤ other.mtime) rest × OldestFirst rest

place-perm : (b : Build) (l : List Build) → Perm (place b l) (b ∷ l)
unfolding place
place-perm b [] = Perm.refl (b ∷ [])
place-perm b (other ∷ rest) = elim (Bool-cases (leb b.mtime other.mtime)) [
  | inl here ↦ rw here (Perm.refl (b ∷ other ∷ rest))
  | inr later ↦ rw later (Perm.trans (Perm.cons other (place-perm b rest)) (Perm.swap b other rest))
]

sort-perm : (l : List Build) → Perm (sort_by_mtime l) l
unfolding sort_by_mtime
sort-perm [] = Perm.refl []
sort-perm (b ∷ l) = Perm.trans (place-perm b (sort_by_mtime l)) (Perm.cons b (sort-perm l))

length-place : (b : Build) (l : List Build) → length (place b l) ≡ suc (length l)
unfolding place
length-place b [] = refl
length-place b (other ∷ rest) = ground (arith, length-place b rest)

length-sort : (l : List Build) → length (sort_by_mtime l) ≡ length l
unfolding sort_by_mtime
length-sort [] = refl
length-sort (b ∷ l) = omega (arith, length-place b (sort_by_mtime l), length-sort l)

All-newer : (a b : ℕ) (l : List Build) → a ≤ b → All (λ x. b ≤ x.mtime) l → All (λ x. a ≤ x.mtime) l
All-newer a b [] h all = tt
All-newer a b (x ∷ l) h all = (omega (arith, all.0), All-newer a b l h all.1)

All-place {ℓ} :
    (P : Build → Type ℓ) (b : Build) (l : List Build) → P b → All P l → All P (place b l)
unfolding place
All-place P b [] h all = (h, tt)
All-place P b (other ∷ rest) h all = elim (Bool-cases (leb b.mtime other.mtime)) [
  | inl here ↦ rw here (h, all)
  | inr later ↦ rw later (all.0, All-place P b rest h all.1)
]

place-OldestFirst : (b : Build) (l : List Build) → OldestFirst l → OldestFirst (place b l)
unfolding place OldestFirst
place-OldestFirst b [] s = (tt, tt)
place-OldestFirst b (other ∷ rest) s = elim (Bool-cases (leb b.mtime other.mtime)) [
  | inl here ↦
      let le = leb→le b.mtime other.mtime here in
      rw here ((le, All-newer b.mtime other.mtime rest le s.0), s)
  | inr later ↦ rw later (
    All-place (λ x. other.mtime ≤ x.mtime) b rest (ground arith) s.0,
    place-OldestFirst b rest s.1,
  )
]

sort-OldestFirst : (l : List Build) → OldestFirst (sort_by_mtime l)
unfolding sort_by_mtime OldestFirst
sort-OldestFirst [] = tt
sort-OldestFirst (b ∷ l) = place-OldestFirst b (sort_by_mtime l) (sort-OldestFirst l)

-- Not too old to be kept.
abbrev pub Young : (ttl_s now : ℕ) → Build → Type 0
Young ttl_s now b = (ttl_s ≡ 0) ⊎ (now ≤ b.mtime + ttl_s)

sweep-Young : (ttl_s now : ℕ) (l : List Build) → All (Young ttl_s now) (sweep ttl_s now l)
unfolding sweep
sweep-Young ttl_s now [] = tt
sweep-Young ttl_s now (b ∷ l) = elim (Bool-cases (ltb 0 ttl_s && ltb (b.mtime + ttl_s) now)) [
  | inl old ↦ rw old (sweep-Young ttl_s now l)
  | inr young ↦ rw young (ground (arith, young), sweep-Young ttl_s now l)
]

All-sort {ℓ} : (P : Build → Type ℓ) (l : List Build) → All P l → All P (sort_by_mtime l)
unfolding sort_by_mtime
All-sort P [] h = tt
All-sort P (b ∷ l) (h, hs) = All-place P b (sort_by_mtime l) h (All-sort P l hs)

All-split {ℓ} : (P : Build → Type ℓ) (n : ℕ) (l : List Build) → All P l → All P (split_at n l).1
unfolding split_at
All-split P n [] h = tt
All-split P zero (b ∷ l) h = h
All-split P (suc n) (b ∷ l) (h, hs) = All-split P n l hs

split_at-append : (n : ℕ) (l : List Build) → (split_at n l).0 ++ (split_at n l).1 ≡ l
unfolding split_at
split_at-append n [] = refl
split_at-append zero (b ∷ l) = refl
split_at-append (suc n) (b ∷ l) = ap (λ r. b ∷ r) (split_at-append n l)

length-split : (n : ℕ) (l : List Build) → length (split_at n l).1 ≡ length l - n
unfolding split_at
length-split n [] = omega arith
length-split zero (b ∷ l) = omega arith
length-split (suc n) (b ∷ l) = omega (arith, length-split n l)

split-newer :
    (n : ℕ) (l : List Build)
    → OldestFirst l
    → All (λ stale. All (λ kept. stale.mtime ≤ kept.mtime) (split_at n l).1) (split_at n l).0
unfolding split_at OldestFirst
split-newer n [] h = tt
split-newer zero (b ∷ l) h = tt
split-newer (suc n) (b ∷ l) (h, hs) =
    (All-split (λ kept. b.mtime ≤ kept.mtime) n l h, split-newer n l hs)

-- What is kept and what goes after the sweep make up the builds that the sweep leaves; the kept
-- ones are not too old, they are as many as are to be kept or all there are, and none of them is
-- older than one that goes.
pub prune_old_builds_correct :
    (ttl_s keep now : ℕ) (builds : List Build)
    → let (stale, kept) = prune_old_builds ttl_s keep now builds in
      let young = sweep ttl_s now builds in
      Perm (stale ++ kept) young
      × All (Young ttl_s now) kept
      × (length kept ≡ (if leb keep (length young) then keep else length young))
      × All (λ s. All (λ k. s.mtime ≤ k.mtime) kept) stale
unfolding prune_old_builds
prune_old_builds_correct ttl_s keep now builds =
    let young = sweep ttl_s now builds in
    let dirs = sort_by_mtime young in
    let n = length dirs - keep in
    (
      rw (split_at-append n dirs) (sort-perm young),
      All-split (Young ttl_s now) n dirs
          (All-sort (Young ttl_s now) young (sweep-Young ttl_s now builds)),
      ground (arith, length-split n dirs, length-sort young),
      split-newer n dirs (sort-OldestFirst young),
    )
