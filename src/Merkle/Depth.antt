-- ===== src/Merkle/Depth.antt =====
-- How deep the recursion of `build_merkle_root` goes.
use sentinel_ai_v3_0_the_fin.Prelude.{
  ℕ, zero, suc, ◌+◌, ◌≤◌, String, ◌≡◌, ◌↔◌, refl, some, List, [], ◌∷◌, length, arith,
}
use Prim.Native.Nat.{◌^◌}
use sentinel_ai_v3_0_the_fin.Merkle.{new_level, root_within, build_merkle_root}
use sentinel_ai_v3_0_the_fin.Merkle.Roots.{length-new_level}

module _ (sha256 : String → String) where
  length-new_level_max :
      (xs : List String) → length xs ≤ length (new_level sha256 xs) + length (new_level sha256 xs)
  unfolding new_level
  length-new_level_max [] = omega arith
  length-new_level_max (x ∷ []) = omega arith
  length-new_level_max (x ∷ y ∷ xs) = omega (arith, length-new_level_max xs)

  one_level : (n : ℕ) → 2 ^ suc n ≡ 2 ^ n + 2 ^ n
  one_level n = omega arith

  one_hash : (n : ℕ) → 1 ≤ 2 ^ n
  one_hash zero = omega arith
  one_hash (suc n) = omega (arith, one_hash n, one_level n)

  abbrev pub Finishes : ℕ → List String → Type 0
  Finishes n xs = (root : String) × (root_within sha256 n xs ≡ some root)

  -- The recursion goes exactly as deep as the binary logarithm of the batch, rounded up: `n` levels
  -- of it reach the root of a list of hashes if and only if there are at most 2 ^ n hashes.
  pub root_within_iff : (n : ℕ) (xs : List String) → Finishes n xs ↔ (length xs ≤ 2 ^ n)
  unfolding root_within
  root_within_iff n [] = (λ h. omega arith, λ h. (_, refl))
  root_within_iff n (x ∷ []) = (λ h. one_hash n, λ h. (_, refl))
  root_within_iff zero (x ∷ y ∷ xs) = (λ h. cc h.1, λ h. absurd (omega (arith, h)))
  root_within_iff (suc n) (x ∷ y ∷ xs) =
      let level = new_level sha256 (x ∷ y ∷ xs) in
      let rest = root_within_iff n level in
      let up = length-new_level_max (x ∷ y ∷ xs) in
      let down = length-new_level sha256 (x ∷ y ∷ xs) in
      (
        λ h. omega (arith, rest.0 h, up, one_level n),
        λ h. rest.1 (omega (arith, h, down, one_level n)),
      )

  below : (n : ℕ) → n ≤ 2 ^ n
  below zero = omega arith
  below (suc n) = omega (arith, below n, one_hash n, one_level n)

  -- The levels that `build_merkle_root` allows are enough: every list of hashes has a root.
  build_merkle_root-Finishes :
      (xs : List String) → (root : String) × (build_merkle_root sha256 xs ≡ some root)
  unfolding build_merkle_root
  build_merkle_root-Finishes xs = (root_within_iff (length xs) xs).1 (below (length xs))
