-- ===== src/Merkle/Roots.antt =====
-- What a Merkle root says of the hashes below it.
use Prim.Native.String.{◌++◌ as ◌<>◌, count}
use text.Mathlib.TextLemmas.{append_inj}
use sentinel_ai_v3_0_the_fin.Prelude.{
  ℕ, zero, suc, ◌+◌, ◌≤◌, String, ◌≡◌, ◌≢◌, ◌⊎◌, inl, inr, refl, sym, ap, ◌∙◌, subst, some, List,
  [], ◌∷◌, ◌++◌, length, length-append, arith, Bool-cases, ◌==◌, eq_iff, All,
}
use sentinel_ai_v3_0_the_fin.Merkle.{new_level, root_within, build_merkle_root}

head_eq : {x y : String} {xs ys : List String} → x ∷ xs ≡ y ∷ ys → x ≡ y
head_eq e = cc e

tail_eq : {x y : String} {xs ys : List String} → x ∷ xs ≡ y ∷ ys → xs ≡ ys
tail_eq e = cc e

abbrev pub flatten : List (String × String) → List String
flatten [] = []
flatten ((a, b) ∷ pairs) = a ∷ b ∷ flatten pairs

-- A hexadecimal digest of SHA-256.
abbrev pub IsDigest : String → Type 0
IsDigest x = count x ≡ 64

module _ (sha256 : String → String) where
  -- Two different texts with one hash.
  abbrev pub Collide : String → String → Type 0
  Collide x y = (x ≢ y) × (sha256 x ≡ sha256 y)

  -- Two levels of equally many hashes hash two different texts, at one place, to one hash.
  abbrev pub LevelsCollide : List String → List String → Type 0
  LevelsCollide (x ∷ []) (y ∷ []) = Collide (x <> x) (y <> y)
  LevelsCollide (x ∷ x' ∷ xs) (y ∷ y' ∷ ys) = Collide (x <> x') (y <> y') ⊎ LevelsCollide xs ys
  LevelsCollide _ _ = ⊥

  -- The two trees do so at one of the first so many levels.
  abbrev pub TreesCollide : ℕ → List String → List String → Type 0
  TreesCollide zero xs ys = ⊥
  TreesCollide (suc n) xs ys =
      LevelsCollide xs ys ⊎ TreesCollide n (new_level sha256 xs) (new_level sha256 ys)

  pub length-new_level :
      (xs : List String)
      → length (new_level sha256 xs) + length (new_level sha256 xs) ≤ length xs + 1
  unfolding new_level
  length-new_level [] = omega arith
  length-new_level (x ∷ []) = omega arith
  length-new_level (x ∷ y ∷ xs) = omega (arith, length-new_level xs)

  same_texts : (x y : String) → sha256 x ≡ sha256 y → (x ≡ y) ⊎ Collide x y
  same_texts x y e = elim (Bool-cases (x == y)) [
    | inl p ↦ inl ((eq_iff x y).0 p)
    | inr n ↦ inr ((λ q. cc ((eq_iff x y).1 q, n)), e)
  ]

  -- Two pairs of digests that are hashed to one hash.
  same_pairs :
      (x x' y y' : String)
      → IsDigest x
      → IsDigest y
      → sha256 (x <> x') ≡ sha256 (y <> y')
      → ((x ≡ y) × (x' ≡ y')) ⊎ Collide (x <> x') (y <> y')
  same_pairs x x' y y' d d' e = elim (same_texts (x <> x') (y <> y') e) [
    | inl p ↦ inl (append_inj p (d ∙ sym d'))
    | inr c ↦ inr c
  ]

  new_level-injective :
      (xs ys : List String)
      → length xs ≡ length ys
      → All IsDigest xs
      → All IsDigest ys
      → new_level sha256 xs ≡ new_level sha256 ys
      → (xs ≡ ys) ⊎ LevelsCollide xs ys
  unfolding new_level
  new_level-injective [] [] n d d' e = inl refl
  new_level-injective [] (y ∷ ys) n d d' e = ground (arith, n)
  new_level-injective (x ∷ xs) [] n d d' e = ground (arith, n)
  new_level-injective (x ∷ []) (y ∷ []) n d d' e = elim (same_pairs x x y y d.0 d'.0 (head_eq e)) [
    | inl p ↦ inl (ap (λ z. z ∷ []) p.0)
    | inr c ↦ inr c
  ]
  new_level-injective (x ∷ []) (y ∷ y' ∷ ys) n d d' e = ground (arith, n)
  new_level-injective (x ∷ x' ∷ xs) (y ∷ []) n d d' e = ground (arith, n)
  new_level-injective (x ∷ x' ∷ xs) (y ∷ y' ∷ ys) n d d' e =
      elim (same_pairs x x' y y' d.0 d'.0 (head_eq e)) [
        | inr c ↦ inr (inl c)
        | inl p ↦ elim (new_level-injective xs ys (omega (arith, n)) d.1.1 d'.1.1 (tail_eq e)) [
          | inr c ↦ inr (inr c)
          | inl q ↦ inl (cc (p.0, p.1, q))
        ]
      ]

  length-new_level_eq :
      (xs ys : List String)
      → length xs ≡ length ys
      → length (new_level sha256 xs) ≡ length (new_level sha256 ys)
  unfolding new_level
  length-new_level_eq [] [] n = refl
  length-new_level_eq [] (y ∷ ys) n = ground (arith, n)
  length-new_level_eq (x ∷ xs) [] n = ground (arith, n)
  length-new_level_eq (x ∷ []) (y ∷ []) n = refl
  length-new_level_eq (x ∷ []) (y ∷ y' ∷ ys) n = ground (arith, n)
  length-new_level_eq (x ∷ x' ∷ xs) (y ∷ []) n = ground (arith, n)
  length-new_level_eq (x ∷ x' ∷ xs) (y ∷ y' ∷ ys) n =
      omega (arith, length-new_level_eq xs ys (omega (arith, n)))

  module _ (digest_size : (x : String) → IsDigest (sha256 x)) where
    new_level-IsDigest : (xs : List String) → All IsDigest (new_level sha256 xs)
    unfolding new_level
    new_level-IsDigest [] = tt
    new_level-IsDigest (x ∷ []) = (digest_size (x <> x), tt)
    new_level-IsDigest (x ∷ y ∷ xs) = (digest_size (x <> y), new_level-IsDigest xs)

    same_root_within :
        (n : ℕ) (xs ys : List String) (root : String)
        → length xs ≡ length ys
        → All IsDigest xs
        → All IsDigest ys
        → root_within sha256 n xs ≡ some root
        → root_within sha256 n ys ≡ some root
        → (xs ≡ ys) ⊎ TreesCollide n xs ys
    unfolding root_within
    same_root_within n [] [] root e d d' p q = inl refl
    same_root_within n [] (y ∷ ys) root e d d' p q = ground (arith, e)
    same_root_within n (x ∷ xs) [] root e d d' p q = ground (arith, e)
    same_root_within n (x ∷ []) (y ∷ []) root e d d' p q = inl (cc (p, q))
    same_root_within n (x ∷ []) (y ∷ y' ∷ ys) root e d d' p q = ground (arith, e)
    same_root_within n (x ∷ x' ∷ xs) (y ∷ []) root e d d' p q = ground (arith, e)
    same_root_within zero (x ∷ x' ∷ xs) (y ∷ y' ∷ ys) root e d d' p q = cc p
    same_root_within (suc n) (x ∷ x' ∷ xs) (y ∷ y' ∷ ys) root e d d' p q =
        let level = new_level sha256 (x ∷ x' ∷ xs) in
        let level' = new_level sha256 (y ∷ y' ∷ ys) in
        elim (same_root_within n level level' root
          (length-new_level_eq (x ∷ x' ∷ xs) (y ∷ y' ∷ ys) e) (new_level-IsDigest (x ∷ x' ∷ xs))
          (new_level-IsDigest (y ∷ y' ∷ ys)) p q) [
            | inr c ↦ inr (inr c)
            | inl same ↦ elim (new_level-injective (x ∷ x' ∷ xs) (y ∷ y' ∷ ys) e d d' same) [
              | inl equal ↦ inl equal
              | inr c ↦ inr (inl c)
            ]
          ]

    -- Two batches of equally many digests with one root are the same batch, or their trees hash two
    -- different texts, at the same place of the same level, to one hash. The hash is assumed to give
    -- digests of 64 characters.
    pub root_fixes_batch :
        (xs ys : List String) (root : String)
        → length xs ≡ length ys
        → All IsDigest xs
        → All IsDigest ys
        → build_merkle_root sha256 xs ≡ some root
        → build_merkle_root sha256 ys ≡ some root
        → (xs ≡ ys) ⊎ TreesCollide (length xs) xs ys
    unfolding build_merkle_root
    root_fixes_batch xs ys root e d d' p q =
        same_root_within (length xs) xs ys root e d d' p
          (subst (λ n. root_within sha256 n ys ≡ some root) (sym e) q)

  more_levels :
      (n : ℕ) (xs : List String) (root : String)
      → root_within sha256 n xs ≡ some root
      → root_within sha256 (suc n) xs ≡ some root
  unfolding root_within
  more_levels n [] root p = p
  more_levels n (x ∷ []) root p = p
  more_levels zero (x ∷ y ∷ xs) root p = cc p
  more_levels (suc n) (x ∷ y ∷ xs) root p = more_levels n (new_level sha256 (x ∷ y ∷ xs)) root p

  new_level_twin :
      (pairs : List (String × String)) (x : String)
      → new_level sha256 (flatten pairs ++ x ∷ []) ≡ new_level sha256 (flatten pairs ++ x ∷ x ∷ [])
  unfolding new_level
  new_level_twin [] x = refl
  new_level_twin ((a, b) ∷ pairs) x = ap (λ zs. sha256 (a <> b) ∷ zs) (new_level_twin pairs x)

  -- A batch of an odd number of hashes, at least three, has the root of the longer batch in which its
  -- last hash stands twice.
  pub odd_batch_has_twin :
      (a b : String) (pairs : List (String × String)) (x root : String)
      → build_merkle_root sha256 (a ∷ b ∷ flatten pairs ++ x ∷ []) ≡ some root
      → build_merkle_root sha256 (a ∷ b ∷ flatten pairs ++ x ∷ x ∷ []) ≡ some root
  unfolding build_merkle_root root_within
  odd_batch_has_twin a b pairs x root p =
      let short : List String = flatten pairs ++ x ∷ [] in
      let long : List String = flatten pairs ++ x ∷ x ∷ [] in
      let longer : length long ≡ suc (length short) = omega (
        arith,
        length-append (flatten pairs) (x ∷ []),
        length-append (flatten pairs) (x ∷ x ∷ []),
      ) in
      subst (λ n. root_within sha256 (suc n) (new_level sha256 (a ∷ b ∷ long)) ≡ some root)
        (sym longer)
        (more_levels (suc (length short)) (new_level sha256 (a ∷ b ∷ long)) root (
          subst (λ l. root_within sha256 (suc (length short)) l ≡ some root)
            (new_level_twin ((a, b) ∷ pairs) x) p))
