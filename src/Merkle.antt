-- ===== src/Merkle.antt =====
-- core/crypto_audit.py: `MerkleManager.build_merkle_root`, the root of a batch of audit hashes.
pub mod Roots
pub mod Depth
mod Tests
use Prim.Native.String.{◌++◌ as ◌<>◌}
use sentinel_ai_v3_0_the_fin.Prelude.{
  ℕ, zero, suc, String, Option, none, some, List, [], ◌∷◌, length,
}
use sentinel_ai_v3_0_the_fin.AuditChain.{genesis_hash}

-- `sha256 s` is hashlib.sha256(s.encode()).hexdigest().
module _ (sha256 : String → String) where
  -- The loop that builds the next level: an odd last hash is paired with itself.
  unfoldable pub new_level : List String → List String
  new_level [] = []
  new_level (left ∷ []) = sha256 (left <> left) ∷ []
  new_level (left ∷ right ∷ leaf_hashes) = sha256 (left <> right) ∷ new_level leaf_hashes

  -- The recursion, at most so many levels deep; `none` is a deeper one.
  unfoldable pub root_within : ℕ → List String → Option String
  unfolding new_level
  root_within n [] = some genesis_hash
  root_within n (leaf ∷ []) = some leaf
  root_within zero (left ∷ right ∷ leaf_hashes) = none
  root_within (suc n) (left ∷ right ∷ leaf_hashes) =
      root_within n (new_level (left ∷ right ∷ leaf_hashes))

  unfoldable pub build_merkle_root : List String → Option String
  unfolding root_within
  build_merkle_root leaf_hashes = root_within (length leaf_hashes) leaf_hashes
