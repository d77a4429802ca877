-- ===== src/Merkle/Tests.antt =====
-- Roots of small batches.
use sentinel_ai_v3_0_the_fin.Prelude.{String, ◌≡◌, ◌↔◌, ◌≤◌, length, ◌⊎◌, refl, some, List, [], ◌∷◌}
use Prim.Native.Nat.{◌^◌}
use Prim.Native.String.{◌++◌}
use sentinel_ai_v3_0_the_fin.AuditChain.{genesis_hash}
use sentinel_ai_v3_0_the_fin.Merkle.{new_level, root_within, build_merkle_root}
use sentinel_ai_v3_0_the_fin.Merkle.Depth.{Finishes, root_within_iff}
use sentinel_ai_v3_0_the_fin.Merkle.Roots.{TreesCollide, root_fixes_batch}

-- A text in brackets stands for its hash.
abbrev bracketed : String → String
bracketed s = "(" ++ s ++ ")"

abbrev batch : List String
batch = "a" ∷ "b" ∷ "c" ∷ []

root_of_three : build_merkle_root bracketed batch ≡ some "((ab)(cc))"
unfolding build_merkle_root root_within new_level
root_of_three = refl

root_within_iff_example : Finishes bracketed 2 batch ↔ (length batch ≤ 2 ^ 2)
root_within_iff_example = root_within_iff bracketed 2 batch

-- The worst digest of 64 characters, and two batches that it does not tell apart.
abbrev constant : String → String
constant s = genesis_hash

abbrev ones : String
ones = "1111111111111111111111111111111111111111111111111111111111111111"

abbrev first_batch : List String
first_batch = ones ∷ genesis_hash ∷ genesis_hash ∷ []

abbrev second_batch : List String
second_batch = genesis_hash ∷ genesis_hash ∷ genesis_hash ∷ []

first_root : build_merkle_root constant first_batch ≡ some genesis_hash
unfolding build_merkle_root root_within new_level
first_root = refl

second_root : build_merkle_root constant second_batch ≡ some genesis_hash
unfolding build_merkle_root root_within new_level
second_root = refl

root_fixes_batch_example :
    (first_batch ≡ second_batch) ⊎ TreesCollide constant 3 first_batch second_batch
root_fixes_batch_example =
    root_fixes_batch constant (λ x. refl) first_batch second_batch genesis_hash refl
      (refl, (refl, (refl, tt))) (refl, (refl, (refl, tt))) first_root second_root
