-- ===== src/AuditChain/Chain.antt =====
-- What the loop of verify_chain.py decides: each row names the hash of the row before it, and its
-- own hash is that of its contents.
use sentinel_ai_v3_0_the_fin.Prelude.{String, ◌≡◌, ◌↔◌, List, [], ◌∷◌, ◌++◌, arith, eq_iff}
use sentinel_ai_v3_0_the_fin.Database.{AuditRow, last_hash}
use sentinel_ai_v3_0_the_fin.AuditChain.{
  genesis_hash, data_to_hash, or_genesis, intact, verify_from, verify_audit_chain,
}

-- What is hashed of a row.
abbrev pub row_data : AuditRow → String
row_data r = data_to_hash r.prev_hash r.tx_id r.action r.payload

-- The hash that the row after these must name.
abbrev pub head_hash : String → List AuditRow → String
head_hash h [] = h
head_hash h (r ∷ rs) = head_hash r.current_hash rs

module _ (sha256 : String → String) where
  abbrev pub IsChain : String → List AuditRow → Type 0
  IsChain h [] = Unit
  IsChain h (r ∷ rs) =
      (r.prev_hash ≡ h) × (sha256 (row_data r) ≡ r.current_hash) × IsChain r.current_hash rs

  pub verify_from_sound :
      (h : String) (rows : List AuditRow) → verify_from sha256 h rows ≡ intact → IsChain h rows
  unfolding verify_from
  verify_from_sound h [] e = tt
  verify_from_sound h (r ∷ rs) e = ground (
    arith,
    eq_iff r.prev_hash h,
    eq_iff (sha256 (row_data r)) r.current_hash,
    verify_from_sound r.current_hash rs,
  )

  pub verify_from_complete :
      (h : String) (rows : List AuditRow) → IsChain h rows → verify_from sha256 h rows ≡ intact
  unfolding verify_from
  verify_from_complete h [] c = ground arith
  verify_from_complete h (r ∷ rs) c = ground (
    arith,
    eq_iff r.prev_hash h,
    eq_iff (sha256 (row_data r)) r.current_hash,
    verify_from_complete r.current_hash rs c.2,
  )

  -- The audit reports an intact chain exactly for a ledger with rows in which every row names the
  -- hash of the row before it (the first one the genesis hash) and carries the hash of its contents.
  pub verify_audit_chain_iff :
      (rows : List AuditRow)
      → (verify_audit_chain sha256 rows ≡ intact) ↔ ((rows ≡ [] → ⊥) × IsChain genesis_hash rows)
  unfolding verify_audit_chain
  verify_audit_chain_iff [] = ((λ e. cc), λ h. absurd (h.0 (ground arith)))
  verify_audit_chain_iff (r ∷ rs) = (
    (λ e. ((λ q. cc), verify_from_sound genesis_hash (r ∷ rs) e)),
    λ h. verify_from_complete genesis_hash (r ∷ rs) h.1,
  )

  pub IsChain-append :
      (h : String) (xs ys : List AuditRow)
      → IsChain h xs
      → IsChain (head_hash h xs) ys
      → IsChain h (xs ++ ys)
  IsChain-append h [] ys cx cy = cy
  IsChain-append h (r ∷ rs) ys cx cy = (cx.0, cx.1, IsChain-append r.current_hash rs ys cx.2 cy)

  pub IsChain-prefix : (h : String) (xs ys : List AuditRow) → IsChain h (xs ++ ys) → IsChain h xs
  IsChain-prefix h [] ys c = tt
  IsChain-prefix h (r ∷ rs) ys c = (c.0, c.1, IsChain-prefix r.current_hash rs ys c.2)

  pub IsChain-suffix :
      (h : String) (xs ys : List AuditRow) → IsChain h (xs ++ ys) → IsChain (head_hash h xs) ys
  IsChain-suffix h [] ys c = c
  IsChain-suffix h (r ∷ rs) ys c = IsChain-suffix r.current_hash rs ys c.2

-- The hash that `append_record` starts from is the one that the next row must name.
pub head_hash-last :
    (h : String) (r : AuditRow) (rs : List AuditRow)
    → or_genesis (last_hash (r ∷ rs)) ≡ head_hash h (r ∷ rs)
head_hash-last h r [] = ground arith
head_hash-last h r (s ∷ rs) = head_hash-last r.current_hash s rs

pub head_hash-genesis :
    (rows : List AuditRow) → or_genesis (last_hash rows) ≡ head_hash genesis_hash rows
head_hash-genesis [] = ground arith
head_hash-genesis (r ∷ rs) = head_hash-last genesis_hash r rs
