-- ===== src/AuditChain.antt =====
-- security/audit_chain.py (`CryptographicAuditChain`) and verify_chain.py.
-- The record is appended to the hash chain of `audit_ledger` inside the caller's transaction.
pub mod Chain
pub mod Appending
pub mod Tampering
mod Tests
use Prim.Native.String.{◌++◌ as ◌<>◌}
use sentinel_ai_v3_0_the_fin.Prelude.{
  ℕ, String, not, Option, none, some, List, [], ◌∷◌, ◌==◌, if◌then◌else◌,
}
use sentinel_ai_v3_0_the_fin.Database.{AuditRow, insert_audit, last_hash}
use sentinel_ai_v3_0_the_fin.Database.Connection.{
  Runtime, Json, Exec, pure, ◌>>=◌, ◌>>◌, query, modify,
}

abbrev pub genesis_hash : String
genesis_hash = "0000000000000000000000000000000000000000000000000000000000000000"

-- f"{prev_hash}|{tx_id}|{action}|{payload}"
unfoldable pub data_to_hash : String → String → String → String → String
data_to_hash prev_hash tx_id action payload =
    prev_hash <> ("|" <> (tx_id <> ("|" <> (action <> ("|" <> payload)))))

-- `row["current_hash"] if row else GENESIS`
abbrev pub or_genesis : Option String → String
or_genesis none = genesis_hash
or_genesis (some h) = h

unfoldable pub append_record : Runtime → String → String → List (String × Json) → Exec String
append_record rt tx_id action payload = do
  row ← query rt (λ db. last_hash db.audit_ledger)
  let prev_hash = or_genesis row
  let payload_str = rt.dumps_sorted payload
  let current_hash = rt.sha256 (data_to_hash prev_hash tx_id action payload_str)
  modify rt (insert_audit tx_id action payload_str prev_hash current_hash)
  pure current_hash

-- What verify_audit_chain reports: an empty ledger, an intact chain, or the row at which it stops.
pub data Verdict : Type 0 where
  empty_ledger : Verdict
  intact : Verdict
  chain_broken : ℕ → Verdict
  data_forged : ℕ → Verdict

-- The loop over the rows, from the hash that the next row must name.
unfoldable pub verify_from : (String → String) → String → List AuditRow → Verdict
verify_from sha256 expected_prev_hash [] = intact
verify_from sha256 expected_prev_hash (row ∷ rows) =
    let rest = verify_from sha256 row.current_hash rows in
    if not (row.prev_hash == expected_prev_hash)
    then chain_broken row.seq_id
    else if not
        (sha256 (data_to_hash row.prev_hash row.tx_id row.action row.payload) == row.current_hash)
    then data_forged row.seq_id
    else rest

unfoldable pub verify_audit_chain : (String → String) → List AuditRow → Verdict
unfolding verify_from
verify_audit_chain sha256 [] = empty_ledger
verify_audit_chain sha256 (row ∷ rows) = verify_from sha256 genesis_hash (row ∷ rows)
