-- ===== src/AuditChain/Appending.antt =====
-- `append_record` extends the chain by one row, or leaves the ledger as it was.
use sentinel_ai_v3_0_the_fin.Prelude.{String, ◌≡◌, refl, ◌+◌, List, [], ◌∷◌, ◌++◌, arith, true}
use sentinel_ai_v3_0_the_fin.Database.{Db, AuditRow, insert_audit, last_hash}
use sentinel_ai_v3_0_the_fin.Database.Connection.{
  Runtime, Conn, Result, Json, ok, err, ◌>>=◌, query, modify,
}
use sentinel_ai_v3_0_the_fin.AuditChain.{genesis_hash, data_to_hash, or_genesis, append_record}
use sentinel_ai_v3_0_the_fin.AuditChain.Chain.{IsChain, IsChain-append, head_hash-genesis}

-- The row that `append_record` puts at the end of a ledger.
abbrev pub next_row : Runtime → String → String → List (String × Json) → Db → AuditRow
next_row rt tx_id action payload db =
    let prev = or_genesis (last_hash db.audit_ledger) in
    let text = rt.dumps_sorted payload in
    record {
      seq_id = db.last_seq + 1;
      tx_id = tx_id;
      action = action;
      payload = text;
      prev_hash = prev;
      current_hash = rt.sha256 (data_to_hash prev tx_id action text);
    }

abbrev pub with_row : AuditRow → Db → Db
with_row r db = record db { audit_ledger = db.audit_ledger ++ r ∷ []; last_seq = db.last_seq + 1 }

-- What a call of `append_record` did, by how it ended.
abbrev pub Appended : Runtime → AuditRow → Conn → Result String × Conn → Type 0
Appended rt r c (ok h, c') =
    (h ≡ r.current_hash) × (c'.working ≡ with_row r c.working) × (c'.in_tx ≡ true)
Appended rt r c (err e, c') = c'.working ≡ c.working

module _ (rt : Runtime) (tx_id action : String) (payload : List (String × Json)) where
  -- Whatever statement fails, `append_record` either returns the hash of the one row that it put at
  -- the end of the ledger, or raises and has left the tables as they were. In both cases nothing is
  -- committed and no identifier is drawn.
  pub append_record-Appended :
      (c : Conn)
      → let done = append_record rt tx_id action payload c in
        Appended rt (next_row rt tx_id action payload c.working) c done
        × (done.1.committed ≡ c.committed)
        × (done.1.draws ≡ c.draws)
  unfolding ◌>>=◌ append_record query modify insert_audit
  append_record-Appended c = ground arith

  pub next_row-IsChain :
      (db : Db)
      → IsChain rt.sha256 genesis_hash db.audit_ledger
      → IsChain rt.sha256 genesis_hash
          (with_row (next_row rt tx_id action payload db) db).audit_ledger
  next_row-IsChain db h =
      IsChain-append rt.sha256 genesis_hash db.audit_ledger _ h
        (head_hash-genesis db.audit_ledger, refl, tt)

  -- A ledger that is a chain stays one, also when the call raises.
  pub append_record-IsChain :
      (c : Conn)
      → IsChain rt.sha256 genesis_hash c.working.audit_ledger
      → IsChain rt.sha256 genesis_hash
          (append_record rt tx_id action payload c).1.working.audit_ledger
  unfolding ◌>>=◌ append_record query modify insert_audit
  append_record-IsChain c h = ground (arith, next_row-IsChain c.working h)
