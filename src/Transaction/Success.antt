-- ===== src/Transaction/Success.antt =====
-- A request in which nothing fails and nothing clashes is authorized.
use sentinel_ai_v3_0_the_fin.Prelude.{
  ℕ, ◌+◌, String, ◌≡◌, refl, ap, ◌∙◌, Bool, true, false, List, some, arith, any, ◌==◌,
}
use sentinel_ai_v3_0_the_fin.Database.{
  Db, insert_intent, insert_event, insert_audit, last_hash, update_status,
}
use sentinel_ai_v3_0_the_fin.Database.Connection.{
  Runtime, Conn, connect, Result, ok, Json, try_except, begin, draw_uuid, wait, query, modify,
}
use sentinel_ai_v3_0_the_fin.Database.Rules.{bind-ok, try-ok}
use sentinel_ai_v3_0_the_fin.Database.Working.{modify-ok, query-ok, begin-ok, commit-ok}
use sentinel_ai_v3_0_the_fin.AuditChain.{append_record}
use sentinel_ai_v3_0_the_fin.AuditChain.Appending.{next_row}
use sentinel_ai_v3_0_the_fin.Transaction.{
  Payment, Transfer, append_outbox, intent_of, create_intent, bank_approved, record_answer,
  result_event, new_status, settle, authorize_transfer,
}
use sentinel_ai_v3_0_the_fin.Transaction.Spec.{
  event_of, with_intent, with_event, with_record, started_payload, created_payload, answer_payload,
  final_payload, created, answered,
}
use sentinel_ai_v3_0_the_fin.Transaction.Outcome.{is_taken, between}

abbrev pub has_event_id : String → Db → Bool
has_event_id id db = any (λ e. e.id == id) db.outbox_events

-- Whether the record would repeat a hash of the chain.
abbrev pub has_hash_of : Runtime → String → String → List (String × Json) → Db → Bool
has_hash_of rt tx_id action payload db =
    any (λ r. r.current_hash == (next_row rt tx_id action payload db).current_hash) db.audit_ledger

module _ (rt : Runtime) (working : (n : ℕ) → rt.fails n ≡ false) where
  append_outbox-ok :
      (agg ty : String) (payload : List (String × Json)) (c : Conn)
      → has_event_id (rt.uuid4 c.draws) c.working ≡ false
      → append_outbox rt agg ty payload c ≡ (
        ok tt,
        record c {
          working = with_event (event_of (rt.uuid4 c.draws) agg ty (rt.dumps payload)) c.working;
          in_tx = true;
          sent = c.sent + 1;
          draws = c.draws + 1;
        },
      )
  unfolding append_outbox insert_event
  append_outbox-ok agg ty payload c free =
      bind-ok (draw_uuid rt) _ refl
      ∙ modify-ok rt working (record c { draws = c.draws + 1 }) _ _ (ground (arith, free))

  append_record-ok :
      (tx_id action : String) (payload : List (String × Json)) (c : Conn)
      → has_hash_of rt tx_id action payload c.working ≡ false
      → append_record rt tx_id action payload c ≡ (
        ok (next_row rt tx_id action payload c.working).current_hash,
        record c {
          working = with_record rt tx_id action payload c.working;
          in_tx = true;
          sent = c.sent + 1 + 1;
        },
      )
  unfolding append_record insert_audit
  append_record-ok tx_id action payload c free =
      bind-ok (query rt _) _ (query-ok rt working c (λ db. last_hash db.audit_ledger))
      ∙ bind-ok (modify rt _) _ (
          modify-ok rt working (record c { sent = c.sent + 1 }) _
            (with_record rt tx_id action payload c.working) (ground (arith, free)))

  create_intent-ok :
      (id : String) (t : Transfer) (c : Conn)
      → insert_intent (intent_of id t) c.working ≡ some (with_intent (intent_of id t) c.working)
      → has_event_id (rt.uuid4 c.draws) c.working ≡ false
      → has_hash_of rt id "INTENT_CREATED" (created_payload t) c.working ≡ false
      → create_intent rt id t c ≡ (
        ok tt,
        record c {
          committed = created rt id (rt.uuid4 c.draws) t c.working;
          working = created rt id (rt.uuid4 c.draws) t c.working;
          in_tx = false;
          sent = c.sent + 1 + 1 + 1 + 1 + 1;
          draws = c.draws + 1;
        },
      )
  unfolding create_intent
  create_intent-ok id t c i e h =
      bind-ok (modify rt _) _ (modify-ok rt working c _ (with_intent (intent_of id t) c.working) i)
      ∙ bind-ok (append_outbox rt _ _ _) _ (
          append_outbox-ok id "AUTH_STARTED" (started_payload t)
            (record c {
              working = with_intent (intent_of id t) c.working;
              in_tx = true;
              sent = c.sent + 1;
            })
            e)
      ∙ bind-ok (append_record rt _ _ _) _ (
          append_record-ok id "INTENT_CREATED" (created_payload t)
            (record c {
              working =
                  with_event
                    (event_of (rt.uuid4 c.draws) id "AUTH_STARTED" (rt.dumps (started_payload t)))
                    (with_intent (intent_of id t) c.working);
              in_tx = true;
              sent = c.sent + 1 + 1;
              draws = c.draws + 1;
            })
            h)
      ∙ commit-ok rt working _

  record_answer-ok :
      (id : String) (approved : Bool) (c : Conn)
      → has_event_id (rt.uuid4 c.draws) c.working ≡ false
      → has_hash_of rt id (result_event approved) (final_payload approved) c.working ≡ false
      → record_answer rt id approved c ≡ (
        ok tt,
        record c {
          committed = answered rt id (rt.uuid4 c.draws) approved c.working;
          working = answered rt id (rt.uuid4 c.draws) approved c.working;
          in_tx = false;
          sent = c.sent + 1 + 1 + 1 + 1 + 1;
          draws = c.draws + 1;
        },
      )
  unfolding record_answer update_status
  record_answer-ok id approved c e h =
      bind-ok (modify rt _) _
        (modify-ok rt working c _ (update_status id (new_status approved) c.working) refl)
      ∙ bind-ok (append_outbox rt _ _ _) _ (
          append_outbox-ok id (result_event approved) answer_payload
            (record c {
              working = update_status id (new_status approved) c.working;
              in_tx = true;
              sent = c.sent + 1;
            })
            e)
      ∙ bind-ok (append_record rt _ _ _) _ (
          append_record-ok id (result_event approved) (final_payload approved)
            (record c {
              working =
                  with_event
                    (event_of (rt.uuid4 c.draws) id (result_event approved)
                      (rt.dumps answer_payload))
                    (update_status id (new_status approved) c.working);
              in_tx = true;
              sent = c.sent + 1 + 1;
              draws = c.draws + 1;
            })
            h)
      ∙ commit-ok rt working _

  insert_intent-free :
      (t : Transfer) (db : Db)
      → is_taken rt t db ≡ false
      → insert_intent (intent_of (rt.uuid4 0) t) db
        ≡ some (with_intent (intent_of (rt.uuid4 0) t) db)
  unfolding insert_intent
  insert_intent-free t db free = ground (arith, free)

  -- The request is authorized, and both local transactions are in the file, if no statement fails,
  -- neither the drawn identifier nor the key of the request stands in the table of intents, and at
  -- neither of its two transactions the drawn event identifier stands in the outbox or the hash to
  -- be appended in the chain.
  pub authorize_transfer-succeeds :
      (t : Transfer) (db : Db)
      → is_taken rt t db ≡ false
      → has_event_id (rt.uuid4 1) db ≡ false
      → has_hash_of rt (rt.uuid4 0) "INTENT_CREATED" (created_payload t) db ≡ false
      → has_event_id (rt.uuid4 2) (between rt t db) ≡ false
      → has_hash_of rt (rt.uuid4 0) "AUTH_APPROVED" (final_payload true) (between rt t db) ≡ false
      → let (r, c) = authorize_transfer rt t (connect db) in
        (r ≡ ok (record { id = rt.uuid4 0; status = "AUTHORIZED" }))
        × (c.committed ≡ answered rt (rt.uuid4 0) (rt.uuid4 2) true (between rt t db))
  unfolding authorize_transfer settle
  authorize_transfer-succeeds t db free e1 h1 e2 h2 =
      let run =
        bind-ok (draw_uuid rt) _ {c = connect db} refl
        ∙ bind-ok (begin rt) _ (begin-ok rt working _ refl)
        ∙ bind-ok (try_except _ _) _ (
            try-ok _ _ (
              bind-ok (create_intent rt _ t) _
                (create_intent-ok (rt.uuid4 0) t _ (insert_intent-free t db free) e1 h1)))
        ∙ bind-ok (wait rt) _ refl
        ∙ bind-ok (begin rt) _ (begin-ok rt working _ refl)
        ∙ bind-ok (try_except _ _) _
            (try-ok _ _ (record_answer-ok (rt.uuid4 0) bank_approved _ e2 h2)) in
      (
        ap (λ (r : Result Payment × Conn). r.0) run,
        ap (λ (r : Result Payment × Conn). r.1.committed) run,
      )
