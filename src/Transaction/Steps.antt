-- ===== src/Transaction/Steps.antt =====
-- The two local transactions commit what the specification says, or nothing.
use sentinel_ai_v3_0_the_fin.Prelude.{◌+◌, String, ◌≡◌, ◌∙◌, Bool, some, List, arith}
use sentinel_ai_v3_0_the_fin.Database.{
  Db, PaymentIntent, OutboxEvent, insert_intent, insert_event, insert_audit, update_status,
}
use sentinel_ai_v3_0_the_fin.Database.Connection.{Runtime, Conn, Json, ◌>>=◌, query, modify}
use sentinel_ai_v3_0_the_fin.Database.Rules.{
  Inside, Writes, AllOrNothing, modify-Writes, commit-AllOrNothing, step_rule,
}
use sentinel_ai_v3_0_the_fin.AuditChain.{append_record}
use sentinel_ai_v3_0_the_fin.AuditChain.Appending.{next_row}
use sentinel_ai_v3_0_the_fin.Transaction.{
  Transfer, append_outbox, intent_of, create_intent, new_status, result_event, record_answer,
}
use sentinel_ai_v3_0_the_fin.Transaction.Spec.{
  event_of, with_intent, with_event, with_record, started_payload, created_payload, answer_payload,
  final_payload, created, answered,
}

inserted_intent :
    (p : PaymentIntent) (db db' : Db) → insert_intent p db ≡ some db' → db' ≡ with_intent p db
unfolding insert_intent
inserted_intent p db db' e = ground arith

inserted_event :
    (v : OutboxEvent) (db db' : Db) → insert_event v db ≡ some db' → db' ≡ with_event v db
unfolding insert_event
inserted_event v db db' e = ground arith

updated : (change : Db → Db) (db db' : Db) → some (change db) ≡ some db' → db' ≡ change db
updated change db db' e = ground arith

inserted_audit :
    (rt : Runtime) (tx_id action : String) (payload : List (String × Json)) (db db' : Db)
    → let r = next_row rt tx_id action payload db in
      insert_audit tx_id action r.payload r.prev_hash r.current_hash db ≡ some db'
      → db' ≡ with_record rt tx_id action payload db
unfolding insert_audit
inserted_audit rt tx_id action payload db db' e = ground arith

module _ (rt : Runtime) {file : Db} where
  append_outbox-Writes :
      (aggregate_id event_type : String) (payload : List (String × Json)) (c : Conn)
      → Inside file c
      → Writes file tt
          (with_event
            (event_of (rt.uuid4 c.draws) aggregate_id event_type (rt.dumps payload))
            c.working)
          (c.draws + 1)
          (append_outbox rt aggregate_id event_type payload c)
  unfolding append_outbox ◌>>=◌ modify
  append_outbox-Writes agg ty payload c h =
      modify-Writes rt (record c { draws = c.draws + 1 })
        (record { unchanged = h.unchanged; opened = h.opened })
        (insert_event (event_of (rt.uuid4 c.draws) agg ty (rt.dumps payload))) _
        (inserted_event _ c.working)

  append_record-Writes :
      (tx_id action : String) (payload : List (String × Json)) (c : Conn)
      → Inside file c
      → Writes file
          (next_row rt tx_id action payload c.working).current_hash
          (with_record rt tx_id action payload c.working)
          c.draws
          (append_record rt tx_id action payload c)
  unfolding ◌>>=◌ append_record query modify insert_audit
  append_record-Writes tx_id action payload c h = ground arith

  -- The first local transaction, with the identifier that it draws.
  pub create_intent-AllOrNothing :
      (intent_id : String) (t : Transfer) (c : Conn)
      → Inside file c
      → AllOrNothing file
          (created rt intent_id (rt.uuid4 c.draws) t c.working)
          (c.draws + 1)
          (create_intent rt intent_id t c)
  unfolding create_intent
  create_intent-AllOrNothing intent_id t c h =
      step_rule _ _ c (modify-Writes rt c h _ _ (inserted_intent (intent_of intent_id t) c.working))
        λ c1 h1 w1 d1.
          step_rule _ _ c1 (append_outbox-Writes intent_id "AUTH_STARTED" (started_payload t) c1 h1)
            λ c2 h2 w2 d2.
              step_rule _ _ c2
                (append_record-Writes intent_id "INTENT_CREATED" (created_payload t) c2 h2)
                λ c3 h3 w3 d3.
                  commit-AllOrNothing rt c3 h3 (w3 ∙ simp (w2, w1, d1)) (omega (arith, d1, d2, d3))

  -- The second one.
  pub record_answer-AllOrNothing :
      (intent_id : String) (approved : Bool) (c : Conn)
      → Inside file c
      → AllOrNothing file
          (answered rt intent_id (rt.uuid4 c.draws) approved c.working)
          (c.draws + 1)
          (record_answer rt intent_id approved c)
  unfolding record_answer
  record_answer-AllOrNothing intent_id approved c h =
      step_rule _ _ c
        (modify-Writes rt c h _ _
          (updated (update_status intent_id (new_status approved)) c.working))
        λ c1 h1 w1 d1.
          step_rule _ _ c1
            (append_outbox-Writes intent_id (result_event approved) answer_payload c1 h1)
            λ c2 h2 w2 d2.
              step_rule _ _ c2
                (append_record-Writes intent_id (result_event approved) (final_payload approved) c2
                  h2)
                λ c3 h3 w3 d3.
                  commit-AllOrNothing rt c3 h3 (w3 ∙ simp (w2, w1, d1)) (omega (arith, d1, d2, d3))
