-- ===== src/Transaction/Spec.antt =====
-- The tables that the two local transactions of `authorize_transfer` leave when they commit.
use sentinel_ai_v3_0_the_fin.Prelude.{String, Bool, List, [], ◌∷◌, ◌++◌}
use sentinel_ai_v3_0_the_fin.Database.{Db, PaymentIntent, OutboxEvent, update_status}
use sentinel_ai_v3_0_the_fin.Database.Connection.{Runtime, Json, text, number}
use sentinel_ai_v3_0_the_fin.AuditChain.Appending.{next_row, with_row}
use sentinel_ai_v3_0_the_fin.Transaction.{Transfer, intent_of, new_status, result_event}

abbrev pub event_of : String → String → String → String → OutboxEvent
event_of id aggregate_id event_type payload = record {
  id = id;
  aggregate_id = aggregate_id;
  event_type = event_type;
  payload = payload;
  status = "PENDING";
}

abbrev pub with_intent : PaymentIntent → Db → Db
with_intent p db = record db { payment_intents = db.payment_intents ++ p ∷ [] }

abbrev pub with_event : OutboxEvent → Db → Db
with_event e db = record db { outbox_events = db.outbox_events ++ e ∷ [] }

-- One more row in the hash chain, by `append_record`.
abbrev pub with_record : Runtime → String → String → List (String × Json) → Db → Db
with_record rt tx_id action payload db = with_row (next_row rt tx_id action payload db) db

-- What the four payloads hold.
abbrev pub started_payload : Transfer → List (String × Json)
started_payload t = ("amount", number t.amount) ∷ ("target", text t.target) ∷ []

abbrev pub created_payload : Transfer → List (String × Json)
created_payload t =
    ("user", text t.user_id) ∷ ("amount", number t.amount) ∷ ("target", text t.target) ∷ []

abbrev pub answer_payload : List (String × Json)
answer_payload = ("bank_ref", text "REF-999") ∷ []

abbrev pub final_payload : Bool → List (String × Json)
final_payload approved =
    ("bank_ref", text "REF-999") ∷ ("final_status", text (new_status approved)) ∷ []

-- After the first transaction: the intent, its event, its record in the chain.
abbrev pub created : Runtime → String → String → Transfer → Db → Db
created rt intent_id event_id t db = with_record rt intent_id "INTENT_CREATED" (created_payload t) (
    with_event (event_of event_id intent_id "AUTH_STARTED" (rt.dumps (started_payload t)))
      (with_intent (intent_of intent_id t) db))

-- After the second: the new status, the event of the answer, its record in the chain.
abbrev pub answered : Runtime → String → String → Bool → Db → Db
answered rt intent_id event_id approved db =
    with_record rt intent_id (result_event approved) (final_payload approved) (
      with_event (event_of event_id intent_id (result_event approved) (rt.dumps answer_payload))
        (update_status intent_id (new_status approved) db))
