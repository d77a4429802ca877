-- ===== src/Transaction.antt =====
-- core/transaction.py: `TransactionManager`, two local transactions round a call of the bank.
pub mod Spec
mod Steps
pub mod Outcome
pub mod Consistency
pub mod Retry
pub mod Success
pub mod Register
mod Tests
use sentinel_ai_v3_0_the_fin.Prelude.{
  ℤ, String, Bool, true, Option, none, some, List, [], ◌∷◌, if◌then◌else◌,
}
use sentinel_ai_v3_0_the_fin.Database.{
  PaymentIntent, insert_intent, insert_event, select_by_key, update_status,
}
use sentinel_ai_v3_0_the_fin.Database.Connection.{
  Error, Runtime, Json, text, number, Exec, pure, raise, ◌>>=◌, ◌>>◌, try_except, draw_uuid, query,
  modify, begin, rollback, commit, wait,
}
use sentinel_ai_v3_0_the_fin.AuditChain.{append_record}

-- The dictionary that `authorize_transfer` returns.
pub record Payment : Type 0 where
  pub id : String
  pub status : String

-- The arguments of `authorize_transfer`.
pub record Transfer : Type 0 where
  pub idempotency_key : String
  pub user_id : String
  pub amount : ℤ
  pub target : String

unfoldable pub append_outbox : Runtime → String → String → List (String × Json) → Exec Unit
append_outbox rt aggregate_id event_type payload = do
  event_id ← draw_uuid rt
  modify rt (
      insert_event (record {
        id = event_id;
        aggregate_id = aggregate_id;
        event_type = event_type;
        payload = rt.dumps payload;
        status = "PENDING";
      }))

abbrev pub intent_of : String → Transfer → PaymentIntent
intent_of intent_id t = record {
  id = intent_id;
  idempotency_key = t.idempotency_key;
  user_id = t.user_id;
  amount = t.amount;
  target = t.target;
  status = "AUTHORIZING";
}

-- The body of the first `try`.
unfoldable pub create_intent : Runtime → String → Transfer → Exec Unit
create_intent rt intent_id t = do
  modify rt (insert_intent (intent_of intent_id t))
  append_outbox rt intent_id "AUTH_STARTED"
      (("amount", number t.amount) ∷ ("target", text t.target) ∷ [])
  append_record rt intent_id "INTENT_CREATED"
      (("user", text t.user_id) ∷ ("amount", number t.amount) ∷ ("target", text t.target) ∷ [])
  commit rt

abbrev found_or_raise : Error → Option PaymentIntent → Exec (Option Payment)
found_or_raise e none = raise e
found_or_raise e (some p) = pure (some (record { id = p.id; status = p.status }))

-- The first `except`: roll back, and answer with the payment that has the key, if there is one.
unfoldable pub existing_or_raise : Runtime → Transfer → Error → Exec (Option Payment)
existing_or_raise rt t e = do
  rollback rt
  existing ← query rt (select_by_key t.idempotency_key)
  found_or_raise e existing

abbrev pub new_status : Bool → String
new_status approved = if approved then "AUTHORIZED" else "FAILED"

abbrev pub result_event : Bool → String
result_event approved = if approved then "AUTH_APPROVED" else "AUTH_FAILED"

-- The answer of the bank is emulated: it always approves.
abbrev pub bank_approved : Bool
bank_approved = true

-- The body of the second `try`.
unfoldable pub record_answer : Runtime → String → Bool → Exec Unit
record_answer rt intent_id approved = do
  modify rt (λ db. some (update_status intent_id (new_status approved) db))
  append_outbox rt intent_id (result_event approved) (("bank_ref", text "REF-999") ∷ [])
  append_record rt intent_id (result_event approved)
      (("bank_ref", text "REF-999") ∷ ("final_status", text (new_status approved)) ∷ [])
  commit rt

-- The rest of the method, once the intent is committed.
unfoldable pub settle : Runtime → String → Exec Payment
settle rt intent_id = do
  wait rt
  begin rt
  try_except (record_answer rt intent_id bank_approved) (λ e. rollback rt >> raise e)
  pure (record { id = intent_id; status = new_status bank_approved })

abbrev finish : Runtime → String → Option Payment → Exec Payment
finish rt intent_id none = settle rt intent_id
finish rt intent_id (some existing) = pure existing

unfoldable pub authorize_transfer : Runtime → Transfer → Exec Payment
authorize_transfer rt t = do
  intent_id ← draw_uuid rt
  begin rt
  early ← try_except (create_intent rt intent_id t >> pure none) (existing_or_raise rt t)
  finish rt intent_id early
