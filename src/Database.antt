-- ===== src/Database.antt =====
-- core/database.py: the four tables of data/ledger.db, and the SQL statements that the ledger's code
-- sends to them. A table is the list of its rows in order of insertion, which for `audit_ledger` is
-- the order of its AUTOINCREMENT key. The `created_at` columns are left out: nothing reads them.
-- A statement that breaks a PRIMARY KEY or UNIQUE constraint answers `none`.
pub mod Connection
pub mod Rules
pub mod Working
use sentinel_ai_v3_0_the_fin.Prelude.{
  ℕ, ◌+◌, ℤ, pos, String, Bool, ◌||◌, ◌&&◌, Option, none, some, List, [], ◌∷◌, ◌++◌, map, ◌==◌,
  if◌then◌else◌, find_first, any, keep, take,
}

pub record PaymentIntent : Type 0 where
  pub id : String
  pub idempotency_key : String
  pub user_id : String
  pub amount : ℤ
  pub target : String
  pub status : String

pub record OutboxEvent : Type 0 where
  pub id : String
  pub aggregate_id : String
  pub event_type : String
  pub payload : String
  pub status : String

pub record Beneficiary : Type 0 where
  pub id : String
  pub owner_user_id : String
  pub account_iban : String
  pub is_active : ℤ
  pub aml_risk_score : ℤ
  pub country_code : String

pub record AuditRow : Type 0 where
  pub seq_id : ℕ
  pub tx_id : String
  pub action : String
  pub payload : String
  pub prev_hash : String
  pub current_hash : String

-- `last_seq` is what AUTOINCREMENT remembers: the largest key ever given out.
pub record Db : Type 0 where
  pub payment_intents : List PaymentIntent
  pub outbox_events : List OutboxEvent
  pub approved_beneficiaries : List Beneficiary
  pub audit_ledger : List AuditRow
  pub last_seq : ℕ

abbrev pub empty_db : Db
empty_db = record {
  payment_intents = [];
  outbox_events = [];
  approved_beneficiaries = [];
  audit_ledger = [];
  last_seq = 0;
}

-- The row that `init_db` puts in, the columns that it leaves out at their defaults.
abbrev pub test_beneficiary : Beneficiary
test_beneficiary = record {
  id = "1111-2222-3333-4444";
  owner_user_id = "ADMIN";
  account_iban = "ES12345678901234567890";
  is_active = pos 1;
  aml_risk_score = pos 10;
  country_code = "ES";
}

insert_or_ignore : Beneficiary → Db → Db
insert_or_ignore b db =
    if any (λ x. x.id == b.id) db.approved_beneficiaries
    then db
    else record db { approved_beneficiaries = db.approved_beneficiaries ++ b ∷ [] }

abbrev pub or_empty : Option Db → Db
or_empty none = empty_db
or_empty (some db) = db

-- `none` is a file that has no tables yet.
unfoldable pub init_db : Option Db → Db
unfolding insert_or_ignore
init_db file = insert_or_ignore test_beneficiary (or_empty file)

-- INSERT INTO payment_intents
unfoldable pub insert_intent : PaymentIntent → Db → Option Db
insert_intent p db =
    if any (λ x. x.id == p.id || x.idempotency_key == p.idempotency_key) db.payment_intents
    then none
    else some (record db { payment_intents = db.payment_intents ++ p ∷ [] })

-- SELECT id, status FROM payment_intents WHERE idempotency_key = ?
unfoldable pub select_by_key : String → Db → Option PaymentIntent
select_by_key key db = find_first (λ x. x.idempotency_key == key) db.payment_intents

abbrev pub with_status : String → String → PaymentIntent → PaymentIntent
with_status id status p = if p.id == id then record p { status = status } else p

-- UPDATE payment_intents SET status = ? WHERE id = ?
unfoldable pub update_status : String → String → Db → Db
update_status id status db = record db {
  payment_intents = map (with_status id status) db.payment_intents;
}

-- INSERT INTO outbox_events
unfoldable pub insert_event : OutboxEvent → Db → Option Db
insert_event e db =
    if any (λ x. x.id == e.id) db.outbox_events
    then none
    else some (record db { outbox_events = db.outbox_events ++ e ∷ [] })

abbrev pub is_pending : OutboxEvent → Bool
is_pending e = e.status == "PENDING"

-- SELECT ... FROM outbox_events WHERE status = 'PENDING' LIMIT 10
unfoldable pub select_pending : Db → List OutboxEvent
select_pending db = take 10 (keep is_pending db.outbox_events)

abbrev pub publish_if : String → OutboxEvent → OutboxEvent
publish_if id e = if e.id == id then record e { status = "PUBLISHED" } else e

-- UPDATE outbox_events SET status = 'PUBLISHED' WHERE id = ?
unfoldable pub mark_published : String → Db → Db
mark_published id db = record db { outbox_events = map (publish_if id) db.outbox_events }

-- SELECT ... FROM approved_beneficiaries WHERE id = ? AND owner_user_id = ?
unfoldable pub select_beneficiary : String → String → Db → Option Beneficiary
select_beneficiary id owner db =
    find_first (λ x. x.id == id && x.owner_user_id == owner) db.approved_beneficiaries

abbrev pub last_hash : List AuditRow → Option String
last_hash [] = none
last_hash (r ∷ []) = some r.current_hash
last_hash (_ ∷ r ∷ rs) = last_hash (r ∷ rs)

-- INSERT INTO audit_ledger; the key is the next one.
unfoldable pub insert_audit : String → String → String → String → String → Db → Option Db
insert_audit tx_id action payload prev_hash current_hash db =
    if any (λ x. x.current_hash == current_hash) db.audit_ledger
    then none
    else some (record db { audit_ledger = db.audit_ledger ++ row ∷ []; last_seq = db.last_seq + 1 })
  where
    row : AuditRow
    row = record {
      seq_id = db.last_seq + 1;
      tx_id = tx_id;
      action = action;
      payload = payload;
      prev_hash = prev_hash;
      current_hash = current_hash;
    }
