-- ===== src/Transaction/Tests.antt =====
-- Requests on concrete databases.
use sentinel_ai_v3_0_the_fin.Prelude.{
  ℕ, ◌≡◌, refl, pos, String, false, true, some, [], ◌∷◌, nat_eq, if◌then◌else◌,
}
use sentinel_ai_v3_0_the_fin.Database.{Db, PaymentIntent, empty_db, select_by_key}
use sentinel_ai_v3_0_the_fin.Database.Connection.{Runtime, connect, ok}
use sentinel_ai_v3_0_the_fin.AuditChain.{data_to_hash}
use sentinel_ai_v3_0_the_fin.Transaction.{Transfer, authorize_transfer}
use sentinel_ai_v3_0_the_fin.Transaction.Spec.{answered}
use sentinel_ai_v3_0_the_fin.Transaction.Outcome.{Outcome, between, authorize_transfer-Outcome}
use sentinel_ai_v3_0_the_fin.Transaction.Consistency.{IsConsistent, authorize_transfer-IsConsistent}
use sentinel_ai_v3_0_the_fin.Transaction.Register.{stays}
use sentinel_ai_v3_0_the_fin.Transaction.Register.Refinement.{
  Implements, authorize_transfer-Implements,
}
use sentinel_ai_v3_0_the_fin.Transaction.Success.{authorize_transfer-succeeds}

-- The whole text stands for its own hash.
abbrev runtime : (ℕ → String) → Runtime
runtime uuid4 = record {
  sha256 = λ s. s;
  dumps = λ _. "{}";
  dumps_sorted = λ _. "{}";
  uuid4 = uuid4;
  fails = λ _. false;
  others = λ db. db;
}

abbrev ids : ℕ → String
ids n = if nat_eq n 0 then "intent" else if nat_eq n 1 then "event1" else "event2"

-- The same, but the third statement fails: the disk is full.
abbrev disk_full : Runtime
disk_full = record (runtime ids) { fails = λ n. nat_eq n 2 }

abbrev transfer : Transfer
transfer = record { idempotency_key = "key"; user_id = "ADMIN"; amount = pos 2500; target = "ES12" }

abbrev old : PaymentIntent
old = record {
  id = "old";
  idempotency_key = "key";
  user_id = "ADMIN";
  amount = pos 2500;
  target = "ES12";
  status = "AUTHORIZING";
}

abbrev paid_db : Db
paid_db = record empty_db { payment_intents = old ∷ [] }

old_found : select_by_key "key" paid_db ≡ some old
unfolding select_by_key
old_found = refl

authorize_transfer-Outcome_example :
    Outcome disk_full transfer empty_db (authorize_transfer disk_full transfer (connect empty_db))
authorize_transfer-Outcome_example = authorize_transfer-Outcome disk_full transfer empty_db 0

authorize_transfer-IsConsistent_example :
    IsConsistent (λ s. s) (authorize_transfer (runtime ids) transfer (connect empty_db)).1.committed
authorize_transfer-IsConsistent_example =
    authorize_transfer-IsConsistent (runtime ids) transfer empty_db
      (record { chain = tt; unique = tt; traced = tt }) (λ x h. h) 0

authorize_transfer-succeeds_example :
    let (r, c) = authorize_transfer (runtime ids) transfer (connect empty_db) in
    (r ≡ ok (record { id = "intent"; status = "AUTHORIZED" }))
    × (c.committed
        ≡ answered (runtime ids) "intent" "event2" true (between (runtime ids) transfer empty_db))
unfolding data_to_hash
authorize_transfer-succeeds_example =
    authorize_transfer-succeeds (runtime ids) (λ _. refl) transfer empty_db refl refl refl refl refl

authorize_transfer-Implements_example :
    Implements
      (runtime ids)
      transfer
      empty_db
      (authorize_transfer (runtime ids) transfer (connect empty_db))
authorize_transfer-Implements_example =
    authorize_transfer-Implements (runtime ids) transfer empty_db tt
      (record { unique = λ x u. u; evolves = λ x u. stays _; keeps = λ x key e. e }) 0

-- Another request, which meets this one while it waits.
abbrev other_ids : ℕ → String
other_ids n = if nat_eq n 0 then "other" else if nat_eq n 1 then "event3" else "event4"

abbrev other_transfer : Transfer
other_transfer = record transfer { idempotency_key = "key2" }
