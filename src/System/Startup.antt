-- ===== src/System/Startup.antt =====
-- core/gateway.py: `lifespan`, from the start of the process to the first request.
use sentinel_ai_v3_0_the_fin.Prelude.{
  ℕ, String, false, Option, none, some, any, ◌==◌, Bool-cases, inl, inr,
}
use sentinel_ai_v3_0_the_fin.Database.{select_by_key, Db, test_beneficiary, init_db}
use sentinel_ai_v3_0_the_fin.OpaClient.{new_client}
use sentinel_ai_v3_0_the_fin.Core.{KeyStore, SentinelCore}
use sentinel_ai_v3_0_the_fin.Gateway.{normal, RecoveryState}
use sentinel_ai_v3_0_the_fin.Idempotency.{Redis}
use sentinel_ai_v3_0_the_fin.Service.{Service}
use sentinel_ai_v3_0_the_fin.Transaction.Consistency.{IsConsistent}
use sentinel_ai_v3_0_the_fin.Transaction.Register.{register, Evolves, stays}
use sentinel_ai_v3_0_the_fin.System.Entitlement.{init_db-IsEntitled}
use sentinel_ai_v3_0_the_fin.System.Requests.{IsSound, Extends}

-- `RecoveryState()`, `one` being the rate 1.0.
abbrev pub new_recovery : ℕ → RecoveryState
new_recovery one = record { mode = normal; rate_limit = one }

-- `SentinelCore(...)` in a new process, on the store that it opens.
abbrev pub new_core : (ks : KeyStore) → ks.Store → SentinelCore ks
new_core ks db = record { fail_safe = false; db = db }

-- `lifespan` up to its `yield`: on the ledger's file, if there is one, and on what RocksDB and Redis
-- hold already. The policy engine that it makes too has no part in what follows.
unfoldable pub lifespan : (ks : KeyStore) → ℕ → Option Db → ks.Store → (String → Redis) → Service ks
lifespan ks one file store redis = record {
  app = record { file = init_db file; opa = new_client; core = new_core ks store };
  recovery = new_recovery one;
  redis = redis;
}

module _ (sha256 : String → String) where
  -- A new file is sound.
  pub empty_db-IsSound : IsSound sha256 (init_db none)
  unfolding init_db
  empty_db-IsSound = record {
    consistent = record { chain = tt; unique = tt; traced = tt };
    entitled = tt;
  }

  init_db-IsConsistent :
      (db : Db) → IsConsistent sha256 db → IsConsistent sha256 (init_db (some db))
  unfolding init_db
  init_db-IsConsistent db h =
      elim (Bool-cases (any (λ x. x.id == test_beneficiary.id) db.approved_beneficiaries)) [
        | inl y ↦ rw y h
        | inr n ↦ rw n (record { chain = h.chain; unique = h.unique; traced = h.traced })
      ]

  init_db-Evolves : (db : Db) → Evolves (register db) (register (init_db (some db)))
  unfolding init_db select_by_key
  init_db-Evolves db =
      elim (Bool-cases (any (λ x. x.id == test_beneficiary.id) db.approved_beneficiaries)) [
        | inl y ↦ rw y (stays _)
        | inr n ↦ rw n (stays (register db))
      ]

  -- A start on an existing file changes the beneficiaries at most.
  pub init_db-Extends : (db : Db) → Extends sha256 db (init_db (some db))
  init_db-Extends db h = (
    record {
      consistent = init_db-IsConsistent db h.consistent;
      entitled = init_db-IsEntitled db h.entitled;
    },
    init_db-Evolves db,
  )
