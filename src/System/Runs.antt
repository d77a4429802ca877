-- ===== src/System/Runs.antt =====
-- core/gateway.py and admin_panel.py: the steps of the system, from the first start on.
use sentinel_ai_v3_0_the_fin.Prelude.{
  ℕ, ◌<◌, ℤ, String, ◌≡◌, Bool, Option, none, some, List, [], ◌∷◌,
}
use sentinel_ai_v3_0_the_fin.Database.{Db}
use sentinel_ai_v3_0_the_fin.Database.Connection.{Runtime}
use sentinel_ai_v3_0_the_fin.OpaClient.{
  OpaInput, Reply, OpaClient, evaluate_policy, trip_start, trip_end,
}
use sentinel_ai_v3_0_the_fin.Core.{KeyStore, SentinelCore, audit_and_verify}
use sentinel_ai_v3_0_the_fin.Gateway.{ControlPlane, sync_round, admin_panel}
use sentinel_ai_v3_0_the_fin.Idempotency.{Redis}
use sentinel_ai_v3_0_the_fin.Service.{HttpRequest, Framework, Service, serve}
use sentinel_ai_v3_0_the_fin.System.Overlaps.{Meanwhile}
use sentinel_ai_v3_0_the_fin.System.Startup.{lifespan}

-- The process with what it shares, and what the operator's panel writes.
pub record System (ks : KeyStore) : Type 0 where
  pub service : Service ks
  pub plane : ControlPlane

module _ (ks : KeyStore) where
  abbrev pub ledger : System ks → Db
  ledger s = s.service.app.file

  -- The same process on another file of the ledger, with other entries in Redis.
  abbrev pub with_ledger : Db → System ks → System ks
  with_ledger db s = record s {
    service = record s.service { app = record s.service.app { file = db } };
  }

  abbrev with_breaker : OpaClient → System ks → System ks
  with_breaker opa s = record s {
    service = record s.service { app = record s.service.app { opa = opa } };
  }

  abbrev with_core : SentinelCore ks → System ks → System ks
  with_core core s = record s {
    service = record s.service { app = record s.service.app { core = core } };
  }

-- What happens to the system, one after another. A request may meet any failures of its statements,
-- any answers, and any other work on the ledger while it waits for the bank. `background` is work
-- on the ledger between requests: turns of the relay, and requests that went to the bank. `ask` and
-- `audit` are what the other calls of the endpoint do to the breaker and to the core. `restart` is a
-- new process on the file, the store and Redis as they are then.
pub data Step (ks : KeyStore) (sha256 : String → String) (one : ℕ) (s : System ks)
    : System ks → Type 0 where
  request :
      (rt : Runtime) (post : OpaInput → Reply) (parse : String → Option ℤ) (fw : Framework)
      (n random : ℕ) (q : HttpRequest) (world : ℕ → Bool × Bool)
      → rt.sha256 ≡ sha256
      → Meanwhile ks sha256 (rt.uuid4 0 ∷ []) rt.others
      → Step ks sha256 one s
          (record s { service = (serve ks rt post parse fw n q random world s.service).1 })
  background :
      (f : Db → Db)
      → Meanwhile ks sha256 [] f
      → Step ks sha256 one s (with_ledger ks (f (ledger ks s)) s)
  synchronise :
      (parse : String → Option ℕ)
      → Step ks sha256 one s (record s {
        service = record s.service { recovery = sync_round parse s.plane s.service.recovery };
      })
  operate :
      (upper : String → String) (str_float : String → Option String) (argv : List String)
      (plane : ControlPlane)
      → admin_panel upper str_float argv s.plane ≡ some plane
      → Step ks sha256 one s (record s { plane = plane })
  ask :
      (post : OpaInput → Reply) (input : OpaInput)
      → Step ks sha256 one s (with_breaker ks (evaluate_policy post input s.service.app.opa).0 s)
  audit :
      (tx_id tx_hash : String)
      → Step ks sha256 one s
          (with_core ks (audit_and_verify ks s.service.app.core tx_id tx_hash).0 s)
  trip :
      0 < s.service.app.opa.scheduled
      → Step ks sha256 one s (with_breaker ks (trip_start s.service.app.opa) s)
  recover :
      0 < s.service.app.opa.sleeping
      → Step ks sha256 one s (with_breaker ks (trip_end s.service.app.opa) s)
  expire :
      (redis : String → Redis)
      → Step ks sha256 one s (record s { service = record s.service { redis = redis } })
  restart :
      (redis : String → Redis)
      → Step ks sha256 one s
          (record s { service = lifespan ks one (some (ledger ks s)) s.service.app.core.db redis })

pub data Steps (ks : KeyStore) (sha256 : String → String) (one : ℕ) (s : System ks)
    : System ks → Type 0 where
  here : Steps ks sha256 one s s
  next :
      {t u : System ks} → Steps ks sha256 one s t → Step ks sha256 one t u → Steps ks sha256 one s u

-- The first start, on no file at all.
abbrev pub first_start :
    (ks : KeyStore) → ℕ → ks.Store → (String → Redis) → ControlPlane → System ks
first_start ks one store redis plane = record {
  service = lifespan ks one none store redis;
  plane = plane;
}
