-- ===== src/System/Ledger.antt =====
-- The ledger of the running system.
use sentinel_ai_v3_0_the_fin.Prelude.{ℕ, String, ◌≡◌, ◌≢◌, subst, sym, some, [], ◌∷◌}
use sentinel_ai_v3_0_the_fin.AuditChain.{intact, verify_audit_chain}
use sentinel_ai_v3_0_the_fin.AuditChain.Chain.{verify_audit_chain_iff}
use sentinel_ai_v3_0_the_fin.Transaction.{Payment}
use sentinel_ai_v3_0_the_fin.Transaction.Consistency.{IsConsistent}
use sentinel_ai_v3_0_the_fin.Transaction.Register.{register, Evolves, Keeps, Evolves-Keeps}
use sentinel_ai_v3_0_the_fin.Core.{KeyStore}
use sentinel_ai_v3_0_the_fin.Gateway.{ControlPlane}
use sentinel_ai_v3_0_the_fin.Idempotency.{Redis}
use sentinel_ai_v3_0_the_fin.Service.{serve}
use sentinel_ai_v3_0_the_fin.System.Entitlement.{IsEntitled}
use sentinel_ai_v3_0_the_fin.System.Overlaps.{Safe}
use sentinel_ai_v3_0_the_fin.System.Safety.{Meanwhile-Safe}
use sentinel_ai_v3_0_the_fin.System.Requests.{
  IsSound, Extends, Extends-refl, Extends-trans, Safe-Extends, serve-Extends,
}
use sentinel_ai_v3_0_the_fin.System.Startup.{lifespan, empty_db-IsSound, init_db-Extends}
use sentinel_ai_v3_0_the_fin.System.Runs.{
  System, ledger, Step, request, background, synchronise, operate, ask, audit, trip, recover,
  expire, restart, Steps, here, next, first_start,
}

module _ (ks : KeyStore) (sha256 : String → String) (one : ℕ) where
  Step-Extends :
      {s t : System ks} → Step ks sha256 one s t → Extends sha256 (ledger ks s) (ledger ks t)
  unfolding lifespan
  Step-Extends {s} (request rt post parse fw n random q world same others) =
      subst
        (λ h. Extends h (ledger ks s) (
          ledger ks
            (record s { service = (serve ks rt post parse fw n q random world s.service).1 })))
        same
        (serve-Extends rt
          (subst (λ h. Safe h (rt.uuid4 0 ∷ []) rt.others) (sym same) (Meanwhile-Safe others)) ks
          post parse fw q n random world s.service)
  Step-Extends {s} (background f m) = Safe-Extends (ledger ks s) (Meanwhile-Safe m)
  Step-Extends {s} (synchronise parse) = Extends-refl sha256 (ledger ks s)
  Step-Extends {s} (operate upper str_float argv plane e) = Extends-refl sha256 (ledger ks s)
  Step-Extends {s} (ask post input) = Extends-refl sha256 (ledger ks s)
  Step-Extends {s} (audit tx_id tx_hash) = Extends-refl sha256 (ledger ks s)
  Step-Extends {s} (trip p) = Extends-refl sha256 (ledger ks s)
  Step-Extends {s} (recover p) = Extends-refl sha256 (ledger ks s)
  Step-Extends {s} (expire redis) = Extends-refl sha256 (ledger ks s)
  Step-Extends {s} (restart redis) = init_db-Extends sha256 (ledger ks s)

  Steps-Extends :
      {s u : System ks} → Steps ks sha256 one s u → Extends sha256 (ledger ks s) (ledger ks u)
  Steps-Extends {s} here = Extends-refl sha256 (ledger ks s)
  Steps-Extends {s} {u} (next {t} ss st) =
      Extends-trans sha256 (ledger ks s) (ledger ks t) (ledger ks u) (Steps-Extends ss)
        (Step-Extends st)

  module _ (store : ks.Store) (redis : String → Redis) (plane : ControlPlane) where
    first-IsSound : IsSound sha256 (ledger ks (first_start ks one store redis plane))
    unfolding lifespan
    first-IsSound = empty_db-IsSound sha256

    -- The ledger of the running system is consistent: from the first start on, whatever requests
    -- are served and however they overlap, whichever statements fail, and whatever the relay, the
    -- breaker, the operator, expiring entries and restarts do in between, the audit chain is intact,
    -- no two intents share an identifier or a key, and what happened to every intent stands in the
    -- outbox and in the chain; so the audit reports an intact chain as soon as there is a row. All
    -- requests are assumed to hash alike, and to draw other identifiers than those that wait.
    pub Steps-IsConsistent :
        (s : System ks)
        → Steps ks sha256 one (first_start ks one store redis plane) s
        → IsConsistent sha256 (ledger ks s)
          × ((ledger ks s).audit_ledger ≢ []
              → verify_audit_chain sha256 (ledger ks s).audit_ledger ≡ intact)
    Steps-IsConsistent s ss =
        let h = (Steps-Extends ss first-IsSound).0.consistent in
        (h, λ rows. (verify_audit_chain_iff sha256 (ledger ks s).audit_ledger).1 (rows, h.chain))

    -- The running system implements the register of payments: between any two moments of it, payments
    -- were only started under free keys and authorized, so every key that had a payment still has
    -- this one, its status at most changed from AUTHORIZING to AUTHORIZED, whatever was served and
    -- whatever failed or was restarted in between. All requests are assumed to hash alike, and to
    -- draw other identifiers than those that wait.
    pub Steps-Implements :
        (s t : System ks)
        → Steps ks sha256 one (first_start ks one store redis plane) s
        → Steps ks sha256 one s t
        → Evolves (register (ledger ks s)) (register (ledger ks t))
          × ((key : String) (p : Payment)
              → register (ledger ks s) key ≡ some p
              → Keeps p (register (ledger ks t) key))
    Steps-Implements s t before after =
        let e = (Steps-Extends after (Steps-Extends before first-IsSound).0).1 in
        (
          e,
          λ key p known.
              Evolves-Keeps (register (ledger ks s)) (register (ledger ks t)) key p e known,
        )

    -- Money goes only where the paying user has registered it: in the running system, from the first
    -- start on, whatever is served, refused, retried, overlapped, resumed or restarted, every intent
    -- in the ledger goes to the account of a beneficiary that the ledger has for the user who pays.
    -- All requests are assumed to hash alike, and to draw other identifiers than those that wait.
    pub Steps-IsEntitled :
        (s : System ks)
        → Steps ks sha256 one (first_start ks one store redis plane) s
        → IsEntitled (ledger ks s)
    Steps-IsEntitled s ss = (Steps-Extends ss first-IsSound).0.entitled
