-- ===== src/System/Breach.antt =====
-- A breach in the running system: what a mismatch of hashes does to the process that found it.
use sentinel_ai_v3_0_the_fin.Prelude.{ℕ, ℤ, String, ◌≡◌, inl, inr, ap, ◌∙◌, Bool, true, Option}
use sentinel_ai_v3_0_the_fin.Database.Connection.{Runtime}
use sentinel_ai_v3_0_the_fin.OpaClient.{OpaInput, Reply}
use sentinel_ai_v3_0_the_fin.Core.{KeyStore, SentinelCore, is_frozen, audit_and_verify}
use sentinel_ai_v3_0_the_fin.Gateway.{
  TransferRequest, Headers, integrity_mismatch, App, handle_transfer,
}
use sentinel_ai_v3_0_the_fin.Service.{HttpRequest, Framework, refused_by_gate, headers_of, serve}
use sentinel_ai_v3_0_the_fin.Service.Rules.{serve_rule}
use sentinel_ai_v3_0_the_fin.Service.Breach.{mismatch_freezes, frozen_answers}
use sentinel_ai_v3_0_the_fin.System.Hashes.{handle_transfer-Asks}
use sentinel_ai_v3_0_the_fin.System.Runs.{
  System, Step, request, background, synchronise, operate, ask, audit, trip, recover, expire,
  restart,
}

-- The steps of a process, whatever they are, that do not replace it by a new one.
abbrev pub IsOfProcess :
    {ks : KeyStore} {sha256 : String → String} {one : ℕ} {s t : System ks}
    → Step ks sha256 one s t
    → Type 0
IsOfProcess (restart redis) = ⊥
IsOfProcess _ = Unit

-- What happens to the system while one process lives.
pub data Lives (ks : KeyStore) (sha256 : String → String) (one : ℕ) (s : System ks)
    : System ks → Type 0 where
  here : Lives ks sha256 one s s
  next :
      {t u : System ks}
      → Lives ks sha256 one s t
      → (step : Step ks sha256 one t u) → IsOfProcess step
      → Lives ks sha256 one s u

module _ (ks : KeyStore) where
  abbrev pub IsFrozen : App ks → Type 0
  IsFrozen app = app.core.fail_safe ≡ true

  audit-IsFrozen :
      (c : SentinelCore ks) (tx h : String)
      → c.fail_safe ≡ true
      → (audit_and_verify ks c tx h).0.fail_safe ≡ true
  unfolding audit_and_verify is_frozen
  audit-IsFrozen c tx h e = simp e

  endpoint-IsFrozen :
      (rt : Runtime) (post : OpaInput → Reply) (parse : String → Option ℤ) (headers : Headers)
      (req : TransferRequest) (app : App ks)
      → IsFrozen app
      → IsFrozen (handle_transfer ks rt post parse headers req app).1
  endpoint-IsFrozen rt post parse headers req app e =
      elim (handle_transfer-Asks ks rt post parse headers req app) [
        | inr (same, _) ↦ ap (λ (c : SentinelCore ks). c.fail_safe) same ∙ e
        | inl asked ↦
            ap (λ (c : SentinelCore ks). c.fail_safe) asked
            ∙ audit-IsFrozen app.core req.tx_id req.tx_hash e
      ]

  module _ (sha256 : String → String) (one : ℕ) where
    Step-IsFrozen :
        {s t : System ks} (step : Step ks sha256 one s t)
        → IsOfProcess step
        → IsFrozen s.service.app
        → IsFrozen t.service.app
    Step-IsFrozen {s} (request rt post parse fw n random q world same others) p e =
        serve_rule ks rt post parse fw q (λ a b. IsFrozen a → IsFrozen b) (λ app x. x)
          (λ a b c f g x. g (f x))
          (λ req app x. endpoint-IsFrozen rt post parse (headers_of q) req app x) n random world
          s.service e
    Step-IsFrozen (background f m) p e = e
    Step-IsFrozen (synchronise parse) p e = e
    Step-IsFrozen (operate upper str_float argv plane x) p e = e
    Step-IsFrozen (ask post input) p e = e
    Step-IsFrozen {s} (audit tx_id tx_hash) p e = audit-IsFrozen s.service.app.core tx_id tx_hash e
    Step-IsFrozen (trip q) p e = e
    Step-IsFrozen (recover q) p e = e
    Step-IsFrozen (expire redis) p e = e
    Step-IsFrozen (restart redis) p e = absurd p

    Lives-IsFrozen :
        {s t : System ks}
        → Lives ks sha256 one s t
        → IsFrozen s.service.app
        → IsFrozen t.service.app
    Lives-IsFrozen here e = e
    Lives-IsFrozen (next ls step p) e = Step-IsFrozen step p (Lives-IsFrozen ls e)

module _ (ks : KeyStore) (rt rt' : Runtime) (post post' : OpaInput → Reply)
    (parse parse' : String → Option ℤ) (headers : Headers) (req : TransferRequest) where
  -- A breach stops the process: once the endpoint has answered a transfer with INTEGRITY_MISMATCH,
  -- then, whatever happens to the system afterwards but a restart (other requests and their
  -- settlements, turns of the relay, tasks of the breaker, synchronisation, commands of the operator,
  -- expiring entries), every request is answered with 503 SYSTEM_FROZEN, and the ledger, the breaker,
  -- the core and the idempotency entries stay as they are. Of the state after the mismatch, nothing
  -- is fixed but the core's flag. Requests in between are assumed to hash alike, and to draw other
  -- identifiers than those that wait.
  pub mismatch_stops_all :
      (sha256 : String → String) (one : ℕ) (s t : System ks) (app : App ks)
      → (handle_transfer ks rt post parse headers req app).0 ≡ integrity_mismatch
      → s.service.app.core.fail_safe
        ≡ (handle_transfer ks rt post parse headers req app).1.core.fail_safe
      → Lives ks sha256 one s t
      → (fw : Framework) (n random : ℕ) (q : HttpRequest) (world : ℕ → Bool × Bool)
      → serve ks rt' post' parse' fw n q random world t.service
        ≡ (refused_by_gate 503 "SYSTEM_FROZEN", t.service)
  mismatch_stops_all sha256 one s t app e same lives fw n random q world =
      frozen_answers ks rt' post' parse' fw n random q world t.service (
        Lives-IsFrozen ks sha256 one lives
          (same ∙ mismatch_freezes ks rt post parse headers req app e))
