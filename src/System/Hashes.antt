-- ===== src/System/Hashes.antt =====
-- core/sentinel-core/src/lib.rs in the running system: the hash of a transaction that was paid.
use sentinel_ai_v3_0_the_fin.Prelude.{
  ℕ, ℤ, String, ◌≡◌, ◌≢◌, ◌⊎◌, inl, inr, refl, ap, ◌∙◌, true, false, Option, none, some, Bool-cases,
}
use sentinel_ai_v3_0_the_fin.Database.Connection.{Runtime, Conn, connect, Result, ok, err}
use sentinel_ai_v3_0_the_fin.Transaction.{Payment}
use sentinel_ai_v3_0_the_fin.OpaClient.{OpaInput, Reply, OpaClient}
use sentinel_ai_v3_0_the_fin.Enforcer.{Validation, SafeContext, Amount, validate_transfer_intent}
use sentinel_ai_v3_0_the_fin.Core.{
  KeyStore, stored, Checked, checked, runtime_error, SentinelCore, audit_and_verify,
}
use sentinel_ai_v3_0_the_fin.Core.Registry.{audit-keeps, audit-registers, audit_accepts_stored}
use sentinel_ai_v3_0_the_fin.Gateway.{
  TransferRequest, Headers, Response, success, intervention, integrity_mismatch, crashed, App, pay,
  after_audit, with_context, after_enforcer, handle_transfer,
}
use sentinel_ai_v3_0_the_fin.Gateway.Transfers.{handle_transfer-Keeps}
use sentinel_ai_v3_0_the_fin.Gateway.Receipts.{handle_transfer-Receipt, Receipt}
use sentinel_ai_v3_0_the_fin.Service.{headers_of}
use sentinel_ai_v3_0_the_fin.Service.Rules.{serve_rule}
use sentinel_ai_v3_0_the_fin.System.Startup.{lifespan}
use sentinel_ai_v3_0_the_fin.System.Runs.{
  System, Step, request, background, synchronise, operate, ask, audit, trip, recover, expire,
  restart, Steps, here, next,
}

module _ (ks : KeyStore) (rt : Runtime) (post : OpaInput → Reply) (parse : String → Option ℤ)
    (headers : Headers) (req : TransferRequest) (app : App ks) where
  -- The core has been asked about the request's hash, or it is as before and nothing was paid.
  abbrev pub Asks : Response × App ks → Type 0
  Asks (r, app') =
      (app'.core ≡ (audit_and_verify ks app.core req.tx_id req.tx_hash).0)
      ⊎ ((app'.core ≡ app.core) × ((trace_id : String) (p : Payment) → r ≢ success trace_id p))

  after_audit-Asks :
      (x : SafeContext) (app' : App ks) (c : Conn) (r : SentinelCore ks × Checked)
      → r.0 ≡ (audit_and_verify ks app.core req.tx_id req.tx_hash).0
      → Asks (after_audit ks rt post parse headers req x app' c r)
  unfolding after_audit pay
  after_audit-Asks x app' c (core, checked true) e = inl e
  after_audit-Asks x app' c (core, checked false) e = inl e
  after_audit-Asks x app' c (core, runtime_error) e = inl e

  with_context-Asks :
      (found : Option SafeContext) (app' : App ks) (c : Conn)
      → app'.core ≡ app.core
      → Asks (with_context ks rt post parse headers req found app' c)
  unfolding with_context
  with_context-Asks none app' c e = inr (e, λ trace_id p q. cc q)
  with_context-Asks (some x) app' c e =
      after_audit-Asks x app' c (audit_and_verify ks app'.core req.tx_id req.tx_hash)
        (ap (λ q. (audit_and_verify ks q req.tx_id req.tx_hash).0) e)

  after_enforcer-Asks :
      (r : Result (Validation × OpaClient) × Conn)
      → Asks (after_enforcer ks rt post parse headers req app r)
  unfolding after_enforcer
  after_enforcer-Asks (err x, c) = inr (refl, λ trace_id p q. cc q)
  after_enforcer-Asks (ok (v, opa), c) = elim (Bool-cases v.is_safe) [
    | inl y ↦
        rw y
          (with_context-Asks v.safe_context (record app { file = c.committed; opa = opa }) c refl)
    | inr n ↦ rw n (inr (refl, λ trace_id p q. cc q))
  ]

  pub handle_transfer-Asks : Asks (handle_transfer ks rt post parse headers req app)
  unfolding handle_transfer
  handle_transfer-Asks = after_enforcer-Asks (
      validate_transfer_intent rt post parse app.opa req.role
        (record { amount = Amount.number req.amount; target_beneficiary_id = some req.target })
        (connect app.file))

  endpoint_keeps_hash :
      (tx h : String)
      → ks.get app.core.db tx ≡ stored h
      → ks.get (handle_transfer ks rt post parse headers req app).1.core.db tx ≡ stored h
  endpoint_keeps_hash tx h e = elim handle_transfer-Asks [
    | inr (same, _) ↦ ap (λ (c : SentinelCore ks). ks.get c.db tx) same ∙ e
    | inl asked ↦
        ap (λ (c : SentinelCore ks). ks.get c.db tx) asked
        ∙ audit-keeps ks app.core tx h req.tx_id req.tx_hash e
  ]

  paid_audited :
      (trace_id : String) (p : Payment) (r : Response × App ks)
      → Receipt ks rt post parse headers req app r
      → r.0 ≡ success trace_id p
      → (audit_and_verify ks app.core req.tx_id req.tx_hash).1 ≡ checked true
  paid_audited trace_id p (success t p', app') b e = b.audited
  paid_audited trace_id p (intervention x, app') b e = cc e
  paid_audited trace_id p (integrity_mismatch, app') b e = cc e
  paid_audited trace_id p (crashed, app') b e = cc e

  -- A success registers the hash.
  paid_registers :
      (trace_id : String) (p : Payment)
      → (handle_transfer ks rt post parse headers req app).0 ≡ success trace_id p
      → ks.get (handle_transfer ks rt post parse headers req app).1.core.db req.tx_id
        ≡ stored req.tx_hash
  paid_registers trace_id p e = elim handle_transfer-Asks [
    | inr (_, unpaid) ↦ absurd (unpaid trace_id p e)
    | inl asked ↦
        ap (λ (c : SentinelCore ks). ks.get c.db req.tx_id) asked
        ∙ audit-registers ks app.core req.tx_id req.tx_hash
            (paid_audited trace_id p _ (handle_transfer-Receipt ks rt post parse headers req app) e)
  ]

  -- Another hash than the stored one is neither paid nor answered with a success.
  abbrev IsRefused : Response × App ks → Type 0
  IsRefused (r, app') =
      (app'.file ≡ app.file) × ((trace_id : String) (p : Payment) → r ≢ success trace_id p)

  other_hash-IsRefused :
      (h : String)
      → ks.get app.core.db req.tx_id ≡ stored h
      → req.tx_hash ≢ h
      → IsRefused (handle_transfer ks rt post parse headers req app)
  other_hash-IsRefused h e n = (
    elim (handle_transfer-Keeps ks rt post parse headers req app) [
      | inl same ↦ same
      | inr j ↦ absurd (n (audit_accepts_stored ks app.core req.tx_id h req.tx_hash e j.audited))
    ],
    λ trace_id p paid. n (
        audit_accepts_stored ks app.core req.tx_id h req.tx_hash e (
          paid_audited trace_id p _ (handle_transfer-Receipt ks rt post parse headers req app)
            paid)),
  )

module _ (ks : KeyStore) (sha256 : String → String) (one : ℕ) (tx h : String) where
  -- The store has the hash.
  abbrev Knows : System ks → Type 0
  Knows s = ks.get s.service.app.core.db tx ≡ stored h

  Step-Knows : {s t : System ks} → Step ks sha256 one s t → Knows s → Knows t
  unfolding lifespan
  Step-Knows {s} (request rt post parse fw n random q world same others) e =
      serve_rule ks rt post parse fw q
        (λ a b. ks.get a.core.db tx ≡ stored h → ks.get b.core.db tx ≡ stored h) (λ app x. x)
        (λ a b c f g x. g (f x))
        (λ req app x. endpoint_keeps_hash ks rt post parse (headers_of q) req app tx h x) n random
        world s.service e
  Step-Knows (background f m) e = e
  Step-Knows (synchronise parse) e = e
  Step-Knows (operate upper str_float argv plane x) e = e
  Step-Knows (ask post input) e = e
  Step-Knows {s} (audit tx_id tx_hash) e = audit-keeps ks s.service.app.core tx h tx_id tx_hash e
  Step-Knows (trip p) e = e
  Step-Knows (recover p) e = e
  Step-Knows (expire redis) e = e
  Step-Knows (restart redis) e = e

  Steps-Knows : {s u : System ks} → Steps ks sha256 one s u → Knows s → Knows u
  Steps-Knows here e = e
  Steps-Knows (next ss st) e = Step-Knows st (Steps-Knows ss e)

module _ (ks : KeyStore) (rt rt' : Runtime) (post post' : OpaInput → Reply)
    (parse parse' : String → Option ℤ) (headers headers' : Headers)
    (req req' : TransferRequest) where
  -- What was paid stays sealed: once the endpoint has answered a transfer with a success, then after
  -- whatever happens to the system, restarts and other requests included, a transfer with the same
  -- tx_id and another tx_hash leaves the ledger's file untouched and is not answered with a success.
  pub paid_hash_is_permanent :
      (sha256 : String → String) (one : ℕ) (trace_id : String) (p : Payment) (s t : System ks)
      (app : App ks)
      → (handle_transfer ks rt post parse headers req app).0 ≡ success trace_id p
      → s.service.app ≡ (handle_transfer ks rt post parse headers req app).1
      → Steps ks sha256 one s t
      → req'.tx_id ≡ req.tx_id
      → req'.tx_hash ≢ req.tx_hash
      → let (r, app') = handle_transfer ks rt' post' parse' headers' req' t.service.app in
        (app'.file ≡ t.service.app.file)
        × ((trace_id' : String) (p' : Payment) → r ≢ success trace_id' p')
  paid_hash_is_permanent sha256 one trace_id p s t app paid here' steps same_tx other =
      let known = Steps-Knows ks sha256 one req.tx_id req.tx_hash steps (
        ap (λ (a : App ks). ks.get a.core.db req.tx_id) here'
        ∙ paid_registers ks rt post parse headers req app trace_id p paid) in
      other_hash-IsRefused ks rt' post' parse' headers' req' t.service.app req.tx_hash
        (ap (ks.get t.service.app.core.db) same_tx ∙ known) other
