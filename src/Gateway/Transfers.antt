-- ===== src/Gateway/Transfers.antt =====
-- What the transfer endpoint may write to the ledger, and when.
use sentinel_ai_v3_0_the_fin.Prelude.{
  ℤ, String, ◌≡◌, ◌⊎◌, inl, inr, refl, sym, subst, ap, ◌∙◌, true, false, Option, some, arith,
  Bool-cases,
}
use sentinel_ai_v3_0_the_fin.Database.{Db}
use sentinel_ai_v3_0_the_fin.Database.Connection.{Runtime, Conn, idle, connect, Result, ok, err}
use sentinel_ai_v3_0_the_fin.Transaction.{Payment, Transfer, bank_approved, authorize_transfer}
use sentinel_ai_v3_0_the_fin.Transaction.Spec.{answered}
use sentinel_ai_v3_0_the_fin.Transaction.Outcome.{
  is_taken, between, Outcome, authorize_transfer-Outcome,
}
use sentinel_ai_v3_0_the_fin.OpaClient.{OpaInput, Reply, OpaClient}
use sentinel_ai_v3_0_the_fin.Enforcer.{
  Amount, AiPayload, SafeContext, Validation, validate_transfer_intent,
}
use sentinel_ai_v3_0_the_fin.Enforcer.Guarantees.{
  IsApproved, Guarantees, validate_transfer_intent-Guarantees,
}
use sentinel_ai_v3_0_the_fin.Core.{
  KeyStore, Checked, checked, runtime_error, SentinelCore, audit_and_verify, is_frozen,
}
use sentinel_ai_v3_0_the_fin.Gateway.{
  TransferRequest, Headers, or_default, Response, App, pay, after_audit, with_context,
  after_enforcer, handle_transfer,
}

-- The transfer that is passed on for a request, once its context is known.
abbrev pub transfer_of : Headers → TransferRequest → SafeContext → Transfer
transfer_of headers req x = record {
  idempotency_key = or_default req.tx_id headers.idempotency_key;
  user_id = x.user_id;
  amount = x.amount;
  target = x.target_iban;
}

abbrev pub payload_of : TransferRequest → AiPayload
payload_of req = record {
  amount = Amount.number req.amount;
  target_beneficiary_id = some req.target;
}

pub idle-eq :
    (c : Conn) (db : Db)
    → c.committed ≡ db
    → c.working ≡ db
    → c.in_tx ≡ false
    → c.draws ≡ 0
    → c ≡ idle c.sent db
idle-eq c db p q r s =
    λ i. record { committed = p i; working = q i; in_tx = r i; sent = c.sent; draws = s i }

module _ (ks : KeyStore) (rt : Runtime) (post : OpaInput → Reply) (parse : String → Option ℤ)
    (headers : Headers) (req : TransferRequest) (app : App ks) where
  -- Why the ledger's file may have become `file`: the enforcer's guarantee holds of the context, the
  -- core has accepted the request's hash, the intent was free, and the file is what the first local
  -- transaction, or both, make of the transfer to the trusted IBAN.
  pub record IsJustified (file : Db) : Type 0 where
    pub context : SafeContext
    pub approved : IsApproved post parse app.opa req.role (payload_of req) app.file context
    pub audited : (audit_and_verify ks app.core req.tx_id req.tx_hash).1 ≡ checked true
    pub free : is_taken rt (transfer_of headers req context) app.file ≡ false
    pub written :
        (file ≡ between rt (transfer_of headers req context) app.file)
        ⊎ (file
            ≡ answered rt
                (rt.uuid4 0)
                (rt.uuid4 2)
                bank_approved
                (between rt (transfer_of headers req context) app.file))

  abbrev pub Keeps : Response × App ks → Type 0
  Keeps (_, app') = (app'.file ≡ app.file) ⊎ IsJustified app'.file

  Outcome-IsJustified :
      (x : SafeContext) (r : Result Payment × Conn)
      → IsApproved post parse app.opa req.role (payload_of req) app.file x
      → (audit_and_verify ks app.core req.tx_id req.tx_hash).1 ≡ checked true
      → Outcome rt (transfer_of headers req x) app.file r
      → (r.1.committed ≡ app.file) ⊎ IsJustified r.1.committed
  Outcome-IsJustified x (ok p, c) ap' au (inl (_, same)) = inl same
  Outcome-IsJustified x (ok p, c) ap' au (inr (free, _, w)) =
      inr (record { context = x; approved = ap'; audited = au; free = free; written = inr w })
  Outcome-IsJustified x (err e, c) ap' au (inl same) = inl same
  Outcome-IsJustified x (err e, c) ap' au (inr (free, w)) =
      inr (record { context = x; approved = ap'; audited = au; free = free; written = inl w })

  audited_justifies :
      (x : SafeContext) (c : Conn) (app' : App ks) (answer : SentinelCore ks × Checked)
      → app'.file ≡ app.file
      → (answer.1 ≡ checked true
          → (audit_and_verify ks app.core req.tx_id req.tx_hash).1 ≡ checked true)
      → Outcome rt
          (transfer_of headers req x)
          app.file
          (authorize_transfer rt (transfer_of headers req x) c)
      → IsApproved post parse app.opa req.role (payload_of req) app.file x
      → Keeps (after_audit ks rt post parse headers req x app' c answer)
  unfolding after_audit pay
  audited_justifies x c app' (core, checked true) f au o a =
      Outcome-IsJustified x (authorize_transfer rt (transfer_of headers req x) c) a (au refl) o
  audited_justifies x c app' (core, checked false) f au o a = inl f
  audited_justifies x c app' (core, runtime_error) f au o a = inl f

  context_justifies :
      (x : SafeContext) (c : Conn) (app' : App ks)
      → app'.file ≡ app.file
      → app'.core ≡ app.core
      → c ≡ idle c.sent app.file
      → IsApproved post parse app.opa req.role (payload_of req) app.file x
      → Keeps (with_context ks rt post parse headers req (some x) app' c)
  unfolding with_context
  context_justifies x c app' f k i a =
      let t = transfer_of headers req x in
      audited_justifies x c app' (audit_and_verify ks app'.core req.tx_id req.tx_hash) f
        (λ e. ap (λ q. (audit_and_verify ks q req.tx_id req.tx_hash).1) (sym k) ∙ e)
        (subst (λ q. Outcome rt t app.file (authorize_transfer rt t q)) (sym i)
          (authorize_transfer-Outcome rt t app.file c.sent))
        a

  answer_justifies :
      (r : Result (Validation × OpaClient) × Conn)
      → Guarantees rt post parse app.opa req.role (payload_of req) (connect app.file) r
      → Keeps (after_enforcer ks rt post parse headers req app r)
  unfolding after_enforcer
  answer_justifies (err e, c) (w, co, tx, dr) = inl co
  answer_justifies (ok (v, opa), c) (safe, w, co, tx, dr) = elim (Bool-cases v.is_safe) [
    | inr denied ↦ rw denied (inl co)
    | inl y ↦
        let found = safe y in
        let app' : App ks = record app { file = c.committed; opa = opa } in
        rw y (
          subst (λ o. Keeps (with_context ks rt post parse headers req o app' c)) (sym found.1)
            (context_justifies found.0 c app' co refl (idle-eq c app.file co w tx dr) found.2))
  ]

  -- Defense in depth: whatever the request, the store of hashes, the server's answers, the failing
  -- statements and the other connections, the endpoint leaves the ledger's file untouched, or its
  -- change is justified: the target is a beneficiary of the asking user in the ledger, the policy
  -- server allowed this transfer while the breaker was closed, the core accepted the hash of the
  -- request, neither the new identifier nor the idempotency key was taken, and the file holds the
  -- first or both local transactions of exactly the transfer to the trusted IBAN.
  pub handle_transfer-Keeps : Keeps (handle_transfer ks rt post parse headers req app)
  unfolding handle_transfer
  handle_transfer-Keeps =
      answer_justifies
        (validate_transfer_intent rt post parse app.opa req.role (payload_of req)
          (connect app.file))
        (validate_transfer_intent-Guarantees rt post parse app.opa req.role (payload_of req)
          (connect app.file))

  -- Fail closed: while the breaker is open, every request leaves the ledger's file untouched.
  pub open_breaker_denies :
      app.opa.is_open ≡ true → (handle_transfer ks rt post parse headers req app).1.file ≡ app.file
  open_breaker_denies o = elim handle_transfer-Keeps [
    | inl same ↦ same
    | inr j ↦ cc (o, j.approved.closed)
  ]

  -- A frozen core lets no request write to the ledger's file.
  pub frozen_core_denies :
      app.core.fail_safe ≡ true
      → (handle_transfer ks rt post parse headers req app).1.file ≡ app.file
  unfolding audit_and_verify is_frozen
  frozen_core_denies o = elim handle_transfer-Keeps [
    | inl same ↦ same
    | inr j ↦ ground (arith, o, j.audited)
  ]
