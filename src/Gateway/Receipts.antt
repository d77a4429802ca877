-- ===== src/Gateway/Receipts.antt =====
-- What a success answer of the transfer endpoint is worth.
use sentinel_ai_v3_0_the_fin.Prelude.{
  ℤ, String, ◌≡◌, ◌⊎◌, inl, inr, refl, sym, subst, ap, ◌∙◌, true, false, Option, some, Bool-cases,
}
use sentinel_ai_v3_0_the_fin.Database.{Db, select_by_key}
use sentinel_ai_v3_0_the_fin.Database.Connection.{Runtime, Conn, idle, connect, Result, ok, err}
use sentinel_ai_v3_0_the_fin.Transaction.{Payment, bank_approved, authorize_transfer, new_status}
use sentinel_ai_v3_0_the_fin.Transaction.Spec.{answered}
use sentinel_ai_v3_0_the_fin.Transaction.Outcome.{
  between, Outcome, authorize_transfer-Outcome, payment_of,
}
use sentinel_ai_v3_0_the_fin.OpaClient.{OpaInput, Reply, OpaClient}
use sentinel_ai_v3_0_the_fin.Enforcer.{SafeContext, Validation, validate_transfer_intent}
use sentinel_ai_v3_0_the_fin.Enforcer.Guarantees.{
  IsApproved, Guarantees, validate_transfer_intent-Guarantees,
}
use sentinel_ai_v3_0_the_fin.Core.{
  KeyStore, Checked, checked, runtime_error, SentinelCore, audit_and_verify,
}
use sentinel_ai_v3_0_the_fin.Gateway.{
  TransferRequest, Headers, or_default, Response, App, pay, after_audit, with_context,
  after_enforcer, handle_transfer, success, intervention, integrity_mismatch, crashed,
}
use sentinel_ai_v3_0_the_fin.Gateway.Transfers.{transfer_of, payload_of, idle-eq}

module _ (ks : KeyStore) (rt : Runtime) (post : OpaInput → Reply) (parse : String → Option ℤ)
    (headers : Headers) (req : TransferRequest) (app : App ks) where
  -- The context of an approved and audited request, and the payment that it is answered with: the
  -- one that has the key already, in an untouched file, or the new one, authorized and committed.
  pub record IsBacked (payment : Payment) (file : Db) : Type 0 where
    pub context : SafeContext
    pub approved : IsApproved post parse app.opa req.role (payload_of req) app.file context
    pub audited : (audit_and_verify ks app.core req.tx_id req.tx_hash).1 ≡ checked true
    pub paid :
        ((payment_of (select_by_key (transfer_of headers req context).idempotency_key app.file)
            ≡ some payment)
          × (file ≡ app.file))
        ⊎ ((payment ≡ record { id = rt.uuid4 0; status = new_status bank_approved })
            × (file
                ≡ answered rt
                    (rt.uuid4 0)
                    (rt.uuid4 2)
                    bank_approved
                    (between rt (transfer_of headers req context) app.file)))

  abbrev pub Receipt : Response × App ks → Type 0
  Receipt (success trace_id payment, app') = IsBacked payment app'.file
  Receipt (intervention reason, app') = app'.file ≡ app.file
  Receipt (integrity_mismatch, app') = app'.file ≡ app.file
  Receipt (crashed, app') = Unit

  pay-Receipt :
      (x : SafeContext) (c : Conn) (app' : App ks)
      → (audit_and_verify ks app.core req.tx_id req.tx_hash).1 ≡ checked true
      → IsApproved post parse app.opa req.role (payload_of req) app.file x
      → (r : Result Payment × Conn) → r ≡ authorize_transfer rt (transfer_of headers req x) c
      → Outcome rt (transfer_of headers req x) app.file r
      → Receipt
          (pay ks rt post parse (or_default req.tx_id headers.idempotency_key) headers req x app' c)
  unfolding pay
  pay-Receipt x c app' au a (ok p, c') e (inl o) =
      rw (sym e) (record { context = x; approved = a; audited = au; paid = inl o })
  pay-Receipt x c app' au a (ok p, c') e (inr (_, p', w)) =
      rw (sym e) (record { context = x; approved = a; audited = au; paid = inr (p', w) })
  pay-Receipt x c app' au a (err y, c') e o = rw (sym e) tt

  audited-Receipt :
      (x : SafeContext) (c : Conn) (app' : App ks) (answer : SentinelCore ks × Checked)
      → app'.file ≡ app.file
      → (answer.1 ≡ checked true
          → (audit_and_verify ks app.core req.tx_id req.tx_hash).1 ≡ checked true)
      → Outcome rt
          (transfer_of headers req x)
          app.file
          (authorize_transfer rt (transfer_of headers req x) c)
      → IsApproved post parse app.opa req.role (payload_of req) app.file x
      → Receipt (after_audit ks rt post parse headers req x app' c answer)
  unfolding after_audit
  audited-Receipt x c app' (core, checked true) f au o a =
      pay-Receipt x c (record app' { core = core }) (au refl) a
        (authorize_transfer rt (transfer_of headers req x) c) refl o
  audited-Receipt x c app' (core, checked false) f au o a = f
  audited-Receipt x c app' (core, runtime_error) f au o a = tt

  context-Receipt :
      (x : SafeContext) (c : Conn) (app' : App ks)
      → app'.file ≡ app.file
      → app'.core ≡ app.core
      → c ≡ idle c.sent app.file
      → IsApproved post parse app.opa req.role (payload_of req) app.file x
      → Receipt (with_context ks rt post parse headers req (some x) app' c)
  unfolding with_context
  context-Receipt x c app' f k i a =
      let t = transfer_of headers req x in
      audited-Receipt x c app' (audit_and_verify ks app'.core req.tx_id req.tx_hash) f
        (λ e. ap (λ q. (audit_and_verify ks q req.tx_id req.tx_hash).1) (sym k) ∙ e)
        (subst (λ q. Outcome rt t app.file (authorize_transfer rt t q)) (sym i)
          (authorize_transfer-Outcome rt t app.file c.sent))
        a

  answer-Receipt :
      (r : Result (Validation × OpaClient) × Conn)
      → Guarantees rt post parse app.opa req.role (payload_of req) (connect app.file) r
      → Receipt (after_enforcer ks rt post parse headers req app r)
  unfolding after_enforcer
  answer-Receipt (err e, c) (w, co, tx, dr) = tt
  answer-Receipt (ok (v, opa), c) (safe, w, co, tx, dr) = elim (Bool-cases v.is_safe) [
    | inr denied ↦ rw denied co
    | inl y ↦
        let found = safe y in
        let app' : App ks = record app { file = c.committed; opa = opa } in
        rw y (
          subst (λ o. Receipt (with_context ks rt post parse headers req o app' c)) (sym found.1)
            (context-Receipt found.0 c app' co refl (idle-eq c app.file co w tx dr) found.2))
  ]

  -- An answer can be relied on: a success names a payment that the ledger holds, the one that has
  -- the idempotency key already or the new one with both its transactions committed, for a request
  -- that the policy server allowed and whose hash the core accepted; a refusal by the enforcer or the
  -- core leaves the ledger's file untouched. Nothing is said of a crash.
  pub handle_transfer-Receipt : Receipt (handle_transfer ks rt post parse headers req app)
  unfolding handle_transfer
  handle_transfer-Receipt =
      answer-Receipt
        (validate_transfer_intent rt post parse app.opa req.role (payload_of req)
          (connect app.file))
        (validate_transfer_intent-Guarantees rt post parse app.opa req.role (payload_of req)
          (connect app.file))
