-- ===== src/Service/Breach.antt =====
-- What follows on a transfer whose hash is not the stored one.
use sentinel_ai_v3_0_the_fin.Prelude.{
  none, some, ◌≢◌, arith, Bool-cases, Option-cases, inl, inr, ℕ, ℤ, String, ◌≡◌, refl, ap, Bool,
  true, false, Option,
}
use sentinel_ai_v3_0_the_fin.Database.Connection.{Conn, Result, ok, err, Runtime, connect}
use sentinel_ai_v3_0_the_fin.Transaction.{Payment}
use sentinel_ai_v3_0_the_fin.OpaClient.{OpaClient, OpaInput, Reply}
use sentinel_ai_v3_0_the_fin.Enforcer.{SafeContext, Validation, Amount, validate_transfer_intent}
use sentinel_ai_v3_0_the_fin.Core.{
  SentinelCore, Fetched, failed, absent, stored, Checked, checked, runtime_error, compare_stored,
  audit_and_verify, trigger_local_freeze, KeyStore, is_frozen,
}
use sentinel_ai_v3_0_the_fin.Gateway.{
  TransferRequest, Headers, integrity_mismatch, success, crashed, App, pay, after_audit,
  with_context, after_enforcer, handle_transfer, security_gate,
}
use sentinel_ai_v3_0_the_fin.Idempotency.{admit}
use sentinel_ai_v3_0_the_fin.Service.{
  HttpRequest, Framework, Service, refused_by_gate, if_passed, admitted, serve,
}

module _ (ks : KeyStore) where
  compare_freezes :
      (c : SentinelCore ks) (tx h : String) (r : Fetched)
      → (compare_stored ks c tx h r).1 ≡ checked false
      → (compare_stored ks c tx h r).0.fail_safe ≡ true
  unfolding compare_stored trigger_local_freeze
  compare_freezes c tx h failed e = cc e
  compare_freezes c tx h (stored x) e = ground (arith, e)
  compare_freezes c tx h absent e = elim (Option-cases (ks.put c.db tx h)) [
    | inl refused' ↦ absurd (ground (arith, refused', e))
    | inr (db, done) ↦ absurd (ground (arith, done, e))
  ]

  -- A hash that is not accepted leaves the instance frozen.
  audit_freezes :
      (c : SentinelCore ks) (tx h : String)
      → (audit_and_verify ks c tx h).1 ≡ checked false
      → (audit_and_verify ks c tx h).0.fail_safe ≡ true
  unfolding audit_and_verify is_frozen
  audit_freezes c tx h e = elim (Bool-cases c.fail_safe) [
    | inl frozen' ↦ rw frozen' refl
    | inr live ↦ simp live (compare_freezes c tx h (ks.get c.db tx) (simp live at e))
  ]

  module _ (rt : Runtime) (post : OpaInput → Reply) (parse : String → Option ℤ) (headers : Headers)
      (req : TransferRequest) where
    no_mismatch_from_payment :
        (trace_id : String) (r : Result Payment)
        → elim r [ ok payment ↦ success trace_id payment | err e ↦ crashed ] ≢ integrity_mismatch
    no_mismatch_from_payment trace_id (ok payment) e = cc e
    no_mismatch_from_payment trace_id (err x) e = cc e

    after_audit_freezes :
        (x : SafeContext) (app : App ks) (c : Conn) (r : SentinelCore ks × Checked)
        → (r.1 ≡ checked false → r.0.fail_safe ≡ true)
        → (after_audit ks rt post parse headers req x app c r).0 ≡ integrity_mismatch
        → (after_audit ks rt post parse headers req x app c r).1.core.fail_safe ≡ true
    unfolding after_audit pay
    after_audit_freezes x app c (core, runtime_error) f e = cc e
    after_audit_freezes x app c (core, checked false) f e = f refl
    after_audit_freezes x app c (core, checked true) f e = absurd (no_mismatch_from_payment _ _ e)

    with_context_freezes :
        (found : Option SafeContext) (app : App ks) (c : Conn)
        → (with_context ks rt post parse headers req found app c).0 ≡ integrity_mismatch
        → (with_context ks rt post parse headers req found app c).1.core.fail_safe ≡ true
    unfolding with_context
    with_context_freezes none app c e = cc e
    with_context_freezes (some x) app c e =
        after_audit_freezes x app c (audit_and_verify ks app.core req.tx_id req.tx_hash)
          (audit_freezes app.core req.tx_id req.tx_hash) e

    after_enforcer_freezes :
        (app : App ks) (r : Result (Validation × OpaClient) × Conn)
        → (after_enforcer ks rt post parse headers req app r).0 ≡ integrity_mismatch
        → (after_enforcer ks rt post parse headers req app r).1.core.fail_safe ≡ true
    unfolding after_enforcer
    after_enforcer_freezes app (err x, c) e = cc e
    after_enforcer_freezes app (ok (v, opa), c) e = elim (Bool-cases v.is_safe) [
      | inr denied ↦ absurd (ground (arith, denied, e))
      | inl safe ↦ rw safe (
          with_context_freezes v.safe_context (record app { file = c.committed; opa = opa }) c
            (simp safe at e))
    ]

module _ (ks : KeyStore) (rt : Runtime) (post : OpaInput → Reply) (parse : String → Option ℤ) where
  -- A transfer that is answered with INTEGRITY_MISMATCH leaves the instance frozen.
  pub mismatch_freezes :
      (headers : Headers) (req : TransferRequest) (app : App ks)
      → (handle_transfer ks rt post parse headers req app).0 ≡ integrity_mismatch
      → (handle_transfer ks rt post parse headers req app).1.core.fail_safe ≡ true
  unfolding handle_transfer
  mismatch_freezes headers req app = after_enforcer_freezes ks rt post parse headers req app (
      validate_transfer_intent rt post parse app.opa req.role
        (record { amount = Amount.number req.amount; target_beneficiary_id = some req.target })
        (connect app.file))

  -- A frozen instance answers every request at the gate, whatever mode the operator sets.
  pub frozen_answers :
      (fw : Framework) (n random : ℕ) (q : HttpRequest) (world : ℕ → Bool × Bool) (s : Service ks)
      → s.app.core.fail_safe ≡ true
      → serve ks rt post parse fw n q random world s ≡ (refused_by_gate 503 "SYSTEM_FROZEN", s)
  unfolding serve is_frozen security_gate
  frozen_answers fw n random q world s frozen' =
      ap
        (λ (b : Bool).
          if_passed ks rt post parse fw (security_gate b s.recovery q.method random)
            (admitted ks rt post parse fw n q world (admit false q.method q.idempotency_key) s) s)
        frozen'
