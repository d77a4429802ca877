-- ===== src/Service/Rules.antt =====
-- The rule for what a request does to the application: what the endpoint respects, the stack respects.
use sentinel_ai_v3_0_the_fin.Prelude.{
  ℕ, zero, suc, ℤ, String, inl, inr, Bool, false, Option, none, some, ◌==◌, ltb_ℤ, pos, Bool-cases,
  ◌&&◌,
}
use sentinel_ai_v3_0_the_fin.Database.Connection.{Runtime}
use sentinel_ai_v3_0_the_fin.OpaClient.{OpaInput, Reply}
use sentinel_ai_v3_0_the_fin.Core.{KeyStore}
use sentinel_ai_v3_0_the_fin.Gateway.{
  GateAnswer, refused, passed, TransferRequest, App, handle_transfer,
}
use sentinel_ai_v3_0_the_fin.Idempotency.{
  Admission, passed_on, key_required, guarded, admit, Redis, Phase, polling, looking, waiting,
  entered, starting, handling, saving, leaving, finished, gone,
}
use sentinel_ai_v3_0_the_fin.Service.{
  HttpRequest, Framework, Service, Served, headers_of, scoped_key, with_body, call_next,
  call_if_handling, dispatch_step, dispatch, admitted, gate_of, if_passed, serve,
}

module _ (ks : KeyStore) (rt : Runtime) (post : OpaInput → Reply) (parse : String → Option ℤ)
    (fw : Framework) (q : HttpRequest) (R : App ks → App ks → Type 0)
    (keep : (app : App ks) → R app app) (both : (a b c : App ks) → R a b → R b c → R a c)
    (endpoint : (req : TransferRequest) (app : App ks)
      → R app (handle_transfer ks rt post parse (headers_of q) req app).1) where
  body_rule :
      (found : Option TransferRequest) (app : App ks)
      → R app (with_body ks rt post parse fw q found app).1
  body_rule none app = keep app
  body_rule (some req) app = elim (Bool-cases (ltb_ℤ (pos 0) req.amount)) [
    | inl y ↦ rw y (endpoint req app)
    | inr n ↦ rw n (keep app)
  ]

  route_rule : (app : App ks) → R app (call_next ks rt post parse fw q app).1
  unfolding call_next
  route_rule app = elim (Bool-cases (q.path == "/v1/banking/transfer" && q.method == "POST")) [
    | inl y ↦ rw y (body_rule (fw.read_body q.body) app)
    | inr n ↦ rw n (keep app)
  ]

  phase_rule :
      (phase : Phase) (app : App ks) → R app (call_if_handling ks rt post parse fw phase q app).1
  phase_rule handling app = route_rule app
  phase_rule polling app = keep app
  phase_rule looking app = keep app
  phase_rule waiting app = keep app
  phase_rule entered app = keep app
  phase_rule starting app = keep app
  phase_rule (saving r) app = keep app
  phase_rule (leaving a) app = keep app
  phase_rule (finished a) app = keep app
  phase_rule gone app = keep app

  dispatch_rule :
      (n : ℕ) (world : ℕ → Bool × Bool) (redis : Redis) (phase : Phase) (app : App ks)
      → R app (dispatch ks rt post parse fw n q world (redis, phase, app)).2
  unfolding dispatch dispatch_step
  dispatch_rule zero world redis phase app = keep app
  dispatch_rule (suc n) world redis phase app =
      let (redis', phase', app') =
        dispatch_step ks rt post parse fw q (world 0) (redis, phase, app) in
      both app app' _ (phase_rule phase app)
        (dispatch_rule n (λ k. world (suc k)) redis' phase' app')

  admitted_rule :
      (n : ℕ) (world : ℕ → Bool × Bool) (a : Admission) (s : Service ks)
      → R s.app (admitted ks rt post parse fw n q world a s).1.app
  unfolding admitted
  admitted_rule n world passed_on s = route_rule s.app
  admitted_rule n world key_required s = keep s.app
  admitted_rule n world (guarded k) s =
      dispatch_rule n world (s.redis (scoped_key q k)) polling s.app

  gate_rule :
      (a : GateAnswer) (next : Served × Service ks) (s : Service ks)
      → R s.app next.1.app
      → R s.app (if_passed ks rt post parse fw a next s).1.app
  gate_rule (refused status_code detail) next s e = keep s.app
  gate_rule passed next s e = e

  -- What holds of every call of the endpoint, from the application before to the application
  -- after it, and is reflexive and transitive, holds of every request.
  pub serve_rule :
      (n random : ℕ) (world : ℕ → Bool × Bool) (s : Service ks)
      → R s.app (serve ks rt post parse fw n q random world s).1.app
  unfolding serve
  serve_rule n random world s =
      gate_rule (gate_of ks rt post parse fw q random s)
        (admitted ks rt post parse fw n q world (admit false q.method q.idempotency_key) s) s
        (admitted_rule n world (admit false q.method q.idempotency_key) s)
