-- ===== src/Service.antt =====
-- core/gateway.py with core/idempotency.py: a request on its way through the security gate, the
-- idempotency middleware and the route to the transfer endpoint, in the order in which they are added
-- to the application. No other request with its key moves meanwhile; Idempotency.Workers interleaves
-- them. What FastAPI does by itself is a parameter.
pub mod Rules
pub mod Retries
pub mod Replays
pub mod KillSwitch
pub mod Breach
mod Tests
use Prim.Native.String.{◌++◌}
use sentinel_ai_v3_0_the_fin.Prelude.{
  ℕ, zero, suc, ◌+◌, ℤ, pos, String, Bool, true, false, ◌&&◌, Option, none, some, List, [], ◌∷◌,
  ltb_ℤ, ◌==◌, if◌then◌else◌,
}
use sentinel_ai_v3_0_the_fin.Database.Connection.{Runtime}
use sentinel_ai_v3_0_the_fin.OpaClient.{OpaInput, Reply}
use sentinel_ai_v3_0_the_fin.Core.{KeyStore, is_frozen}
use sentinel_ai_v3_0_the_fin.Gateway.{
  RecoveryState, GateAnswer, refused, passed, security_gate, TransferRequest, Headers, or_default,
  Response, intervention, integrity_mismatch, success, crashed, App, handle_transfer,
}
use sentinel_ai_v3_0_the_fin.Idempotency.{
  HttpResponse, Admission, passed_on, key_required, guarded, admit, Redis, Phase, polling, handling,
  step,
}

pub record HttpRequest : Type 0 where
  pub method : String
  pub path : String
  pub client_host : Option String
  pub correlation_id : Option String
  pub idempotency_key : Option String
  pub body : String

-- What Python, FastAPI and pydantic do: `read_body` is `none` for a body that is not the JSON of a
-- TransferRequest.
pub record Framework : Type 0 where
  pub sha256 : String → String
  pub decode : String → String  -- decode('utf-8', errors='ignore')
  pub lower : String → String  -- str.lower
  pub read_body : String → Option TransferRequest
  pub json_of : Response → String
  pub not_routed : HttpRequest → HttpResponse  -- 404 or 405
  pub invalid_body : HttpRequest → HttpResponse  -- 422

-- What the gateway's process and Redis hold: of Redis, the two entries of each scoped key.
pub record Service (ks : KeyStore) : Type 0 where
  pub app : App ks
  pub recovery : RecoveryState
  pub redis : String → Redis

-- How a request is answered: by the gate, by the middleware's 400, by the route (`none` is an
-- exception), or by the middleware, where it stands at the end.
pub data Served : Type 0 where
  refused_by_gate : ℕ → String → Served
  without_key : Served
  routed : Option HttpResponse → Served
  under_key : Phase → Served

abbrev pub with_status : ℕ → String → HttpResponse
with_status status_code body = record { status_code = status_code; body = body; headers = [] }

-- The answers of `handle_transfer` as HTTP; an exception stays one.
abbrev pub http_of : Framework → Response → Option HttpResponse
http_of fw (intervention reason) = some (with_status 403 (fw.json_of (intervention reason)))
http_of fw integrity_mismatch = some (with_status 400 (fw.json_of integrity_mismatch))
http_of fw (success trace_id payment) =
    some (with_status 200 (fw.json_of (success trace_id payment)))
http_of fw crashed = none

abbrev pub headers_of : HttpRequest → Headers
headers_of q = record { correlation_id = q.correlation_id; idempotency_key = q.idempotency_key }

-- `{path}:{client_identity}:{idempotency_key}`, which both Redis keys end in.
abbrev pub scoped_key : HttpRequest → String → String
scoped_key q key = q.path ++ (":" ++ (or_default "unknown" q.client_host ++ (":" ++ key)))

abbrev pub put_redis : String → Redis → (String → Redis) → String → Redis
put_redis k entries redis j = if j == k then entries else redis j

module _ (ks : KeyStore) (rt : Runtime) (post : OpaInput → Reply) (parse : String → Option ℤ)
    (fw : Framework) where
  -- The body is a TransferRequest, whose amount has to be positive.
  abbrev pub with_body :
      HttpRequest → Option TransferRequest → App ks → Option HttpResponse × App ks
  with_body q none app = (some (fw.invalid_body q), app)
  with_body q (some req) app =
      let (response, app') = handle_transfer ks rt post parse (headers_of q) req app in
      if ltb_ℤ (pos 0) req.amount
      then (http_of fw response, app')
      else (some (fw.invalid_body q), app)

  -- `call_next` of the innermost middleware.
  unfoldable pub call_next : HttpRequest → App ks → Option HttpResponse × App ks
  call_next q app =
      if q.path == "/v1/banking/transfer" && q.method == "POST"
      then with_body q (fw.read_body q.body) app
      else (some (fw.not_routed q), app)

  -- A request in the middleware: the entries of its key, where it stands, and the application.
  abbrev pub Passage : Type 0
  Passage = Redis × Phase × App ks

  abbrev pub call_if_handling : Phase → HttpRequest → App ks → Option HttpResponse × App ks
  call_if_handling handling q app = call_next q app
  call_if_handling _ q app = (none, app)

  -- One step of `dispatch`: whether its Redis command fails and its waiting time is over.
  unfoldable pub dispatch_step : HttpRequest → Bool × Bool → Passage → Passage
  unfolding call_next
  dispatch_step q (redis_fails, overdue) (redis, phase, app) =
      let (response, app') = call_if_handling phase q app in
      let (redis', phase') =
        step fw.decode fw.lower (fw.sha256 q.body)
          (record { redis_fails = redis_fails; overdue = overdue; response = response }) redis
          phase in
      (redis', phase', app')

  -- So many steps, the n-th meeting `world n`.
  unfoldable pub dispatch : ℕ → HttpRequest → (ℕ → Bool × Bool) → Passage → Passage
  unfolding dispatch_step
  dispatch zero q world p = p
  dispatch (suc n) q world p = dispatch n q (λ k. world (suc k)) (dispatch_step q (world 0) p)

  -- From the middleware's answer to the method and the key on.
  unfoldable pub admitted :
      ℕ → HttpRequest → (ℕ → Bool × Bool) → Admission → Service ks → Served × Service ks
  unfolding dispatch call_next
  admitted n q world passed_on s =
      let (response, app') = call_next q s.app in (routed response, record s { app = app' })
  admitted n q world key_required s = (without_key, s)
  admitted n q world (guarded key) s =
      let k = scoped_key q key in
      let (redis', phase', app') = dispatch n q world (s.redis k, polling, s.app) in
      (under_key phase', record s { app = app'; redis = put_redis k redis' s.redis })

  abbrev pub gate_of : HttpRequest → ℕ → Service ks → GateAnswer
  gate_of q random s = security_gate (is_frozen ks s.app.core) s.recovery q.method random

  abbrev pub if_passed : GateAnswer → Served × Service ks → Service ks → Served × Service ks
  if_passed (refused status_code detail) next s = (refused_by_gate status_code detail, s)
  if_passed passed next s = next

  -- The whole stack, with `strict_mode=False`.
  unfoldable pub serve : ℕ → HttpRequest → ℕ → (ℕ → Bool × Bool) → Service ks → Served × Service ks
  unfolding admitted
  serve n q random world s =
      if_passed (gate_of q random s) (admitted n q world (admit false q.method q.idempotency_key) s)
        s
