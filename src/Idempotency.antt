-- ===== src/Idempotency.antt =====
-- core/idempotency.py: `FinTechIdempotencyMiddleware`. The requests that carry one scoped key share
-- two Redis entries, the lock and the state; each awaited command is a step of its own.
pub mod Workers
pub mod Invariant
pub mod Moves
pub mod Replays
pub mod Once
pub mod Delivery
mod Tests
use sentinel_ai_v3_0_the_fin.Prelude.{
  ℕ, String, Bool, true, false, not, ◌&&◌, ◌||◌, Option, none, some, List, [], ◌∷◌, keep, ltb, ◌==◌,
  if◌then◌else◌, is_some,
}

pub record HttpResponse : Type 0 where
  pub status_code : ℕ
  pub body : String
  pub headers : List (String × String)

-- What the middleware does with a request before it touches Redis.
pub data Admission : Type 0 where
  passed_on : Admission
  key_required : Admission  -- 400
  guarded : String → Admission

abbrev with_key : Bool → Option String → Admission
with_key strict_mode none = if strict_mode then key_required else passed_on
with_key strict_mode (some key) =
    if key == "" then (if strict_mode then key_required else passed_on) else guarded key

unfoldable pub admit : Bool → String → Option String → Admission
admit strict_mode method key =
    if not (method == "POST" || method == "PUT" || method == "PATCH")
    then passed_on
    else with_key strict_mode key

-- The field "status" of the state, with the response of a completed one.
pub data Status : Type 0 where
  started : Status
  completed : HttpResponse → Status

pub record Entry : Type 0 where
  pub payload_hash : String
  pub status : Status

-- The lock's and the state's entry of one key.
pub record Redis : Type 0 where
  pub lock : Bool
  pub entry : Option Entry

-- How a request ends: 408, 409, the stored response, the handler's, or an exception.
pub data Answer : Type 0 where
  timeout mismatch raised : Answer
  replayed : HttpResponse → Answer
  handled : HttpResponse → Answer

-- Where a request stands: at `SET NX`, at the `GET` after it failed, at the test of the waiting time;
-- at the `GET` inside the `try`, at the writing of STARTED, in the handler, at the writing of
-- COMPLETED, at the deletion of the lock; finished. `gone` is a worker that died.
pub data Phase : Type 0 where
  polling looking waiting : Phase
  entered starting handling : Phase
  saving : HttpResponse → Phase
  leaving : Answer → Phase
  finished : Answer → Phase
  gone : Phase

-- What a step finds: whether its Redis command raises, whether MAX_WAIT_TIME is over, and the
-- handler's response, `none` if it raises. A Redis command that raises has had no effect.
pub record World : Type 0 where
  pub redis_fails : Bool
  pub overdue : Bool
  pub response : Option HttpResponse

unfoldable pub completed_response : Option Entry → Option HttpResponse
completed_response none = none
completed_response (some e) = elim e.status [ started ↦ none | completed r ↦ some r ]

abbrev pub is_final : HttpResponse → Bool
is_final r = ltb r.status_code 500

abbrev resume : Status → Phase
resume started = starting
resume (completed r) = leaving (replayed r)

-- The test of the state under the lock.
unfoldable pub on_entry : String → Option Entry → Phase
on_entry payload_hash none = starting
on_entry payload_hash (some e) =
    if not (e.payload_hash == payload_hash) then leaving mismatch else resume e.status

abbrev pub on_response : Option HttpResponse → Phase
on_response none = leaving raised
on_response (some r) = saving r

abbrev pub set_entry : String → Status → Redis → Redis
set_entry payload_hash status redis = record redis {
  entry = some (record { payload_hash = payload_hash; status = status });
}

-- `decode` is decode('utf-8', errors='ignore'), `lower` is str.lower.
module _ (decode lower : String → String) where
  abbrev is_kept : String × String → Bool
  is_kept (k, _) = not (lower k == "content-length" || lower k == "content-encoding")

  -- What COMPLETED keeps of a response.
  abbrev pub cached : HttpResponse → HttpResponse
  cached r = record {
    status_code = r.status_code;
    body = decode r.body;
    headers = keep is_kept r.headers;
  }

  -- One step of a request with this hash of its body.
  unfoldable pub step : String → World → Redis → Phase → Redis × Phase
  unfolding completed_response on_entry
  step payload_hash w redis polling =
      if w.redis_fails
      then (redis, finished raised)
      else if redis.lock
      then (redis, looking)
      else (record redis { lock = true }, entered)
  step payload_hash w redis looking =
      if w.redis_fails
      then (redis, finished raised)
      else if is_some (completed_response redis.entry)
      then (redis, entered)
      else (redis, waiting)
  step payload_hash w redis waiting =
      if w.overdue then (redis, finished timeout) else (redis, polling)
  step payload_hash w redis entered =
      if w.redis_fails then (redis, leaving raised) else (redis, on_entry payload_hash redis.entry)
  step payload_hash w redis starting =
      if w.redis_fails
      then (redis, leaving raised)
      else (set_entry payload_hash started redis, handling)
  step payload_hash w redis handling = (redis, on_response w.response)
  step payload_hash w redis (saving r) =
      if not (is_final r)
      then (redis, leaving (handled r))
      else if w.redis_fails
      then (redis, leaving raised)
      else (set_entry payload_hash (completed (cached r)) redis, leaving (handled r))
  step payload_hash w redis (leaving a) =
      if w.redis_fails
      then (redis, finished raised)
      else (record redis { lock = false }, finished a)
  step payload_hash w redis (finished a) = (redis, finished a)
  step payload_hash w redis gone = (redis, gone)
