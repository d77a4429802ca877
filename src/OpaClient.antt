-- ===== src/OpaClient.antt =====
-- security/opa_client.py: `ResilientOPAClient`, a circuit breaker in front of the policy server.
pub mod Breaker
pub mod Tasks
mod Tests
use sentinel_ai_v3_0_the_fin.Prelude.{
  ℕ, ◌+◌, ◌-◌, ℤ, String, Bool, true, false, Option, none, some, leb, if◌then◌else◌,
}

-- `opa_payload` of security/enforcer.py: what a policy is asked about.
pub record OpaInput : Type 0 where
  pub action : String
  pub amount : ℤ
  pub is_active : ℤ
  pub aml_risk_score : ℤ
  pub country_code : String

-- What the server's answer to the POST may be: no answer (httpx.RequestError), an error status
-- (httpx.HTTPStatusError), a body that is no JSON, or the `result` of the body, if it has one.
pub data Reply : Type 0 where
  request_error status_error malformed : Reply
  result : Option Bool → Reply

-- `scheduled` and `sleeping` count the tasks of `_trip_breaker` that have not begun and that wait for
-- the recovery timeout.
pub record OpaClient : Type 0 where
  pub failure_count : ℕ
  pub is_open : Bool
  pub scheduled : ℕ
  pub sleeping : ℕ

abbrev pub failure_threshold : ℕ
failure_threshold = 3

-- `__init__`
abbrev pub new_client : OpaClient
new_client = record { failure_count = 0; is_open = false; scheduled = 0; sleeping = 0 }

-- A call returns a Boolean, or raises what it does not catch.
pub data Evaluated : Type 0 where
  returned : Bool → Evaluated
  raised : Evaluated

abbrev pub or_false : Option Bool → Bool
or_false none = false
or_false (some b) = b

-- The `except` block.
unfoldable pub on_failure : OpaClient → OpaClient
on_failure s =
    if leb failure_threshold (s.failure_count + 1)
    then record s { failure_count = s.failure_count + 1; scheduled = s.scheduled + 1 }
    else record s { failure_count = s.failure_count + 1 }

-- The `try` block, from the reply on, with its handler.
unfoldable pub on_reply : Reply → OpaClient → OpaClient × Evaluated
unfolding on_failure
on_reply request_error s = (on_failure s, returned false)
on_reply status_error s = (on_failure s, returned false)
on_reply malformed s = (s, raised)
on_reply (result r) s = (record s { failure_count = 0 }, returned (or_false r))

-- `post` is the request to the server.
unfoldable pub evaluate_policy : (OpaInput → Reply) → OpaInput → OpaClient → OpaClient × Evaluated
unfolding on_reply
evaluate_policy post payload s =
    if s.is_open then (s, returned false) else on_reply (post payload) s

-- `_trip_breaker` up to its sleep, and after it.
unfoldable pub trip_start : OpaClient → OpaClient
trip_start s = record s { is_open = true; scheduled = s.scheduled - 1; sleeping = s.sleeping + 1 }

unfoldable pub trip_end : OpaClient → OpaClient
trip_end s = record s { is_open = false; failure_count = 0; sleeping = s.sleeping - 1 }
