-- ===== src/OpaClient/Breaker.antt =====
-- When a call is allowed, and when the breaker is tripped.
use sentinel_ai_v3_0_the_fin.Prelude.{
  ◌+◌, ◌-◌, ◌≡◌, ◌↔◌, ◌⊎◌, refl, true, false, some, List, [], ◌∷◌, All, length, arith,
}
use sentinel_ai_v3_0_the_fin.OpaClient.{
  OpaInput, Reply, request_error, status_error, malformed, result, OpaClient, returned, raised,
  evaluate_policy, new_client,
}

-- Deny by default: a call returns True exactly if the breaker is closed and the server answered
-- with the result true. In every other case, an open breaker, no answer, an error status, no result,
-- it returns False, except that it raises on a body that is no JSON.
pub evaluate_policy_allows_iff :
    (post : OpaInput → Reply) (payload : OpaInput) (s : OpaClient)
    → ((evaluate_policy post payload s).1 ≡ returned true
        ↔ ((s.is_open ≡ false) × (post payload ≡ result (some true))))
      × ((evaluate_policy post payload s).1 ≡ raised
          ↔ ((s.is_open ≡ false) × (post payload ≡ malformed)))
unfolding evaluate_policy
evaluate_policy_allows_iff post payload s = ground arith

-- Replies by which the server is out of reach.
abbrev pub IsFailure : Reply → Type 0
IsFailure r = (r ≡ request_error) ⊎ (r ≡ status_error)

-- Calls one after another, each with the reply that it gets if it sends a request.
pub run_calls : List Reply → OpaInput → OpaClient → OpaClient
run_calls [] payload s = s
run_calls (r ∷ rs) payload s = run_calls rs payload (evaluate_policy (λ _. r) payload s).0

failing_call :
    (r : Reply) (payload : OpaInput) (s : OpaClient)
    → IsFailure r
    → s.is_open ≡ false
    → let s' = (evaluate_policy (λ _. r) payload s).0 in
      (s'.failure_count ≡ s.failure_count + 1)
      × (s'.is_open ≡ false)
      × (s'.scheduled ≡ s.scheduled + (s.failure_count + 1 - 2) - (s.failure_count - 2))
unfolding evaluate_policy
failing_call r payload s f closed = ground arith

run_calls-failing :
    (rs : List Reply) (payload : OpaInput) (s : OpaClient)
    → All IsFailure rs
    → s.is_open ≡ false
    → s.scheduled ≡ s.failure_count - 2
    → let s' = run_calls rs payload s in
      (s'.failure_count ≡ s.failure_count + length rs)
      × (s'.scheduled ≡ s.failure_count + length rs - 2)
      × (s'.is_open ≡ false)
unfolding run_calls
run_calls-failing [] payload s f closed n = (omega arith, omega arith, closed)
run_calls-failing (r ∷ rs) payload s f closed n = ground (
  arith,
  failing_call r payload s f.0 closed,
  run_calls-failing rs payload (evaluate_policy (λ _. r) payload s).0 f.1,
)

-- On a new client, the first two calls in a row that get no usable answer schedule nothing, and
-- each one from the third on schedules the breaker once; none of them opens it by itself.
pub failing_calls_trip :
    (rs : List Reply) (payload : OpaInput)
    → All IsFailure rs
    → let s = run_calls rs payload new_client in
      (s.failure_count ≡ length rs) × (s.scheduled ≡ length rs - 2) × (s.is_open ≡ false)
failing_calls_trip rs payload f =
    ground (arith, run_calls-failing rs payload new_client f refl (omega arith))
