-- ===== src/OpaClient/Tests.antt =====
-- Calls and tasks on concrete clients.
use sentinel_ai_v3_0_the_fin.Prelude.{◌≡◌, refl, pos, true, false, arith}
use sentinel_ai_v3_0_the_fin.OpaClient.{
  OpaInput, request_error, status_error, on_reply, on_failure, trip_start,
}
use sentinel_ai_v3_0_the_fin.OpaClient.Tasks.{
  System, Step, send, receive, start, Reach, initial, next, breaker_recovers,
}

abbrev input : OpaInput
input = record {
  action = "transfer_funds";
  amount = pos 2500;
  is_active = pos 1;
  aml_risk_score = pos 10;
  country_code = "ES";
}

-- Three requests in flight that all fail, then the task that they schedule.
abbrev tripped : System
tripped = record {
  client = record { failure_count = 3; is_open = true; scheduled = 0; sleeping = 1 };
  in_flight = 0;
}

tripped-Reach : Reach tripped
unfolding on_reply on_failure trip_start
tripped-Reach =
    let r0 = next initial (send refl) in
    let r1 = next r0 (send refl) in
    let r2 = next r1 (send refl) in
    let r3 = next r2 (receive request_error (omega arith)) in
    let r4 = next r3 (receive request_error (omega arith)) in
    let r5 = next r4 (receive status_error (omega arith)) in next r5 (start (omega arith))

breaker_recovers_example :
    (t : System) × Step tripped t × (t.client.is_open ≡ false) × (t.client.failure_count ≡ 0)
breaker_recovers_example = breaker_recovers tripped-Reach refl
