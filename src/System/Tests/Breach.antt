-- ===== src/System/Tests/Breach.antt =====
-- A transfer with another hash than the stored one, a turn of the relay, a synchronisation, and a
-- payment that comes too late.
use sentinel_ai_v3_0_the_fin.Prelude.{ℕ, ◌≡◌, String, Option, none, [], ◌∷◌, refl}
use sentinel_ai_v3_0_the_fin.Database.{select_beneficiary, init_db}
use sentinel_ai_v3_0_the_fin.Database.Connection.{◌>>=◌, query}
use sentinel_ai_v3_0_the_fin.OpaClient.{on_reply, evaluate_policy}
use sentinel_ai_v3_0_the_fin.Enforcer.{
  allow, is_sanctioned, is_empty_amount, is_empty_id, to_float, opa_payload, conclude, ask_oracle,
  with_amount, validate_transfer_intent,
}
use sentinel_ai_v3_0_the_fin.Core.{is_frozen, compare_stored, audit_and_verify}
use sentinel_ai_v3_0_the_fin.Gateway.{
  Response, integrity_mismatch, App, sync_round, handle_transfer, after_enforcer, with_context,
  after_audit,
}
use sentinel_ai_v3_0_the_fin.Service.{refused_by_gate, serve}
use sentinel_ai_v3_0_the_fin.Service.Replays.{calm}
use sentinel_ai_v3_0_the_fin.Relay.Marking.{relayed}
use sentinel_ai_v3_0_the_fin.System.Overlaps.{Meanwhile}
use sentinel_ai_v3_0_the_fin.System.Startup.{lifespan}
use sentinel_ai_v3_0_the_fin.System.Runs.{System, ledger, with_ledger, background, synchronise}
use sentinel_ai_v3_0_the_fin.System.Breach.{Lives, here, next, mismatch_stops_all}
use sentinel_ai_v3_0_the_fin.System.Tests.{
  full, inner, transfer, headers, server, framework, payment, new_system,
}

abbrev breached : Response × App full
breached =
    handle_transfer full inner server (λ s. none) (headers "key") (transfer "forged")
      new_system.service.app

answered_with_mismatch : breached.0 ≡ integrity_mismatch
unfolding handle_transfer after_enforcer with_context after_audit is_sanctioned allow
    is_empty_amount is_empty_id to_float opa_payload conclude ask_oracle with_amount
    validate_transfer_intent on_reply evaluate_policy is_frozen compare_stored audit_and_verify
    select_beneficiary ◌>>=◌ query lifespan init_db
answered_with_mismatch = refl

abbrev frozen_system : System full
frozen_system = record new_system { service = record new_system.service { app = breached.1 } }

abbrev relayed_system : System full
relayed_system = with_ledger full (relayed (inner ∷ []) (ledger full frozen_system)) frozen_system

abbrev no_rate : String → Option ℕ
no_rate s = none

abbrev later_system : System full
later_system = record relayed_system {
  service = record relayed_system.service {
    recovery = sync_round no_rate relayed_system.plane relayed_system.service.recovery;
  };
}

going_on : Lives full (λ s. s) 100 frozen_system later_system
going_on =
    next
      (next here
        (background (relayed (inner ∷ []))
          (Meanwhile.relay [] (inner ∷ []) (λ db. db) (Meanwhile.calm [])))
        tt)
      (synchronise no_rate) tt

mismatch_stops_all_example :
    serve full inner server (λ s. none) framework 6 payment 0 calm later_system.service
    ≡ (refused_by_gate 503 "SYSTEM_FROZEN", later_system.service)
mismatch_stops_all_example =
    mismatch_stops_all full inner inner server server (λ s. none) (λ s. none) (headers "key")
      (transfer "forged") (λ s. s) 100 frozen_system later_system new_system.service.app
      answered_with_mismatch refl going_on framework 6 0 payment calm
