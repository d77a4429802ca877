-- ===== src/System/Tests.antt =====
-- A run of the system: a payment, during which another one is made and the relay takes a turn, then a
-- synchronisation and a restart.
mod Breach
use Prim.Native.String.{◌++◌}
use sentinel_ai_v3_0_the_fin.Prelude.{
  true, nat_eq, if◌then◌else◌, ◌≡◌, ◌≢◌, pos, String, false, none, some, [], ◌∷◌, refl, arith,
}
use sentinel_ai_v3_0_the_fin.Database.{
  Db, select_by_key, insert_intent, insert_event, insert_audit, update_status, select_beneficiary,
  select_pending, mark_published, init_db,
}
use sentinel_ai_v3_0_the_fin.Database.Connection.{
  Runtime, ◌>>=◌, try_except, query, modify, begin, commit,
}
use sentinel_ai_v3_0_the_fin.AuditChain.{intact, verify_audit_chain, append_record, data_to_hash}
use sentinel_ai_v3_0_the_fin.Transaction.{
  Payment, create_intent, append_outbox, record_answer, settle, authorize_transfer,
}
use sentinel_ai_v3_0_the_fin.Relay.{relay_round, with_events, publish_all}
use sentinel_ai_v3_0_the_fin.Transaction.Consistency.{IsConsistent}
use sentinel_ai_v3_0_the_fin.Transaction.Register.{register, authorized, Evolves, Keeps}
use sentinel_ai_v3_0_the_fin.OpaClient.{OpaInput, Reply, result, on_reply, evaluate_policy}
use sentinel_ai_v3_0_the_fin.Enforcer.{
  allow, is_sanctioned, is_empty_amount, is_empty_id, to_float, opa_payload, conclude, ask_oracle,
  with_amount, validate_transfer_intent,
}
use sentinel_ai_v3_0_the_fin.Core.{KeyStore, stored, is_frozen, compare_stored, audit_and_verify}
use sentinel_ai_v3_0_the_fin.Gateway.{
  refused, passed, frozen, TransferRequest, Headers, Response, success, App, ControlPlane,
  security_gate, handle_transfer, after_enforcer, with_context, after_audit, pay,
}
use sentinel_ai_v3_0_the_fin.Gateway.Limits.{IsWithinLimits, success-IsWithinLimits}
use sentinel_ai_v3_0_the_fin.Idempotency.{Redis, admit, step}
use sentinel_ai_v3_0_the_fin.Service.{
  gate_of, HttpRequest, Framework, with_status, serve, admitted, dispatch, dispatch_step, call_next,
}
use sentinel_ai_v3_0_the_fin.Service.Replays.{calm, unused}
use sentinel_ai_v3_0_the_fin.System.Overlaps.{Meanwhile, Safe}
use sentinel_ai_v3_0_the_fin.System.Safety.{Meanwhile-Safe}
use sentinel_ai_v3_0_the_fin.System.Endpoint.{requested}
use sentinel_ai_v3_0_the_fin.System.Entitlement.{IsEntitled}
use sentinel_ai_v3_0_the_fin.Relay.Marking.{relayed, relay_rounds}
use sentinel_ai_v3_0_the_fin.System.Startup.{lifespan}
use sentinel_ai_v3_0_the_fin.System.Runs.{
  Step, System, ledger, request, restart, Steps, here, next, first_start,
}
use sentinel_ai_v3_0_the_fin.System.Ledger.{Steps-IsConsistent, Steps-Implements, Steps-IsEntitled}
use sentinel_ai_v3_0_the_fin.System.Hashes.{paid_hash_is_permanent}

pub never_put : (s s' : Unit {0}) (k v : String) → none ≡ some s' → stored "h" ≡ stored v
never_put s s' k v e = cc e

abbrev pub full : KeyStore
full = record {
  Store = Unit {0};
  get = λ s k. stored "h";
  put = λ s k v. none;
  get-put_self = never_put;
  get-put_ne = λ s s' k j v e n. refl;
}

-- Identifiers that begin with a letter of the request.
abbrev runtime : String → (Db → Db) → Runtime
runtime letter others = record {
  sha256 = λ s. s;
  dumps = λ _. "{}";
  dumps_sorted = λ _. "{}";
  uuid4 = λ n. if nat_eq n 0 then letter else if nat_eq n 1 then letter ++ "1" else letter ++ "2";
  fails = λ _. false;
  others = others;
}

abbrev pub inner : Runtime
inner = runtime "b" (λ db. db)

-- A transfer of 25.00 to the beneficiary of the start row.
abbrev pub transfer : String → TransferRequest
transfer tx_hash = record {
  tx_id = "tx";
  tx_hash = tx_hash;
  role = "ADMIN";
  amount = pos 2500;
  target = "1111-2222-3333-4444";
}

abbrev pub headers : String → Headers
headers key = record { correlation_id = none; idempotency_key = some key }

abbrev pub server : OpaInput → Reply
server input = result (some (allow input))

abbrev pub no_entries : String → Redis
no_entries _ = unused

abbrev pub plane : ControlPlane
plane = record { mode = some "READ_ONLY"; rate_limit = none }

abbrev pub new_system : System full
new_system = first_start full 100 tt no_entries plane

-- What goes on while the first request waits.
abbrev others : Db → Db
others db = relayed (inner ∷ []) (
    requested full inner server (λ s. none) (headers "other") (transfer "h") new_system.service.app
      db)

others-Meanwhile : Meanwhile full (λ s. s) ("a" ∷ []) others
others-Meanwhile =
    Meanwhile.request ("a" ∷ []) inner server (λ s. none) (headers "other") (transfer "h")
      new_system.service.app (relayed (inner ∷ [])) refl refl (Meanwhile.calm ("b" ∷ "a" ∷ []))
      (Meanwhile.relay ("a" ∷ []) (inner ∷ []) (λ db. db) (Meanwhile.calm ("a" ∷ [])))

abbrev pub framework : Framework
framework = record {
  sha256 = λ s. s;
  decode = λ s. s;
  lower = λ s. s;
  read_body = λ s. some (record {
    tx_id = "tx";
    tx_hash = "h";
    role = "ADMIN";
    amount = pos 2500;
    target = "1111-2222-3333-4444";
  });
  json_of = λ r. "{}";
  not_routed = λ q. with_status 404 "";
  invalid_body = λ q. with_status 422 "";
}

abbrev pub payment : HttpRequest
payment = record {
  method = "POST";
  path = "/v1/banking/transfer";
  client_host = some "10.0.0.1";
  correlation_id = none;
  idempotency_key = some "key";
  body = "transfer";
}

abbrev paid : System full
paid = record new_system {
  service =
      (serve full (runtime "a" others) server (λ s. none) framework 6 payment 0 calm
        new_system.service).1;
}

abbrev restarted : System full
restarted = record paid {
  service = lifespan full 100 (some (ledger full paid)) paid.service.app.core.db no_entries;
}

paying : Steps full (λ s. s) 100 new_system paid
paying = next here (
    request (runtime "a" others) server (λ s. none) framework 6 0 payment calm refl
      others-Meanwhile)

restarting : Steps full (λ s. s) 100 paid restarted
restarting = next here (restart no_entries)

-- Both payments are in the ledger, and the first request's is authorized.
both_are_paid :
    (register (ledger full paid) "key" ≡ some (authorized "a"))
    × (register (ledger full paid) "other" ≡ some (authorized "b"))
unfolding serve admitted dispatch dispatch_step call_next handle_transfer after_enforcer
    with_context after_audit pay is_sanctioned allow is_empty_amount is_empty_id to_float
    opa_payload conclude ask_oracle with_amount validate_transfer_intent on_reply evaluate_policy
    is_frozen compare_stored audit_and_verify create_intent authorize_transfer insert_intent
    append_outbox append_record data_to_hash record_answer settle insert_event insert_audit
    update_status commit select_beneficiary ◌>>=◌ try_except query modify begin admit security_gate
    step lifespan init_db relay_rounds relay_round with_events publish_all mark_published
    select_pending select_by_key
both_are_paid = (refl, refl)

Steps-IsConsistent_example :
    IsConsistent (λ s. s) (ledger full paid)
    × ((ledger full paid).audit_ledger ≢ []
        → verify_audit_chain (λ s. s) (ledger full paid).audit_ledger ≡ intact)
Steps-IsConsistent_example = Steps-IsConsistent full (λ s. s) 100 tt no_entries plane paid paying

Steps-Implements_example :
    Evolves (register (ledger full paid)) (register (ledger full restarted))
    × ((key : String) (p : Payment)
        → register (ledger full paid) key ≡ some p
        → Keeps p (register (ledger full restarted) key))
Steps-Implements_example =
    Steps-Implements full (λ s. s) 100 tt no_entries plane paid restarted paying restarting

abbrev answered_once : Response × App full
answered_once =
    handle_transfer full (runtime "a" others) server (λ s. none) (headers "key") (transfer "h")
      new_system.service.app

answered_with_success : answered_once.0 ≡ success "unknown" (authorized "a")
unfolding handle_transfer after_enforcer with_context after_audit pay is_sanctioned allow
    is_empty_amount is_empty_id to_float opa_payload conclude ask_oracle with_amount
    validate_transfer_intent on_reply evaluate_policy is_frozen compare_stored audit_and_verify
    create_intent authorize_transfer insert_intent append_outbox append_record data_to_hash
    record_answer settle insert_event insert_audit update_status commit select_beneficiary ◌>>=◌
    try_except query modify begin lifespan init_db relay_rounds relay_round with_events publish_all
    mark_published select_pending select_by_key
answered_with_success = refl

obeys : (input : OpaInput) → server input ≡ result (some true) → allow input ≡ true
obeys input e = ground (arith, e)

success-IsWithinLimits_example : IsWithinLimits (transfer "h") new_system.service.app.file
success-IsWithinLimits_example =
    success-IsWithinLimits server obeys full (runtime "a" others) (λ s. none) (headers "key")
      (transfer "h") new_system.service.app "unknown" (authorized "a") answered_with_success

abbrev served : System full
served = record new_system { service = record new_system.service { app = answered_once.1 } }

abbrev served_again : System full
served_again = record served {
  service = lifespan full 100 (some (ledger full served)) served.service.app.core.db no_entries;
}

paid_hash_is_permanent_example :
    let (r, app') =
      handle_transfer full inner server
        (λ s. none)
        (headers "key")
        (transfer "forged")
        served_again.service.app in
    (app'.file ≡ served_again.service.app.file)
    × ((trace_id' : String) (p' : Payment) → r ≢ success trace_id' p')
paid_hash_is_permanent_example =
    paid_hash_is_permanent full (runtime "a" others) inner server server (λ s. none) (λ s. none)
      (headers "key") (headers "key") (transfer "h") (transfer "forged") (λ s. s) 100 "unknown"
      (authorized "a") served served_again new_system.service.app answered_with_success refl
      (next here (restart no_entries)) refl (λ e. cc e)

Meanwhile-Safe_example : Safe (λ s. s) ("a" ∷ []) others
Meanwhile-Safe_example = Meanwhile-Safe others-Meanwhile

Steps-IsEntitled_example : IsEntitled (ledger full paid)
Steps-IsEntitled_example = Steps-IsEntitled full (λ s. s) 100 tt no_entries plane paid paying

-- A frozen system, by the operator and by a breach.
abbrev frozen_system : System full
frozen_system = record new_system {
  plane = record { mode = some "FROZEN"; rate_limit = none };
  service = record new_system.service {
    recovery = record { mode = frozen; rate_limit = 100 };
    app = record new_system.service.app { core = record { fail_safe = true; db = tt } };
  };
}

abbrev thawed_system : System full
thawed_system = record frozen_system {
  service = lifespan full 100 (some (ledger full frozen_system)) tt no_entries;
}

-- A restart lifts both, until the next synchronisation.
restart_forgets_freeze :
    (gate_of full inner server (λ s. none) framework payment 0 frozen_system.service
      ≡ refused 503 "SYSTEM_FROZEN")
    × Step full (λ s. s) 100 frozen_system thawed_system
    × (gate_of full inner server (λ s. none) framework payment 0 thawed_system.service ≡ passed)
unfolding security_gate is_frozen lifespan
restart_forgets_freeze = (refl, restart no_entries, refl)
