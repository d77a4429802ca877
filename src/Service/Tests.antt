-- ===== src/Service/Tests.antt =====
-- A transfer that is sent twice, on a store that holds the hash of every transaction.
use sentinel_ai_v3_0_the_fin.Prelude.{
  nat_eq, if◌then◌else◌, ℤ, ◌≡◌, pos, String, false, Option, none, some, List, [], ◌∷◌, refl, ◌==◌,
  ℕ, Bool,
}
use sentinel_ai_v3_0_the_fin.Database.{
  PaymentIntent, empty_db, test_beneficiary, select_by_key, insert_intent, insert_event,
  insert_audit, update_status, select_beneficiary,
}
use sentinel_ai_v3_0_the_fin.Database.Connection.{
  Runtime, ◌>>=◌, try_except, query, modify, begin, commit,
}
use sentinel_ai_v3_0_the_fin.Transaction.{
  create_intent, append_outbox, record_answer, settle, authorize_transfer,
}
use sentinel_ai_v3_0_the_fin.AuditChain.{append_record, data_to_hash}
use sentinel_ai_v3_0_the_fin.OpaClient.{
  OpaInput, Reply, result, new_client, on_reply, evaluate_policy,
}
use sentinel_ai_v3_0_the_fin.Enforcer.{
  allow, is_sanctioned, is_empty_amount, is_empty_id, to_float, opa_payload, conclude, ask_oracle,
  with_amount, validate_transfer_intent,
}
use sentinel_ai_v3_0_the_fin.Core.{KeyStore, stored, is_frozen, compare_stored, audit_and_verify}
use sentinel_ai_v3_0_the_fin.Gateway.{
  normal, passed, App, security_gate, handle_transfer, after_enforcer, with_context, after_audit,
  pay, ControlPlane, admin_panel, sync_round,
}
use sentinel_ai_v3_0_the_fin.Idempotency.{HttpResponse, admit, finished, handled, replayed}
use sentinel_ai_v3_0_the_fin.Service.{
  HttpRequest, Framework, Service, under_key, with_status, call_next, gate_of, serve,
  refused_by_gate,
}
use sentinel_ai_v3_0_the_fin.Service.KillSwitch.{kill_switch_stops_all}
use sentinel_ai_v3_0_the_fin.Service.Retries.{known_key_pays_once}
use sentinel_ai_v3_0_the_fin.Service.Replays.{calm, unused, retry_is_replayed}

never_put : (s s' : Unit {0}) (k v : String) → none ≡ some s' → stored "h" ≡ stored v
never_put s s' k v e = cc e

abbrev full : KeyStore
full = record {
  Store = Unit {0};
  get = λ s k. stored "h";
  put = λ s k v. none;
  get-put_self = never_put;
  get-put_ne = λ s s' k j v e n. refl;
}

abbrev runtime : Runtime
runtime = record {
  sha256 = λ s. s;
  dumps = λ _. "{}";
  dumps_sorted = λ _. "{}";
  uuid4 = λ n. if nat_eq n 0 then "intent" else if nat_eq n 1 then "started" else "approved";
  fails = λ _. false;
  others = λ db. db;
}

abbrev server : OpaInput → Reply
server input = result (some (allow input))

abbrev framework : Framework
framework = record {
  sha256 = λ s. s;
  decode = λ s. s;
  lower = λ s. s;
  read_body = λ s. some (record {
    tx_id = "tx";
    tx_hash = "h";
    role = "ADMIN";
    amount = pos 2500;
    target = "1111-2222-3333-4444";
  });
  json_of = λ r. "{}";
  not_routed = λ q. with_status 404 "";
  invalid_body = λ q. with_status 422 "";
}

abbrev request : HttpRequest
request = record {
  method = "POST";
  path = "/v1/banking/transfer";
  client_host = some "10.0.0.1";
  correlation_id = none;
  idempotency_key = some "key";
  body = "transfer";
}

abbrev old : PaymentIntent
old = record {
  id = "old";
  idempotency_key = "key";
  user_id = "ADMIN";
  amount = pos 2500;
  target = "ES12";
  status = "AUTHORIZED";
}

abbrev service : List PaymentIntent → Service full
service intents = record {
  app = record {
    file = record empty_db {
      approved_beneficiaries = test_beneficiary ∷ [];
      payment_intents = intents;
    };
    opa = new_client;
    core = record { fail_safe = false; db = tt };
  };
  recovery = record { mode = normal; rate_limit = 100 };
  redis = λ _. unused;
}

abbrev no_numbers : String → Option ℤ
no_numbers s = none

old_found : select_by_key "key" (service (old ∷ [])).app.file ≡ some old
unfolding select_by_key
old_found = refl

known_key_pays_once_example :
    (serve full runtime server no_numbers framework 6 request 0 calm
      (service (old ∷ []))).1.app.file
    ≡ (service (old ∷ [])).app.file
known_key_pays_once_example =
    known_key_pays_once full runtime server no_numbers framework request "key" old refl 6 0 calm
      (service (old ∷ [])) old_found

-- The first delivery, on a ledger without intents: the route pays.
abbrev routed_once : Option HttpResponse × App full
routed_once = call_next full runtime server no_numbers framework request (service []).app

first_is_paid : routed_once ≡ (some (with_status 200 "{}"), routed_once.1)
unfolding call_next handle_transfer after_enforcer with_context after_audit pay is_sanctioned allow
    is_empty_amount is_empty_id to_float opa_payload conclude ask_oracle with_amount
    validate_transfer_intent on_reply evaluate_policy is_frozen compare_stored audit_and_verify
    create_intent authorize_transfer insert_intent append_outbox append_record data_to_hash
    record_answer settle insert_event insert_audit update_status commit select_beneficiary ◌>>=◌
    try_except query modify begin
first_is_paid = refl

gate_passes_again :
    gate_of full runtime server no_numbers framework request 0
      (record (service []) { app = routed_once.1 })
    ≡ passed
unfolding call_next handle_transfer after_enforcer with_context after_audit pay is_sanctioned allow
    is_empty_amount is_empty_id to_float opa_payload conclude ask_oracle with_amount
    validate_transfer_intent on_reply evaluate_policy is_frozen compare_stored audit_and_verify
    select_beneficiary ◌>>=◌ query security_gate
gate_passes_again = refl

retry_is_replayed_example :
    let (a, s') = serve full runtime server no_numbers framework 6 request 0 calm (service []) in
    let (a', s'') = serve full runtime server no_numbers framework 3 request 0 calm s' in
    (a ≡ under_key (finished (handled (with_status 200 "{}"))))
    × (a' ≡ under_key (finished (replayed (with_status 200 "{}"))))
    × (s'.app ≡ routed_once.1)
    × (s''.app ≡ routed_once.1)
unfolding admit is_frozen security_gate
retry_is_replayed_example =
    retry_is_replayed full runtime server no_numbers framework request "key" refl 0 0 0 0
      (service []) (with_status 200 "{}") routed_once.1 refl refl first_is_paid refl
      gate_passes_again

abbrev upper : String → String
upper s = if s == "frozen" then "FROZEN" else s

abbrev plane : ControlPlane
plane = record { mode = some "NORMAL"; rate_limit = none }

kill_switch_stops_all_example :
    (set : ControlPlane) × (admin_panel upper (λ s. none) ("admin_panel.py" ∷ "frozen" ∷ []) plane
      ≡ some set)
    × ((n random : ℕ) (q : HttpRequest) (world : ℕ → Bool × Bool) (s : Service full)
        → let s' : Service full = record s { recovery = sync_round (λ r. none) set s.recovery } in
          serve full runtime server no_numbers framework n q random world s'
          ≡ (refused_by_gate 503 "SYSTEM_FROZEN", s'))
kill_switch_stops_all_example =
    kill_switch_stops_all full runtime server no_numbers framework upper (λ s. none) (λ r. none)
      "admin_panel.py" "frozen" plane refl
