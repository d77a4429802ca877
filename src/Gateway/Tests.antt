-- ===== src/Gateway/Tests.antt =====
-- A request of the endpoint, the gate and the modes on concrete data.
use sentinel_ai_v3_0_the_fin.Prelude.{
  ◌≡◌, ◌≢◌, pos, String, Bool, false, none, some, List, [], ◌∷◌, ◌==◌, if◌then◌else◌, arith, eq_iff,
}
use sentinel_ai_v3_0_the_fin.Database.{empty_db, test_beneficiary}
use sentinel_ai_v3_0_the_fin.Database.Connection.{Runtime}
use sentinel_ai_v3_0_the_fin.OpaClient.{OpaInput, Reply, result, OpaClient, new_client}
use sentinel_ai_v3_0_the_fin.Enforcer.{allow}
use sentinel_ai_v3_0_the_fin.Core.{KeyStore, Fetched, absent, stored}
use sentinel_ai_v3_0_the_fin.Gateway.{TransferRequest, Headers, App, handle_transfer}
use sentinel_ai_v3_0_the_fin.Gateway.Receipts.{Receipt, handle_transfer-Receipt}
use sentinel_ai_v3_0_the_fin.Gateway.Transfers.{Keeps, handle_transfer-Keeps}

abbrev Entries : Type 0
Entries = List (String × String)

abbrev get : Entries → String → Fetched
get [] k = absent
get ((j, v) ∷ es) k = if j == k then stored v else get es k

put_self : (s s' : Entries) (k v : String) → some ((k, v) ∷ s) ≡ some s' → get s' k ≡ stored v
put_self s s' k v e = ground (arith, e, eq_iff k k)

put_ne :
    (s s' : Entries) (k j v : String) → some ((k, v) ∷ s) ≡ some s' → k ≢ j → get s' j ≡ get s j
put_ne s s' k j v e n = ground (arith, e, eq_iff k j)

abbrev entries : KeyStore
entries = record {
  Store = Entries;
  get = get;
  put = λ s k v. some ((k, v) ∷ s);
  get-put_self = put_self;
  get-put_ne = put_ne;
}

abbrev runtime : Runtime
runtime = record {
  sha256 = λ s. s;
  dumps = λ _. "{}";
  dumps_sorted = λ _. "{}";
  uuid4 = λ _. "id";
  fails = λ _. false;
  others = λ db. db;
}

abbrev server : OpaInput → Reply
server input = result (some (allow input))

abbrev headers : Headers
headers = record { correlation_id = none; idempotency_key = some "key" }

abbrev request : TransferRequest
request = record {
  tx_id = "tx";
  tx_hash = "h";
  role = "ADMIN";
  amount = pos 2500;
  target = "1111-2222-3333-4444";
}

abbrev app : OpaClient → Bool → App entries
app opa fail_safe = record {
  file = record empty_db { approved_beneficiaries = test_beneficiary ∷ [] };
  opa = opa;
  core = record { fail_safe = fail_safe; db = [] };
}

handle_transfer-Keeps_example :
    Keeps entries runtime server
      (λ _. none)
      headers
      request
      (app new_client false)
      (handle_transfer entries runtime server (λ _. none) headers request (app new_client false))
handle_transfer-Keeps_example =
    handle_transfer-Keeps entries runtime server (λ _. none) headers request (app new_client false)

handle_transfer-Receipt_example :
    Receipt entries runtime server
      (λ _. none)
      headers
      request
      (app new_client false)
      (handle_transfer entries runtime server (λ _. none) headers request (app new_client false))
handle_transfer-Receipt_example =
    handle_transfer-Receipt entries runtime server (λ _. none) headers request
      (app new_client false)
