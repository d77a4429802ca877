-- ===== src/Enforcer/Tests.antt =====
-- An intent of an agent on a database with one beneficiary.
use sentinel_ai_v3_0_the_fin.Prelude.{◌≡◌, refl, pos, false, true, none, some, [], ◌∷◌}
use sentinel_ai_v3_0_the_fin.Database.{Db, empty_db, test_beneficiary}
use sentinel_ai_v3_0_the_fin.Database.Connection.{Runtime, connect}
use sentinel_ai_v3_0_the_fin.OpaClient.{OpaInput, Reply, result, new_client}
use sentinel_ai_v3_0_the_fin.Enforcer.{allow, cents, Amount, AiPayload, validate_transfer_intent}
use sentinel_ai_v3_0_the_fin.Enforcer.Guarantees.{Guarantees, validate_transfer_intent-Guarantees}

abbrev runtime : Runtime
runtime = record {
  sha256 = λ s. s;
  dumps = λ _. "{}";
  dumps_sorted = λ _. "{}";
  uuid4 = λ _. "id";
  fails = λ _. false;
  others = λ db. db;
}

-- A server that evaluates the policy of the repository.
abbrev server : OpaInput → Reply
server input = result (some (allow input))

abbrev db : Db
db = record empty_db { approved_beneficiaries = test_beneficiary ∷ [] }

abbrev intent : AiPayload
intent = record {
  amount = Amount.number (pos 2500);
  target_beneficiary_id = some "1111-2222-3333-4444";
}

abbrev input : OpaInput
input = record {
  action = "transfer_funds";
  amount = cents 50000;
  is_active = pos 1;
  aml_risk_score = pos 10;
  country_code = "ES";
}

at_limit_is_allowed : allow input ≡ true
unfolding allow
at_limit_is_allowed = refl

validate_transfer_intent-Guarantees_example :
    Guarantees runtime server
      (λ _. none)
      new_client
      "ADMIN"
      intent
      (connect db)
      (validate_transfer_intent runtime server (λ _. none) new_client "ADMIN" intent (connect db))
validate_transfer_intent-Guarantees_example =
    validate_transfer_intent-Guarantees runtime server (λ _. none) new_client "ADMIN" intent
      (connect db)
