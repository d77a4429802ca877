-- ===== src/Enforcer.antt =====
-- security/enforcer.py: `DeterministicEnforcer`, and the policy that the server evaluates for it,
-- config/opa/policy.rego.
pub mod Guarantees
mod Tests
use sentinel_ai_v3_0_the_fin.Prelude.{
  ℕ, ◌*◌, ℤ, pos, String, Bool, true, false, not, ◌&&◌, ◌||◌, Option, none, some, ltb_ℤ, leb_ℤ,
  eqb_ℤ, ◌==◌, if◌then◌else◌,
}
use sentinel_ai_v3_0_the_fin.Database.{Beneficiary, select_beneficiary}
use sentinel_ai_v3_0_the_fin.Database.Connection.{
  Error, value_error, Runtime, Exec, pure, raise, ◌>>=◌, query,
}
use sentinel_ai_v3_0_the_fin.OpaClient.{
  OpaInput, Reply, OpaClient, Evaluated, returned, raised, evaluate_policy,
}

-- Amounts are in cents, so the limit of 50000 is five million.
abbrev pub cents : ℕ → ℤ
cents n = pos (n * 100)

-- policy.rego: `is_sanctioned`
unfoldable pub is_sanctioned : String → Bool
is_sanctioned country = country == "NK" || country == "IR" || country == "SY"

-- policy.rego: `allow`
unfoldable pub allow : OpaInput → Bool
unfolding is_sanctioned
allow input =
    input.action == "transfer_funds"
    && ltb_ℤ (pos 0) input.amount
    && leb_ℤ input.amount (cents 50000)
    && eqb_ℤ input.is_active (pos 1)
    && ltb_ℤ input.aml_risk_score (pos 80)
    && not (is_sanctioned input.country_code)

-- The values that the dictionary `ai_payload` may hold under "amount".
pub data Amount : Type 0 where
  missing : Amount
  number : ℤ → Amount
  text : String → Amount

pub record AiPayload : Type 0 where
  pub amount : Amount
  pub target_beneficiary_id : Option String

-- `safe_execution_context`
pub record SafeContext : Type 0 where
  pub user_id : String
  pub amount : ℤ
  pub target_iban : String

-- The triple that is returned; `none` is the empty dictionary.
pub record Validation : Type 0 where
  pub is_safe : Bool
  pub reason : String
  pub safe_context : Option SafeContext

abbrev pub refuse : String → Validation
refuse reason = record { is_safe = false; reason = reason; safe_context = none }

-- The truth of a value in `not target_uuid or not amount`.
unfoldable pub is_empty_amount : Amount → Bool
is_empty_amount missing = true
is_empty_amount (number n) = eqb_ℤ n (pos 0)
is_empty_amount (text s) = s == ""

unfoldable pub is_empty_id : Option String → Bool
is_empty_id none = true
is_empty_id (some s) = s == ""

abbrev pub or_blank : Option String → String
or_blank none = ""
or_blank (some s) = s

-- `float(amount)`: `parse` is Python's reading of a text, `none` its ValueError.
unfoldable pub to_float : (String → Option ℤ) → Amount → Option ℤ
to_float parse missing = none
to_float parse (number n) = some n
to_float parse (text s) = parse s

unfoldable pub opa_payload : ℤ → Beneficiary → OpaInput
opa_payload amount b = record {
  action = "transfer_funds";
  amount = amount;
  is_active = b.is_active;
  aml_risk_score = b.aml_risk_score;
  country_code = b.country_code;
}

-- From the answer of `evaluate_policy` on.
unfoldable pub conclude :
    String → ℤ → Beneficiary → OpaClient × Evaluated → Exec (Validation × OpaClient)
conclude user_id amount b (s, raised) = raise value_error
conclude user_id amount b (s, returned false) =
    pure (refuse "POLICY_DENIED: OPA rejected the transaction or is unreachable", s)
conclude user_id amount b (s, returned true) = pure (
  record {
    is_safe = true;
    reason = "INTENT_APPROVED";
    safe_context =
        some (record { user_id = user_id; amount = amount; target_iban = b.account_iban });
  },
  s,
)

-- From the row of the beneficiary on.
unfoldable pub ask_oracle :
    (OpaInput → Reply) → OpaClient → String → ℤ → Option Beneficiary → Exec (Validation × OpaClient)
unfolding conclude
ask_oracle post opa user_id amount none =
    pure (refuse "SEMANTIC_VIOLATION: Unknown or unauthorized beneficiary ID", opa)
ask_oracle post opa user_id amount (some b) =
    conclude user_id amount b (evaluate_policy post (opa_payload amount b) opa)

-- From the parsed amount on.
unfoldable pub with_amount :
    Runtime
    → (OpaInput → Reply)
    → OpaClient
    → String
    → String
    → Option ℤ
    → Exec (Validation × OpaClient)
unfolding ask_oracle
with_amount rt post opa user_id target_uuid none =
    pure (refuse "MALFORMED_INTENT: Invalid amount format", opa)
with_amount rt post opa user_id target_uuid (some amount) = do
  beneficiary ← query rt (select_beneficiary target_uuid user_id)
  ask_oracle post opa user_id amount beneficiary

unfoldable pub validate_transfer_intent :
    Runtime
    → (OpaInput → Reply)
    → (String → Option ℤ)
    → OpaClient
    → String
    → AiPayload
    → Exec (Validation × OpaClient)
unfolding with_amount is_empty_id is_empty_amount to_float
validate_transfer_intent rt post parse opa user_id ai_payload =
    if is_empty_id ai_payload.target_beneficiary_id || is_empty_amount ai_payload.amount
    then pure (refuse "MALFORMED_INTENT: Missing required fields", opa)
    else with_amount rt post opa user_id (or_blank ai_payload.target_beneficiary_id)
        (to_float parse ai_payload.amount)
