-- ===== src/Pipeline/Tests.antt =====
-- A payload without a tier, on the Rust engine with one enforcing policy and one in shadow mode.
use sentinel_ai_v3_0_the_fin.Prelude.{
  arith, String, ◌≡◌, refl, pos, none, some, List, [], ◌∷◌, false,
}
use sentinel_ai_v3_0_the_fin.AuditBuffer.{empty_buffer}
use sentinel_ai_v3_0_the_fin.RuleEngine.{
  float, str, bool, Condition, condition, no_list, no_condition, Attributes, Policy, enforce,
  shadow, get_tool, evaluate_tool,
}
use sentinel_ai_v3_0_the_fin.Pipeline.{
  number, text, RawPayload, DomainData, Context, Environment, Run, float_of, from_http, profile_of,
  execute,
}
use sentinel_ai_v3_0_the_fin.Pipeline.Stages.{all_stages}
use sentinel_ai_v3_0_the_fin.Pipeline.Explanations.{Explains, pipeline-Explains}

abbrev high_risk : Condition
high_risk =
    condition (some (record { attr_key = "risk_score"; operator = "gt"; value = float (pos 80) }))
      no_list no_list no_condition

abbrev by_tool : List (String × List Policy)
by_tool =
    (
      "transfer_funds",
      record { id = "risk"; tool_name = "transfer_funds"; mode = enforce; condition = high_risk }
          ∷ record {
            id = "trial";
            tool_name = "transfer_funds";
            mode = shadow;
            condition = high_risk;
          }
          ∷ [],
    )
    ∷ []

abbrev attributes : DomainData → Attributes
attributes d =
    ("risk_score", float d.risk_score) ∷ ("country", str d.country) ∷ ("is_new", bool d.is_new) ∷ []

abbrev environment : Environment
environment = record {
  parse_float = λ s. none;
  str_of = λ v. "ES";
  uuid4 = "tx";
  utcnow = "2026-01-01T00:00:00";
  fast_evaluate = λ tool d. some (evaluate_tool "v1" by_tool tool (attributes d));
  event_hash = λ id decision policy. "h";
}

abbrev payload : RawPayload
payload = record {
  amount = some (number (pos 50000));
  country = some (text "ES");
  risk = some (number (pos 95));
  user_tier = none;
}

abbrev domain_data : DomainData
domain_data = record {
  amount = pos 50000;
  country = "ES";
  risk_score = pos 95;
  is_new = false;
  kyc_status = none;
  account_age_days = none;
}

abbrev ctx : Context
ctx = record {
  tx_id = "tx";
  timestamp = "2026-01-01T00:00:00";
  raw_payload = payload;
  domain_data = domain_data;
  decision = none;
  policy_id = none;
  version = "unknown";
  traces = [];
  errors = [];
  reasons = [];
}

abbrev known : DomainData
known = record domain_data { kyc_status = some "pending"; account_age_days = some (pos 200) }

abbrev start : Run
start = record { ctx = ctx; buffer = empty_buffer }

factory_reads_payload : from_http environment payload ≡ some ctx
unfolding from_http float_of
factory_reads_payload = refl

pipeline-Explains_example :
    (r : Run) × (execute (all_stages environment) start ≡ some r)
    × Explains (attributes known) (get_tool "transfer_funds" by_tool) r
unfolding profile_of from_http float_of
pipeline-Explains_example =
    pipeline-Explains environment payload empty_buffer [] ctx (attributes known) "v1" by_tool refl
      refl (record { kept = refl; short = omega arith })
