-- ===== src/Pipeline.antt =====
-- core/app/context.py, core/app/pipeline.py and the four stages of core/app/stages.py. The evaluator
-- `sentinel_core.fast_evaluate`, which the built Rust module does not export, is a parameter; so are
-- Python's float and str, uuid4, the clock and SHA-256 of a JSON text. Numbers are in hundredths.
pub mod Runs
pub mod Stages
pub mod Explanations
mod Tests
use sentinel_ai_v3_0_the_fin.Prelude.{
  ℤ, pos, String, Bool, true, false, ◌&&◌, Option, none, some, List, [], ◌∷◌, ◌++◌, ◌==◌,
  if◌then◌else◌,
}
use sentinel_ai_v3_0_the_fin.AuditBuffer.{AuditBuffer, append_event}
use sentinel_ai_v3_0_the_fin.RuleEngine.{
  Decision, allow, ExecutionMode, enforce, EvaluationTrace, EvaluationResult,
}

-- What a field of the JSON payload may be; arrays and objects are left out.
pub data PayloadValue : Type 0 where
  null : PayloadValue
  number : ℤ → PayloadValue
  text : String → PayloadValue
  flag : Bool → PayloadValue

-- The keys of the payload that are read.
pub record RawPayload : Type 0 where
  pub amount : Option PayloadValue
  pub country : Option PayloadValue
  pub risk : Option PayloadValue
  pub user_tier : Option PayloadValue

-- `domain_data`; the last two keys are set by the enrichment.
pub record DomainData : Type 0 where
  pub amount : ℤ
  pub country : String
  pub risk_score : ℤ
  pub is_new : Bool
  pub kyc_status : Option String
  pub account_age_days : Option ℤ

pub record Context : Type 0 where
  pub tx_id : String
  pub timestamp : String
  pub raw_payload : RawPayload
  pub domain_data : DomainData
  pub decision : Option String
  pub policy_id : Option String
  pub version : String
  pub traces : List EvaluationTrace
  pub errors : List String
  pub reasons : List String

-- What the stages take from elsewhere; `none` is an exception.
pub record Environment : Type 0 where
  pub parse_float : String → Option ℤ  -- float(text)
  pub str_of : PayloadValue → String  -- str(value)
  pub uuid4 : String
  pub utcnow : String
  pub fast_evaluate : String → DomainData → Option EvaluationResult
  pub event_hash : String → Option String → Option String → String

-- `float(value)`: None is a TypeError, True is 1.0.
unfoldable pub float_of : (String → Option ℤ) → PayloadValue → Option ℤ
float_of parse null = none
float_of parse (number n) = some n
float_of parse (text s) = parse s
float_of parse (flag true) = some (pos 100)
float_of parse (flag false) = some (pos 0)

abbrev pub or_value : PayloadValue → Option PayloadValue → PayloadValue
or_value d none = d
or_value d (some v) = v

abbrev pub is_text : String → Option PayloadValue → Bool
is_text s (some (text t)) = t == s
is_text s _ = false

infixl 5 ◌>>=◌
abbrev pub ◌>>=◌ {ℓ κ} : {A : Type ℓ} {B : Type κ} → Option A → (A → Option B) → Option B
none >>= f = none
some a >>= f = f a

-- `ContextFactory.from_http`
unfoldable pub from_http : Environment → RawPayload → Option Context
unfolding float_of
from_http env payload = do
  amount ← float_of env.parse_float (or_value (number (pos 0)) payload.amount)
  risk_score ← float_of env.parse_float (or_value (number (pos 60)) payload.risk)
  some (record {
    tx_id = env.uuid4;
    timestamp = env.utcnow;
    raw_payload = payload;
    domain_data = record {
      amount = amount;
      country = env.str_of (or_value (text "unknown") payload.country);
      risk_score = risk_score;
      is_new = is_text "new" payload.user_tier;
      kyc_status = none;
      account_age_days = none;
    };
    decision = none;
    policy_id = none;
    version = "unknown";
    traces = [];
    errors = [];
    reasons = [];
  })

-- A context on its way, and the buffer that the stages share.
pub record Run : Type 0 where
  pub ctx : Context
  pub buffer : AuditBuffer

-- `none` is an exception.
abbrev pub Stage : Type 0
Stage = Run → Option Run

-- `mock_db.get(tier, ...)`
unfoldable pub profile_of : PayloadValue → String × ℤ
profile_of (text t) =
    if t == "standard"
    then ("verified", pos 36500)
    else if t == "unverified"
    then ("pending", pos 200)
    else ("none", pos 0)
profile_of _ = ("none", pos 0)

-- `EnrichmentStage`
unfoldable pub enrichment_stage : Stage
unfolding profile_of
enrichment_stage r =
    let profile = profile_of (or_value (text "unverified") r.ctx.raw_payload.user_tier) in
    some (record r {
      ctx = record r.ctx {
        domain_data = record r.ctx.domain_data {
          kyc_status = some profile.0;
          account_age_days = some profile.1;
        };
      };
    })

abbrev pub decision_text : Decision → String
decision_text allow = "SUCCESS"
decision_text _ = "DENIED"

abbrev pub with_result : Run → Option EvaluationResult → Option Run
with_result r none = none
with_result r (some res) = some (record r {
  ctx = record r.ctx {
    decision = some (decision_text res.decision);
    policy_id = some res.policy_id;
    traces = res.traces;
  };
})

-- `RustEvaluationStage`
unfoldable pub rust_evaluation_stage : Environment → Stage
rust_evaluation_stage env r = with_result r (env.fast_evaluate "transfer_funds" r.ctx.domain_data)

-- `"Enforce" in str(t.mode)`
abbrev pub is_enforcing : ExecutionMode → Bool
is_enforcing enforce = true
is_enforcing _ = false

-- A reason is kept as the identifier in "Block by policy: ...".
unfoldable pub block_reasons : List EvaluationTrace → List String
block_reasons [] = []
block_reasons (t ∷ ts) =
    let rest = block_reasons ts in
    if t.matched && is_enforcing t.mode then t.policy_id ∷ rest else rest

abbrev pub is_denied : Option String → Bool
is_denied none = false
is_denied (some d) = d == "DENIED"

-- `ExplainStage`
unfoldable pub explain_stage : Stage
unfolding block_reasons
explain_stage r = some (
    if is_denied r.ctx.decision
    then record r { ctx = record r.ctx { reasons = r.ctx.reasons ++ block_reasons r.ctx.traces } }
    else r)

abbrev pub with_buffer : Run → Option AuditBuffer → Option Run
with_buffer r none = none
with_buffer r (some b) = some (record r { buffer = b })

-- `ForensicAuditStage`
unfoldable pub forensic_audit_stage : Environment → Stage
forensic_audit_stage env r =
    with_buffer r
      (append_event (env.event_hash r.ctx.tx_id r.ctx.decision r.ctx.policy_id) r.buffer)

abbrev pub has_errors : Run → Bool
has_errors r = elim r.ctx.errors [ [] ↦ false | _ ∷ _ ↦ true ]

-- `SentinelPipeline.execute`: it stops after a stage that has left errors.
unfoldable pub execute : List Stage → Stage
execute [] r = some r
execute (stage ∷ stages) r = do
  r' ← stage r
  let rest = execute stages r'
  if has_errors r' then some r' else rest
