-- ===== src/Pipeline/Stages.antt =====
-- What the four stages make of a payload.
use sentinel_ai_v3_0_the_fin.Prelude.{
  ◌≡◌, refl, ap, ◌∙◌, String, false, Option, some, List, [], ◌∷◌, ◌++◌, arith,
}
use sentinel_ai_v3_0_the_fin.AuditBuffer.{AuditBuffer}
use sentinel_ai_v3_0_the_fin.AuditBuffer.Events.{Holds, append_event-Performs}
use sentinel_ai_v3_0_the_fin.RuleEngine.{
  Decision, allow, deny, abstain, EvaluationTrace, EvaluationResult,
}
use sentinel_ai_v3_0_the_fin.Pipeline.Runs.{execute_step}
use sentinel_ai_v3_0_the_fin.Pipeline.{
  RawPayload, DomainData, Context, Environment, Run, Stage, text, or_value, profile_of, from_http,
  enrichment_stage, rust_evaluation_stage, block_reasons, decision_text, explain_stage,
  forensic_audit_stage, with_result, with_buffer, has_errors, execute,
}

-- The stages in the order in which they stand in core/app/stages.py.
abbrev pub all_stages : Environment → List Stage
all_stages env =
    enrichment_stage ∷ rust_evaluation_stage env ∷ explain_stage ∷ forensic_audit_stage env ∷ []

-- What the evaluator is asked about.
abbrev pub enriched : Context → DomainData
enriched ctx = record ctx.domain_data {
  kyc_status = some (profile_of (or_value (text "unverified") ctx.raw_payload.user_tier)).0;
  account_age_days = some (profile_of (or_value (text "unverified") ctx.raw_payload.user_tier)).1;
}

abbrev pub reasons_for : Decision → List EvaluationTrace → List String
reasons_for allow ts = []
reasons_for _ ts = block_reasons ts

abbrev pub reasons_of : EvaluationResult → List String
reasons_of res = reasons_for res.decision res.traces

abbrev pub hash_of : Environment → Context → EvaluationResult → String
hash_of env ctx res =
    env.event_hash ctx.tx_id (some (decision_text res.decision)) (some res.policy_id)

-- What a run of the whole pipeline leaves, with `all` the events that the buffer had taken before.
pub record Completes (env : Environment) (ctx : Context) (res : EvaluationResult)
    (all : List String) (result : Option Run) : Type 0 where
  pub run : Run
  pub returned : result ≡ some run
  pub decided : run.ctx.decision ≡ some (decision_text res.decision)
  pub attributed : run.ctx.policy_id ≡ some res.policy_id
  pub explained : run.ctx.reasons ≡ reasons_of res
  pub recorded : Holds (all ++ hash_of env ctx res ∷ []) run.buffer

-- A context as the factory makes it.
pub record IsFresh (ctx : Context) : Type 0 where
  pub no_errors : ctx.errors ≡ []
  pub no_reasons : ctx.reasons ≡ []

from_http-IsFresh :
    (env : Environment) (payload : RawPayload) (ctx : Context)
    → from_http env payload ≡ some ctx
    → IsFresh ctx
unfolding from_http
from_http-IsFresh env payload ctx e = ground (arith, e)

abbrev with_reasons : Run → List String → Run
with_reasons r reasons = record r { ctx = record r.ctx { reasons = reasons } }

abbrev judged : Run → Decision → List EvaluationTrace → Run
judged r d ts = record r { ctx = record r.ctx { decision = some (decision_text d); traces = ts } }

explain_lem :
    (r : Run) (d : Decision) (ts : List EvaluationTrace)
    → r.ctx.reasons ≡ []
    → explain_stage (judged r d ts) ≡ some (with_reasons (judged r d ts) (reasons_for d ts))
unfolding explain_stage
explain_lem r allow ts n = ap (λ rs. some (with_reasons (judged r allow ts) rs)) n
explain_lem r deny ts n =
    ap (λ rs. some (with_reasons (judged r deny ts) (rs ++ block_reasons ts))) n
explain_lem r abstain ts n =
    ap (λ rs. some (with_reasons (judged r abstain ts) (rs ++ block_reasons ts))) n

has_errors_lem : (r : Run) → r.ctx.errors ≡ [] → has_errors r ≡ false
has_errors_lem r e = ground (arith, e)

module _ (env : Environment) (ctx : Context) (buffer : AuditBuffer) (all : List String) where
  abbrev evaluated : EvaluationResult → Run
  evaluated res = record {
    ctx = record ctx {
      domain_data = enriched ctx;
      decision = some (decision_text res.decision);
      policy_id = some res.policy_id;
      traces = res.traces;
    };
    buffer = buffer;
  }

  pub run-Completes :
      (res : EvaluationResult)
      → IsFresh ctx
      → env.fast_evaluate "transfer_funds" (enriched ctx) ≡ some res
      → Holds all buffer
      → Completes env ctx res all (execute (all_stages env) (record { ctx = ctx; buffer = buffer }))
  unfolding enrichment_stage rust_evaluation_stage forensic_audit_stage execute
  run-Completes res fresh e h =
      let r1 : Run = record { ctx = record ctx { domain_data = enriched ctx }; buffer = buffer } in
      let r2 : Run = evaluated res in
      let r3 : Run = with_reasons r2 (reasons_of res) in
      let kept = append_event-Performs all (hash_of env ctx res) buffer h in
      let r4 : Run = record r3 { buffer = kept.result } in
      let last_two : List Stage = explain_stage ∷ forensic_audit_stage env ∷ [] in
      record {
        run = r4;
        returned =
            execute_step enrichment_stage (rust_evaluation_stage env ∷ last_two)
              (record { ctx = ctx; buffer = buffer }) r1 refl (has_errors_lem r1 fresh.no_errors)
            ∙ execute_step (rust_evaluation_stage env) last_two r1 r2 (ap (with_result r1) e)
                (has_errors_lem r2 fresh.no_errors)
            ∙ execute_step explain_stage (forensic_audit_stage env ∷ []) r2 r3
                (explain_lem r2 res.decision res.traces fresh.no_reasons)
                (has_errors_lem r3 fresh.no_errors)
            ∙ execute_step (forensic_audit_stage env) [] r3 r4 (ap (with_buffer r3) kept.succeeds)
                (has_errors_lem r4 fresh.no_errors);
        decided = refl;
        attributed = refl;
        explained = refl;
        recorded = kept.holds;
      }

-- A payload that the factory can read, on a buffer that holds the events `all`, passes all four
-- stages if the evaluator answers: the decision is SUCCESS exactly if the evaluator allows, the policy
-- is the evaluator's, the reasons are the enforcing policies that matched, in their order, if it does
-- not allow and none if it does, and the buffer takes exactly one more event, the hash of the
-- identifier, the decision and the policy.
pub from_http-Completes :
    (env : Environment) (payload : RawPayload) (buffer : AuditBuffer) (all : List String)
    (ctx : Context) (res : EvaluationResult)
    → from_http env payload ≡ some ctx
    → env.fast_evaluate "transfer_funds" (enriched ctx) ≡ some res
    → Holds all buffer
    → Completes env ctx res all (execute (all_stages env) (record { ctx = ctx; buffer = buffer }))
from_http-Completes env payload buffer all ctx res p e h =
    run-Completes env ctx buffer all res (from_http-IsFresh env payload ctx p) e h
