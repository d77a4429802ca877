-- ===== src/Pipeline/Explanations.antt =====
-- The pipeline with the Rust engine as its evaluator: how a denial is explained.
use sentinel_ai_v3_0_the_fin.Prelude.{
  ◌≡◌, inl, inr, refl, ap, ◌∙◌, String, ◌&&◌, Option, none, some, List, [], ◌∷◌, map, arith,
  Bool-cases,
}
use sentinel_ai_v3_0_the_fin.AuditBuffer.{AuditBuffer}
use sentinel_ai_v3_0_the_fin.AuditBuffer.Events.{Holds}
use sentinel_ai_v3_0_the_fin.RuleEngine.{
  Attributes, Policy, enforce, check_condition, get_tool, evaluate_tool,
}
use sentinel_ai_v3_0_the_fin.RuleEngine.Evaluation.{
  first_match, last_of, verdict, trace_of, engine, reference, evaluate_policies_lem,
}
use sentinel_ai_v3_0_the_fin.Pipeline.{
  RawPayload, Context, Environment, Run, block_reasons, decision_text, from_http, execute,
  is_enforcing,
}
use sentinel_ai_v3_0_the_fin.Pipeline.Stages.{
  all_stages, enriched, reasons_for, Completes, from_http-Completes,
}

module _ (context : Attributes) where
  reasons_begin :
      (ps : List Policy) (id : String)
      → first_match (engine context) enforce ps ≡ some id
      → (rest : List String) × (block_reasons (map (trace_of (engine context)) ps) ≡ id ∷ rest)
  unfolding block_reasons
  reasons_begin [] id e = cc e
  reasons_begin (p ∷ ps) id e =
      elim (Bool-cases (check_condition p.condition context && is_enforcing p.mode)) [
        | inl q ↦ (block_reasons (map (trace_of (engine context)) ps), ground (arith, e, q))
        | inr q ↦ let later = reasons_begin ps id (ground (arith, e, q)) in (later.0, rw q later.1)
      ]

  no_reasons :
      (ps : List Policy)
      → first_match (engine context) enforce ps ≡ none
      → block_reasons (map (trace_of (engine context)) ps) ≡ []
  unfolding block_reasons
  no_reasons [] e = refl
  no_reasons (p ∷ ps) e = ground (arith, e, no_reasons ps)

  -- A decision, the policy that it is put down to, and the reasons.
  abbrev pub Says : String → String → List String → Run → Type 0
  Says decision policy_id reasons r =
      (r.ctx.decision ≡ some decision)
      × (r.ctx.policy_id ≡ some policy_id)
      × (r.ctx.reasons ≡ reasons)

  -- Denied by the first enforcing policy that matches, which is the first reason; or allowed by the
  -- last enforcing policy, with no reason; or denied by default without a reason, if there is none.
  abbrev pub Told : Option String → Option String → Run → Type 0
  Told (some id) last r = (rest : List String) × Says "DENIED" id (id ∷ rest) r
  Told none (some id) r = Says "SUCCESS" id [] r
  Told none none r = Says "DENIED" "default" [] r

  abbrev pub Explains : Option (List Policy) → Run → Type 0
  Explains none r = Says "DENIED" "system" [] r
  Explains (some ps) r =
      Told (first_match (engine context) enforce ps) (last_of (engine context) enforce ps) r

  told :
      (ps : List Policy) (r : Run) (first last : Option String)
      → first_match (engine context) enforce ps ≡ first
      → last_of (engine context) enforce ps ≡ last
      → r.ctx.decision ≡ some (decision_text (verdict (engine context) enforce ps).0)
      → r.ctx.policy_id ≡ some (verdict (engine context) enforce ps).1
      → r.ctx.reasons
        ≡ reasons_for (verdict (engine context) enforce ps).0 (map (trace_of (engine context)) ps)
      → Told first last r
  told ps r (some id) last f l d p w =
      let begin = reasons_begin ps id f in
      (begin.0, (ground (arith, d, f), ground (arith, p, f), ground (arith, w, f, begin.1)))
  told ps r none (some id) f l d p w =
      (ground (arith, d, f, l), ground (arith, p, f, l), ground (arith, w, f, l))
  told ps r none none f l d p w =
      (ground (arith, d, f, l), ground (arith, p, f, l), ground (arith, w, f, l, no_reasons ps f))

module _ (env : Environment) (payload : RawPayload) (buffer : AuditBuffer) (all : List String)
    (ctx : Context) (attributes : Attributes) where
  run-Explains :
      (version : String) (found : Option (List Policy)) (result : Option Run)
      → Completes env ctx (reference (engine attributes) version found) all result
      → (r : Run) × (result ≡ some r) × Explains attributes found r
  unfolding block_reasons
  run-Explains version none result c = (c.run, c.returned, (c.decided, c.attributed, c.explained))
  run-Explains version (some ps) result c = (
    c.run,
    c.returned,
    told attributes ps c.run (first_match (engine attributes) enforce ps)
        (last_of (engine attributes) enforce ps) refl refl c.decided c.attributed c.explained,
  )

  -- With the Rust engine as the evaluator, on the attributes that it is given, every run of the
  -- pipeline on a readable payload ends, and explains itself: DENIED by the first enforcing policy of
  -- transfer_funds that matches, which is also the first of its reasons; or SUCCESS by the last
  -- enforcing policy, without a reason, if none matches; or DENIED without a reason if the tool has
  -- no enforcing policy or no policy at all.
  pub pipeline-Explains :
      (version : String) (by_tool : List (String × List Policy))
      → from_http env payload ≡ some ctx
      → env.fast_evaluate "transfer_funds" (enriched ctx)
        ≡ some (evaluate_tool version by_tool "transfer_funds" attributes)
      → Holds all buffer
      → (r : Run) × (execute (all_stages env) (record { ctx = ctx; buffer = buffer }) ≡ some r)
        × Explains attributes (get_tool "transfer_funds" by_tool) r
  unfolding evaluate_tool
  pipeline-Explains version by_tool p e h =
      run-Explains version (get_tool "transfer_funds" by_tool)
        (execute (all_stages env) (record { ctx = ctx; buffer = buffer }))
        (from_http-Completes env payload buffer all ctx
          (reference (engine attributes) version (get_tool "transfer_funds" by_tool)) p
          (e
            ∙ ap some
                (evaluate_policies_lem attributes version (get_tool "transfer_funds" by_tool)))
          h)
