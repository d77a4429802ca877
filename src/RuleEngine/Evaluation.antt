-- ===== src/RuleEngine/Evaluation.antt =====
-- What the loop over the policies decides.
use mathlib.Core.List.{append_assoc, append-nil}
use sentinel_ai_v3_0_the_fin.Prelude.{
  String, ◌≡◌, refl, sym, ap, ◌∙◌, Bool, true, false, ◌&&◌, Option, none, some, List, [], ◌∷◌, ◌++◌,
  map, arith, if◌then◌else◌, ◌↔◌, Bool-cases, inl, inr, ◌==◌,
}
use sentinel_ai_v3_0_the_fin.RuleEngine.Semantics.{Holds, value_of, check_condition_iff}
use sentinel_ai_v3_0_the_fin.RuleEngine.{
  Attributes, Condition, Policy, Decision, allow, deny, abstain, ExecutionMode, enforce, shadow,
  EvaluationTrace, EvaluationResult, check_condition, EngineState, is_deny, visit, visit_all,
  initial_state, default_deny, get_tool, evaluate_policies, evaluate_tool,
}

abbrev pub is_mode : ExecutionMode → ExecutionMode → Bool
is_mode enforce enforce = true
is_mode shadow shadow = true
is_mode _ _ = false

-- `test` is a test of what the conditions say.
module _ (test : Condition → Bool) where
  -- The first policy of a mode that matches.
  abbrev pub first_match : ExecutionMode → List Policy → Option String
  first_match m [] = none
  first_match m (p ∷ ps) =
      if is_mode m p.mode && test p.condition then some p.id else first_match m ps

  -- The last policy of a mode.
  abbrev pub last_of : ExecutionMode → List Policy → Option String
  last_of m [] = none
  last_of m (p ∷ ps) = elim (last_of m ps) [
    | some id ↦ some id
    | none ↦ if is_mode m p.mode then some p.id else none
  ]

  -- The decision of a mode: denied by its first policy that matches; if none does, allowed by its
  -- last one; if it has none, as before.
  abbrev pub verdict_from : ExecutionMode → List Policy → Decision × String → Decision × String
  verdict_from m ps before = elim (first_match m ps) [
    | some id ↦ (deny, id)
    | none ↦ elim (last_of m ps) [ some id ↦ (allow, id) | none ↦ before ]
  ]

  abbrev pub verdict : ExecutionMode → List Policy → Decision × String
  verdict m ps = verdict_from m ps (abstain, "default")

  abbrev pub trace_of : Policy → EvaluationTrace
  trace_of p = record { policy_id = p.id; matched = test p.condition; mode = p.mode }

  -- What the engine answers for the policies of a tool, with the reference definitions above.
  abbrev pub reference : String → Option (List Policy) → EvaluationResult
  reference version none = record {
    decision = deny;
    policy_id = "system";
    shadow_decision = deny;
    shadow_policy_id = "system";
    reason = "No policies found";
    version = version;
    traces = [];
  }
  reference version (some ps) = record {
    decision = (verdict enforce ps).0;
    policy_id = (verdict enforce ps).1;
    shadow_decision = (verdict shadow ps).0;
    shadow_policy_id = (verdict shadow ps).1;
    reason = "Tree evaluation complete";
    version = version;
    traces = map trace_of ps;
  }

-- The engine's own test.
abbrev pub engine : Attributes → Condition → Bool
engine context c = check_condition c context

module _ (context : Attributes) where
  abbrev state_of : ExecutionMode → EngineState → Decision × String
  state_of enforce s = s.enforce_state
  state_of shadow s = s.shadow_state

  denied_stays :
      (m : ExecutionMode) (ps : List Policy) (s : EngineState)
      → is_deny (state_of m s).0 ≡ true
      → state_of m (visit_all context ps s) ≡ state_of m s
  unfolding visit_all
  denied_stays m [] s h = refl
  denied_stays enforce (p ∷ ps) s h = ground (arith, denied_stays enforce ps (visit context p s))
  denied_stays shadow (p ∷ ps) s h = ground (arith, denied_stays shadow ps (visit context p s))

  decided :
      (m : ExecutionMode) (ps : List Policy) (s : EngineState)
      → is_deny (state_of m s).0 ≡ false
      → state_of m (visit_all context ps s) ≡ verdict_from (engine context) m ps (state_of m s)
  unfolding visit_all
  decided m [] s h = refl
  decided enforce (p ∷ ps) s h =
      ground
        (arith, decided enforce ps (visit context p s), denied_stays enforce ps (visit context p s))
  decided shadow (p ∷ ps) s h =
      ground
        (arith, decided shadow ps (visit context p s), denied_stays shadow ps (visit context p s))

  visited :
      (p : Policy) (s : EngineState)
      → (visit context p s).traces ≡ s.traces ++ trace_of (engine context) p ∷ []
  unfolding visit
  visited p s = ground arith

  traced :
      (ps : List Policy) (s : EngineState)
      → (visit_all context ps s).traces ≡ s.traces ++ map (trace_of (engine context)) ps
  unfolding visit_all
  traced [] s = sym (append-nil s.traces)
  traced (p ∷ ps) s =
      traced ps (visit context p s)
      ∙ ap (λ ts. ts ++ map (trace_of (engine context)) ps) (visited p s)
      ∙ append_assoc s.traces (trace_of (engine context) p ∷ [])
          (map (trace_of (engine context)) ps)

  pub evaluate_policies_lem :
      (version : String) (found : Option (List Policy))
      → evaluate_policies version context found ≡ reference (engine context) version found
  unfolding default_deny
  evaluate_policies_lem version none = refl
  evaluate_policies_lem version (some ps) =
      let e = decided enforce ps initial_state refl in
      let s = decided shadow ps initial_state refl in
      let t = traced ps initial_state in
      λ i. record {
        decision = (e i).0;
        policy_id = (e i).1;
        shadow_decision = (s i).0;
        shadow_policy_id = (s i).1;
        reason = "Tree evaluation complete";
        version = version;
        traces = t i;
      }

  get_tool_lem :
      (tool_name : String) (by_tool : List (String × List Policy))
      → get_tool tool_name by_tool ≡ value_of tool_name by_tool
  unfolding get_tool
  get_tool_lem tool_name [] = refl
  get_tool_lem tool_name ((t, ps) ∷ by_tool) = elim (Bool-cases (t == tool_name)) [
    | inl e ↦ rw e refl
    | inr n ↦ rw n (get_tool_lem tool_name by_tool)
  ]

  same_test :
      (test : Condition → Bool) (c : Condition)
      → (test c ≡ true) ↔ Holds context c
      → engine context c ≡ test c
  same_test test c h = ground (arith, h, check_condition_iff context c)

  -- The engine's one loop computes what the policies of each mode decide by themselves: the decision
  -- is a denial by the first enforcing policy whose condition holds, or else an approval by the last
  -- enforcing policy, or, if there is none, an abstention; the shadow decision is the same for the
  -- shadow policies; the traces are those of all policies in their order; and a tool without
  -- policies is denied in both modes. So no shadow policy has a part in the decision. Whether a
  -- condition holds is decided by any test that agrees with what conditions say.
  pub evaluate_tool_lem :
      (test : Condition → Bool)
      → ((c : Condition) → (test c ≡ true) ↔ Holds context c)
      → (version : String) (by_tool : List (String × List Policy)) (tool_name : String)
      → evaluate_tool version by_tool tool_name context
        ≡ reference test version (value_of tool_name by_tool)
  unfolding evaluate_tool
  evaluate_tool_lem test agrees version by_tool tool_name =
      ap (evaluate_policies version context) (get_tool_lem tool_name by_tool)
      ∙ evaluate_policies_lem version (value_of tool_name by_tool)
      ∙ λ i. reference (λ c. same_test test c (agrees c) i) version (value_of tool_name by_tool)
