-- ===== src/RuleEngine/Tests.antt =====
-- Three policies of one tool, one of them in shadow mode.
use sentinel_ai_v3_0_the_fin.Prelude.{String, ◌≡◌, refl, pos, none, some, List, [], ◌∷◌}
use sentinel_ai_v3_0_the_fin.RuleEngine.{
  PolicyValue, float, str, list, nil, cons, value_eq, contains_value, Condition, condition, no_list,
  a_list, nothing, further, no_condition, a_condition, Attributes, get_attribute, Policy, enforce,
  shadow, deny, allow, check_atom, check_condition, visit, visit_all, default_deny, get_tool,
  evaluate_tool, push_policy, group_policies,
}
use sentinel_ai_v3_0_the_fin.RuleEngine.Semantics.{value_of, check_condition_iff}
use sentinel_ai_v3_0_the_fin.RuleEngine.Evaluation.{engine, reference, evaluate_tool_lem}

abbrev atom : String → String → PolicyValue → Condition
atom key op value =
    condition (some (record { attr_key = key; operator = op; value = value })) no_list no_list
      no_condition

abbrev high_risk : Condition
high_risk = atom "risk_score" "gt" (float (pos 80))

abbrev abroad : Condition
abroad =
    condition none no_list no_list
      (a_condition (atom "country" "in" (list (cons (str "ES") (cons (str "FR") nil)))))

abbrev both : Condition
both = condition none (a_list (further high_risk (further abroad nothing))) no_list no_condition

abbrev policies : List Policy
policies =
    record { id = "p1"; tool_name = "transfer_funds"; mode = enforce; condition = both }
    ∷ record { id = "p2"; tool_name = "transfer_funds"; mode = shadow; condition = high_risk }
    ∷ record { id = "p3"; tool_name = "db_write"; mode = enforce; condition = abroad }
    ∷ []

abbrev at_home : Attributes
at_home = ("risk_score", float (pos 95)) ∷ ("country", str "ES") ∷ []

shadow_does_not_deny :
    let r = evaluate_tool "v1" (group_policies policies []) "transfer_funds" at_home in
    (r.decision ≡ allow) × (r.policy_id ≡ "p1") × (r.shadow_decision ≡ deny)
unfolding evaluate_tool group_policies push_policy get_tool visit_all visit check_condition
    check_atom get_attribute contains_value value_eq default_deny
shadow_does_not_deny = (refl, refl, refl)

evaluate_tool_lem_example :
    evaluate_tool "v1" (group_policies policies []) "transfer_funds" at_home
    ≡ reference (engine at_home) "v1" (value_of "transfer_funds" (group_policies policies []))
evaluate_tool_lem_example =
    evaluate_tool_lem at_home (engine at_home) (check_condition_iff at_home) "v1"
      (group_policies policies []) "transfer_funds"
