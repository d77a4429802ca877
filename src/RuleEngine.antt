-- ===== src/RuleEngine.antt =====
-- core/sentinel-core/src/models.rs, engine.rs and store.rs: the policy engine of the Rust core, its
-- conditions, its policies in enforcing and in shadow mode, and the store that groups them by tool.
-- The numbers, `f32` in the source, are integers in hundredths.
pub mod Semantics
pub mod Evaluation
pub mod Loading
mod Tests
use text.Mathlib.Text.{find?}
use sentinel_ai_v3_0_the_fin.Prelude.{
  is_some, ℤ, String, Bool, true, false, not, ◌&&◌, ◌||◌, Option, none, some, List, [], ◌∷◌, ◌++◌,
  ltb_ℤ, eqb_ℤ, ◌==◌, if◌then◌else◌,
}

-- `PolicyValue`, and its `Vec`.
mutual
  pub data PolicyValue : Type 0 where
    float : ℤ → PolicyValue
    str : String → PolicyValue
    bool : Bool → PolicyValue
    list : PolicyValues → PolicyValue

  pub data PolicyValues : Type 0 where
    nil : PolicyValues
    cons : PolicyValue → PolicyValues → PolicyValues

abbrev bool_eq : Bool → Bool → Bool
bool_eq true b = b
bool_eq false b = not b

-- The derived `PartialEq`.
unfoldable mutual
  pub value_eq : PolicyValue → PolicyValue → Bool
  value_eq (float a) (float b) = eqb_ℤ a b
  value_eq (str a) (str b) = a == b
  value_eq (bool a) (bool b) = bool_eq a b
  value_eq (list xs) (list ys) = values_eq xs ys
  value_eq _ _ = false

  pub values_eq : PolicyValues → PolicyValues → Bool
  values_eq nil nil = true
  values_eq (cons x xs) (cons y ys) = value_eq x y && values_eq xs ys
  values_eq _ _ = false

-- `list.contains(val)`
unfoldable pub contains_value : PolicyValues → PolicyValue → Bool
unfolding value_eq
contains_value nil v = false
contains_value (cons x xs) v = value_eq x v || contains_value xs v

pub record AtomCondition : Type 0 where
  pub attr_key : String
  pub operator : String
  pub value : PolicyValue

-- `Condition { atom, and, or, not }`, with its `Option<Vec<Condition>>` and `Option<Box<Condition>>`.
mutual
  pub data Condition : Type 0 where
    condition :
        Option AtomCondition → MaybeConditions → MaybeConditions → MaybeCondition → Condition

  pub data MaybeConditions : Type 0 where
    no_list : MaybeConditions
    a_list : Conditions → MaybeConditions

  pub data MaybeCondition : Type 0 where
    no_condition : MaybeCondition
    a_condition : Condition → MaybeCondition

  pub data Conditions : Type 0 where
    nothing : Conditions
    further : Condition → Conditions → Conditions

-- `HashMap<String, PolicyValue>`
abbrev pub Attributes : Type 0
Attributes = List (String × PolicyValue)

unfoldable pub get_attribute : String → Attributes → Option PolicyValue
get_attribute key [] = none
get_attribute key ((k, v) ∷ context) = if k == key then some v else get_attribute key context

pub data ExecutionMode : Type 0 where
  enforce shadow : ExecutionMode

pub data Decision : Type 0 where
  allow deny abstain : Decision

pub record Policy : Type 0 where
  pub id : String
  pub tool_name : String
  pub mode : ExecutionMode
  pub condition : Condition

pub record EvaluationTrace : Type 0 where
  pub policy_id : String
  pub matched : Bool
  pub mode : ExecutionMode

pub record EvaluationResult : Type 0 where
  pub decision : Decision
  pub policy_id : String
  pub shadow_decision : Decision
  pub shadow_policy_id : String
  pub reason : String
  pub version : String
  pub traces : List EvaluationTrace

-- `a.contains(b)` on texts.
abbrev contains : String → String → Bool
contains a b = is_some (find? a b)

-- The `match` on the attribute, the value and the operator.
unfoldable pub check_atom : Option PolicyValue → PolicyValue → String → Bool
unfolding contains_value
check_atom (some (float a)) (float b) op =
    if op == "gt" then ltb_ℤ b a else if op == "lt" then ltb_ℤ a b else false
check_atom (some (str a)) (str b) op =
    if op == "eq" then a == b else if op == "contains" then contains a b else false
check_atom (some v) (list vs) op =
    if op == "in"
    then contains_value vs v
    else if op == "not_in"
    then not (contains_value vs v)
    else false
check_atom _ _ op = false

unfoldable mutual
  unfolding check_atom get_attribute

  pub check_condition : Condition → Attributes → Bool
  check_condition (condition (some atom) _ _ _) context =
      check_atom (get_attribute atom.attr_key context) atom.value atom.operator
  check_condition (condition none (a_list conds) _ _) context = all_hold conds context
  check_condition (condition none no_list (a_list conds) _) context = any_holds conds context
  check_condition (condition none no_list no_list (a_condition c)) context =
      not (check_condition c context)
  check_condition (condition none no_list no_list no_condition) context = false

  pub all_hold : Conditions → Attributes → Bool
  all_hold nothing context = true
  all_hold (further c cs) context = check_condition c context && all_hold cs context

  pub any_holds : Conditions → Attributes → Bool
  any_holds nothing context = false
  any_holds (further c cs) context = check_condition c context || any_holds cs context

pub record EngineState : Type 0 where
  pub enforce_state : Decision × String
  pub shadow_state : Decision × String
  pub traces : List EvaluationTrace

abbrev pub is_deny : Decision → Bool
is_deny deny = true
is_deny _ = false

abbrev pub decision_of : Bool → Decision
decision_of is_match = if is_match then deny else allow

-- `if state.0 != Deny { state = (current_decision, policy.id) }`
abbrev pub next_state : Bool → String → Decision × String → Decision × String
next_state is_match id state = if not (is_deny state.0) then (decision_of is_match, id) else state

abbrev pub by_mode : ExecutionMode → Bool → String → EngineState → EngineState
by_mode enforce is_match id s = record s { enforce_state = next_state is_match id s.enforce_state }
by_mode shadow is_match id s = record s { shadow_state = next_state is_match id s.shadow_state }

-- The body of the loop over the policies.
unfoldable pub visit : Attributes → Policy → EngineState → EngineState
visit context p s =
    let is_match = check_condition p.condition context in
    by_mode p.mode is_match p.id (record s {
      traces = s.traces ++ record { policy_id = p.id; matched = is_match; mode = p.mode } ∷ [];
    })

unfoldable pub visit_all : Attributes → List Policy → EngineState → EngineState
unfolding visit
visit_all context [] s = s
visit_all context (p ∷ ps) s = visit_all context ps (visit context p s)

abbrev pub initial_state : EngineState
initial_state = record {
  enforce_state = (abstain, "default");
  shadow_state = (abstain, "default");
  traces = [];
}

unfoldable pub default_deny : String → String → EvaluationResult
default_deny version reason = record {
  decision = deny;
  policy_id = "system";
  shadow_decision = deny;
  shadow_policy_id = "system";
  reason = reason;
  version = version;
  traces = [];
}

abbrev pub result_of : String → EngineState → EvaluationResult
result_of version s = record {
  decision = s.enforce_state.0;
  policy_id = s.enforce_state.1;
  shadow_decision = s.shadow_state.0;
  shadow_policy_id = s.shadow_state.1;
  reason = "Tree evaluation complete";
  version = version;
  traces = s.traces;
}

-- `snapshot.by_tool.get(tool_name)`
unfoldable pub get_tool : String → List (String × List Policy) → Option (List Policy)
get_tool tool_name [] = none
get_tool tool_name ((t, ps) ∷ by_tool) =
    if t == tool_name then some ps else get_tool tool_name by_tool

abbrev pub evaluate_policies : String → Attributes → Option (List Policy) → EvaluationResult
evaluate_policies version context none = default_deny version "No policies found"
evaluate_policies version context (some ps) = result_of version (visit_all context ps initial_state)

-- `EvaluationEngine::evaluate`
unfoldable pub evaluate_tool :
    String → List (String × List Policy) → String → Attributes → EvaluationResult
unfolding get_tool visit_all default_deny
evaluate_tool version by_tool tool_name context =
    evaluate_policies version context (get_tool tool_name by_tool)

-- `map.entry(tool).or_insert_with(Vec::new).push(policy)`
unfoldable pub push_policy : Policy → List (String × List Policy) → List (String × List Policy)
push_policy p [] = (p.tool_name, p ∷ []) ∷ []
push_policy p ((t, ps) ∷ by_tool) =
    if t == p.tool_name then (t, ps ++ p ∷ []) ∷ by_tool else (t, ps) ∷ push_policy p by_tool

-- The loop of `PolicyStore::load_from_file` over the parsed policies.
unfoldable pub group_policies :
    List Policy → List (String × List Policy) → List (String × List Policy)
unfolding push_policy
group_policies [] by_tool = by_tool
group_policies (p ∷ ps) by_tool = group_policies ps (push_policy p by_tool)
