-- ===== src/PolicyEngine.antt =====
-- execution/policy_engine.py: `PolicyEngine.evaluate`, the roles, limits and blocked targets of an
-- action. Amounts and limits are in one unit; the numbers in the texts of the reasons are kept apart.
pub mod Decisions
pub mod Reloading
mod Tests
use text.Mathlib.Text.{starts_with}
use sentinel_ai_v3_0_the_fin.Prelude.{
  ℤ, pos, String, Bool, true, false, not, Option, none, some, List, [], ◌∷◌, any, find_first, ltb_ℤ,
  eqb_ℤ, ◌==◌, if◌then◌else◌,
}

-- `limits.max_amount_usd` and `restrictions.blocked_prefixes` are flattened into the policy; an
-- explicit null in the file is `none`.
pub record ActionPolicy : Type 0 where
  pub allowed_roles : List String
  pub max_amount_usd : Option ℤ
  pub blocked_prefixes : Option (List String)

pub record SecurityPolicy : Type 0 where
  pub actions : List (String × ActionPolicy)

-- The entries of the dictionary `context` that are read.
pub record Context : Type 0 where
  pub amount : Option ℤ
  pub target : Option String

pub data Reason : Type 0 where
  policies_not_loaded : Reason
  action_not_defined : String → Reason
  role_not_allowed : String → Reason
  limit_exceeded : ℤ → Reason
  target_blocked : String → Reason

-- `type_error` is the exception of a loop over None.
pub data Evaluation : Type 0 where
  allowed type_error : Evaluation
  denied : Reason → Evaluation

-- `actions.get(action)`
unfoldable pub get_action : String → List (String × ActionPolicy) → Option ActionPolicy
get_action action [] = none
get_action action ((name, p) ∷ ps) = if name == action then some p else get_action action ps

abbrev pub or_empty_text : Option String → String
or_empty_text none = ""
or_empty_text (some s) = s

-- The loop over the prefixes.
unfoldable pub check_prefixes : String → Option (List String) → Evaluation
check_prefixes target none = type_error
check_prefixes target (some []) = allowed
check_prefixes target (some (prefix ∷ prefixes)) =
    let rest = check_prefixes target (some prefixes) in
    if starts_with target prefix then denied (target_blocked prefix) else rest

-- `amount is not None and limits.max_amount_usd`, and `amount > limits.max_amount_usd`; a limit of 0
-- is false.
abbrev pub over_limit : Option ℤ → Option ℤ → Option ℤ
over_limit none limit = none
over_limit (some amount) none = none
over_limit (some amount) (some limit) =
    if eqb_ℤ limit (pos 0) then none else if ltb_ℤ limit amount then some limit else none

abbrev pub check_limit : Option ℤ → Evaluation → Evaluation
check_limit none rest = rest
check_limit (some limit) rest = denied (limit_exceeded limit)

abbrev pub check_action : String → String → Context → Option ActionPolicy → Evaluation
check_action action role context none = denied (action_not_defined action)
check_action action role context (some p) =
    if not (any (λ r. r == role) p.allowed_roles)
    then denied (role_not_allowed role)
    else check_limit (over_limit context.amount p.max_amount_usd)
        (check_prefixes (or_empty_text context.target) p.blocked_prefixes)

unfoldable pub evaluate : Option SecurityPolicy → String → String → Context → Evaluation
unfolding get_action check_prefixes
evaluate none action role context = denied policies_not_loaded
evaluate (some policy) action role context =
    check_action action role context (get_action action policy.actions)

-- How `reload_policies` ends: FileNotFoundError and every other exception are raised again.
pub data Reloaded : Type 0 where
  loaded not_found invalid : Reloaded

abbrev pub set_policy :
    Option SecurityPolicy → Option SecurityPolicy → Reloaded × Option SecurityPolicy
set_policy none policy = (invalid, policy)
set_policy (some p) policy = (loaded, some p)

-- `parse` is yaml.safe_load with the validation of SecurityPolicy; `file` is what stands at the path.
unfoldable pub reload_policies :
    (String → Option SecurityPolicy)
    → Option String
    → Option SecurityPolicy
    → Reloaded × Option SecurityPolicy
reload_policies parse none policy = (not_found, policy)
reload_policies parse (some text) policy = set_policy (parse text) policy

abbrev pub constructed : Reloaded × Option SecurityPolicy → Option (Option SecurityPolicy)
constructed (loaded, policy) = some policy
constructed (_, policy) = none

-- `PolicyEngine.__init__`: `none` is an exception.
unfoldable pub new_engine :
    (String → Option SecurityPolicy) → Option String → Option (Option SecurityPolicy)
unfolding reload_policies
new_engine parse file = constructed (reload_policies parse file none)
