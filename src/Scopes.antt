-- ===== src/Scopes.antt =====
-- identity/scopes.py: the scopes of an agent's roles. A set is a test of membership.
pub mod Resolution
mod Tests
use sentinel_ai_v3_0_the_fin.Prelude.{
  String, Bool, true, false, ◌&&◌, ◌||◌, Option, none, some, List, [], ◌∷◌, any, ◌==◌,
  if◌then◌else◌,
}

pub data AgentScope : Type 0 where
  read_balance read_history transfer_funds : AgentScope

-- The value of the enumeration's member.
abbrev pub scope_value : AgentScope → String
scope_value read_balance = "account:read_balance"
scope_value read_history = "account:read_history"
scope_value transfer_funds = "payment:transfer_funds"

pub data AgentRole : Type 0 where
  basic_assistant wealth_manager : AgentRole

abbrev pub role_value : AgentRole → String
role_value basic_assistant = "role:basic_assistant"
role_value wealth_manager = "role:wealth_manager"

-- `AgentRole(role_str)`: `none` is its ValueError.
unfoldable pub parse_role : String → Option AgentRole
parse_role s =
    if s == "role:basic_assistant"
    then some basic_assistant
    else if s == "role:wealth_manager"
    then some wealth_manager
    else none

abbrev pub role_permissions : AgentRole → List AgentScope
role_permissions basic_assistant = read_balance ∷ read_history ∷ []
role_permissions wealth_manager = read_balance ∷ read_history ∷ transfer_funds ∷ []

abbrev pub ScopeSet : Type 0
ScopeSet = AgentScope → Bool

abbrev pub is_scope : AgentScope → AgentScope → Bool
is_scope read_balance read_balance = true
is_scope read_history read_history = true
is_scope transfer_funds transfer_funds = true
is_scope _ _ = false

-- `allowed_scopes.update(ROLE_PERMISSIONS.get(role, set()))`; an unknown role is passed over.
abbrev pub update : Option AgentRole → ScopeSet → ScopeSet
update none allowed scope = allowed scope
update (some role) allowed scope = allowed scope || any (is_scope scope) (role_permissions role)

unfoldable pub collect : List String → ScopeSet → ScopeSet
collect [] allowed = allowed
collect (role_str ∷ roles) allowed = collect roles (update (parse_role role_str) allowed)

-- The values of the collected scopes.
unfoldable pub resolve_agent_scopes : List String → String → Bool
unfolding collect parse_role
resolve_agent_scopes roles value =
    let allowed = collect roles (λ _. false) in
    any (λ s. allowed s && scope_value s == value)
      (read_balance ∷ read_history ∷ transfer_funds ∷ [])
