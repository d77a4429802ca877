-- ===== src/Scopes/Resolution.antt =====
-- Which scopes an agent has.
use sentinel_ai_v3_0_the_fin.Prelude.{
  String, ◌≡◌, ◌≢◌, ◌↔◌, inl, inr, Bool, true, false, ◌&&◌, ◌||◌, List, [], ◌∷◌, any, ◌==◌, arith,
  eq_iff, Bool-cases,
}
use sentinel_ai_v3_0_the_fin.Scopes.{
  AgentScope, read_balance, read_history, transfer_funds, scope_value, AgentRole, basic_assistant,
  wealth_manager, role_value, parse_role, ScopeSet, update, collect, resolve_agent_scopes,
}

-- Whether a role of the list grants the scope: any of the two roles grants reading, the wealth
-- manager alone grants transfers.
abbrev pub holds : AgentRole → List String → Bool
holds role roles = any (λ r. r == role_value role) roles

abbrev pub is_granted : AgentScope → List String → Bool
is_granted transfer_funds roles = holds wealth_manager roles
is_granted _ roles = holds basic_assistant roles || holds wealth_manager roles

two_roles : role_value basic_assistant ≢ role_value wealth_manager
two_roles e = cc ((eq_iff (role_value basic_assistant) (role_value wealth_manager)).1 e)

collect_lem :
    (scope : AgentScope) (roles : List String) (allowed : ScopeSet)
    → collect roles allowed scope ≡ (allowed scope || is_granted scope roles)
unfolding collect parse_role
collect_lem read_balance [] allowed = ground arith
collect_lem read_history [] allowed = ground arith
collect_lem transfer_funds [] allowed = ground arith
collect_lem read_balance (r ∷ roles) allowed = ground (
  arith,
  eq_iff r "role:basic_assistant",
  eq_iff r "role:wealth_manager",
  collect_lem read_balance roles (update (parse_role r) allowed),
)
collect_lem read_history (r ∷ roles) allowed = ground (
  arith,
  eq_iff r "role:basic_assistant",
  eq_iff r "role:wealth_manager",
  collect_lem read_history roles (update (parse_role r) allowed),
)
collect_lem transfer_funds (r ∷ roles) allowed = ground (
  arith,
  eq_iff r "role:basic_assistant",
  eq_iff r "role:wealth_manager",
  two_roles,
  collect_lem transfer_funds roles (update (parse_role r) allowed),
)

abbrev none_yet : ScopeSet
none_yet _ = false

-- A member of the set that the loop collects is granted.
granted_of :
    (roles : List String) (value : String) (scope : AgentScope)
    → (collect roles none_yet scope && scope_value scope == value) ≡ true
    → (value ≡ scope_value scope) × (is_granted scope roles ≡ true)
granted_of roles value scope e =
    ground (arith, e, collect_lem scope roles none_yet, eq_iff (scope_value scope) value)

of_granted :
    (roles : List String) (value : String) (scope : AgentScope)
    → value ≡ scope_value scope
    → is_granted scope roles ≡ true
    → (collect roles none_yet scope && scope_value scope == value) ≡ true
of_granted roles value scope e g =
    ground (arith, e, g, collect_lem scope roles none_yet, eq_iff (scope_value scope) value)

one_of_three :
    (f : AgentScope → Bool)
    → (f read_balance || (f read_history || (f transfer_funds || false))) ≡ true
    → (scope : AgentScope) × (f scope ≡ true)
one_of_three f e = elim (Bool-cases (f read_balance)) [
  | inl p ↦ (read_balance, p)
  | inr p ↦ elim (Bool-cases (f read_history)) [
    | inl q ↦ (read_history, q)
    | inr q ↦ (transfer_funds, ground (arith, e, p, q))
  ]
]

three_of_one :
    (f : AgentScope → Bool) (scope : AgentScope)
    → f scope ≡ true
    → (f read_balance || (f read_history || (f transfer_funds || false))) ≡ true
three_of_one f read_balance e = ground (arith, e)
three_of_one f read_history e = ground (arith, e)
three_of_one f transfer_funds e = ground (arith, e)

-- Least privilege: an agent has the scope to read balances or the history exactly if one of the two
-- known roles is in its list, and the scope to transfer funds exactly if the wealth manager's is;
-- unknown roles add nothing, and no other value is in the set.
pub resolve_agent_scopes_iff :
    (roles : List String) (value : String)
    → (resolve_agent_scopes roles value ≡ true)
      ↔ ((scope : AgentScope) × (value ≡ scope_value scope) × (is_granted scope roles ≡ true))
unfolding resolve_agent_scopes
resolve_agent_scopes_iff roles value =
    let f = λ (s : AgentScope). collect roles none_yet s && scope_value s == value in
    (
      λ e.
          let found = one_of_three f e in
          let why = granted_of roles value found.0 found.1 in (found.0, why.0, why.1),
      λ h. three_of_one f h.0 (of_granted roles value h.0 h.1 h.2),
    )
