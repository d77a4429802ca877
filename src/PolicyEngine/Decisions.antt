-- ===== src/PolicyEngine/Decisions.antt =====
-- When an action is allowed.
use text.Mathlib.Text.{starts_with}
use sentinel_ai_v3_0_the_fin.Prelude.{
  ℤ, pos, negsuc, ◌≤ℤ◌, String, ◌≡◌, ◌↔◌, ◌⊎◌, refl, Bool, true, false, not, Option, none, some,
  List, [], ◌∷◌, any, All, arith, eqb_ℤ, ◌==◌, if◌then◌else◌,
}
use sentinel_ai_v3_0_the_fin.PolicyEngine.{
  ActionPolicy, SecurityPolicy, Context, Reason, Evaluation, allowed, denied, role_not_allowed,
  get_action, or_empty_text, check_prefixes, over_limit, check_limit, check_action, evaluate,
}

-- The amount is within the limit; no limit and a limit of 0 hold nothing back.
abbrev pub WithinLimit : Option ℤ → Option ℤ → Type 0
WithinLimit (some amount) (some limit) = (limit ≡ pos 0) ⊎ (amount ≤ℤ limit)
WithinLimit _ _ = Unit

-- No prefix of the list begins the target, and there is a list.
abbrev pub Unblocked : String → Option (List String) → Type 0
Unblocked target none = ⊥
Unblocked target (some prefixes) = All (λ p. starts_with target p ≡ false) prefixes

eqb_zero : (n : ℤ) → (eqb_ℤ n (pos 0) ≡ true) ↔ (n ≡ pos 0)
eqb_zero (pos n) = ground arith
eqb_zero (negsuc n) = ground arith

check_prefixes_iff :
    (target : String) (prefixes : Option (List String))
    → (check_prefixes target prefixes ≡ allowed) ↔ Unblocked target prefixes
unfolding check_prefixes
check_prefixes_iff target none = (λ e. cc e, λ h. absurd h)
check_prefixes_iff target (some []) = (λ _. tt, λ _. refl)
check_prefixes_iff target (some (p ∷ ps)) = ground (arith, check_prefixes_iff target (some ps))

over_limit_iff :
    (amount limit : Option ℤ) → (over_limit amount limit ≡ none) ↔ WithinLimit amount limit
over_limit_iff none limit = (λ _. tt, λ _. refl)
over_limit_iff (some a) none = (λ _. tt, λ _. refl)
over_limit_iff (some a) (some l) = ground (arith, eqb_zero l)

check_limit_allowed :
    (over : Option ℤ) (rest : Evaluation)
    → (check_limit over rest ≡ allowed) ↔ ((over ≡ none) × (rest ≡ allowed))
check_limit_allowed none rest = (λ e. (refl, e), λ h. h.1)
check_limit_allowed (some l) rest = (λ e. cc e, λ h. cc (h.0))

-- What the policy of an action asks.
pub record Permits (role : String) (context : Context) (p : ActionPolicy) : Type 0 where
  pub has_role : any (λ r. r == role) p.allowed_roles ≡ true
  pub within_limit : WithinLimit context.amount p.max_amount_usd
  pub unblocked : Unblocked (or_empty_text context.target) p.blocked_prefixes

abbrev pub Granted : String → Context → Option ActionPolicy → Type 0
Granted role context none = ⊥
Granted role context (some p) = Permits role context p

abbrev pub entry_of : String → Option SecurityPolicy → Option ActionPolicy
entry_of action none = none
entry_of action (some s) = get_action action s.actions

role_checked :
    (b : Bool) (reason : Reason) (rest : Evaluation)
    → ((if not b then denied reason else rest) ≡ allowed) ↔ ((b ≡ true) × (rest ≡ allowed))
role_checked true reason rest = (λ e. (refl, e), λ h. h.1)
role_checked false reason rest = (λ e. cc e, λ h. cc (h.0))

check_action_iff :
    (action role : String) (context : Context) (entry : Option ActionPolicy)
    → (check_action action role context entry ≡ allowed) ↔ Granted role context entry
check_action_iff action role context none = (λ e. cc e, λ h. absurd h)
check_action_iff action role context (some p) =
    let over = over_limit context.amount p.max_amount_usd in
    let rest = check_prefixes (or_empty_text context.target) p.blocked_prefixes in
    let roles =
      role_checked (any (λ r. r == role) p.allowed_roles) (role_not_allowed role)
        (check_limit over rest) in
    let limits = check_limit_allowed over rest in
    let within = over_limit_iff context.amount p.max_amount_usd in
    let prefixes = check_prefixes_iff (or_empty_text context.target) p.blocked_prefixes in
    (
      λ e.
          let r = roles.0 e in
          let l = limits.0 r.1 in
          record { has_role = r.0; within_limit = within.0 l.0; unblocked = prefixes.0 l.1 },
      λ h. roles.1 (h.has_role, limits.1 (within.1 h.within_limit, prefixes.1 h.unblocked)),
    )

-- The engine allows an action exactly if a policy is loaded that has an entry for the action, and
-- the entry lists the role, the amount is within its limit (or there is no amount, no limit or the
-- limit 0), and none of its list of prefixes begins the target.
pub evaluate_allows_iff :
    (policy : Option SecurityPolicy) (action role : String) (context : Context)
    → (evaluate policy action role context ≡ allowed)
      ↔ Granted role context (entry_of action policy)
unfolding evaluate
evaluate_allows_iff none action role context = (λ e. cc e, λ h. absurd h)
evaluate_allows_iff (some s) action role context =
    check_action_iff action role context (get_action action s.actions)
