-- ===== src/PolicyEngine/Tests.antt =====
-- The cases of tests/test_policy_engine.py.
use sentinel_ai_v3_0_the_fin.Prelude.{
  ℤ, pos, ◌≡◌, ◌↔◌, refl, String, Option, none, some, List, ◌==◌, if◌then◌else◌, [], ◌∷◌,
}
use sentinel_ai_v3_0_the_fin.PolicyEngine.{
  SecurityPolicy, Context, allowed, denied, role_not_allowed, limit_exceeded, target_blocked,
  get_action, check_prefixes, evaluate, new_engine, reload_policies,
}
use sentinel_ai_v3_0_the_fin.PolicyEngine.Reloading.{ServesLastValid, new_engine-ServesLastValid}
use sentinel_ai_v3_0_the_fin.PolicyEngine.Decisions.{Granted, entry_of, evaluate_allows_iff}

abbrev policy : ℤ → Option SecurityPolicy
policy max_amount = some (record {
  actions =
      (
        "transfer_funds",
        record {
          allowed_roles = "USER" ∷ "ADMIN" ∷ [];
          max_amount_usd = some max_amount;
          blocked_prefixes = some ("CRYPTO_" ∷ []);
        },
      )
      ∷ [];
})

abbrev context : ℤ → String → Context
context amount target = record { amount = some amount; target = some target }

rbac_allows :
    evaluate (policy (pos 5000)) "transfer_funds" "USER" (context (pos 100) "Bank") ≡ allowed
unfolding evaluate get_action check_prefixes
rbac_allows = refl

rbac_denies :
    evaluate (policy (pos 5000)) "transfer_funds" "HACKER" (context (pos 100) "Bank")
    ≡ denied (role_not_allowed "HACKER")
unfolding evaluate get_action check_prefixes
rbac_denies = refl

over_the_limit :
    evaluate (policy (pos 5000)) "transfer_funds" "USER" (context (pos 6000) "Bank")
    ≡ denied (limit_exceeded (pos 5000))
unfolding evaluate get_action check_prefixes
over_the_limit = refl

blocked_target :
    evaluate (policy (pos 5000)) "transfer_funds" "USER" (context (pos 100) "CRYPTO_WALLET")
    ≡ denied (target_blocked "CRYPTO_")
unfolding evaluate get_action check_prefixes
blocked_target = refl

-- A limit of 0 allows every amount.
zero_is_no_limit :
    evaluate (policy (pos 0)) "transfer_funds" "USER" (context (pos 6000) "Bank") ≡ allowed
unfolding evaluate get_action check_prefixes
zero_is_no_limit = refl

evaluate_allows_iff_example :
    (evaluate (policy (pos 5000)) "transfer_funds" "USER" (context (pos 100) "Bank") ≡ allowed)
    ↔ Granted "USER" (context (pos 100) "Bank") (entry_of "transfer_funds" (policy (pos 5000)))
evaluate_allows_iff_example =
    evaluate_allows_iff (policy (pos 5000)) "transfer_funds" "USER" (context (pos 100) "Bank")

abbrev parse : String → Option SecurityPolicy
parse text =
    if text == "v1" then policy (pos 5000) else if text == "v2" then policy (pos 50) else none

-- The file is missing, then malformed, then new, then missing again.
abbrev contents : List (Option String)
contents = none ∷ some "actions" ∷ some "v2" ∷ none ∷ []

new_engine-ServesLastValid_example : ServesLastValid parse (some "v1") (policy (pos 5000)) contents
unfolding new_engine reload_policies
new_engine-ServesLastValid_example =
    new_engine-ServesLastValid parse (some "v1") (policy (pos 5000)) contents refl
