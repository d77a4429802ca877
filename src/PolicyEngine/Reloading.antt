-- ===== src/PolicyEngine/Reloading.antt =====
-- Which policy an engine evaluates after its file has been loaded again and again.
use sentinel_ai_v3_0_the_fin.Prelude.{
  String, ◌≡◌, refl, ap, ◌∙◌, Option, none, some, List, [], ◌∷◌, arith,
}
use sentinel_ai_v3_0_the_fin.PolicyEngine.{
  SecurityPolicy, Context, evaluate, reload_policies, set_policy, constructed, new_engine,
}

module _ (parse : String → Option SecurityPolicy) where
  -- The policy after some calls of `reload_policies`, each with what it finds at the path.
  abbrev pub reload_all : List (Option String) → Option SecurityPolicy → Option SecurityPolicy
  reload_all [] policy = policy
  reload_all (file ∷ files) policy = reload_all files (reload_policies parse file policy).1

  abbrev pub or_parsed : SecurityPolicy → Option SecurityPolicy → SecurityPolicy
  or_parsed p none = p
  or_parsed p (some p') = p'

  abbrev pub or_file : SecurityPolicy → Option String → SecurityPolicy
  or_file p none = p
  or_file p (some text) = or_parsed p (parse text)

  -- The last of the files that could be read and parsed.
  abbrev pub last_valid : SecurityPolicy → List (Option String) → SecurityPolicy
  last_valid p [] = p
  last_valid p (file ∷ files) = last_valid (or_file p file) files

  set_policy-some :
      (p : SecurityPolicy) (found : Option SecurityPolicy)
      → (set_policy found (some p)).1 ≡ some (or_parsed p found)
  set_policy-some p none = refl
  set_policy-some p (some p') = refl

  reload_policies-some :
      (p : SecurityPolicy) (file : Option String)
      → (reload_policies parse file (some p)).1 ≡ some (or_file p file)
  unfolding reload_policies
  reload_policies-some p none = refl
  reload_policies-some p (some text) = set_policy-some p (parse text)

  reload_all-some :
      (files : List (Option String)) (p : SecurityPolicy)
      → reload_all files (some p) ≡ some (last_valid p files)
  reload_all-some [] p = refl
  reload_all-some (file ∷ files) p =
      ap (reload_all files) (reload_policies-some p file) ∙ reload_all-some files (or_file p file)

  abbrev pub read_policy : Option String → Option SecurityPolicy
  read_policy none = none
  read_policy (some text) = parse text

  -- The engine's first policy, and what it evaluates after the reloads.
  pub record ServesLastValid (file : Option String) (policy : Option SecurityPolicy)
      (files : List (Option String)) : Type 0 where
    pub first : SecurityPolicy
    pub parsed : read_policy file ≡ some first
    pub latest :
        (action role : String) (context : Context)
        → evaluate (reload_all files policy) action role context
          ≡ evaluate (some (last_valid first files)) action role context

  set_first :
      (found policy : Option SecurityPolicy)
      → constructed (set_policy found none) ≡ some policy
      → (p : SecurityPolicy) × (found ≡ some p) × (policy ≡ some p)
  set_first none policy e = cc e
  set_first (some p) policy e = (p, refl, ground (arith, e))

  first_policy :
      (file : Option String) (policy : Option SecurityPolicy)
      → new_engine parse file ≡ some policy
      → (p : SecurityPolicy) × (read_policy file ≡ some p) × (policy ≡ some p)
  unfolding new_engine reload_policies
  first_policy none policy e = cc e
  first_policy (some text) policy e = set_first (parse text) policy e

  -- An engine always has a policy, the last good one: if its construction did not raise, the first
  -- file could be read and parsed, and after any number of reloads, failing ones included, every
  -- evaluation is that of the policy in the last file that could be read and parsed.
  pub new_engine-ServesLastValid :
      (file : Option String) (policy : Option SecurityPolicy) (files : List (Option String))
      → new_engine parse file ≡ some policy
      → ServesLastValid file policy files
  new_engine-ServesLastValid file policy files e =
      let (p, parsed, found) = first_policy file policy e in
      record {
        first = p;
        parsed = parsed;
        latest = λ action role context.
            ap (λ (x : Option SecurityPolicy). evaluate x action role context)
              (ap (reload_all files) found ∙ reload_all-some files p);
      }
