-- ===== src/RuleEngine/Loading.antt =====
-- What the store knows of a tool once the policies are loaded.
use mathlib.Core.List.{append_assoc, append-nil}
use sentinel_ai_v3_0_the_fin.Prelude.{
  String, ◌≡◌, refl, sym, ap, ◌∙◌, Bool, Option, none, some, List, [], ◌∷◌, ◌++◌, arith, keep, ◌==◌,
  eq_iff, if◌then◌else◌, Bool-cases, inl, inr,
}
use sentinel_ai_v3_0_the_fin.RuleEngine.{Policy, get_tool, push_policy, group_policies}

abbrev pub is_for : String → Policy → Bool
is_for tool_name p = p.tool_name == tool_name

-- One more policy for a tool: the first makes its entry.
abbrev pub with_policy : Policy → Option (List Policy) → Option (List Policy)
with_policy p none = some (p ∷ [])
with_policy p (some ps) = some (ps ++ p ∷ [])

get_tool-push :
    (p : Policy) (tool_name : String) (by_tool : List (String × List Policy))
    → get_tool tool_name (push_policy p by_tool) ≡ (
        if is_for tool_name p
        then with_policy p (get_tool tool_name by_tool)
        else get_tool tool_name by_tool)
unfolding get_tool push_policy
get_tool-push p tool_name [] = ground arith
get_tool-push p tool_name ((t, ps) ∷ by_tool) = ground (
  arith,
  eq_iff t p.tool_name,
  eq_iff t tool_name,
  eq_iff p.tool_name tool_name,
  get_tool-push p tool_name by_tool,
)

-- The policies of a list for one tool, after those that were there.
abbrev pub with_policies : List Policy → Option (List Policy) → Option (List Policy)
with_policies [] found = found
with_policies (p ∷ ps) found = with_policies ps (with_policy p found)

get_tool-group :
    (ps : List Policy) (tool_name : String) (by_tool : List (String × List Policy))
    → get_tool tool_name (group_policies ps by_tool)
      ≡ with_policies (keep (is_for tool_name) ps) (get_tool tool_name by_tool)
unfolding group_policies
get_tool-group [] tool_name by_tool = refl
get_tool-group (p ∷ ps) tool_name by_tool = elim (Bool-cases (is_for tool_name p)) [
  | inl q ↦ rw q (
      get_tool-group ps tool_name (push_policy p by_tool)
      ∙ ap (with_policies (keep (is_for tool_name) ps))
          (get_tool-push p tool_name by_tool ∙ rw q refl))
  | inr q ↦ rw q (
      get_tool-group ps tool_name (push_policy p by_tool)
      ∙ ap (with_policies (keep (is_for tool_name) ps))
          (get_tool-push p tool_name by_tool ∙ rw q refl))
]

with_policies-some : (ps qs : List Policy) → with_policies ps (some qs) ≡ some (qs ++ ps)
with_policies-some [] qs = ap some (sym (append-nil qs))
with_policies-some (p ∷ ps) qs =
    with_policies-some ps (qs ++ p ∷ []) ∙ ap some (append_assoc qs (p ∷ []) ps)

abbrev pub some_list : List Policy → Option (List Policy)
some_list [] = none
some_list (p ∷ ps) = some (p ∷ ps)

with_policies-none : (ps : List Policy) → with_policies ps none ≡ some_list ps
with_policies-none [] = refl
with_policies-none (p ∷ ps) = with_policies-some ps (p ∷ [])

-- Grouping loses and reorders nothing: after loading, the store has for each tool the policies of the
-- file that name it, in the order of the file, and no entry for a tool that none of them names.
pub get_tool-load :
    (policies : List Policy) (tool_name : String)
    → get_tool tool_name (group_policies policies []) ≡ some_list (keep (is_for tool_name) policies)
unfolding get_tool
get_tool-load policies tool_name =
    get_tool-group policies tool_name [] ∙ with_policies-none (keep (is_for tool_name) policies)
