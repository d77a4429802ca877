-- ===== src/RuleEngine/Semantics.antt =====
-- What the conditions of the policies say, apart from how the engine tests them.
use text.Mathlib.Text.{find?}
use sentinel_ai_v3_0_the_fin.Prelude.{
  is_some, String, ◌≡◌, ◌⊎◌, ◌↔◌, inl, inr, refl, sym, ◌∙◌, Bool, true, false, not, ◌||◌, Option,
  none, some, List, [], ◌∷◌, ◌<ℤ◌, arith, eq_iff, ◌==◌, find_first, Bool-cases, eqb_ℤ, ◌&&◌,
  if◌then◌else◌,
}
use sentinel_ai_v3_0_the_fin.RuleEngine.{
  PolicyValue, float, str, bool, list, PolicyValues, nil, cons, value_eq, values_eq, contains_value,
  Condition, condition, no_list, a_list, no_condition, a_condition, Conditions, nothing, further,
  Attributes, get_attribute, check_atom, check_condition, all_hold, any_holds,
}

float_eq : (a b : _) → (eqb_ℤ a b ≡ true) ↔ (float a ≡ float b)
float_eq a b = ground arith

mutual
  unfolding value_eq

  value_eq_iff : (v w : PolicyValue) → (value_eq v w ≡ true) ↔ (v ≡ w)
  value_eq_iff (float a) (float b) = float_eq a b
  value_eq_iff (float a) (str b) = ground arith
  value_eq_iff (float a) (bool b) = ground arith
  value_eq_iff (float a) (list b) = ground arith
  value_eq_iff (str a) (float b) = ground arith
  value_eq_iff (str a) (str b) = ground (arith, eq_iff a b)
  value_eq_iff (str a) (bool b) = ground arith
  value_eq_iff (str a) (list b) = ground arith
  value_eq_iff (bool a) (float b) = ground arith
  value_eq_iff (bool a) (str b) = ground arith
  value_eq_iff (bool true) (bool b) = ground arith
  value_eq_iff (bool false) (bool b) = ground arith
  value_eq_iff (bool a) (list b) = ground arith
  value_eq_iff (list a) (float b) = ground arith
  value_eq_iff (list a) (str b) = ground arith
  value_eq_iff (list a) (bool b) = ground arith
  value_eq_iff (list a) (list b) = ground (arith, values_eq_iff a b)

  values_eq_iff : (vs ws : PolicyValues) → (values_eq vs ws ≡ true) ↔ (vs ≡ ws)
  values_eq_iff nil nil = ground arith
  values_eq_iff nil (cons w ws) = ground arith
  values_eq_iff (cons v vs) nil = ground arith
  values_eq_iff (cons v vs) (cons w ws) = ground (arith, value_eq_iff v w, values_eq_iff vs ws)

-- The value is one of the list.
abbrev pub IsAmong : PolicyValue → PolicyValues → Type 0
IsAmong v nil = ⊥
IsAmong v (cons x xs) = (x ≡ v) ⊎ IsAmong v xs

contains_value_iff :
    (vs : PolicyValues) (v : PolicyValue) → (contains_value vs v ≡ true) ↔ IsAmong v vs
unfolding contains_value
contains_value_iff nil v = ground arith
contains_value_iff (cons x xs) v = ground (arith, value_eq_iff x v, contains_value_iff xs v)

-- What an atom says of the value of its attribute, its own value and its operator.
abbrev pub AtomHolds : Option PolicyValue → PolicyValue → String → Type 0
AtomHolds (some (float a)) (float b) op = ((op ≡ "gt") × (b <ℤ a)) ⊎ ((op ≡ "lt") × (a <ℤ b))
AtomHolds (some (str a)) (str b) op =
    ((op ≡ "eq") × (a ≡ b)) ⊎ ((op ≡ "contains") × (is_some (find? a b) ≡ true))
AtomHolds (some v) (list vs) op =
    ((op ≡ "in") × IsAmong v vs) ⊎ ((op ≡ "not_in") × (IsAmong v vs → ⊥))
AtomHolds _ _ op = ⊥

-- An operator is not two different ones.
apart : (a b op : String) → (a == b) ≡ false → op ≡ a → op ≡ b → ⊥
apart a b op n p q = cc (n, (eq_iff a b).1 (sym p ∙ q))

abbrev in_list : PolicyValue → PolicyValues → String → Bool
in_list v vs op =
    if op == "in"
    then contains_value vs v
    else if op == "not_in"
    then not (contains_value vs v)
    else false

in_list_iff :
    (v : PolicyValue) (vs : PolicyValues) (op : String)
    → (in_list v vs op ≡ true)
      ↔ (((op ≡ "in") × IsAmong v vs) ⊎ ((op ≡ "not_in") × (IsAmong v vs → ⊥)))
in_list_iff v vs op = ground (
  arith,
  eq_iff op "in",
  eq_iff op "not_in",
  apart "in" "not_in" op refl,
  contains_value_iff vs v,
)

check_atom_iff :
    (found : Option PolicyValue) (v : PolicyValue) (op : String)
    → (check_atom found v op ≡ true) ↔ AtomHolds found v op
unfolding check_atom
check_atom_iff none (float b) op = ground arith
check_atom_iff none (str b) op = ground arith
check_atom_iff none (bool b) op = ground arith
check_atom_iff none (list b) op = ground arith
check_atom_iff (some (float a)) (float b) op =
    ground (arith, eq_iff op "gt", eq_iff op "lt", apart "gt" "lt" op refl)
check_atom_iff (some (float a)) (str b) op = ground arith
check_atom_iff (some (float a)) (bool b) op = ground arith
check_atom_iff (some (float a)) (list vs) op = in_list_iff (float a) vs op
check_atom_iff (some (str a)) (float b) op = ground arith
check_atom_iff (some (str a)) (str b) op =
    ground (arith, eq_iff op "eq", eq_iff op "contains", apart "eq" "contains" op refl, eq_iff a b)
check_atom_iff (some (str a)) (bool b) op = ground arith
check_atom_iff (some (str a)) (list vs) op = in_list_iff (str a) vs op
check_atom_iff (some (bool a)) (float b) op = ground arith
check_atom_iff (some (bool a)) (str b) op = ground arith
check_atom_iff (some (bool a)) (bool b) op = ground arith
check_atom_iff (some (bool a)) (list vs) op = in_list_iff (bool a) vs op
check_atom_iff (some (list a)) (float b) op = ground arith
check_atom_iff (some (list a)) (str b) op = ground arith
check_atom_iff (some (list a)) (bool b) op = ground arith
check_atom_iff (some (list a)) (list vs) op = in_list_iff (list a) vs op

-- What stands under a key in an association list.
module _ {A : Type 0} where
  abbrev pub value_in : Option (String × A) → Option A
  value_in none = none
  value_in (some (k, v)) = some v

  abbrev pub value_of : String → List (String × A) → Option A
  value_of key entries = value_in (find_first (λ e. e.0 == key) entries)

get_attribute_lem :
    (key : String) (context : Attributes) → get_attribute key context ≡ value_of key context
unfolding get_attribute
get_attribute_lem key [] = refl
get_attribute_lem key ((k, v) ∷ context) = elim (Bool-cases (k == key)) [
  | inl e ↦ rw e refl
  | inr n ↦ rw n (get_attribute_lem key context)
]

-- What a condition says of the attributes: its atom; or else that all of `and` hold; or else that one
-- of `or` holds; or else that `not` does not hold; and an empty one does not hold.
mutual
  pub Holds : Attributes → Condition → Type 0
  Holds context (condition (some atom) _ _ _) =
      AtomHolds (value_of atom.attr_key context) atom.value atom.operator
  Holds context (condition none (a_list conds) _ _) = AllHold context conds
  Holds context (condition none no_list (a_list conds) _) = OneHolds context conds
  Holds context (condition none no_list no_list (a_condition c)) = Holds context c → ⊥
  Holds context (condition none no_list no_list no_condition) = ⊥

  pub AllHold : Attributes → Conditions → Type 0
  AllHold context nothing = Unit
  AllHold context (further c cs) = Holds context c × AllHold context cs

  pub OneHolds : Attributes → Conditions → Type 0
  OneHolds context nothing = ⊥
  OneHolds context (further c cs) = Holds context c ⊎ OneHolds context cs

module _ {P Q : Type 0} where
  and_iff : (a b : Bool) → (a ≡ true) ↔ P → (b ≡ true) ↔ Q → ((a && b) ≡ true) ↔ (P × Q)
  and_iff true true p q = (λ e. (p.0 refl, q.0 refl), λ h. refl)
  and_iff true false p q = (λ e. cc e, λ h. q.1 h.1)
  and_iff false b p q = (λ e. cc e, λ h. p.1 h.0)

  or_iff : (a b : Bool) → (a ≡ true) ↔ P → (b ≡ true) ↔ Q → ((a || b) ≡ true) ↔ (P ⊎ Q)
  or_iff true b p q = (λ e. inl (p.0 refl), λ h. refl)
  or_iff false b p q = (λ e. inr (q.0 e), λ h. elim h [ inl x ↦ cc (p.1 x) | inr y ↦ q.1 y ])

not_iff : {P : Type 0} (a : Bool) → (a ≡ true) ↔ P → (not a ≡ true) ↔ (P → ⊥)
not_iff true p = (λ e. cc e, λ h. absurd (h (p.0 refl)))
not_iff false p = (λ e x. cc (p.1 x), λ h. refl)

module _ (context : Attributes) where
  atom_iff :
      (key : String) (v : PolicyValue) (op : String)
      → (check_atom (get_attribute key context) v op ≡ true) ↔ AtomHolds (value_of key context) v op
  atom_iff key v op =
      rw (get_attribute_lem key context) (check_atom_iff (value_of key context) v op)

  mutual
    unfolding check_condition Holds

    pub check_condition_iff : (c : Condition) → (check_condition c context ≡ true) ↔ Holds context c
    check_condition_iff (condition (some atom) a o n) =
        atom_iff atom.attr_key atom.value atom.operator
    check_condition_iff (condition none (a_list conds) o n) = all_hold_iff conds
    check_condition_iff (condition none no_list (a_list conds) n) = any_holds_iff conds
    check_condition_iff (condition none no_list no_list (a_condition c)) =
        not_iff (check_condition c context) (check_condition_iff c)
    check_condition_iff (condition none no_list no_list no_condition) = ground arith

    all_hold_iff : (cs : Conditions) → (all_hold cs context ≡ true) ↔ AllHold context cs
    all_hold_iff nothing = (λ e. tt, λ h. refl)
    all_hold_iff (further c cs) =
        and_iff (check_condition c context) (all_hold cs context) (check_condition_iff c)
          (all_hold_iff cs)

    any_holds_iff : (cs : Conditions) → (any_holds cs context ≡ true) ↔ OneHolds context cs
    any_holds_iff nothing = ground arith
    any_holds_iff (further c cs) =
        or_iff (check_condition c context) (any_holds cs context) (check_condition_iff c)
          (any_holds_iff cs)
