-- ===== src/Transaction/Register.antt =====
-- The ledger as a register of payments, from idempotency keys to identifiers and statuses: what
-- core/transaction.py promises of the table payment_intents.
pub mod Rows
pub mod Refinement
pub mod Overlap
pub mod Answers
use sentinel_ai_v3_0_the_fin.Prelude.{
  ℕ, String, ◌≡◌, ◌⊎◌, inl, inr, refl, sym, ap, subst, ◌∙◌, Bool, false, true, ◌||◌, Option, none,
  some, List, [], ◌∷◌, ◌++◌, map, arith, any, find_first, ◌==◌, eq_iff, if◌then◌else◌, Bool-cases,
}
use sentinel_ai_v3_0_the_fin.Database.{Db, PaymentIntent, select_by_key, with_status, update_status}
use sentinel_ai_v3_0_the_fin.Database.Connection.{Runtime, Conn, idle, Result, ok, err}
use sentinel_ai_v3_0_the_fin.Transaction.{
  Payment, Transfer, intent_of, bank_approved, authorize_transfer,
}
use sentinel_ai_v3_0_the_fin.Transaction.Spec.{created, answered}
use sentinel_ai_v3_0_the_fin.Transaction.Outcome.{
  payment_of, is_taken, between, Outcome, authorize_transfer-Outcome,
}
use sentinel_ai_v3_0_the_fin.Transaction.Consistency.{
  clashes, IsUnique, IsUnique-append, IsUnique-status,
}

-- What the ledger holds under a key.
abbrev pub Register : Type 0
Register = String → Option Payment

abbrev pub register : Db → Register
register db key = payment_of (select_by_key key db)

abbrev pub authorizing : String → Payment
authorizing id = record { id = id; status = "AUTHORIZING" }

abbrev pub authorized : String → Payment
authorized id = record { id = id; status = "AUTHORIZED" }

-- `after` is `before` with `payment` under `key`.
abbrev pub Puts : String → Payment → Register → Register → Type 0
Puts key payment before after =
    (k : String) → after k ≡ (if key == k then some payment else before k)

-- What may happen to the register: a payment starts under a free key, or a payment that was started
-- is authorized.
pub data Serves : Register → Register → Type 0 where
  started :
      (key id : String) (before after : Register)
      → before key ≡ none
      → Puts key (authorizing id) before after
      → Serves before after
  approved :
      (key id : String) (before after : Register)
      → before key ≡ some (authorizing id)
      → Puts key (authorized id) before after
      → Serves before after

pub data Evolves : Register → Register → Type 0 where
  stays : (before : Register) → Evolves before before
  next :
      (before middle after : Register)
      → Serves before middle
      → Evolves middle after
      → Evolves before after

pub Evolves-trans : {a b c : Register} → Evolves a b → Evolves b c → Evolves a c
Evolves-trans (stays r) e = e
Evolves-trans (next r m s x xs) e = next r m _ x (Evolves-trans xs e)

-- A key keeps its payment, whose status may go from AUTHORIZING to AUTHORIZED.
abbrev pub Keeps : Payment → Option Payment → Type 0
Keeps p o = (o ≡ some p) ⊎ ((p ≡ authorizing p.id) × (o ≡ some (authorized p.id)))

Serves-Keeps :
    (before after : Register) (k : String) (p : Payment)
    → Serves before after
    → before k ≡ some p
    → Keeps p (after k)
Serves-Keeps before after k p (started key id _ _ free put) e = elim (Bool-cases (key == k)) [
  | inl q ↦ ground (arith, e, free, ap before ((eq_iff key k).0 q))
  | inr q ↦ inl (ground (arith, put k, q, e))
]
Serves-Keeps before after k p (approved key id _ _ was put) e = elim (Bool-cases (key == k)) [
  | inl q ↦
      let p_eq : p ≡ authorizing id = ground (arith, e, was, ap before ((eq_iff key k).0 q)) in
      inr (ground (arith, p_eq), ground (arith, put k, q, p_eq))
  | inr q ↦ inl (ground (arith, put k, q, e))
]

Keeps-authorized :
    (id : String) (o : Option Payment) → Keeps (authorized id) o → o ≡ some (authorized id)
Keeps-authorized id o (inl e) = e
Keeps-authorized id o (inr (e, _)) =
    absurd (ground (arith, ap (λ (p : Payment). p.status) e, eq_iff "AUTHORIZED" "AUTHORIZING"))

pub Evolves-Keeps :
    (before after : Register) (k : String) (p : Payment)
    → Evolves before after
    → before k ≡ some p
    → Keeps p (after k)
Evolves-Keeps before after k p (stays _) e = inl e
Evolves-Keeps before after k p (next _ middle _ x xs) e =
    elim (Serves-Keeps before middle k p x e) [
      | inl e' ↦ Evolves-Keeps middle after k p xs e'
      | inr (s, e') ↦ inr (
        s,
        Keeps-authorized p.id (after k) (Evolves-Keeps middle after k (authorized p.id) xs e'),
      )
    ]
