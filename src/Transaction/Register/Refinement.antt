-- ===== src/Transaction/Register/Refinement.antt =====
-- `authorize_transfer` implements the register.
use sentinel_ai_v3_0_the_fin.Prelude.{
  ℕ, String, ◌≡◌, inl, inr, refl, sym, ap, subst, ◌∙◌, false, some, map, arith, eq_iff,
}
use sentinel_ai_v3_0_the_fin.Database.{Db, select_by_key, with_status, update_status}
use sentinel_ai_v3_0_the_fin.Database.Connection.{Runtime, Conn, idle, Result, ok, err}
use sentinel_ai_v3_0_the_fin.Transaction.{
  Payment, Transfer, intent_of, bank_approved, authorize_transfer,
}
use sentinel_ai_v3_0_the_fin.Transaction.Spec.{created, answered}
use sentinel_ai_v3_0_the_fin.Transaction.Outcome.{
  is_taken, between, Outcome, authorize_transfer-Outcome,
}
use sentinel_ai_v3_0_the_fin.Transaction.Consistency.{IsUnique, IsUnique-append, IsUnique-status}
use sentinel_ai_v3_0_the_fin.Transaction.Register.{
  register, authorizing, authorized, Puts, started, approved, Evolves, stays, next, Evolves-trans,
  Keeps, Evolves-Keeps,
}
use sentinel_ai_v3_0_the_fin.Transaction.Register.Rows.{found, found-append, free_key, found-status}

-- What other connections may commit meanwhile: they keep identifiers and keys unique, they make of the
-- register what it may become, and they leave the payment `id` alone while it is being authorized.
pub record Cooperates (id : String) (others : Db → Db) : Type 0 where
  pub unique : (x : Db) → IsUnique x.payment_intents → IsUnique (others x).payment_intents
  pub evolves : (x : Db) → IsUnique x.payment_intents → Evolves (register x) (register (others x))
  pub keeps :
      (x : Db) (key : String)
      → register x key ≡ some (authorizing id)
      → register (others x) key ≡ some (authorizing id)

module _ (rt : Runtime) (t : Transfer) (db : Db) where
  -- A request that ends like this implements the register: it keeps the table of intents unique,
  -- it has changed the register by starting and authorizing payments only, and what it returns is
  -- what the register now holds under the key.
  pub record Implements (r : Result Payment × Conn) : Type 0 where
    pub unique : IsUnique r.1.committed.payment_intents
    pub evolves : Evolves (register db) (register r.1.committed)
    pub answers :
        (payment : Payment)
        → r.0 ≡ ok payment
        → register r.1.committed t.idempotency_key ≡ some payment
    pub keeps :
        (key : String) (payment : Payment)
        → register db key ≡ some payment
        → Keeps payment (register r.1.committed key)

  module _ (u : IsUnique db.payment_intents) (others : Cooperates (rt.uuid4 0) rt.others) where
    abbrev first : Db
    first = created rt (rt.uuid4 0) (rt.uuid4 1) t db

    -- The first local transaction, and what the others do before the second.
    record Between : Type 0 where
      unique : IsUnique (between rt t db).payment_intents
      evolves : Evolves (register db) (register (between rt t db))
      own : register (between rt t db) t.idempotency_key ≡ some (authorizing (rt.uuid4 0))

    between_lem : is_taken rt t db ≡ false → Between
    unfolding select_by_key
    between_lem free =
        let put = found-append t (rt.uuid4 0) db.payment_intents free in
        let u' = IsUnique-append db.payment_intents (intent_of (rt.uuid4 0) t) u free in
        record {
          unique = others.unique first u';
          evolves =
              next _ _ _
                (started t.idempotency_key (rt.uuid4 0) _ _
                  (free_key t (rt.uuid4 0) db.payment_intents free) put)
                (others.evolves first u');
          own =
              others.keeps first t.idempotency_key (
                put t.idempotency_key ∙ ground (arith, eq_iff t.idempotency_key t.idempotency_key));
        }

    -- A request that leaves `after` in the file.
    leaves :
        (r : Result Payment × Conn) (after : Db)
        → r.1.committed ≡ after
        → IsUnique after.payment_intents
        → Evolves (register db) (register after)
        → ((payment : Payment) → r.0 ≡ ok payment → register after t.idempotency_key ≡ some payment)
        → Implements r
    leaves r after same u' evolved answers = record {
      unique = subst (λ (x : Db). IsUnique x.payment_intents) (sym same) u';
      evolves = subst (λ (x : Db). Evolves (register db) (register x)) (sym same) evolved;
      answers = λ payment e. ap (λ (x : Db). register x t.idempotency_key) same ∙ answers payment e;
      keeps = λ key payment e.
          subst (λ (x : Db). Keeps payment (register x key)) (sym same)
            (Evolves-Keeps (register db) (register after) key payment evolved e);
    }

    settled :
        (after : Db)
        → after.payment_intents
          ≡ map (with_status (rt.uuid4 0) "AUTHORIZED") (between rt t db).payment_intents
        → Between
        → Puts t.idempotency_key
            (authorized (rt.uuid4 0))
            (register (between rt t db))
            (register after)
    unfolding select_by_key
    settled after e b k =
        ap (found k) e
        ∙ found-status "AUTHORIZED" t.idempotency_key (rt.uuid4 0) "AUTHORIZING"
            (between rt t db).payment_intents b.unique b.own k

    pub Outcome-Implements : (r : Result Payment × Conn) → Outcome rt t db r → Implements r
    unfolding update_status
    Outcome-Implements (err e, c) (inl same) =
        leaves (err e, c) db same u (stays _) (λ payment x. cc x)
    Outcome-Implements (err e, c) (inr (free, same)) =
        let b = between_lem free in
        leaves (err e, c) (between rt t db) same b.unique b.evolves (λ payment x. cc x)
    Outcome-Implements (ok p, c) (inl (known, same)) =
        leaves (ok p, c) db same u (stays _) (λ payment x. cc (known, x))
    Outcome-Implements (ok p, c) (inr (free, new, same)) =
        let b = between_lem free in
        let last = answered rt (rt.uuid4 0) (rt.uuid4 2) bank_approved (between rt t db) in
        let put = settled last refl b in
        leaves (ok p, c) last same
          (IsUnique-status (rt.uuid4 0) "AUTHORIZED" (between rt t db).payment_intents b.unique)
          (Evolves-trans b.evolves
            (next _ _ _ (approved t.idempotency_key (rt.uuid4 0) _ _ b.own put) (stays _)))
          (λ payment x.
            put t.idempotency_key
            ∙ ground (arith, x, new, eq_iff t.idempotency_key t.idempotency_key))

    -- The ledger implements the register: on a file whose intents have unique identifiers and keys,
    -- whichever statements fail, a call of `authorize_transfer` keeps them unique, and changes the
    -- register only by starting payments under free keys and by authorizing started payments; if it
    -- returns, the register holds what it returned under the request's key. So every key that had a
    -- payment has it still, its status at most changed from AUTHORIZING to AUTHORIZED. The other connections
    -- are assumed to do no more than that either, and to leave alone the payment that is being
    -- authorized.
    pub authorize_transfer-Implements : (n : ℕ) → Implements (authorize_transfer rt t (idle n db))
    authorize_transfer-Implements n =
        Outcome-Implements (authorize_transfer rt t (idle n db))
          (authorize_transfer-Outcome rt t db n)
