-- ===== src/Transaction/Register/Overlap.antt =====
-- Requests that overlap: what `authorize_transfer` asks of other connections, it does itself.
use sentinel_ai_v3_0_the_fin.Prelude.{
  String, ◌≡◌, ◌≢◌, inl, inr, ap, ◌∙◌, false, some, none, List, [], ◌∷◌, map, arith, eq_iff,
  Bool-cases, ◌==◌,
}
use sentinel_ai_v3_0_the_fin.Database.{Db, PaymentIntent, select_by_key, with_status, update_status}
use sentinel_ai_v3_0_the_fin.Database.Connection.{Runtime, Conn, connect, Result, ok, err}
use sentinel_ai_v3_0_the_fin.Transaction.{Payment, Transfer, authorize_transfer}
use sentinel_ai_v3_0_the_fin.Transaction.Spec.{created}
use sentinel_ai_v3_0_the_fin.Transaction.Outcome.{
  is_taken, between, Outcome, authorize_transfer-Outcome,
}
use sentinel_ai_v3_0_the_fin.Transaction.Register.{register, Register, authorizing, Puts}
use sentinel_ai_v3_0_the_fin.Transaction.Register.Rows.{found, found-append, free_key}
use sentinel_ai_v3_0_the_fin.Transaction.Register.Refinement.{
  Cooperates, authorize_transfer-Implements,
}

-- A payment under another key is not touched.
put_elsewhere :
    (key k : String) (p p' : Payment) (before after : Register)
    → Puts key p before after
    → before key ≡ none
    → before k ≡ some p'
    → after k ≡ some p'
put_elsewhere key k p p' before after put free e = elim (Bool-cases (key == k)) [
  | inl q ↦ absurd (ground (arith, free, e, ap before ((eq_iff key k).0 q)))
  | inr q ↦ ground (arith, put k, q, e)
]

-- The new status of another intent leaves it alone.
pub status_elsewhere :
    (id id' s key : String) (ps : List PaymentIntent)
    → id' ≢ id
    → found key ps ≡ some (authorizing id)
    → found key (map (with_status id' s) ps) ≡ some (authorizing id)
status_elsewhere id id' s key [] n e = e
status_elsewhere id id' s key (p ∷ ps) n e = elim (Bool-cases (p.idempotency_key == key)) [
  | inl q ↦ ground (arith, e, q, n, eq_iff p.id id', eq_iff p.idempotency_key key)
  | inr q ↦
      let rest = status_elsewhere id id' s key ps n (ground (arith, e, q)) in
      ground (arith, rest, q, eq_iff p.id id')
]

module _ (rt : Runtime) (t : Transfer) (id : String) (apart : rt.uuid4 0 ≢ id)
    (others : Cooperates id rt.others) where
  kept_between :
      (db : Db) (key : String)
      → is_taken rt t db ≡ false
      → register db key ≡ some (authorizing id)
      → register (between rt t db) key ≡ some (authorizing id)
  unfolding select_by_key
  kept_between db key free e = others.keeps (created rt (rt.uuid4 0) (rt.uuid4 1) t db) key (
      put_elsewhere t.idempotency_key key (authorizing (rt.uuid4 0)) (authorizing id) (register db)
        (register (created rt (rt.uuid4 0) (rt.uuid4 1) t db))
        (found-append t (rt.uuid4 0) db.payment_intents free)
        (free_key t (rt.uuid4 0) db.payment_intents free) e)

  pub still_authorizing :
      (db : Db) (r : Result Payment × Conn) (key : String)
      → Outcome rt t db r
      → register db key ≡ some (authorizing id)
      → register r.1.committed key ≡ some (authorizing id)
  unfolding select_by_key update_status
  still_authorizing db (err x, c) key (inl same) e = ap (λ (d : Db). register d key) same ∙ e
  still_authorizing db (ok p, c) key (inl (_, same)) e = ap (λ (d : Db). register d key) same ∙ e
  still_authorizing db (err x, c) key (inr (free, same)) e =
      ap (λ (d : Db). register d key) same ∙ kept_between db key free e
  still_authorizing db (ok p, c) key (inr (free, _, same)) e =
      ap (λ (d : Db). register d key) same
      ∙ status_elsewhere id (rt.uuid4 0) "AUTHORIZED" key (between rt t db).payment_intents apart
          (kept_between db key free e)

  -- Requests may overlap: what a request assumes of the other connections while it waits for the
  -- bank, another request of `authorize_transfer` on the same file provides, if it draws another
  -- identifier and if what interrupts it in turn provides that as well.
  pub authorize_transfer-Cooperates :
      Cooperates (rt.uuid4 0) rt.others
      → Cooperates id (λ db. (authorize_transfer rt t (connect db)).1.committed)
  authorize_transfer-Cooperates own = record {
    unique = λ x u. (authorize_transfer-Implements rt t x u own 0).unique;
    evolves = λ x u. (authorize_transfer-Implements rt t x u own 0).evolves;
    keeps = λ x key e.
        still_authorizing x (authorize_transfer rt t (connect x)) key
          (authorize_transfer-Outcome rt t x 0) e;
  }
