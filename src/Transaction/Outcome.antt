-- ===== src/Transaction/Outcome.antt =====
-- What a run of `authorize_transfer` returns and what it leaves in the database file, whichever
-- statements fail.
use sentinel_ai_v3_0_the_fin.Prelude.{
  ℕ, ◌+◌, ◌⊎◌, ◌≡◌, refl, subst, ap, Bool, false, Option, none, some, arith, any, ◌==◌, ◌||◌, inl,
  inr,
}
use sentinel_ai_v3_0_the_fin.Database.{Db, PaymentIntent, insert_intent, select_by_key}
use sentinel_ai_v3_0_the_fin.Database.Connection.{
  Error, Runtime, Conn, idle, Result, ok, err, pure, raise, ◌>>=◌, ◌>>◌, try_except, draw_uuid,
  modify, query, begin, rollback, wait,
}
use sentinel_ai_v3_0_the_fin.Database.Rules.{
  Inside, AllOrNothing, begun, begin-cases, bind-ok, bind-err,
}
use sentinel_ai_v3_0_the_fin.Transaction.{
  Payment, Transfer, create_intent, existing_or_raise, new_status, bank_approved, record_answer,
  settle, finish, authorize_transfer,
}
use sentinel_ai_v3_0_the_fin.Transaction.Spec.{created, answered}
use sentinel_ai_v3_0_the_fin.Transaction.Steps.{
  create_intent-AllOrNothing, record_answer-AllOrNothing,
}

-- What is returned of an intent that is found.
abbrev pub payment_of : Option PaymentIntent → Option Payment
payment_of none = none
payment_of (some p) = some (record { id = p.id; status = p.status })

module _ (rt : Runtime) (t : Transfer) (db : Db) where
  -- The file between the two local transactions, once other connections have had their turn.
  abbrev pub between : Db
  between = rt.others (created rt (rt.uuid4 0) (rt.uuid4 1) t db)

  -- Whether the new intent would break the constraints on `payment_intents`.
  abbrev pub is_taken : Bool
  is_taken =
      any (λ x. x.id == rt.uuid4 0 || x.idempotency_key == t.idempotency_key) db.payment_intents

  -- How a request may end. If it raises, the file is untouched, or stays as it is between the two
  -- transactions. If it returns, it returns the payment that already had the key and has left the
  -- file untouched, or it returns the new payment and both transactions are committed. The file
  -- changes only if the intent was free.
  abbrev pub Outcome : Result Payment × Conn → Type 0
  Outcome (err e, c) = (c.committed ≡ db) ⊎ ((is_taken ≡ false) × (c.committed ≡ between))
  Outcome (ok payment, c) =
      ((payment_of (select_by_key t.idempotency_key db) ≡ some payment) × (c.committed ≡ db))
      ⊎ ((is_taken ≡ false)
          × (payment ≡ record { id = rt.uuid4 0; status = new_status bank_approved })
          × (c.committed ≡ answered rt (rt.uuid4 0) (rt.uuid4 2) bank_approved between))

  -- The second half, by what its local transaction did.
  answer-Outcome :
      (r : Result Unit × Conn) (c : Conn) (d : ℕ)
      → is_taken ≡ false
      → AllOrNothing between (answered rt (rt.uuid4 0) (rt.uuid4 2) bank_approved between) d r
      → Outcome (
          (try_except (λ _. r) (λ e. rollback rt >> raise e)
              >> pure (record { id = rt.uuid4 0; status = new_status bank_approved }))
            c)
  unfolding try_except ◌>>=◌ rollback
  answer-Outcome (ok a, c') c d free h = inr (free, refl, h.outcome.0)
  answer-Outcome (err e, c') c d free h = ground (arith, h.outcome)

  answer_between :
      (c : Conn)
      → Inside between c
      → c.working ≡ between
      → c.draws ≡ 2
      → AllOrNothing between
          (answered rt (rt.uuid4 0) (rt.uuid4 2) bank_approved between)
          3
          (record_answer rt (rt.uuid4 0) bank_approved c)
  answer_between c h w d =
      subst
        (λ (n : ℕ).
          AllOrNothing between (answered rt (rt.uuid4 0) (rt.uuid4 n) bank_approved between) (n + 1)
            (record_answer rt (rt.uuid4 0) bank_approved c))
        d
        (subst
          (λ (now : Db).
            AllOrNothing between (answered rt (rt.uuid4 0) (rt.uuid4 c.draws) bank_approved now)
              (c.draws + 1) (record_answer rt (rt.uuid4 0) bank_approved c))
          w (record_answer-AllOrNothing rt (rt.uuid4 0) bank_approved c h))

  settle-Outcome :
      (c : Conn)
      → is_taken ≡ false
      → c.committed ≡ created rt (rt.uuid4 0) (rt.uuid4 1) t db
      → c.in_tx ≡ false
      → c.draws ≡ 2
      → Outcome (settle rt (rt.uuid4 0) c)
  unfolding settle
  settle-Outcome c free e closed d =
      let c1 : Conn = (wait rt c).1 in
      let w = ap rt.others e in
      rw (bind-ok (wait rt) _ refl) (elim (begin-cases rt c1 closed) [
        | inr q ↦ rw (bind-err (begin rt) _ q) (inr (free, w))
        | inl q ↦ rw (bind-ok (begin rt) _ q) (
            unfold try_except ◌>>=◌ in
            answer-Outcome (record_answer rt (rt.uuid4 0) bank_approved (begun c1)) (begun c1) 3
              free (answer_between (begun c1) (record { unchanged = w; opened = refl }) w d))
      ])

  found-Outcome :
      (e : Error) (c : Conn)
      → Inside db c
      → Outcome ((existing_or_raise rt t e >>= finish rt (rt.uuid4 0)) c)
  unfolding existing_or_raise rollback query ◌>>=◌
  found-Outcome e c h = ground (arith, ap (select_by_key t.idempotency_key) h.unchanged)

  -- A taken intent is refused at the first statement.
  free_if_created :
      (c : Conn)
      → c.working ≡ db
      → ((create_intent rt (rt.uuid4 0) t c).0 ≡ ok tt)
      → is_taken ≡ false
  unfolding create_intent modify insert_intent ◌>>=◌
  free_if_created c w e = ground arith

  -- The first half, by what its local transaction did.
  create-Outcome :
      (r : Result Unit × Conn) (c : Conn)
      → (r.0 ≡ ok tt → is_taken ≡ false)
      → AllOrNothing db (created rt (rt.uuid4 0) (rt.uuid4 1) t db) 2 r
      → Outcome (
          (try_except ((λ _. r) >> pure none) (existing_or_raise rt t) >>= finish rt (rt.uuid4 0))
            c)
  unfolding try_except ◌>>=◌
  create-Outcome (ok a, c') c free h =
      settle-Outcome c' (free refl) h.outcome.0 h.outcome.2 h.outcome.3
  create-Outcome (err e, c') c free h = found-Outcome e c' h.outcome

  -- On a file of any contents, whichever statements fail and whatever other connections commit in
  -- between, a call of `authorize_transfer` on a new connection ends in one of these ways. It raises
  -- and the file is untouched; or it raises after the first local transaction, all of whose writes
  -- are in the file and none of the second's; or it returns the payment that has the key already and
  -- the file is untouched; or it returns the new, authorized payment and the file holds all writes of
  -- both transactions. The last two that write do so only if neither the drawn identifier nor the
  -- key stands in the table of intents.
  pub authorize_transfer-Outcome : (n : ℕ) → Outcome (authorize_transfer rt t (idle n db))
  unfolding authorize_transfer try_except ◌>>=◌
  authorize_transfer-Outcome n =
      let c : Conn = record (idle n db) { draws = 1 } in
      rw (bind-ok (draw_uuid rt) _ refl) (elim (begin-cases rt c refl) [
        | inr q ↦ rw (bind-err (begin rt) _ q) (inl refl)
        | inl q ↦ rw (bind-ok (begin rt) _ q) (
            create-Outcome (create_intent rt (rt.uuid4 0) t (begun c)) (begun c)
              (free_if_created (begun c) refl)
              (create_intent-AllOrNothing rt (rt.uuid4 0) t (begun c)
                (record { unchanged = refl; opened = refl })))
      ])
