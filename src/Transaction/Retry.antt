-- ===== src/Transaction/Retry.antt =====
-- Requests with a key that is known already, and requests in which nothing fails.
use sentinel_ai_v3_0_the_fin.Prelude.{
  ℕ, ◌≡◌, refl, ap, ◌∙◌, true, false, ◌||◌, some, List, [], ◌∷◌, arith, inl, inr, any, find_first,
  ◌==◌, ◌+◌,
}
use sentinel_ai_v3_0_the_fin.Database.{Db, PaymentIntent, insert_intent, select_by_key}
use sentinel_ai_v3_0_the_fin.Database.Connection.{
  Error, integrity_error, Runtime, Conn, idle, connect, Result, ok, err, try_except, begin, query,
  draw_uuid,
}
use sentinel_ai_v3_0_the_fin.Database.Rules.{bind-ok, bind-err, try-err}
use sentinel_ai_v3_0_the_fin.Database.Working.{modify-none, query-ok, begin-ok, rollback-ok}
use sentinel_ai_v3_0_the_fin.Transaction.{
  Payment, Transfer, create_intent, found_or_raise, existing_or_raise, authorize_transfer,
}
use sentinel_ai_v3_0_the_fin.Transaction.Outcome.{
  is_taken, Outcome, payment_of, authorize_transfer-Outcome,
}

module _ (rt : Runtime) (t : Transfer) (db : Db) (p : PaymentIntent) where
  found_is_taken :
      (ps : List PaymentIntent)
      → find_first (λ x. x.idempotency_key == t.idempotency_key) ps ≡ some p
      → any (λ x. x.id == rt.uuid4 0 || x.idempotency_key == t.idempotency_key) ps ≡ true
  found_is_taken [] e = cc
  found_is_taken (x ∷ ps) e = ground (arith, found_is_taken ps)

  pub known_is_taken : select_by_key t.idempotency_key db ≡ some p → is_taken rt t db ≡ true
  unfolding select_by_key
  known_is_taken e = found_is_taken db.payment_intents e

  -- What a repeated request may be answered, and that it leaves the file alone.
  abbrev pub Repeats : Result Payment × Conn → Type 0
  Repeats (ok payment, c) = (payment ≡ record { id = p.id; status = p.status }) × (c.committed ≡ db)
  Repeats (err e, c) = c.committed ≡ db

  Outcome-Repeats :
      (r : Result Payment × Conn)
      → select_by_key t.idempotency_key db ≡ some p
      → Outcome rt t db r
      → Repeats r
  Outcome-Repeats (ok payment, c) e (inl o) = ground (arith, ap payment_of e, o.0, o.1)
  Outcome-Repeats (ok payment, c) e (inr o) = cc (o.0, known_is_taken e)
  Outcome-Repeats (err x, c) e (inl o) = o
  Outcome-Repeats (err x, c) e (inr o) = cc (o.0, known_is_taken e)

  -- No second payment is made for a key: if the file has an intent with the request's idempotency
  -- key, then, whichever statements fail, the call leaves the file untouched, and if it returns it
  -- returns the identifier and the status of that intent.
  pub repeated_key_pays_once :
      select_by_key t.idempotency_key db ≡ some p
      → (n : ℕ) → Repeats (authorize_transfer rt t (idle n db))
  repeated_key_pays_once e n =
      Outcome-Repeats (authorize_transfer rt t (idle n db)) e (authorize_transfer-Outcome rt t db n)

module _ (rt : Runtime) (working : (n : ℕ) → rt.fails n ≡ false) where
  refused :
      (t : Transfer) (db : Db) (p : PaymentIntent) (c : Conn)
      → c.working ≡ db
      → select_by_key t.idempotency_key db ≡ some p
      → create_intent rt (rt.uuid4 0) t c
        ≡ (err integrity_error, record c { in_tx = true; sent = c.sent + 1 })
  unfolding create_intent insert_intent
  refused t db p c w e =
      bind-err _ _ (modify-none rt working c _ (ground (arith, known_is_taken rt t db p e)))

  answered_by :
      (t : Transfer) (p : PaymentIntent) (x : Error) (c : Conn)
      → c.in_tx ≡ true
      → select_by_key t.idempotency_key c.committed ≡ some p
      → existing_or_raise rt t x c ≡ (
        ok (some (record { id = p.id; status = p.status })),
        record c { working = c.committed; in_tx = false; sent = c.sent + 1 + 1 },
      )
  unfolding existing_or_raise
  answered_by t p x c i e =
      bind-ok _ _ (rollback-ok rt working c i)
      ∙ bind-ok (query rt (select_by_key t.idempotency_key)) _ (
          query-ok rt working (record c { working = c.committed; in_tx = false; sent = c.sent + 1 })
            (select_by_key t.idempotency_key))
      ∙ ap
          (λ o.
            found_or_raise x o
              (record c { working = c.committed; in_tx = false; sent = c.sent + 1 + 1 }))
          e

  -- The answer to a request whose key is known: if the file has an intent with the idempotency key
  -- and no statement fails, the call returns that intent's identifier and its present status, which
  -- may still be AUTHORIZING.
  pub repeated_key_is_answered :
      (t : Transfer) (db : Db) (p : PaymentIntent)
      → select_by_key t.idempotency_key db ≡ some p
      → (authorize_transfer rt t (connect db)).0 ≡ ok (record { id = p.id; status = p.status })
  unfolding authorize_transfer
  repeated_key_is_answered t db p e =
      ap (λ (r : Result Payment × Conn). r.0)
        (bind-ok (draw_uuid rt) _ {c = connect db} refl
          ∙ bind-ok (begin rt) _ (begin-ok rt working _ refl)
          ∙ bind-ok (try_except _ _) _
              (try-err _ _ (bind-err _ _ (refused t db p _ refl e)) ∙ answered_by t p _ _ refl e))
