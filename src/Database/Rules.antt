-- ===== src/Database/Rules.antt =====
-- Rules for code that runs inside an open transaction: what it returns and writes if it ends well,
-- and that it has committed nothing if it raises.
use sentinel_ai_v3_0_the_fin.Prelude.{
  ℕ, ◌+◌, ◌≡◌, refl, ap, ◌∙◌, sym, subst, true, false, Option, some, arith, Option-cases, inl, inr,
  ◌⊎◌,
}
use sentinel_ai_v3_0_the_fin.Database.{Db}
use sentinel_ai_v3_0_the_fin.Database.Connection.{
  Error, Runtime, Conn, Result, ok, err, Exec, ◌>>=◌, try_except, query, modify, begin, commit,
  operational_error,
}

-- Inside a transaction that began at the file `file`.
pub record Inside (file : Db) (c : Conn) : Type 0 where
  pub unchanged : c.committed ≡ file
  pub opened : c.in_tx ≡ true

-- How such code may end: with the value `a`, the tables `db` and `d` identifiers drawn, or raising.
abbrev pub WrittenBy : {A : Type 0} → Db → A → Db → ℕ → Result A × Conn → Type 0
WrittenBy file a db d (ok a', c') = (a' ≡ a) × (c'.working ≡ db) × (c'.draws ≡ d) × Inside file c'
WrittenBy file a db d (err _, c') = Inside file c'

pub record Writes {A : Type 0} (file : Db) (a : A) (db : Db) (d : ℕ) (r : Result A × Conn)
    : Type 0 where
  pub written : WrittenBy file a db d r

-- A local transaction has committed all of its writes, or none of them and is still open.
abbrev pub Committed : {A : Type 0} → Db → Db → ℕ → Result A × Conn → Type 0
Committed file after d (ok _, c') =
    (c'.committed ≡ after) × (c'.working ≡ after) × (c'.in_tx ≡ false) × (c'.draws ≡ d)
Committed file after d (err _, c') = Inside file c'

pub record AllOrNothing {A : Type 0} (file after : Db) (d : ℕ) (r : Result A × Conn) : Type 0 where
  pub outcome : Committed file after d r

module _ (rt : Runtime) {file : Db} (c : Conn) (inside : Inside file c) where
  pub query-Writes :
      {A : Type 0} (select : Db → A)
      → Writes file (select c.working) c.working c.draws (query rt select c)
  unfolding query
  query-Writes select = ground arith

  pub modify-Writes :
      (change : Db → Option Db) (after : Db)
      → ((db' : Db) → change c.working ≡ some db' → db' ≡ after)
      → Writes file tt after c.draws (modify rt change c)
  unfolding modify
  modify-Writes change after h = elim (Option-cases (change c.working)) [
    | inl refused ↦ ground arith
    | inr (db', done) ↦ ground (arith, h db' done)
  ]

  pub commit-AllOrNothing :
      {after : Db} {d : ℕ}
      → c.working ≡ after
      → c.draws ≡ d
      → AllOrNothing file after d (commit rt c)
  unfolding commit
  commit-AllOrNothing w d = ground arith

abbrev continue : {A B : Type 0} → (A → Exec B) → Result A × Conn → Result B × Conn
continue f (ok a, c) = f a c
continue f (err e, c) = (err e, c)

bind-eq-continue :
    {A B : Type 0} (f : A → Exec B) (r : Result A × Conn) (c : Conn)
    → ((λ (_ : Conn). r) >>= f) c ≡ continue f r
unfolding ◌>>=◌
bind-eq-continue f (ok a, c') c = refl
bind-eq-continue f (err e, c') c = refl

module _ {A B : Type 0} {file after : Db} {d' : ℕ} where
  continue_rule :
      (f : A → Exec B) {a : A} {db : Db} {d : ℕ} (r : Result A × Conn)
      → Writes file a db d r
      → ((c' : Conn)
          → Inside file c'
          → c'.working ≡ db
          → c'.draws ≡ d
          → AllOrNothing file after d' (f a c'))
      → AllOrNothing file after d' (continue f r)
  continue_rule f (ok a', c') w next =
      let (same, working, draws, inside) = w.written in rw same (next c' inside working draws)
  continue_rule f (err _, c') w next = record { outcome = w.written }

  -- The rule for a step of a local transaction that commits `after` or nothing, and what follows it.
  pub step_rule :
      (m : Exec A) (f : A → Exec B) (c : Conn) {a : A} {db : Db} {d : ℕ}
      → Writes file a db d (m c)
      → ((c' : Conn)
          → Inside file c'
          → c'.working ≡ db
          → c'.draws ≡ d
          → AllOrNothing file after d' (f a c'))
      → AllOrNothing file after d' ((m >>= f) c)
  unfolding ◌>>=◌
  step_rule m f c w next =
      subst (AllOrNothing file after d') (sym (bind-eq-continue f (m c) c))
        (continue_rule f (m c) w next)

module _ {A B : Type 0} (m : Exec A) (f : A → Exec B) {c c' : Conn} where
  pub bind-ok : {a : A} → m c ≡ (ok a, c') → (m >>= f) c ≡ f a c'
  unfolding ◌>>=◌
  bind-ok e = bind-eq-continue f (m c) c ∙ ap (continue f) e

  pub bind-err : {e : Error} → m c ≡ (err e, c') → (m >>= f) c ≡ (err e, c')
  unfolding ◌>>=◌
  bind-err q = bind-eq-continue f (m c) c ∙ ap (continue f) q

-- BEGIN on a connection that has no transaction open.
abbrev pub begun : Conn → Conn
begun c = record c { sent = c.sent + 1; in_tx = true }

pub begin-cases :
    (rt : Runtime) (c : Conn)
    → c.in_tx ≡ false
    → (begin rt c ≡ (ok tt, begun c))
      ⊎ (begin rt c ≡ (err operational_error, record c { sent = c.sent + 1 }))
unfolding begin ◌>>=◌
begin-cases rt c h = ground arith

abbrev handled : {A : Type 0} → (Error → Exec A) → Result A × Conn → Result A × Conn
handled handler (ok a, x) = (ok a, x)
handled handler (err e, x) = handler e x

handled-eq :
    {A : Type 0} (handler : Error → Exec A) (c : Conn) (r : Result A × Conn)
    → try_except (λ (_ : Conn). r) handler c ≡ handled handler r
unfolding try_except
handled-eq handler c (ok a, x) = refl
handled-eq handler c (err e, x) = refl

module _ {A : Type 0} (m : Exec A) (handler : Error → Exec A) {c c' : Conn} where
  pub try-ok : {a : A} → m c ≡ (ok a, c') → try_except m handler c ≡ (ok a, c')
  unfolding try_except
  try-ok q = handled-eq handler c (m c) ∙ ap (handled handler) q

  pub try-err : {e : Error} → m c ≡ (err e, c') → try_except m handler c ≡ handler e c'
  unfolding try_except
  try-err q = handled-eq handler c (m c) ∙ ap (handled handler) q

pub query-cases :
    {A : Type 0} (rt : Runtime) (select : Db → A) (c : Conn)
    → (query rt select c ≡ (ok (select c.working), record c { sent = c.sent + 1 }))
      ⊎ (query rt select c ≡ (err operational_error, record c { sent = c.sent + 1 }))
unfolding query ◌>>=◌
query-cases rt select c = ground arith
