-- ===== src/Transaction/Register/Answers.antt =====
-- The second half of a request, by itself: what `settle` does to the register.
use sentinel_ai_v3_0_the_fin.Prelude.{
  ℕ, ◌≢◌, String, ◌≡◌, ◌⊎◌, inl, inr, refl, sym, ap, subst, ◌∙◌, some, arith,
}
use sentinel_ai_v3_0_the_fin.Database.{Db, select_by_key, update_status}
use sentinel_ai_v3_0_the_fin.Database.Connection.{
  Runtime, Conn, idle, Result, ok, err, wait, begin, rollback, raise, ◌>>=◌, ◌>>◌, try_except, pure,
}
use sentinel_ai_v3_0_the_fin.Database.Rules.{AllOrNothing, begin-cases, begun, bind-ok, bind-err}
use sentinel_ai_v3_0_the_fin.Transaction.{new_status, bank_approved, settle, record_answer, Payment}
use sentinel_ai_v3_0_the_fin.Transaction.Spec.{answered}
use sentinel_ai_v3_0_the_fin.Transaction.Steps.{record_answer-AllOrNothing}
use sentinel_ai_v3_0_the_fin.Transaction.Consistency.{
  IsUnique, IsUnique-status, IsConsistent, answered-IsConsistent,
}
use sentinel_ai_v3_0_the_fin.Transaction.Register.{
  register, authorizing, approved, Evolves, stays, next, Evolves-trans,
}
use sentinel_ai_v3_0_the_fin.Transaction.Register.Rows.{found-status}
use sentinel_ai_v3_0_the_fin.Transaction.Register.Refinement.{Cooperates}
use sentinel_ai_v3_0_the_fin.Transaction.Register.Overlap.{status_elsewhere}

-- The connection of a request that waits for the bank: two identifiers are drawn.
abbrev pub paused : ℕ → Db → Conn
paused n db = record (idle n db) { draws = 2 }

module _ (rt : Runtime) (id : String) (db : Db) where
  -- The file when the bank has answered, and with the answer recorded.
  abbrev pub recorded : Db
  recorded = answered rt id (rt.uuid4 2) bank_approved (rt.others db)

  abbrev pub Ends : Result Payment × Conn → Type 0
  Ends (_, c) = (c.committed ≡ rt.others db) ⊎ (c.committed ≡ recorded)

  answer-Ends :
      (r : Result Unit × Conn) (c : Conn)
      → AllOrNothing (rt.others db) recorded 3 r
      → Ends (
          (try_except (λ _. r) (λ e. rollback rt >> raise e)
              >> pure (record { id = id; status = new_status bank_approved }))
            c)
  unfolding try_except ◌>>=◌ rollback
  answer-Ends (ok a, c') c h = inr h.outcome.0
  answer-Ends (err e, c') c h = ground (arith, h.outcome)

  -- The second half leaves what the others have made of the file, or records the answer in it.
  pub settle-Ends : (n : ℕ) → Ends (settle rt id (paused n db))
  unfolding settle
  settle-Ends n =
      let c : Conn = (wait rt (paused n db)).1 in
      rw (bind-ok (wait rt) _ refl) (elim (begin-cases rt c refl) [
        | inr q ↦ rw (bind-err (begin rt) _ q) (inl refl)
        | inl q ↦ rw (bind-ok (begin rt) _ q) (
            unfold try_except ◌>>=◌ in
            answer-Ends (record_answer rt id bank_approved (begun c)) (begun c) (
              record_answer-AllOrNothing rt id bank_approved (begun c)
                (record { unchanged = refl; opened = refl })))
      ])

  module _ (key : String) (started : register db key ≡ some (authorizing id))
      (others : Cooperates id rt.others) where
    -- Recording the answer of a payment that has started authorizes it.
    recorded-Evolves : IsUnique db.payment_intents → Evolves (register db) (register recorded)
    unfolding update_status select_by_key
    recorded-Evolves u = Evolves-trans (others.evolves db u) (
        next _ _ _
          (approved key id _ _ (others.keeps db key started) (
            found-status "AUTHORIZED" key id "AUTHORIZING" (rt.others db).payment_intents
              (others.unique db u) (others.keeps db key started)))
          (stays _))

    recorded-IsUnique : IsUnique db.payment_intents → IsUnique recorded.payment_intents
    unfolding update_status
    recorded-IsUnique u =
        IsUnique-status id "AUTHORIZED" (rt.others db).payment_intents (others.unique db u)

    pub settle-Evolves :
        (n : ℕ)
        → IsUnique db.payment_intents
        → Evolves (register db) (register (settle rt id (paused n db)).1.committed)
    settle-Evolves n u = elim (settle-Ends n) [
      | inl e ↦ subst (λ (x : Db). Evolves (register db) (register x)) (sym e) (others.evolves db u)
      | inr e ↦ subst (λ (x : Db). Evolves (register db) (register x)) (sym e) (recorded-Evolves u)
    ]

    pub settle-IsUnique :
        (n : ℕ)
        → IsUnique db.payment_intents
        → IsUnique (settle rt id (paused n db)).1.committed.payment_intents
    settle-IsUnique n u = elim (settle-Ends n) [
      | inl e ↦ subst (λ (x : Db). IsUnique x.payment_intents) (sym e) (others.unique db u)
      | inr e ↦ subst (λ (x : Db). IsUnique x.payment_intents) (sym e) (recorded-IsUnique u)
    ]

  -- A payment that is being authorized elsewhere is left alone.
  pub settle-spares :
      (n : ℕ) (other key : String)
      → id ≢ other
      → Cooperates other rt.others
      → register db key ≡ some (authorizing other)
      → register (settle rt id (paused n db)).1.committed key ≡ some (authorizing other)
  unfolding update_status select_by_key
  settle-spares n other key apart others e = elim (settle-Ends n) [
    | inl q ↦ ap (λ (x : Db). register x key) q ∙ others.keeps db key e
    | inr q ↦
        ap (λ (x : Db). register x key) q
        ∙ status_elsewhere other id "AUTHORIZED" key (rt.others db).payment_intents apart
            (others.keeps db key e)
  ]

  pub settle-IsConsistent :
      (n : ℕ)
      → IsConsistent rt.sha256 (rt.others db)
      → IsConsistent rt.sha256 (settle rt id (paused n db)).1.committed
  settle-IsConsistent n h = elim (settle-Ends n) [
    | inl q ↦ subst (IsConsistent rt.sha256) (sym q) h
    | inr q ↦
        subst (IsConsistent rt.sha256) (sym q)
          (answered-IsConsistent rt id (rt.uuid4 2) (rt.others db) h)
  ]
