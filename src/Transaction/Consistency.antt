-- ===== src/Transaction/Consistency.antt =====
-- The ledger's invariant, and that every request keeps it: the audit chain is intact, no two intents
-- share an identifier or a key, and what happened to an intent stands in the outbox and in the chain.
use sentinel_ai_v3_0_the_fin.Prelude.{
  ℕ, String, ◌≡◌, refl, ap, sym, subst, Bool, true, false, ◌||◌, ◌&&◌, List, [], ◌∷◌, ◌++◌, map,
  arith, inl, inr, any, any-append, All, ◌==◌, eq_iff,
}
use sentinel_ai_v3_0_the_fin.Database.{
  Db, PaymentIntent, OutboxEvent, AuditRow, with_status, update_status,
}
use sentinel_ai_v3_0_the_fin.Database.Connection.{Runtime, Conn, idle, Result, ok, err}
use sentinel_ai_v3_0_the_fin.AuditChain.{genesis_hash}
use sentinel_ai_v3_0_the_fin.AuditChain.Chain.{IsChain}
use sentinel_ai_v3_0_the_fin.AuditChain.Appending.{next_row-IsChain}
use sentinel_ai_v3_0_the_fin.Transaction.{
  Payment, Transfer, intent_of, bank_approved, authorize_transfer,
}
use sentinel_ai_v3_0_the_fin.Transaction.Spec.{created, answered, created_payload, final_payload}
use sentinel_ai_v3_0_the_fin.Transaction.Outcome.{Outcome, authorize_transfer-Outcome}

abbrev pub clashes : PaymentIntent → PaymentIntent → Bool
clashes p x = x.id == p.id || x.idempotency_key == p.idempotency_key

-- No two intents share an identifier or an idempotency key.
abbrev pub IsUnique : List PaymentIntent → Type 0
IsUnique [] = Unit
IsUnique (p ∷ ps) = (any (clashes p) ps ≡ false) × IsUnique ps

abbrev pub has_event : String → String → List OutboxEvent → Bool
has_event id event_type = any (λ e. e.aggregate_id == id && e.event_type == event_type)

abbrev pub has_row : String → String → List AuditRow → Bool
has_row id action = any (λ r. r.tx_id == id && r.action == action)

-- What the outbox and the audit chain hold of an intent.
pub record IsTraced (events : List OutboxEvent) (rows : List AuditRow) (p : PaymentIntent)
    : Type 0 where
  pub started_event : has_event p.id "AUTH_STARTED" events ≡ true
  pub created_row : has_row p.id "INTENT_CREATED" rows ≡ true
  pub approved_event :
      (p.status == "AUTHORIZED") ≡ true → has_event p.id "AUTH_APPROVED" events ≡ true
  pub approved_row : (p.status == "AUTHORIZED") ≡ true → has_row p.id "AUTH_APPROVED" rows ≡ true

pub record IsConsistent (sha256 : String → String) (db : Db) : Type 0 where
  pub chain : IsChain sha256 genesis_hash db.audit_ledger
  pub unique : IsUnique db.payment_intents
  pub traced : All (IsTraced db.outbox_events db.audit_ledger) db.payment_intents

pub IsUnique-append :
    (ps : List PaymentIntent) (p : PaymentIntent)
    → IsUnique ps
    → any (clashes p) ps ≡ false
    → IsUnique (ps ++ p ∷ [])
IsUnique-append [] p u free = (refl, tt)
IsUnique-append (x ∷ ps) p u free = ground (
  arith,
  IsUnique-append ps p u.1,
  any-append (clashes x) ps (p ∷ []),
  eq_iff x.id p.id,
  eq_iff p.id x.id,
  eq_iff x.idempotency_key p.idempotency_key,
  eq_iff p.idempotency_key x.idempotency_key,
)

any-clashes-status :
    (p : PaymentIntent) (id s s' : String) (ps : List PaymentIntent)
    → any (clashes (record p { status = s })) (map (with_status id s') ps) ≡ any (clashes p) ps
any-clashes-status p id s s' [] = refl
any-clashes-status p id s s' (x ∷ ps) = ground (arith, any-clashes-status p id s s' ps)

pub IsUnique-status :
    (id s : String) (ps : List PaymentIntent) → IsUnique ps → IsUnique (map (with_status id s) ps)
IsUnique-status id s [] u = tt
IsUnique-status id s (p ∷ ps) u = ground (
  arith,
  IsUnique-status id s ps u.1,
  any-clashes-status p id p.status s ps,
  any-clashes-status p id s s ps,
)

module _ (events : List OutboxEvent) (rows : List AuditRow) (e : OutboxEvent) (r : AuditRow) where
  IsTraced-grow :
      (p : PaymentIntent) → IsTraced events rows p → IsTraced (events ++ e ∷ []) (rows ++ r ∷ []) p
  IsTraced-grow p h = ground (
    arith,
    any-append (λ x. x.aggregate_id == p.id && x.event_type == "AUTH_STARTED") events (e ∷ []),
    any-append (λ x. x.aggregate_id == p.id && x.event_type == "AUTH_APPROVED") events (e ∷ []),
    any-append (λ x. x.tx_id == p.id && x.action == "INTENT_CREATED") rows (r ∷ []),
    any-append (λ x. x.tx_id == p.id && x.action == "AUTH_APPROVED") rows (r ∷ []),
  )

  -- Where the new event and row report the approval of the intent `id`.
  IsTraced-status :
      (id : String) (p : PaymentIntent)
      → e.aggregate_id ≡ id
      → e.event_type ≡ "AUTH_APPROVED"
      → r.tx_id ≡ id
      → r.action ≡ "AUTH_APPROVED"
      → IsTraced events rows p
      → IsTraced (events ++ e ∷ []) (rows ++ r ∷ []) (with_status id "AUTHORIZED" p)
  IsTraced-status id p a b c d h = ground (
    arith,
    IsTraced-grow p h,
    any-append (λ x. x.aggregate_id == p.id && x.event_type == "AUTH_APPROVED") events (e ∷ []),
    any-append (λ x. x.tx_id == p.id && x.action == "AUTH_APPROVED") rows (r ∷ []),
    eq_iff p.id id,
    eq_iff e.aggregate_id p.id,
    eq_iff r.tx_id p.id,
    eq_iff e.event_type "AUTH_APPROVED",
    eq_iff r.action "AUTH_APPROVED",
  )

  All-grow :
      (ps : List PaymentIntent)
      → All (IsTraced events rows) ps
      → All (IsTraced (events ++ e ∷ []) (rows ++ r ∷ [])) ps
  All-grow [] h = tt
  All-grow (p ∷ ps) h = (IsTraced-grow p h.0, All-grow ps h.1)

  All-status :
      (id : String) (ps : List PaymentIntent)
      → e.aggregate_id ≡ id
      → e.event_type ≡ "AUTH_APPROVED"
      → r.tx_id ≡ id
      → r.action ≡ "AUTH_APPROVED"
      → All (IsTraced events rows) ps
      → All (IsTraced (events ++ e ∷ []) (rows ++ r ∷ [])) (map (with_status id "AUTHORIZED") ps)
  All-status id [] a b c d h = tt
  All-status id (p ∷ ps) a b c d h =
      (IsTraced-status id p a b c d h.0, All-status id ps a b c d h.1)

  -- An intent that is new, with its event and row.
  IsTraced-new :
      (p : PaymentIntent)
      → p.status ≡ "AUTHORIZING"
      → e.aggregate_id ≡ p.id
      → e.event_type ≡ "AUTH_STARTED"
      → r.tx_id ≡ p.id
      → r.action ≡ "INTENT_CREATED"
      → IsTraced (events ++ e ∷ []) (rows ++ r ∷ []) p
  IsTraced-new p s a b c d = ground (
    arith,
    any-append (λ x. x.aggregate_id == p.id && x.event_type == "AUTH_STARTED") events (e ∷ []),
    any-append (λ x. x.tx_id == p.id && x.action == "INTENT_CREATED") rows (r ∷ []),
    eq_iff e.aggregate_id p.id,
    eq_iff r.tx_id p.id,
    eq_iff e.event_type "AUTH_STARTED",
    eq_iff r.action "INTENT_CREATED",
    ap (λ (x : String). x == "AUTHORIZED") s,
  )

All-append :
    (P : PaymentIntent → Type 0) (ps : List PaymentIntent) (p : PaymentIntent)
    → All P ps
    → P p
    → All P (ps ++ p ∷ [])
All-append P [] p h q = (q, tt)
All-append P (x ∷ ps) p h q = (h.0, All-append P ps p h.1 q)

module _ (rt : Runtime) (t : Transfer) (id event_id : String) (db : Db) where
  -- The first local transaction keeps the invariant, if the intent is free.
  created-IsConsistent :
      IsConsistent rt.sha256 db
      → any (clashes (intent_of id t)) db.payment_intents ≡ false
      → IsConsistent rt.sha256 (created rt id event_id t db)
  created-IsConsistent h free = record {
    chain = next_row-IsChain rt id "INTENT_CREATED" (created_payload t) db h.chain;
    unique = IsUnique-append db.payment_intents (intent_of id t) h.unique free;
    traced =
        All-append _ db.payment_intents (intent_of id t)
          (All-grow db.outbox_events db.audit_ledger _ _ db.payment_intents h.traced)
          (IsTraced-new db.outbox_events db.audit_ledger _ _ (intent_of id t) refl refl refl refl
            refl);
  }

module _ (rt : Runtime) (id event_id : String) (db : Db) where
  -- So does the second one.
  pub answered-IsConsistent :
      IsConsistent rt.sha256 db → IsConsistent rt.sha256 (answered rt id event_id bank_approved db)
  unfolding update_status
  answered-IsConsistent h = record {
    chain = next_row-IsChain rt id "AUTH_APPROVED" (final_payload bank_approved) db h.chain;
    unique = IsUnique-status id "AUTHORIZED" db.payment_intents h.unique;
    traced =
        All-status db.outbox_events db.audit_ledger _ _ id db.payment_intents refl refl refl refl
          h.traced;
  }

module _ (rt : Runtime) (t : Transfer) (db : Db) where
  pub Outcome-IsConsistent :
      (r : Result Payment × Conn)
      → IsConsistent rt.sha256 db
      → ((x : Db) → IsConsistent rt.sha256 x → IsConsistent rt.sha256 (rt.others x))
      → Outcome rt t db r
      → IsConsistent rt.sha256 r.1.committed
  Outcome-IsConsistent (err e, c) h others (inl same) = subst (IsConsistent rt.sha256) (sym same) h
  Outcome-IsConsistent (err e, c) h others (inr (free, same)) =
      subst (IsConsistent rt.sha256) (sym same) (others _ (created-IsConsistent rt t _ _ db h free))
  Outcome-IsConsistent (ok p, c) h others (inl (_, same)) =
      subst (IsConsistent rt.sha256) (sym same) h
  Outcome-IsConsistent (ok p, c) h others (inr (free, _, same)) =
      subst (IsConsistent rt.sha256) (sym same)
        (answered-IsConsistent rt _ _ _ (others _ (created-IsConsistent rt t _ _ db h free)))

  -- If the file is consistent, and what other connections commit keeps it so, then it is consistent
  -- after a call of `authorize_transfer`, however that ends: the audit chain is intact, no two
  -- intents share an identifier or a key, every intent has its AUTH_STARTED event and INTENT_CREATED
  -- record, and every authorized one its AUTH_APPROVED event and record.
  pub authorize_transfer-IsConsistent :
      IsConsistent rt.sha256 db
      → ((x : Db) → IsConsistent rt.sha256 x → IsConsistent rt.sha256 (rt.others x))
      → (n : ℕ) → IsConsistent rt.sha256 (authorize_transfer rt t (idle n db)).1.committed
  authorize_transfer-IsConsistent h others n =
      Outcome-IsConsistent (authorize_transfer rt t (idle n db)) h others
        (authorize_transfer-Outcome rt t db n)
