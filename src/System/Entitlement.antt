-- ===== src/System/Entitlement.antt =====
-- Whom the ledger pays: every intent against the table of beneficiaries.
use sentinel_ai_v3_0_the_fin.Prelude.{
  String, ◌≡◌, inl, inr, sym, subst, Bool, true, ◌&&◌, some, List, [], ◌∷◌, ◌++◌, map, arith, any,
  any-append, find_first, All, ◌==◌, eq_iff, Bool-cases,
}
use sentinel_ai_v3_0_the_fin.Database.{
  Db, PaymentIntent, Beneficiary, select_beneficiary, test_beneficiary, init_db, with_status,
  update_status, mark_published,
}
use sentinel_ai_v3_0_the_fin.Database.Connection.{Runtime, Conn, Result, ok, err}
use sentinel_ai_v3_0_the_fin.Transaction.{Payment, Transfer, intent_of, bank_approved}
use sentinel_ai_v3_0_the_fin.Transaction.Spec.{created, answered}
use sentinel_ai_v3_0_the_fin.Transaction.Outcome.{between, Outcome}
use sentinel_ai_v3_0_the_fin.Relay.Marking.{relayed, relayed_lem}

-- Whether the user has a beneficiary with this account.
abbrev pub has_account : String → String → List Beneficiary → Bool
has_account user_id iban = any (λ b. b.owner_user_id == user_id && b.account_iban == iban)

abbrev pub IsPayable : List Beneficiary → PaymentIntent → Type 0
IsPayable bs p = has_account p.user_id p.target bs ≡ true

-- Every intent goes to an account that is registered for the user who pays.
abbrev pub IsEntitled : Db → Type 0
IsEntitled db = All (IsPayable db.approved_beneficiaries) db.payment_intents

find-has_account :
    (id user_id : String) (b : Beneficiary) (bs : List Beneficiary)
    → find_first (λ x. x.id == id && x.owner_user_id == user_id) bs ≡ some b
    → has_account user_id b.account_iban bs ≡ true
find-has_account id user_id b [] e = cc e
find-has_account id user_id b (x ∷ bs) e =
    elim (Bool-cases (x.id == id && x.owner_user_id == user_id)) [
      | inl y ↦ ground (arith, y, e, eq_iff x.account_iban b.account_iban)
      | inr n ↦ ground (arith, find-has_account id user_id b bs (ground (arith, n, e)))
    ]

pub select-has_account :
    (id user_id : String) (b : Beneficiary) (db : Db)
    → select_beneficiary id user_id db ≡ some b
    → has_account user_id b.account_iban db.approved_beneficiaries ≡ true
unfolding select_beneficiary
select-has_account id user_id b db e = find-has_account id user_id b db.approved_beneficiaries e

All-IsPayable_append :
    (bs : List Beneficiary) (ps : List PaymentIntent) (p : PaymentIntent)
    → All (IsPayable bs) ps
    → IsPayable bs p
    → All (IsPayable bs) (ps ++ p ∷ [])
All-IsPayable_append bs [] p h k = (k, tt)
All-IsPayable_append bs (x ∷ ps) p h k = (h.0, All-IsPayable_append bs ps p h.1 k)

All-IsPayable_status :
    (bs : List Beneficiary) (id s : String) (ps : List PaymentIntent)
    → All (IsPayable bs) ps
    → All (IsPayable bs) (map (with_status id s) ps)
All-IsPayable_status bs id s [] h = tt
All-IsPayable_status bs id s (p ∷ ps) h = (
  elim (Bool-cases (p.id == id)) [ inl y ↦ rw y h.0 | inr n ↦ rw n h.0 ],
  All-IsPayable_status bs id s ps h.1,
)

All-IsPayable_more :
    (bs more : List Beneficiary) (ps : List PaymentIntent)
    → All (IsPayable bs) ps
    → All (IsPayable (bs ++ more)) ps
All-IsPayable_more bs more [] h = tt
All-IsPayable_more bs more (p ∷ ps) h = (
  ground (
    arith,
    h.0,
    any-append (λ b. b.owner_user_id == p.user_id && b.account_iban == p.target) bs more,
  ),
  All-IsPayable_more bs more ps h.1,
)

module _ (rt : Runtime) (id event_id : String) (db : Db) where
  created-IsEntitled :
      (t : Transfer)
      → has_account t.user_id t.target db.approved_beneficiaries ≡ true
      → IsEntitled db
      → IsEntitled (created rt id event_id t db)
  created-IsEntitled t own h =
      All-IsPayable_append db.approved_beneficiaries db.payment_intents (intent_of id t) h own

  pub answered-IsEntitled : IsEntitled db → IsEntitled (answered rt id event_id bank_approved db)
  unfolding update_status
  answered-IsEntitled h =
      All-IsPayable_status db.approved_beneficiaries id "AUTHORIZED" db.payment_intents h

-- A call of `authorize_transfer` for a payable transfer.
pub Outcome-IsEntitled :
    (rt : Runtime) (t : Transfer) (db : Db) (r : Result Payment × Conn)
    → has_account t.user_id t.target db.approved_beneficiaries ≡ true
    → ((x : Db) → IsEntitled x → IsEntitled (rt.others x))
    → IsEntitled db
    → Outcome rt t db r
    → IsEntitled r.1.committed
Outcome-IsEntitled rt t db (err e, c) own others h (inl same) = subst IsEntitled (sym same) h
Outcome-IsEntitled rt t db (ok p, c) own others h (inl (_, same)) = subst IsEntitled (sym same) h
Outcome-IsEntitled rt t db (err e, c) own others h (inr (free, same)) =
    subst IsEntitled (sym same) (
      others (created rt (rt.uuid4 0) (rt.uuid4 1) t db)
        (created-IsEntitled rt (rt.uuid4 0) (rt.uuid4 1) db t own h))
Outcome-IsEntitled rt t db (ok p, c) own others h (inr (free, _, same)) =
    subst IsEntitled (sym same) (
      answered-IsEntitled rt (rt.uuid4 0) (rt.uuid4 2) (between rt t db) (
        others (created rt (rt.uuid4 0) (rt.uuid4 1) t db)
          (created-IsEntitled rt (rt.uuid4 0) (rt.uuid4 1) db t own h)))

pub relayed-IsEntitled :
    (rts : List Runtime) (db : Db) → IsEntitled db → IsEntitled (relayed rts db)
unfolding mark_published
relayed-IsEntitled rts db h = relayed_lem IsEntitled (λ id x k. k) rts db h

pub init_db-IsEntitled : (db : Db) → IsEntitled db → IsEntitled (init_db (some db))
unfolding init_db
init_db-IsEntitled db h =
    elim (Bool-cases (any (λ x. x.id == test_beneficiary.id) db.approved_beneficiaries)) [
      | inl y ↦ rw y h
      | inr n ↦ rw n (
          All-IsPayable_more db.approved_beneficiaries (test_beneficiary ∷ []) db.payment_intents h)
    ]
