-- ===== src/Enforcer/Guarantees.antt =====
-- What an approved intent guarantees.
use sentinel_ai_v3_0_the_fin.Prelude.{
  ℕ, ℤ, pos, ◌≤ℤ◌, ◌<ℤ◌, String, ◌≡◌, ◌≢◌, ◌↔◌, refl, true, false, Option, none, some, List, [],
  ◌∷◌, arith, ◌==◌, eq_iff, ◌&&◌, find_first, Bool-cases, ◌||◌, ◌+◌, inl, inr, ◌⊎◌,
}
use sentinel_ai_v3_0_the_fin.Database.{Db, Beneficiary, select_beneficiary}
use sentinel_ai_v3_0_the_fin.Database.Connection.{Runtime, Conn, Result, ok, err, query}
use sentinel_ai_v3_0_the_fin.Database.Rules.{bind-ok, bind-err, query-cases}
use sentinel_ai_v3_0_the_fin.OpaClient.{
  OpaInput, Reply, result, OpaClient, Evaluated, returned, raised, evaluate_policy,
}
use sentinel_ai_v3_0_the_fin.OpaClient.Breaker.{evaluate_policy_allows_iff}
use sentinel_ai_v3_0_the_fin.Enforcer.{
  cents, allow, Amount, missing, number, text, AiPayload, SafeContext, Validation, to_float,
  opa_payload, or_blank, is_empty_id, is_empty_amount, conclude, ask_oracle, with_amount,
  validate_transfer_intent,
}

-- The policy allows a payload exactly if the action is a transfer, the amount is positive and at
-- most 50000, the beneficiary is active with a risk score below 80, and its country is not one of
-- the three that are sanctioned.
pub allow_iff :
    (input : OpaInput)
    → (allow input ≡ true) ↔ (
        (input.action ≡ "transfer_funds")
        × (pos 0 <ℤ input.amount)
        × (input.amount ≤ℤ cents 50000)
        × (input.is_active ≡ pos 1)
        × (input.aml_risk_score <ℤ pos 80)
        × (input.country_code ≢ "NK")
        × (input.country_code ≢ "IR")
        × (input.country_code ≢ "SY"))
unfolding allow
allow_iff input = ground (
  arith,
  eq_iff input.action "transfer_funds",
  eq_iff input.country_code "NK",
  eq_iff input.country_code "IR",
  eq_iff input.country_code "SY",
)

-- The row is one of those in the table.
abbrev pub Listed : Beneficiary → List Beneficiary → Type 0
Listed b [] = ⊥
Listed b (x ∷ bs) = (x ≡ b) ⊎ Listed b bs

-- The row that is found has the identifier and the owner that were asked for.
select_beneficiary_owner :
    (id owner : String) (db : Db) {b : Beneficiary}
    → select_beneficiary id owner db ≡ some b
    → (b.id ≡ id) × (b.owner_user_id ≡ owner)
unfolding select_beneficiary
select_beneficiary_owner id owner db {b} e = go db.approved_beneficiaries e
  where
    go :
        (bs : List Beneficiary)
        → find_first (λ x. x.id == id && x.owner_user_id == owner) bs ≡ some b
        → (b.id ≡ id) × (b.owner_user_id ≡ owner)
    go [] e = cc
    go (x ∷ bs) e = ground (arith, go bs, eq_iff x.id id, eq_iff x.owner_user_id owner)

-- The row that is found stands in the table.
select_beneficiary-Listed :
    (id owner : String) (db : Db) {b : Beneficiary}
    → select_beneficiary id owner db ≡ some b
    → Listed b db.approved_beneficiaries
unfolding select_beneficiary
select_beneficiary-Listed id owner db {b} e = go db.approved_beneficiaries e
  where
    go :
        (bs : List Beneficiary)
        → find_first (λ x. x.id == id && x.owner_user_id == owner) bs ≡ some b
        → Listed b bs
    go [] e = cc e
    go (x ∷ bs) e = elim (Bool-cases (x.id == id && x.owner_user_id == owner)) [
      | inl y ↦ inl (ground (arith, y, e))
      | inr n ↦ inr (go bs (ground (arith, n, e)))
    ]

-- The amount that a value stands for: a number for itself, and a text for what Python reads in it.
abbrev pub StandsFor : (String → Option ℤ) → Amount → ℤ → Type 0
StandsFor parse missing n = ⊥
StandsFor parse (number m) n = m ≡ n
StandsFor parse (text s) n = parse s ≡ some n

to_float-StandsFor :
    (parse : String → Option ℤ) (a : Amount) (n : ℤ)
    → to_float parse a ≡ some n
    → StandsFor parse a n
unfolding to_float
to_float-StandsFor parse missing n e = cc e
to_float-StandsFor parse (number m) n e = cc e
to_float-StandsFor parse (text s) n e = e

-- What the server is asked about a transfer of an amount to a beneficiary.
abbrev pub question : ℤ → Beneficiary → OpaInput
question amount b = record {
  action = "transfer_funds";
  amount = amount;
  is_active = b.is_active;
  aml_risk_score = b.aml_risk_score;
  country_code = b.country_code;
}

-- What is known of an approved intent: the beneficiary's row stands in the tables under the asked
-- identifier and the asking user, the server has allowed the transfer to it of the amount, with the
-- row's status, risk score and country, and the context carries the user, the amount and the row's
-- IBAN.
pub record IsApproved (post : OpaInput → Reply) (parse : String → Option ℤ) (opa : OpaClient)
    (user_id : String) (ai : AiPayload) (db : Db) (x : SafeContext) : Type 0 where
  pub beneficiary : Beneficiary
  pub trusted : select_beneficiary (or_blank ai.target_beneficiary_id) user_id db ≡ some beneficiary
  pub owned :
      (beneficiary.id ≡ or_blank ai.target_beneficiary_id) × (beneficiary.owner_user_id ≡ user_id)
  pub listed : Listed beneficiary db.approved_beneficiaries
  pub asked : StandsFor parse ai.amount x.amount
  pub closed : opa.is_open ≡ false
  pub allowed : post (question x.amount beneficiary) ≡ result (some true)
  pub user : x.user_id ≡ user_id
  pub iban : x.target_iban ≡ beneficiary.account_iban

module _ (rt : Runtime) (post : OpaInput → Reply) (parse : String → Option ℤ) (opa : OpaClient)
    (user_id : String) (ai : AiPayload) where
  -- What a call of the enforcer gives: if it says that the intent is safe, the intent is approved.
  abbrev pub Guarantees : Conn → Result (Validation × OpaClient) × Conn → Type 0
  Guarantees c (ok (v, s), c') =
      (v.is_safe ≡ true
        → (x : SafeContext) × (v.safe_context ≡ some x)
          × IsApproved post parse opa user_id ai c.working x)
      × (c'.working ≡ c.working)
      × (c'.committed ≡ c.committed)
      × (c'.in_tx ≡ c.in_tx)
      × (c'.draws ≡ c.draws)
  Guarantees c (err e, c') =
      (c'.working ≡ c.working)
      × (c'.committed ≡ c.committed)
      × (c'.in_tx ≡ c.in_tx)
      × (c'.draws ≡ c.draws)

  conclude-Guarantees :
      (c : Conn) (n : ℕ) (amount : ℤ) (b : Beneficiary) (s : OpaClient) (r : Evaluated)
      → (r ≡ returned true
          → IsApproved post parse opa user_id ai c.working
              (record { user_id = user_id; amount = amount; target_iban = b.account_iban }))
      → Guarantees c (conclude user_id amount b (s, r) (record c { sent = n }))
  unfolding conclude
  conclude-Guarantees c n amount b s (returned true) h =
      ((λ _. (_, refl, h refl)), refl, refl, refl, refl)
  conclude-Guarantees c n amount b s (returned false) h = ((λ q. cc), refl, refl, refl, refl)
  conclude-Guarantees c n amount b s raised h = (refl, refl, refl, refl)

  ask_oracle-Guarantees :
      (c : Conn) (n : ℕ) (amount : ℤ) (found : Option Beneficiary)
      → to_float parse ai.amount ≡ some amount
      → select_beneficiary (or_blank ai.target_beneficiary_id) user_id c.working ≡ found
      → Guarantees c (ask_oracle post opa user_id amount found (record c { sent = n }))
  unfolding ask_oracle opa_payload
  ask_oracle-Guarantees c n amount none a q = ((λ x. cc), refl, refl, refl, refl)
  ask_oracle-Guarantees c n amount (some b) a q =
      let answer = evaluate_policy post (opa_payload amount b) opa in
      conclude-Guarantees c n amount b answer.0 answer.1 λ yes'.
        let why = (evaluate_policy_allows_iff post (opa_payload amount b) opa).0.0 yes' in
        record {
          beneficiary = b;
          trusted = q;
          owned = select_beneficiary_owner (or_blank ai.target_beneficiary_id) user_id c.working q;
          listed =
              select_beneficiary-Listed (or_blank ai.target_beneficiary_id) user_id c.working q;
          asked = to_float-StandsFor parse ai.amount amount a;
          closed = why.0;
          allowed = why.1;
          user = refl;
          iban = refl;
        }

  with_amount-Guarantees :
      (c : Conn) (amount : Option ℤ)
      → to_float parse ai.amount ≡ amount
      → Guarantees c (with_amount rt post opa user_id (or_blank ai.target_beneficiary_id) amount c)
  unfolding with_amount
  with_amount-Guarantees c none a = ((λ x. cc), refl, refl, refl, refl)
  with_amount-Guarantees c (some amount) a =
      let select = select_beneficiary (or_blank ai.target_beneficiary_id) user_id in
      elim (query-cases rt select c) [
        | inl q ↦
            rw (bind-ok (query rt select) (ask_oracle post opa user_id amount) q)
              (ask_oracle-Guarantees c (c.sent + 1) amount (select c.working) a refl)
        | inr q ↦
            rw (bind-err (query rt select) (ask_oracle post opa user_id amount) q)
              (refl, refl, refl, refl)
      ]

  -- Zero trust: whatever the caller's payload, the state of the tables and of the breaker and the
  -- server's answers, if the enforcer says that an intent is safe, then the tables have a
  -- beneficiary under the asked identifier and user, the breaker was closed, the server answered
  -- true to the question that names the action transfer_funds, the parsed amount and this
  -- beneficiary's status, risk score and country, and the context that is returned carries the
  -- user, this amount and the IBAN of the table. It writes nothing, also where it raises.
  pub validate_transfer_intent-Guarantees :
      (c : Conn) → Guarantees c (validate_transfer_intent rt post parse opa user_id ai c)
  unfolding validate_transfer_intent
  validate_transfer_intent-Guarantees c =
      elim (Bool-cases (is_empty_id ai.target_beneficiary_id || is_empty_amount ai.amount)) [
        | inl empty ↦ rw empty ((λ x. cc), refl, refl, refl, refl)
        | inr full ↦ rw full (with_amount-Guarantees c (to_float parse ai.amount) refl)
      ]
