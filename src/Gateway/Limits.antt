-- ===== src/Gateway/Limits.antt =====
-- What config/opa/policy.rego means for a transfer that is answered with a success.
use sentinel_ai_v3_0_the_fin.Prelude.{
  ℤ, pos, ◌≤ℤ◌, ◌<ℤ◌, String, ◌≡◌, ◌≢◌, sym, subst, true, Option, some,
}
use sentinel_ai_v3_0_the_fin.Database.{Db, Beneficiary}
use sentinel_ai_v3_0_the_fin.Database.Connection.{Runtime}
use sentinel_ai_v3_0_the_fin.Transaction.{Payment}
use sentinel_ai_v3_0_the_fin.OpaClient.{OpaInput, Reply, result}
use sentinel_ai_v3_0_the_fin.Enforcer.{cents, allow, SafeContext}
use sentinel_ai_v3_0_the_fin.Enforcer.Guarantees.{allow_iff, Listed, IsApproved, question}
use sentinel_ai_v3_0_the_fin.Core.{KeyStore}
use sentinel_ai_v3_0_the_fin.Gateway.{
  TransferRequest, Headers, Response, success, intervention, integrity_mismatch, crashed, App,
  handle_transfer,
}
use sentinel_ai_v3_0_the_fin.Gateway.Transfers.{payload_of}
use sentinel_ai_v3_0_the_fin.Gateway.Receipts.{Receipt, handle_transfer-Receipt}

-- The request's amount and its beneficiary, which the ledger lists for its user, are within the
-- policy's limits.
pub record IsWithinLimits (req : TransferRequest) (db : Db) : Type 0 where
  pub beneficiary : Beneficiary
  pub listed : Listed beneficiary db.approved_beneficiaries
  pub named : beneficiary.id ≡ req.target
  pub owned : beneficiary.owner_user_id ≡ req.role
  pub positive : pos 0 <ℤ req.amount
  pub at_most : req.amount ≤ℤ cents 50000
  pub active : beneficiary.is_active ≡ pos 1
  pub low_risk : beneficiary.aml_risk_score <ℤ pos 80
  pub not_sanctioned :
      (beneficiary.country_code ≢ "NK")
      × (beneficiary.country_code ≢ "IR")
      × (beneficiary.country_code ≢ "SY")

module _ (post : OpaInput → Reply)
    (obeys : (input : OpaInput) → post input ≡ result (some true) → allow input ≡ true) where
  approved-IsWithinLimits :
      (parse : String → Option ℤ) (req : TransferRequest) (ks : KeyStore) (app : App ks)
      (x : SafeContext)
      → IsApproved post parse app.opa req.role (payload_of req) app.file x
      → IsWithinLimits req app.file
  approved-IsWithinLimits parse req ks app x a =
      let asked =
        subst (λ n. post (question n a.beneficiary) ≡ result (some true)) (sym a.asked) a.allowed in
      let (_, positive, at_most, active, low_risk, korea, iran, syria) =
        (allow_iff (question req.amount a.beneficiary)).0
          (obeys (question req.amount a.beneficiary) asked) in
      record {
        beneficiary = a.beneficiary;
        listed = a.listed;
        named = a.owned.0;
        owned = a.owned.1;
        positive = positive;
        at_most = at_most;
        active = active;
        low_risk = low_risk;
        not_sanctioned = (korea, iran, syria);
      }

  module _ (ks : KeyStore) (rt : Runtime) (parse : String → Option ℤ) (headers : Headers)
      (req : TransferRequest) (app : App ks) where
    Receipt-IsWithinLimits :
        (trace_id : String) (payment : Payment) (r : Response × App ks)
        → Receipt ks rt post parse headers req app r
        → r.0 ≡ success trace_id payment
        → IsWithinLimits req app.file
    Receipt-IsWithinLimits trace_id payment (success t p, app') b e =
        approved-IsWithinLimits parse req ks app b.context b.approved
    Receipt-IsWithinLimits trace_id payment (intervention x, app') b e = cc e
    Receipt-IsWithinLimits trace_id payment (integrity_mismatch, app') b e = cc e
    Receipt-IsWithinLimits trace_id payment (crashed, app') b e = cc e

    -- A transfer that is answered with a success was within the limits of the policy, if the server
    -- never answers true where the policy does not allow: its amount is positive and at most 50000,
    -- and the ledger lists its target for its user, active, with a risk score below 80, in a country
    -- that is not sanctioned.
    pub success-IsWithinLimits :
        (trace_id : String) (payment : Payment)
        → (handle_transfer ks rt post parse headers req app).0 ≡ success trace_id payment
        → IsWithinLimits req app.file
    success-IsWithinLimits trace_id payment =
        Receipt-IsWithinLimits trace_id payment (handle_transfer ks rt post parse headers req app)
          (handle_transfer-Receipt ks rt post parse headers req app)
