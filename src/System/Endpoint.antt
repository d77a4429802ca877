-- ===== src/System/Endpoint.antt =====
-- core/gateway.py: what the transfer endpoint leaves in a file of the ledger, which may have been
-- written by others since the request came in.
use sentinel_ai_v3_0_the_fin.Prelude.{ℤ, String, ◌≡◌, ◌⊎◌, inl, inr, refl, ap, ◌∙◌, true, Option}
use sentinel_ai_v3_0_the_fin.Database.{Db}
use sentinel_ai_v3_0_the_fin.Database.Connection.{
  Runtime, Conn, connect, Result, ok, err, operational_error,
}
use sentinel_ai_v3_0_the_fin.Transaction.{Payment, Transfer, new_status, bank_approved}
use sentinel_ai_v3_0_the_fin.Transaction.Outcome.{Outcome}
use sentinel_ai_v3_0_the_fin.OpaClient.{OpaInput, Reply}
use sentinel_ai_v3_0_the_fin.Core.{KeyStore}
use sentinel_ai_v3_0_the_fin.Gateway.{TransferRequest, Headers, App, handle_transfer}
use sentinel_ai_v3_0_the_fin.Gateway.Transfers.{handle_transfer-Keeps, transfer_of, IsJustified}
use sentinel_ai_v3_0_the_fin.System.Entitlement.{has_account, select-has_account}

-- The file in which a transfer to an account of the paying user has ended.
pub record Written (rt : Runtime) (db file : Db) : Type 0 where
  pub transfer : Transfer
  pub ended : Result Payment × Conn
  pub outcome : Outcome rt transfer db ended
  pub left : ended.1.committed ≡ file
  pub own : has_account transfer.user_id transfer.target db.approved_beneficiaries ≡ true

module _ (ks : KeyStore) (rt : Runtime) (post : OpaInput → Reply) (parse : String → Option ℤ)
    (headers : Headers) (req : TransferRequest) (app : App ks) where
  -- What a call of the endpoint makes of a file.
  abbrev pub requested : Db → Db
  requested db = (handle_transfer ks rt post parse headers req (record app { file = db })).1.file

  IsJustified-Written :
      (file : Db) → IsJustified ks rt post parse headers req app file → Written rt app.file file
  IsJustified-Written file j =
      let t = transfer_of headers req j.context in
      let b = j.approved.beneficiary in
      let own : has_account t.user_id t.target app.file.approved_beneficiaries ≡ true =
        ap (λ u. has_account u t.target app.file.approved_beneficiaries) j.approved.user
        ∙ ap (λ i. has_account req.role i app.file.approved_beneficiaries) j.approved.iban
        ∙ select-has_account req.target req.role b app.file j.approved.trusted in
      elim j.written [
        | inl e ↦ record {
          transfer = t;
          ended = (err operational_error, connect file);
          outcome = inr (j.free, e);
          left = refl;
          own = own;
        }
        | inr e ↦ record {
          transfer = t;
          ended =
              (ok (record { id = rt.uuid4 0; status = new_status bank_approved }), connect file);
          outcome = inr (j.free, refl, e);
          left = refl;
          own = own;
        }
      ]

  pub endpoint_lem :
      let file = (handle_transfer ks rt post parse headers req app).1.file in
      (file ≡ app.file) ⊎ Written rt app.file file
  endpoint_lem = elim (handle_transfer-Keeps ks rt post parse headers req app) [
    | inl same ↦ inl same
    | inr j ↦ inr (IsJustified-Written (handle_transfer ks rt post parse headers req app).1.file j)
  ]
