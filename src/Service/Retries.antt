-- ===== src/Service/Retries.antt =====
-- Requests that are sent again.
use sentinel_ai_v3_0_the_fin.Prelude.{
  ℕ, ℤ, String, ◌≡◌, inl, inr, refl, ap, ◌∙◌, Bool, Option, some, arith,
}
use sentinel_ai_v3_0_the_fin.Database.{PaymentIntent, select_by_key}
use sentinel_ai_v3_0_the_fin.Database.Connection.{Runtime}
use sentinel_ai_v3_0_the_fin.Transaction.Retry.{known_is_taken}
use sentinel_ai_v3_0_the_fin.OpaClient.{OpaInput, Reply}
use sentinel_ai_v3_0_the_fin.Core.{KeyStore}
use sentinel_ai_v3_0_the_fin.Gateway.{TransferRequest, App, handle_transfer}
use sentinel_ai_v3_0_the_fin.Gateway.Transfers.{handle_transfer-Keeps, transfer_of}
use sentinel_ai_v3_0_the_fin.Service.{HttpRequest, Framework, Service, headers_of, serve}
use sentinel_ai_v3_0_the_fin.Service.Rules.{serve_rule}

module _ (ks : KeyStore) (rt : Runtime) (post : OpaInput → Reply) (parse : String → Option ℤ)
    (fw : Framework) (q : HttpRequest) where
  module _ (key : String) (p : PaymentIntent) (with_key : q.idempotency_key ≡ some key) where
    -- If the key is known, the file is left alone.
    abbrev SparesFile : App ks → App ks → Type 0
    SparesFile a b = select_by_key key a.file ≡ some p → b.file ≡ a.file

    endpoint-SparesFile :
        (req : TransferRequest) (app : App ks)
        → SparesFile app (handle_transfer ks rt post parse (headers_of q) req app).1
    endpoint-SparesFile req app e =
        elim (handle_transfer-Keeps ks rt post parse (headers_of q) req app) [
          | inl same ↦ same
          | inr j ↦
              let t = transfer_of (headers_of q) req j.context in
              let its_key : t.idempotency_key ≡ key = ground (arith, with_key) in
              let taken =
                known_is_taken rt t app.file p (ap (λ k. select_by_key k app.file) its_key ∙ e) in
              cc (taken, j.free)
        ]

    -- A key pays once, through the whole stack: if the ledger has an intent with the key that a
    -- request carries, the request leaves the ledger's file untouched, whatever Redis has forgotten
    -- or answers, wherever the request stops, and whichever statements fail.
    pub known_key_pays_once :
        (n random : ℕ) (world : ℕ → Bool × Bool) (s : Service ks)
        → select_by_key key s.app.file ≡ some p
        → (serve ks rt post parse fw n q random world s).1.app.file ≡ s.app.file
    known_key_pays_once =
        serve_rule ks rt post parse fw q SparesFile (λ app e. refl)
          (λ a b c f g e. g (ap (select_by_key key) (f e) ∙ e) ∙ f e) endpoint-SparesFile
