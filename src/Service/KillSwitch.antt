-- ===== src/Service/KillSwitch.antt =====
-- From the operator's command line to the answers of the gateway.
use sentinel_ai_v3_0_the_fin.Prelude.{
  ℕ, ℤ, String, ◌≡◌, refl, ap, Bool, true, false, Option, some, [], ◌∷◌,
}
use sentinel_ai_v3_0_the_fin.Database.Connection.{Runtime}
use sentinel_ai_v3_0_the_fin.OpaClient.{OpaInput, Reply}
use sentinel_ai_v3_0_the_fin.Core.{KeyStore, is_frozen}
use sentinel_ai_v3_0_the_fin.Gateway.{
  RecoveryState, ControlPlane, GateAnswer, refused, security_gate, sync_mode, sync_round, set_mode,
  with_rate, admin_panel,
}
use sentinel_ai_v3_0_the_fin.Idempotency.{admit}
use sentinel_ai_v3_0_the_fin.Service.{
  HttpRequest, Framework, Service, refused_by_gate, if_passed, admitted, serve,
}

-- What the command leaves in Redis.
abbrev pub ordered : ControlPlane
ordered = record { mode = some "FROZEN"; rate_limit = some "1.0" }

panel_freezes :
    (upper : String → String) (str_float : String → Option String) (script word : String)
    (redis : ControlPlane)
    → upper word ≡ "FROZEN"
    → admin_panel upper str_float (script ∷ word ∷ []) redis ≡ some ordered
unfolding admin_panel set_mode
panel_freezes upper str_float script word redis e =
    ap (λ (mode : String). with_rate mode redis (some "1.0")) e

frozen_gate :
    (core_frozen : Bool) (parse_rate : String → Option ℕ) (state : RecoveryState) (method : String)
    (random : ℕ)
    → security_gate core_frozen (sync_round parse_rate ordered state) method random
      ≡ refused 503 "SYSTEM_FROZEN"
unfolding security_gate sync_round sync_mode
frozen_gate true parse_rate state method random = refl
frozen_gate false parse_rate state method random = refl

module _ (ks : KeyStore) (rt : Runtime) (post : OpaInput → Reply) (parse : String → Option ℤ)
    (fw : Framework) where
  -- The kill switch works from end to end: the command `admin_panel.py FROZEN`, in any spelling that
  -- str.upper takes to FROZEN, succeeds; and once the gateway has synchronised, whatever mode it was
  -- in, every request is answered with 503 SYSTEM_FROZEN, and the ledger, the breaker, the core and
  -- the idempotency entries stay as they are.
  pub kill_switch_stops_all :
      (upper : String → String) (str_float : String → Option String)
      (parse_rate : String → Option ℕ) (script word : String) (redis : ControlPlane)
      → upper word ≡ "FROZEN"
      → (plane : ControlPlane) × (admin_panel upper str_float (script ∷ word ∷ []) redis
          ≡ some plane)
        × ((n random : ℕ) (q : HttpRequest) (world : ℕ → Bool × Bool) (s : Service ks)
            → let s' : Service ks = record s {
              recovery = sync_round parse_rate plane s.recovery;
            } in
              serve ks rt post parse fw n q random world s'
              ≡ (refused_by_gate 503 "SYSTEM_FROZEN", s'))
  unfolding serve
  kill_switch_stops_all upper str_float parse_rate script word redis e = (
    ordered,
    panel_freezes upper str_float script word redis e,
    λ n random q world s.
        let s' : Service ks = record s { recovery = sync_round parse_rate ordered s.recovery } in
        ap
          (λ (a : GateAnswer).
            if_passed ks rt post parse fw a
              (admitted ks rt post parse fw n q world (admit false q.method q.idempotency_key) s')
              s')
          (frozen_gate (is_frozen ks s.app.core) parse_rate s.recovery q.method random),
  )
