-- ===== src/Gateway/Modes.antt =====
-- The modes of the gateway.
use sentinel_ai_v3_0_the_fin.Prelude.{
  ℕ, ◌≤◌, String, ◌≡◌, ◌≢◌, ◌↔◌, Bool, false, Option, none, some, arith, eq_iff,
}
use sentinel_ai_v3_0_the_fin.Gateway.{
  SystemMode, normal, frozen, read_only, ramp_up, parse_mode, RecoveryState, ControlPlane,
  sync_rate, sync_round, set_mode, passed, security_gate,
}

-- The gate hands a request on exactly if neither the core nor the mode is frozen, it is a GET if the
-- mode is READ_ONLY, and the random draw is within the rate limit if the mode is RAMP_UP.
pub security_gate_passes_iff :
    (core_frozen : Bool) (state : RecoveryState) (method : String) (random : ℕ)
    → (security_gate core_frozen state method random ≡ passed) ↔ (
        (core_frozen ≡ false)
        × (state.mode ≢ frozen)
        × (state.mode ≡ read_only → method ≡ "GET")
        × (state.mode ≡ ramp_up → random ≤ state.rate_limit))
unfolding security_gate
security_gate_passes_iff f state method random = ground (arith, eq_iff method "GET")

abbrev mode_name : SystemMode → String
mode_name normal = "NORMAL"
mode_name frozen = "FROZEN"
mode_name read_only = "READ_ONLY"
mode_name ramp_up = "RAMP_UP"

parse_mode-name : (name : String) (m : SystemMode) → parse_mode name ≡ some m → name ≡ mode_name m
unfolding parse_mode
parse_mode-name name m e = ground (
  arith,
  eq_iff name "NORMAL",
  eq_iff name "FROZEN",
  eq_iff name "READ_ONLY",
  eq_iff name "RAMP_UP",
)

module _ (parse : String → Option ℕ) (str_rate : String) (rate : ℕ) where
  sync_rate-set :
      (r : ℕ)
      → parse str_rate ≡ some rate
      → str_rate ≢ ""
      → sync_rate parse (some str_rate) r ≡ rate
  unfolding sync_rate
  sync_rate-set r p ne = ground (arith, p, eq_iff str_rate "")

  sync_named :
      (m : SystemMode) (redis : ControlPlane) (state : RecoveryState)
      → parse str_rate ≡ some rate
      → str_rate ≢ ""
      → sync_round parse (set_mode (mode_name m) str_rate redis) state
        ≡ record { mode = m; rate_limit = rate }
  unfolding sync_round set_mode
  sync_named normal redis state p ne = simp (sync_rate-set state.rate_limit p ne)
  sync_named frozen redis state p ne = simp (sync_rate-set state.rate_limit p ne)
  sync_named read_only redis state p ne = simp (sync_rate-set state.rate_limit p ne)
  sync_named ramp_up redis state p ne = simp (sync_rate-set state.rate_limit p ne)

set_mode-unknown :
    (name str_rate : String) (redis : ControlPlane)
    → parse_mode name ≡ none
    → set_mode name str_rate redis ≡ redis
unfolding set_mode parse_mode
set_mode-unknown name str_rate redis e = ground (arith, e)

-- What the operator sets reaches the gateway: for a name that the gateway reads as a mode, one
-- round of synchronisation after `set_mode` leaves this mode and the rate that was set, whatever the
-- control plane and the gateway held before. For any other name `set_mode` changes nothing. The
-- text of the rate is assumed to be read back as the rate, and not to be empty.
pub set_mode-sync :
    (parse : String → Option ℕ) (name str_rate : String) (rate : ℕ) (redis : ControlPlane)
    (state : RecoveryState)
    → parse str_rate ≡ some rate
    → str_rate ≢ ""
    → ((m : SystemMode)
        → parse_mode name ≡ some m
        → sync_round parse (set_mode name str_rate redis) state
          ≡ record { mode = m; rate_limit = rate })
      × (parse_mode name ≡ none → set_mode name str_rate redis ≡ redis)
set_mode-sync parse name str_rate rate redis state p ne = (
  λ m e. rw (parse_mode-name name m e) (sync_named parse str_rate rate m redis state p ne),
  λ e. set_mode-unknown name str_rate redis e,
)
