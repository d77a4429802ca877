-- ===== src/Gateway.antt =====
-- core/gateway.py: the modes of the system, the security gate and the transfer endpoint; and
-- admin_panel.py, which sets the mode.
pub mod Modes
pub mod Transfers
pub mod Receipts
pub mod Limits
mod Tests
use sentinel_ai_v3_0_the_fin.Prelude.{
  ℕ, ◌+◌, ℤ, String, Bool, true, false, not, ◌&&◌, ◌||◌, Option, none, some, List, [], ◌∷◌, ltb,
  ◌==◌, if◌then◌else◌,
}
use sentinel_ai_v3_0_the_fin.Database.{Db}
use sentinel_ai_v3_0_the_fin.Database.Connection.{Error, Runtime, Conn, connect, Result, ok, err}
use sentinel_ai_v3_0_the_fin.Transaction.{Payment, authorize_transfer}
use sentinel_ai_v3_0_the_fin.OpaClient.{OpaInput, Reply, OpaClient}
use sentinel_ai_v3_0_the_fin.Enforcer.{
  Amount, AiPayload, SafeContext, Validation, validate_transfer_intent,
}
use sentinel_ai_v3_0_the_fin.Core.{
  KeyStore, Checked, checked, runtime_error, SentinelCore, is_frozen, audit_and_verify,
}

pub data SystemMode : Type 0 where
  normal frozen read_only ramp_up : SystemMode

-- `SystemMode(value)`: `none` is its ValueError.
unfoldable pub parse_mode : String → Option SystemMode
parse_mode s =
    if s == "NORMAL"
    then some normal
    else if s == "FROZEN"
    then some frozen
    else if s == "READ_ONLY"
    then some read_only
    else if s == "RAMP_UP"
    then some ramp_up
    else none

-- The rate is a share of requests; it is only compared, so any unit serves.
pub record RecoveryState : Type 0 where
  pub mode : SystemMode
  pub rate_limit : ℕ

-- What the control plane keeps in Redis for the gateway.
pub record ControlPlane : Type 0 where
  pub mode : Option String
  pub rate_limit : Option String

abbrev or_mode : SystemMode → Option SystemMode → SystemMode
or_mode m none = m
or_mode m (some x) = x

-- `if mode_val: try: state.mode = SystemMode(mode_val) except ValueError: pass`
unfoldable pub sync_mode : Option String → SystemMode → SystemMode
sync_mode none m = m
sync_mode (some v) m = if v == "" then m else or_mode m (parse_mode v)

abbrev or_rate : ℕ → Option ℕ → ℕ
or_rate r none = r
or_rate r (some x) = x

-- `if rate_val: state.rate_limit = float(rate_val)`; a ValueError of `float` is caught by the loop.
unfoldable pub sync_rate : (String → Option ℕ) → Option String → ℕ → ℕ
sync_rate parse none r = r
sync_rate parse (some v) r = if v == "" then r else or_rate r (parse v)

-- One round of `sync_with_redis`.
unfoldable pub sync_round : (String → Option ℕ) → ControlPlane → RecoveryState → RecoveryState
unfolding sync_mode sync_rate parse_mode
sync_round parse redis state = record {
  mode = sync_mode redis.mode state.mode;
  rate_limit = sync_rate parse redis.rate_limit state.rate_limit;
}

abbrev is_mode_name : String → Bool
is_mode_name m = m == "NORMAL" || m == "FROZEN" || m == "READ_ONLY" || m == "RAMP_UP"

-- `set_mode` of admin_panel.py; `str_rate` is str(rate).
unfoldable pub set_mode : String → String → ControlPlane → ControlPlane
set_mode mode str_rate redis =
    if not (is_mode_name mode)
    then redis
    else record { mode = some mode; rate_limit = some str_rate }

abbrev pub with_rate : String → ControlPlane → Option String → Option ControlPlane
with_rate mode redis none = none
with_rate mode redis (some str_rate) = some (set_mode mode str_rate redis)

-- `admin_panel.py` on its command line, the script's name first; `upper` is str.upper, and `str_float`
-- is str(float(text)), `none` for its ValueError.
unfoldable pub admin_panel :
    (String → String) → (String → Option String) → List String → ControlPlane → Option ControlPlane
unfolding set_mode
admin_panel upper str_float [] redis = some redis
admin_panel upper str_float (_ ∷ []) redis = some redis
admin_panel upper str_float (_ ∷ mode ∷ []) redis = with_rate (upper mode) redis (some "1.0")
admin_panel upper str_float (_ ∷ mode ∷ rate ∷ _) redis =
    with_rate (upper mode) redis (str_float rate)

-- What the gate does with a request: it answers it, or hands it on.
pub data GateAnswer : Type 0 where
  refused : ℕ → String → GateAnswer
  passed : GateAnswer

abbrev is_mode : SystemMode → SystemMode → Bool
is_mode normal normal = true
is_mode frozen frozen = true
is_mode read_only read_only = true
is_mode ramp_up ramp_up = true
is_mode _ _ = false

-- `security_gate`: whether the core is frozen, the state, the method, and random.random().
unfoldable pub security_gate : Bool → RecoveryState → String → ℕ → GateAnswer
security_gate core_frozen state method random =
    if core_frozen || is_mode state.mode frozen
    then refused 503 "SYSTEM_FROZEN"
    else if is_mode state.mode read_only && not (method == "GET")
    then refused 403 "SYSTEM_READ_ONLY"
    else if is_mode state.mode ramp_up && ltb state.rate_limit random
    then refused 429 "RECOVERY_RAMP_UP"
    else passed

pub record TransferRequest : Type 0 where
  pub tx_id : String
  pub tx_hash : String
  pub role : String
  pub amount : ℤ
  pub target : String

pub record Headers : Type 0 where
  pub correlation_id : Option String
  pub idempotency_key : Option String

abbrev pub or_default : String → Option String → String
or_default d none = d
or_default d (some s) = s

-- The endpoint's answer; `crashed` is an exception that leaves the handler.
pub data Response : Type 0 where
  intervention : String → Response
  integrity_mismatch : Response
  success : String → Payment → Response
  crashed : Response

-- What the endpoint shares with other requests: the ledger's file, the breaker, the core.
pub record App (ks : KeyStore) : Type 0 where
  pub file : Db
  pub opa : OpaClient
  pub core : SentinelCore ks

module _ (ks : KeyStore) (rt : Runtime) (post : OpaInput → Reply) (parse : String → Option ℤ) where
  -- `tx_manager.authorize_transfer(...)` and the `return`.
  unfoldable pub pay :
      String → Headers → TransferRequest → SafeContext → App ks → Conn → Response × App ks
  pay idem_key headers req x app c =
      let (r, c') =
        authorize_transfer rt
          (record {
            idempotency_key = idem_key;
            user_id = x.user_id;
            amount = x.amount;
            target = x.target_iban;
          })
          c in
      (
        elim r [
          | ok payment ↦ success (or_default "unknown" headers.correlation_id) payment
          | err e ↦ crashed
        ],
        record app { file = c'.committed },
      )

  -- From the answer of the core on.
  unfoldable pub after_audit :
      Headers
      → TransferRequest
      → SafeContext
      → App ks
      → Conn
      → SentinelCore ks × Checked
      → Response × App ks
  unfolding pay
  after_audit headers req x app c (core, runtime_error) = (crashed, record app { core = core })
  after_audit headers req x app c (core, checked false) =
      (integrity_mismatch, record app { core = core })
  after_audit headers req x app c (core, checked true) =
      pay (or_default req.tx_id headers.idempotency_key) headers req x (record app { core = core })
        c

  -- `safe_context[...]`: a KeyError on the empty dictionary.
  unfoldable pub with_context :
      Headers → TransferRequest → Option SafeContext → App ks → Conn → Response × App ks
  unfolding after_audit
  with_context headers req none app c = (crashed, app)
  with_context headers req (some x) app c =
      after_audit headers req x app c (audit_and_verify ks app.core req.tx_id req.tx_hash)

  -- From the answer of the enforcer on.
  unfoldable pub after_enforcer :
      Headers
      → TransferRequest
      → App ks
      → Result (Validation × OpaClient) × Conn
      → Response × App ks
  unfolding with_context
  after_enforcer headers req app (err e, c) = (crashed, record app { file = c.committed })
  after_enforcer headers req app (ok (v, opa), c) =
      let app' : App ks = record app { file = c.committed; opa = opa } in
      if not v.is_safe
      then (intervention v.reason, app')
      else with_context headers req v.safe_context app' c

  -- The connection is opened on the file and closed at the end: what is not committed is lost.
  unfoldable pub handle_transfer : Headers → TransferRequest → App ks → Response × App ks
  unfolding after_enforcer
  handle_transfer headers req app = after_enforcer headers req app (
      validate_transfer_intent rt post parse app.opa req.role
        (record { amount = Amount.number req.amount; target_beneficiary_id = some req.target })
        (connect app.file))
