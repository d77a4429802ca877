-- ===== src/Core.antt =====
-- core/sentinel-core/src/lib.rs: `SentinelCore`, the hash registry with its local kill switch.
-- RocksDB is the parameter `KeyStore`, with what its documentation promises of get and put.
pub mod Registry
mod Tests
use sentinel_ai_v3_0_the_fin.Prelude.{
  String, ◌≡◌, ◌≢◌, Bool, true, false, not, Option, none, some, ◌==◌, if◌then◌else◌,
}

-- A read of the store: an error, no entry, or the stored bytes.
pub data Fetched : Type 0 where
  failed absent : Fetched
  stored : String → Fetched

-- A write that fails answers `none`.
pub record KeyStore : Type 1 where
  pub Store : Type 0
  pub get : Store → String → Fetched
  pub put : Store → String → String → Option Store
  pub get-put_self : (s s' : Store) (k v : String) → put s k v ≡ some s' → get s' k ≡ stored v
  pub get-put_ne :
      (s s' : Store) (k j v : String) → put s k v ≡ some s' → k ≢ j → get s' j ≡ get s j

-- `Ok(b)`, or the PyRuntimeError of a failing store.
pub data Checked : Type 0 where
  checked : Bool → Checked
  runtime_error : Checked

module _ (ks : KeyStore) where
  open ks use {Store, get, put}

  -- `FAIL_SAFE` and the database.
  pub record SentinelCore : Type 0 where
    pub fail_safe : Bool
    pub db : Store

  unfoldable pub is_frozen : SentinelCore → Bool
  is_frozen c = c.fail_safe

  unfoldable pub trigger_local_freeze : SentinelCore → SentinelCore
  trigger_local_freeze c = record c { fail_safe = true }

  abbrev after_put : SentinelCore → Option Store → SentinelCore × Checked
  after_put c none = (c, runtime_error)
  after_put c (some db) = (record c { db = db }, checked true)

  -- The `match` on what the store holds for the transaction.
  unfoldable pub compare_stored : SentinelCore → String → String → Fetched → SentinelCore × Checked
  unfolding trigger_local_freeze
  compare_stored c tx_id current_hash failed = (c, runtime_error)
  compare_stored c tx_id current_hash (stored h) =
      if not (h == current_hash) then (trigger_local_freeze c, checked false) else (c, checked true)
  compare_stored c tx_id current_hash absent = after_put c (put c.db tx_id current_hash)

  unfoldable pub audit_and_verify : SentinelCore → String → String → SentinelCore × Checked
  unfolding is_frozen compare_stored
  audit_and_verify c tx_id current_hash =
      if is_frozen c
      then (c, checked false)
      else compare_stored c tx_id current_hash (get c.db tx_id)
