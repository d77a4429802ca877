-- ===== src/Siem.antt =====
-- siem_service.py: the witness that keeps the roots of the gateway's audit batches; and
-- `flush_batch` of core/app/stages.py, which sends them, with the write-ahead log.
pub mod Witness
pub mod Batches
pub mod Sequences
pub mod Keys
pub mod Log
pub mod Workers
pub mod Posts
pub mod Fates
pub mod Retention
mod Tests
use Prim.Native.String.{◌++◌ as ◌<>◌}
use sentinel_ai_v3_0_the_fin.Prelude.{
  ℕ, ◌+◌, String, Bool, true, false, not, ◌&&◌, ◌++◌, Option, none, some, List, [], ◌∷◌, any, ◌==◌,
  if◌then◌else◌,
}
use sentinel_ai_v3_0_the_fin.AuditChain.{genesis_hash}

-- A row of `audit_chain`, and the body of a POST to /ingest.
pub record RootHashPayload : Type 0 where
  pub root_hash : String
  pub prev_hash : String
  pub timestamp : String
  pub signature : String

-- `init_db`, at every start of the service: CREATE TABLE IF NOT EXISTS; `none` is a file without the
-- table.
unfoldable pub init_db : Option (List RootHashPayload) → List RootHashPayload
init_db none = []
init_db (some rows) = rows

abbrev pub last_root_of : String → List RootHashPayload → String
last_root_of d [] = d
last_root_of d (r ∷ rs) = last_root_of r.root_hash rs

-- `/latest`: the newest root, or 64 zeros.
unfoldable pub get_latest_root : List RootHashPayload → String
get_latest_root rows = last_root_of genesis_hash rows

-- How the public key judges a signature; `unreadable` is the ValueError of bytes.fromhex.
pub data Judged : Type 0 where
  genuine invalid unreadable : Judged

pub data Ingested : Type 0 where
  accepted : Ingested
  ignored : Ingested
  refused : ℕ → Ingested  -- the status code

abbrev insert_root : Bool → RootHashPayload → List RootHashPayload → Ingested × List RootHashPayload
insert_root true payload rows = (refused 500, rows)
insert_root false payload rows = (accepted, rows ++ payload ∷ [])

abbrev if_judged :
    Judged
    → Ingested × List RootHashPayload
    → List RootHashPayload
    → Ingested × List RootHashPayload
if_judged genuine rest rows = rest
if_judged invalid rest rows = (refused 403, rows)
if_judged unreadable rest rows = (refused 500, rows)

-- `/ingest`. `verify` takes a signature and the root; `fails` says whether the insertion fails.
unfoldable pub ingest_root :
    (String → String → Judged)
    → Bool
    → RootHashPayload
    → List RootHashPayload
    → Ingested × List RootHashPayload
unfolding get_latest_root
ingest_root verify fails payload rows =
    if any (λ r. r.root_hash == payload.root_hash) rows
    then (ignored, rows)
    else if_judged (verify payload.signature payload.root_hash)
        (if not (get_latest_root rows == genesis_hash)
            && not (payload.prev_hash == get_latest_root rows)
          then (refused 409, rows)
          else insert_root fails payload rows)
        rows

-- What a batch needs from elsewhere: SHA-256, the private key, and the clock, whose readings nothing
-- here looks at, so that one text stands for all of them.
pub record Signer : Type 0 where
  pub sha256 : String → String  -- hashlib.sha256(s.encode()).hexdigest()
  pub sign_hash : String → String
  pub timestamp : String

-- The gateway's `merkle_manager.prev_root` and its write-ahead log, and the witness's table.
pub record Trail : Type 0 where
  pub prev_root : String
  pub wal : List RootHashPayload
  pub rows : List RootHashPayload

-- `chain_hash` of `flush_batch`.
abbrev pub chain_hash : Signer → String → String → String
chain_hash s prev_root current_root = s.sha256 (prev_root <> current_root)

unfoldable pub payload_of : Signer → String → String → RootHashPayload
payload_of s prev_root current_root =
    let root_hash = chain_hash s prev_root current_root in
    record {
      root_hash = root_hash;
      prev_hash = prev_root;
      timestamp = s.timestamp;
      signature = s.sign_hash root_hash;
    }

-- What becomes of a POST: it does not arrive, it is handled but its answer does not arrive, or it
-- is answered. httpx raises in the first two cases, and not on a status code.
pub data Delivery : Type 0 where
  unreached unanswered answered : Delivery

-- The witness's table after a POST.
abbrev pub posted :
    (String → String → Judged)
    → Delivery
    → Bool
    → RootHashPayload
    → List RootHashPayload
    → List RootHashPayload
posted verify unreached fails payload rows = rows
posted verify _ fails payload rows = (ingest_root verify fails payload rows).1

-- The `try` of `flush_batch`, with its handler.
abbrev pub send_batch :
    (String → String → Judged) → Delivery → Bool → RootHashPayload → Trail → Trail
send_batch verify answered fails payload t = record t {
  prev_root = payload.root_hash;
  rows = posted verify answered fails payload t.rows;
}
send_batch verify d fails payload t = record t {
  wal = t.wal ++ payload ∷ [];
  rows = posted verify d fails payload t.rows;
}

-- `flush_batch` from the Merkle root of the batch on.
unfoldable pub flush_batch :
    (String → String → Judged) → Signer → Delivery → Bool → String → Trail → Trail
unfolding ingest_root payload_of
flush_batch verify s d fails current_root t =
    send_batch verify d fails (payload_of s t.prev_root current_root) t

-- A line of the log is sent again: it is kept if that raises.
abbrev pub resend : (String → String → Judged) → Delivery → Bool → RootHashPayload → Trail → Trail
resend verify answered fails payload t = record t {
  prev_root = payload.root_hash;
  rows = posted verify answered fails payload t.rows;
}
resend verify d fails payload t = record t {
  wal = t.wal ++ payload ∷ [];
  rows = posted verify d fails payload t.rows;
}

-- The loop of `retry_worker` over the lines, the n-th POST meeting `world n`; `wal` collects what
-- remains.
unfoldable pub resend_all :
    (String → String → Judged) → (ℕ → Delivery × Bool) → ℕ → List RootHashPayload → Trail → Trail
unfolding ingest_root
resend_all verify world n [] t = t
resend_all verify world n (line ∷ lines) t =
    resend_all verify world (n + 1) lines (resend verify (world n).0 (world n).1 line t)

-- One turn of `retry_worker`.
unfoldable pub retry_wal : (String → String → Judged) → (ℕ → Delivery × Bool) → Trail → Trail
unfolding resend_all
retry_wal verify world t = resend_all verify world 0 t.wal (record t { wal = [] })
