-- ===== src/Siem/Workers.antt =====
-- core/app/stages.py: flushes and the retry worker, interleaved at every `await`, with restarts of the
-- gateway.
use sentinel_ai_v3_0_the_fin.Prelude.{String, ◌≡◌, ◌≢◌, ◌⊎◌, Bool, none, some, ◌++◌, List, [], ◌∷◌}
use sentinel_ai_v3_0_the_fin.AuditChain.{genesis_hash}
use sentinel_ai_v3_0_the_fin.Siem.{
  RootHashPayload, Judged, Signer, Trail, payload_of, Delivery, answered, send_batch, resend,
  init_db,
}
use sentinel_ai_v3_0_the_fin.Siem.Log.{kept_line}

-- Where the retry worker stands: it sleeps, or it has read the log, with the lines that are left and
-- those that it keeps (`remaining`).
pub data Worker : Type 0 where
  idle : Worker
  resending : List RootHashPayload → List RootHashPayload → Worker

-- The gateway's side of the trail: the flushes that wait for their answer, and the worker. `begun` is
-- every payload that was ever made, `heard` every payload whose POST was answered; the code keeps
-- neither.
pub record Client : Type 0 where
  pub trail : Trail
  pub sending : List RootHashPayload
  pub worker : Worker
  pub begun : List RootHashPayload
  pub heard : List RootHashPayload

-- At the first start of gateway and witness.
abbrev pub first_client : Client
first_client = record {
  trail = record { prev_root = genesis_hash; wal = []; rows = init_db none };
  sending = [];
  worker = idle;
  begun = [];
  heard = [];
}

abbrev pub hear : Delivery → RootHashPayload → List RootHashPayload → List RootHashPayload
hear answered p heard = heard ++ p ∷ []
hear _ p heard = heard

module _ (verify : String → String → Judged) (s : Signer) where
  -- `flush_batch` up to its `await`.
  unfoldable pub begin_flush : String → Client → Client
  begin_flush current_root c =
      let p = payload_of s c.trail.prev_root current_root in
      record c { sending = c.sending ++ p ∷ []; begun = c.begun ++ p ∷ [] }

  -- From its `await` on; `others` are the other flushes that wait.
  unfoldable pub end_flush :
      RootHashPayload → List RootHashPayload → Delivery → Bool → Client → Client
  end_flush p others d fails c = record c {
    sending = others;
    trail = send_batch verify d fails p c.trail;
    heard = hear d p c.heard;
  }

  -- One line of the loop of `retry_worker`; the file stays as it is until the end.
  unfoldable pub resend_line :
      RootHashPayload
      → List RootHashPayload
      → List RootHashPayload
      → Delivery
      → Bool
      → Client
      → Client
  resend_line line left remaining d fails c = record c {
    trail = record (resend verify d fails line c.trail) { wal = c.trail.wal };
    worker = resending left (remaining ++ kept_line d line);
    heard = hear d line c.heard;
  }

  unfoldable pub restart_gateway : Client → Client
  restart_gateway c = record c {
    trail = record c.trail { prev_root = genesis_hash };
    sending = [];
    worker = idle;
  }

  unfoldable pub restart_witness : Client → Client
  restart_witness c = record c { trail = record c.trail { rows = init_db (some c.trail.rows) } }

  pub data Step (c : Client) : Client → Type 0 where
    begin : (current_root : String) → Step c (begin_flush current_root c)
    end :
        (before after : List RootHashPayload) (p : RootHashPayload) (d : Delivery) (fails : Bool)
        → c.sending ≡ before ++ p ∷ after
        → Step c (end_flush p (before ++ after) d fails c)
    read :
        c.worker ≡ idle → c.trail.wal ≢ [] → Step c (record c { worker = resending c.trail.wal [] })
    line :
        (p : RootHashPayload) (left remaining : List RootHashPayload) (d : Delivery) (fails : Bool)
        → c.worker ≡ resending (p ∷ left) remaining
        → Step c (resend_line p left remaining d fails c)
    write :
        (remaining : List RootHashPayload)
        → c.worker ≡ resending [] remaining
        → Step c (record c { trail = record c.trail { wal = remaining }; worker = idle })
    restart : Step c (restart_gateway c)
    restart_siem : Step c (restart_witness c)

  -- No flush fails while the worker is between its reading and its writing of the log, and no restart
  -- meets a flush that waits.
  abbrev pub IsCalm : {c d : Client} → Step c d → Type 0
  IsCalm {c} (begin current_root) = Unit
  IsCalm {c} (end before after p d fails e) = (d ≡ answered) ⊎ (c.worker ≡ idle)
  IsCalm {c} (read e lines) = Unit
  IsCalm {c} (line p left remaining d fails e) = Unit
  IsCalm {c} (write remaining e) = Unit
  IsCalm {c} restart = c.sending ≡ []
  IsCalm {c} restart_siem = Unit

  -- From the first start on.
  pub data Reach : Client → Type 0 where
    first : Reach first_client
    next : {c d : Client} → Reach c → Step c d → Reach d

  pub data CalmReach : Client → Type 0 where
    first_calm : CalmReach first_client
    next_calm : {c d : Client} → CalmReach c → (st : Step c d) → IsCalm st → CalmReach d
