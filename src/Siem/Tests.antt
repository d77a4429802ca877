-- ===== src/Siem/Tests.antt =====
-- Batches on a witness with one root.
use sentinel_ai_v3_0_the_fin.Prelude.{
  ◌≡◌, ◌≢◌, sym, ◌∙◌, refl, inl, inr, String, false, ◌++◌, List, [], ◌∷◌, arith, eq_iff, ◌==◌,
  if◌then◌else◌, ℕ, Bool, nat_eq, leb,
}
use Prim.Native.String.{count}
use sentinel_ai_v3_0_the_fin.Siem.{
  Delivery, unreached, answered, RootHashPayload, get_latest_root, Judged, genuine, invalid,
  init_db, ingest_root, Signer, Trail, payload_of, refused, send_batch,
}
use mathlib.Core.Bool.{false≢true}
use sentinel_ai_v3_0_the_fin.AuditChain.{genesis_hash}
use sentinel_ai_v3_0_the_fin.Siem.Witness.{IsInOrder, is_known}
use sentinel_ai_v3_0_the_fin.Siem.Sequences.{
  flush_all, overlap, unsynced_batches_are_lost, overlapping_flush_is_lost,
}
use sentinel_ai_v3_0_the_fin.Siem.Workers.{
  idle, resending, Client, begin_flush, end_flush, resend_line, Step, first_client, Reach, first,
  next, CalmReach, first_calm, next_calm,
}
use sentinel_ai_v3_0_the_fin.Siem.Fates.{IsOwn, Reach-IsOwn}
use sentinel_ai_v3_0_the_fin.Siem.Retention.{Retains, CalmReach-Retains}

-- A root signs itself, and is all that the hash keeps.
abbrev verify : String → String → Judged
verify signature root = if signature == root then genuine else invalid

-- The last two characters.
abbrev last_two : String → String
last_two String.[] = ""
last_two (String.◌∷◌ c s) = if leb (count s) 1 then String.◌∷◌ c s else last_two s

abbrev signer : Signer
signer = record { sha256 = last_two; sign_hash = λ root. root; timestamp = "now" }

abbrev root : String → String → RootHashPayload
root prev r = record { root_hash = r; prev_hash = prev; timestamp = "now"; signature = r }

abbrev rows : List RootHashPayload
rows = root genesis_hash "r1" ∷ []

abbrev synced : Trail
synced = record { prev_root = "r1"; wal = []; rows = rows }

-- The gateway has restarted.
abbrev restarted : Trail
restarted = record { prev_root = genesis_hash; wal = []; rows = rows }

rows-IsInOrder : IsInOrder verify rows
rows-IsInOrder = record { chained = (inl refl, tt); signed = (refl, tt) }

self_signed : (r : String) → verify r r ≡ genuine
self_signed r = ground (arith, eq_iff r r)

newest : get_latest_root rows ≡ "r1"
unfolding get_latest_root
newest = refl

differ : (a b : String) → (a == b) ≡ false → a ≢ b
differ a b n e = false≢true (sym n ∙ (eq_iff a b).1 e)

unsynced_batches_are_lost_example :
    flush_all verify signer ("r2" ∷ "r3" ∷ []) restarted ≡ record restarted { prev_root = "r3" }
unfolding get_latest_root
unsynced_batches_are_lost_example =
    unsynced_batches_are_lost verify signer ("r2" ∷ "r3" ∷ []) restarted
      (differ "r1" genesis_hash refl) (differ genesis_hash "r1" refl)
      (differ "r2" "r1" refl, (differ "r3" "r1" refl, tt))

overlapping_flush_is_lost_example :
    let t1 = send_batch verify answered false (payload_of signer "r1" "r2") synced in
    let t' = overlap verify signer "r2" "r3" synced in
    (t1.rows ≡ rows ++ payload_of signer "r1" "r2" ∷ [])
    × ((ingest_root verify false (payload_of signer "r1" "r3") t1.rows).0 ≡ refused 409)
    × (t'.rows ≡ t1.rows)
    × (is_known "r3" t'.rows ≡ false)
    × (t'.wal ≡ [])
    × (t'.prev_root ≢ get_latest_root t'.rows)
unfolding get_latest_root payload_of ingest_root
overlapping_flush_is_lost_example =
    overlapping_flush_is_lost verify signer self_signed "r2" "r3" synced refl refl refl
      (differ "r2" genesis_hash refl) (differ "r2" "r1" refl) (differ "r3" "r2" refl)

-- The second of three POSTs does not arrive.
abbrev gap : ℕ → Delivery × Bool
gap n = if nat_eq n 1 then (unreached, false) else (answered, false)

abbrev behind : Trail
behind = record synced { wal = root "r1" "r2" ∷ root "r2" "r3" ∷ root "r3" "r4" ∷ [] }

-- A batch that is logged, and sent again by the worker while the next batch is under way.
abbrev one_begun : Client
one_begun = begin_flush verify signer "r1" first_client

abbrev one_logged : Client
one_logged = end_flush verify signer (root genesis_hash "r1") [] unreached false one_begun

abbrev log_read : Client
log_read = record one_logged { worker = resending (root genesis_hash "r1" ∷ []) [] }

abbrev line_sent : Client
line_sent = resend_line verify signer (root genesis_hash "r1") [] [] answered false log_read

abbrev two_begun : Client
two_begun = begin_flush verify signer "r2" line_sent

calm_run : CalmReach verify signer two_begun
unfolding begin_flush end_flush resend_line payload_of init_db
calm_run =
    next_calm
      (next_calm
        (next_calm
          (next_calm (next_calm first_calm (Step.begin "r1") tt)
            (Step.end [] [] (root genesis_hash "r1") unreached false refl) (inr refl))
          (Step.read refl (λ e. cc e)) tt)
        (Step.line (root genesis_hash "r1") [] [] answered false refl) tt)
      (Step.begin "r2") tt

any_run : Reach verify signer two_begun
unfolding begin_flush end_flush resend_line payload_of init_db
any_run =
    next
      (next
        (next
          (next (next first (Step.begin "r1"))
            (Step.end [] [] (root genesis_hash "r1") unreached false refl))
          (Step.read refl (λ e. cc e)))
        (Step.line (root genesis_hash "r1") [] [] answered false refl))
      (Step.begin "r2")

Reach-IsOwn_example : IsOwn verify signer two_begun
Reach-IsOwn_example = Reach-IsOwn verify signer any_run

CalmReach-Retains_example : Retains two_begun
CalmReach-Retains_example = CalmReach-Retains verify signer calm_run

-- The second batch fails while the worker has the log: the worker's writing erases it.
abbrev two_logged : Client
two_logged = end_flush verify signer (root "r1" "r2") [] unreached false two_begun

abbrev log_written : Client
log_written = record two_logged { trail = record two_logged.trail { wal = [] }; worker = idle }

batch_is_erased :
    Step verify signer two_begun two_logged
    × Step verify signer two_logged log_written
    × (two_logged.trail.wal ≡ root genesis_hash "r1" ∷ root "r1" "r2" ∷ [])
    × (log_written.trail.wal ≡ [])
    × (log_written.sending ≡ [])
    × (log_written.trail.rows ≡ rows)
    × (log_written.begun ≡ root genesis_hash "r1" ∷ root "r1" "r2" ∷ [])
unfolding begin_flush end_flush resend_line payload_of init_db ingest_root get_latest_root
batch_is_erased = (
  Step.end [] [] (root "r1" "r2") unreached false refl,
  Step.write [] refl,
  refl,
  refl,
  refl,
  refl,
  refl,
)
