-- ===== src/Siem/Batches.antt =====
-- What becomes of a batch that is flushed.
use sentinel_ai_v3_0_the_fin.Prelude.{
  ℕ, ◌+◌, String, ◌≡◌, ◌≢◌, inl, inr, refl, sym, ap, ◌∙◌, Bool, false, ◌++◌, List, [], ◌∷◌,
}
use sentinel_ai_v3_0_the_fin.AuditChain.{genesis_hash}
use sentinel_ai_v3_0_the_fin.Siem.{
  RootHashPayload, last_root_of, get_latest_root, Judged, genuine, Signer, chain_hash, Trail,
  payload_of, Delivery, answered, unreached, unanswered, posted, send_batch, flush_batch, resend,
  resend_all, retry_wal,
}
use sentinel_ai_v3_0_the_fin.Siem.Witness.{
  is_known, ingest_root_accepts_iff, IsInOrder, ingest_root-IsInOrder,
}

last_root-append :
    (d : String) (rows : List RootHashPayload) (p : RootHashPayload)
    → last_root_of d (rows ++ p ∷ []) ≡ p.root_hash
last_root-append d [] p = refl
last_root-append d (r ∷ rs) p = last_root-append r.root_hash rs p

pub newest_root-append :
    (rows : List RootHashPayload) (p : RootHashPayload)
    → get_latest_root (rows ++ p ∷ []) ≡ p.root_hash
unfolding get_latest_root
newest_root-append rows p = last_root-append genesis_hash rows p

module _ (verify : String → String → Judged) (s : Signer) where
  -- While the gateway's root is the witness's newest one, a batch with a new root that is answered
  -- and inserted is recorded as the last row, and the gateway's root is again the newest one. The
  -- gateway's own signatures are assumed to be genuine.
  pub synced_flush_is_recorded :
      ((root : String) → verify (s.sign_hash root) root ≡ genuine)
      → (current_root : String) (t : Trail) → t.prev_root ≡ get_latest_root t.rows
      → is_known (chain_hash s t.prev_root current_root) t.rows ≡ false
      → let t' = flush_batch verify s answered false current_root t in
        (t'.rows ≡ t.rows ++ payload_of s t.prev_root current_root ∷ [])
        × (t'.wal ≡ t.wal)
        × (t'.prev_root ≡ get_latest_root t'.rows)
  unfolding flush_batch
  synced_flush_is_recorded own current_root t synced new =
      let p = payload_of s t.prev_root current_root in
      let known = ingest_root_accepts_iff verify false p t.rows in
      elim known.1 [
        | inl (_, e) ↦ (e, refl, sym (ap get_latest_root e ∙ newest_root-append t.rows p))
        | inr (n, _) ↦ absurd (n (known.0.1 (new, own p.root_hash, inr synced, refl)))
      ]

  -- A batch whose gateway's root is not the witness's newest one is lost if the POST is answered:
  -- it is neither in the witness's table nor in the log, and the gateway's root moves on to the root
  -- that was refused.
  pub unsynced_flush_is_lost :
      (fails : Bool) (current_root : String) (t : Trail)
      → get_latest_root t.rows ≢ genesis_hash
      → t.prev_root ≢ get_latest_root t.rows
      → flush_batch verify s answered fails current_root t
        ≡ record t { prev_root = chain_hash s t.prev_root current_root }
  unfolding flush_batch
  unsynced_flush_is_lost fails current_root t some_root out_of_sync =
      let p = payload_of s t.prev_root current_root in
      let known = ingest_root_accepts_iff verify fails p t.rows in
      elim known.1 [
        | inl (a, _) ↦ absurd (elim (known.0.0 a).2 [
          | inl none_yet ↦ some_root none_yet
          | inr same ↦ out_of_sync same
        ])
        | inr (_, e) ↦ ap (λ rows. record t { prev_root = p.root_hash; rows = rows }) e
      ]

  posted-IsInOrder :
      (d : Delivery) (fails : Bool) (p : RootHashPayload) (rows : List RootHashPayload)
      → IsInOrder verify rows
      → IsInOrder verify (posted verify d fails p rows)
  posted-IsInOrder unreached fails p rows h = h
  posted-IsInOrder unanswered fails p rows h = ingest_root-IsInOrder verify fails p rows h
  posted-IsInOrder answered fails p rows h = ingest_root-IsInOrder verify fails p rows h

  send_batch-IsInOrder :
      (d : Delivery) (fails : Bool) (p : RootHashPayload) (t : Trail)
      → IsInOrder verify t.rows
      → IsInOrder verify (send_batch verify d fails p t).rows
  send_batch-IsInOrder unreached fails p t h = h
  send_batch-IsInOrder unanswered fails p t h = posted-IsInOrder unanswered fails p t.rows h
  send_batch-IsInOrder answered fails p t h = posted-IsInOrder answered fails p t.rows h

  resend-IsInOrder :
      (d : Delivery) (fails : Bool) (p : RootHashPayload) (t : Trail)
      → IsInOrder verify t.rows
      → IsInOrder verify (resend verify d fails p t).rows
  resend-IsInOrder unreached fails p t h = h
  resend-IsInOrder unanswered fails p t h = posted-IsInOrder unanswered fails p t.rows h
  resend-IsInOrder answered fails p t h = posted-IsInOrder answered fails p t.rows h

  resend_all-IsInOrder :
      (world : ℕ → Delivery × Bool) (n : ℕ) (lines : List RootHashPayload) (t : Trail)
      → IsInOrder verify t.rows
      → IsInOrder verify (resend_all verify world n lines t).rows
  unfolding resend_all
  resend_all-IsInOrder world n [] t h = h
  resend_all-IsInOrder world n (line ∷ lines) t h =
      resend_all-IsInOrder world (n + 1) lines (resend verify (world n).0 (world n).1 line t)
        (resend-IsInOrder (world n).0 (world n).1 line t h)

  -- Whatever batches are flushed and whatever lines of the log are sent again, delivered or not, the
  -- witness's table stays in order.
  pub trail_stays-IsInOrder :
      (t : Trail)
      → IsInOrder verify t.rows
      → ((d : Delivery) (fails : Bool) (current_root : String)
          → IsInOrder verify (flush_batch verify s d fails current_root t).rows)
        × ((world : ℕ → Delivery × Bool) → IsInOrder verify (retry_wal verify world t).rows)
  unfolding flush_batch retry_wal
  trail_stays-IsInOrder t h = (
    λ d fails current_root.
        send_batch-IsInOrder d fails (payload_of s t.prev_root current_root) t h,
    λ world. resend_all-IsInOrder world 0 t.wal (record t { wal = [] }) h,
  )
