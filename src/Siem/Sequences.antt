-- ===== src/Siem/Sequences.antt =====
-- Batches that are flushed one after another, and two whose flushes overlap.
use sentinel_ai_v3_0_the_fin.Prelude.{
  String, ◌≡◌, ◌≢◌, refl, sym, ap, ◌∙◌, subst, false, ◌++◌, List, [], ◌∷◌, any-append, ◌==◌, arith,
  eq_iff,
}
use mathlib.Core.List.{append_assoc, append-nil}
use sentinel_ai_v3_0_the_fin.AuditChain.{genesis_hash}
use sentinel_ai_v3_0_the_fin.Siem.{
  RootHashPayload, get_latest_root, Judged, genuine, refused, ingest_root, Signer, chain_hash,
  Trail, payload_of, answered, posted, send_batch, flush_batch,
}
use sentinel_ai_v3_0_the_fin.Siem.Witness.{is_known, ingest_root_conflicts}
use sentinel_ai_v3_0_the_fin.Siem.Batches.{
  synced_flush_is_recorded, unsynced_flush_is_lost, newest_root-append,
}

module _ (verify : String → String → Judged) (s : Signer) where
  -- Batches with these Merkle roots, each answered before the next one begins.
  abbrev pub flush_all : List String → Trail → Trail
  flush_all [] t = t
  flush_all (root ∷ roots) t = flush_all roots (flush_batch verify s answered false root t)

  -- The chained hashes of the batches from a root on, none of which is `newest`.
  abbrev pub AvoidAll : String → String → List String → Type 0
  AvoidAll newest prev_root [] = Unit
  AvoidAll newest prev_root (root ∷ roots) =
      (chain_hash s prev_root root ≢ newest) × AvoidAll newest (chain_hash s prev_root root) roots

  abbrev pub last_root : String → List String → String
  last_root prev_root [] = prev_root
  last_root prev_root (root ∷ roots) = last_root (chain_hash s prev_root root) roots

  -- Once out of step, the gateway's trail is lost for good: if the witness has a newest root that is
  -- not the genesis hash and the gateway's root is another one, then of any number of batches that
  -- are flushed one after another and answered, none reaches the witness's table or the log, unless
  -- one of them happens to have the newest root for its hash.
  pub unsynced_batches_are_lost :
      (roots : List String) (t : Trail)
      → get_latest_root t.rows ≢ genesis_hash
      → t.prev_root ≢ get_latest_root t.rows
      → AvoidAll (get_latest_root t.rows) t.prev_root roots
      → flush_all roots t ≡ record t { prev_root = last_root t.prev_root roots }
  unsynced_batches_are_lost [] t g n h = refl
  unsynced_batches_are_lost (root ∷ roots) t g n h =
      ap (flush_all roots) (unsynced_flush_is_lost verify s false root t g n)
      ∙ unsynced_batches_are_lost roots (record t { prev_root = chain_hash s t.prev_root root }) g
          h.0 h.1

  -- The payloads of the batches from a root on.
  abbrev pub chained : String → List String → List RootHashPayload
  chained prev_root [] = []
  chained prev_root (root ∷ roots) =
      payload_of s prev_root root ∷ chained (chain_hash s prev_root root) roots

  -- No chained hash of the batches is in the table yet, nor twice among them.
  abbrev pub NewAll : List RootHashPayload → String → List String → Type 0
  NewAll rows prev_root [] = Unit
  NewAll rows prev_root (root ∷ roots) =
      (is_known (chain_hash s prev_root root) rows ≡ false)
      × NewAll (rows ++ payload_of s prev_root root ∷ []) (chain_hash s prev_root root) roots

  -- In step, nothing is lost: while the gateway's root is the witness's newest one, any number of
  -- batches with new hashes that are flushed one after another and answered are the next rows of the
  -- witness's table, in their order, and the gateway stays in step. The gateway's own signatures are
  -- assumed to be genuine.
  pub synced_batches_are_recorded :
      ((root : String) → verify (s.sign_hash root) root ≡ genuine)
      → (roots : List String) (t : Trail) → t.prev_root ≡ get_latest_root t.rows
      → NewAll t.rows t.prev_root roots
      → let t' = flush_all roots t in
        (t'.rows ≡ t.rows ++ chained t.prev_root roots)
        × (t'.wal ≡ t.wal)
        × (t'.prev_root ≡ get_latest_root t'.rows)
  unfolding flush_batch
  synced_batches_are_recorded own [] t synced new = (sym (append-nil t.rows), refl, synced)
  synced_batches_are_recorded own (root ∷ roots) t synced new =
      let first = synced_flush_is_recorded verify s own root t synced new.0 in
      let rest =
        synced_batches_are_recorded own roots (flush_batch verify s answered false root t) first.2
          (later first.0 new.1) in
      (
        rest.0
            ∙ ap (λ rows. rows ++ chained (chain_hash s t.prev_root root) roots) first.0
            ∙ append_assoc t.rows (payload_of s t.prev_root root ∷ [])
                (chained (chain_hash s t.prev_root root) roots),
        rest.1 ∙ first.1,
        rest.2,
      )
    where
      later :
          {rows : List RootHashPayload}
          → rows ≡ t.rows ++ payload_of s t.prev_root root ∷ []
          → NewAll
              (t.rows ++ payload_of s t.prev_root root ∷ [])
              (chain_hash s t.prev_root root)
              roots
          → NewAll rows (chain_hash s t.prev_root root) roots
      later e h =
          subst (λ (r : List RootHashPayload). NewAll r (chain_hash s t.prev_root root) roots)
            (sym e) h

  abbrev pub overlap : String → String → Trail → Trail
  overlap root root' t =
      send_batch verify answered false (payload_of s t.prev_root root')
        (send_batch verify answered false (payload_of s t.prev_root root) t)

  is_known-append :
      (root : String) (rows : List RootHashPayload) (p : RootHashPayload)
      → is_known root rows ≡ false
      → p.root_hash ≢ root
      → is_known root (rows ++ p ∷ []) ≡ false
  is_known-append root rows p new other =
      ground (arith, any-append (λ r. r.root_hash == root) rows (p ∷ []), eq_iff p.root_hash root)

  -- Two flushes that overlap at their `await`: both compute their payload from the same root, and the
  -- first is recorded. The second is then answered with 409, its hash is in no row of the table, the
  -- log is as before, and the gateway's root differs from the witness's newest one. The gateway's own
  -- signatures are assumed to be genuine, both hashes to be new, the first to be neither the genesis
  -- hash nor the root that it continues, and the two hashes to differ.
  pub overlapping_flush_is_lost :
      ((root : String) → verify (s.sign_hash root) root ≡ genuine)
      → (root root' : String) (t : Trail) → t.prev_root ≡ get_latest_root t.rows
      → is_known (chain_hash s t.prev_root root) t.rows ≡ false
      → is_known (chain_hash s t.prev_root root') t.rows ≡ false
      → chain_hash s t.prev_root root ≢ genesis_hash
      → chain_hash s t.prev_root root ≢ t.prev_root
      → chain_hash s t.prev_root root' ≢ chain_hash s t.prev_root root
      → let p' = payload_of s t.prev_root root' in
        let t1 = send_batch verify answered false (payload_of s t.prev_root root) t in
        let t' = overlap root root' t in
        (t1.rows ≡ t.rows ++ payload_of s t.prev_root root ∷ [])
        × ((ingest_root verify false p' t1.rows).0 ≡ refused 409)
        × (t'.rows ≡ t1.rows)
        × (is_known p'.root_hash t'.rows ≡ false)
        × (t'.wal ≡ t.wal)
        × (t'.prev_root ≢ get_latest_root t'.rows)
  unfolding flush_batch
  overlapping_flush_is_lost own root root' t synced new new' not_genesis not_same apart =
      let p = payload_of s t.prev_root root in
      let p' = payload_of s t.prev_root root' in
      let first = synced_flush_is_recorded verify s own root t synced new in
      let t1 = send_batch verify answered false p t in
      let newest : get_latest_root t1.rows ≡ p.root_hash =
        ap get_latest_root first.0 ∙ newest_root-append t.rows p in
      let unknown : is_known p'.root_hash t1.rows ≡ false =
        ap (is_known p'.root_hash) first.0
        ∙ is_known-append p'.root_hash t.rows p new' (λ e. apart (sym e)) in
      let conflict : ingest_root verify false p' t1.rows ≡ (refused 409, t1.rows) =
        ingest_root_conflicts verify false p' t1.rows unknown (own p'.root_hash)
          (λ e. not_genesis (sym newest ∙ e)) (λ e. not_same (sym newest ∙ sym e)) in
      let same : posted verify answered false p' t1.rows ≡ t1.rows = ap (λ r. r.1) conflict in
      (
        first.0,
        ap (λ r. r.0) conflict,
        same,
        ap (is_known p'.root_hash) same ∙ unknown,
        refl,
        λ e. apart (e ∙ ap get_latest_root same ∙ newest),
      )
