-- ===== src/AuditTrail.antt =====
-- The audit trail from end to end: the events of core/app/stages.py in their batches, the Merkle roots
-- of core/crypto_audit.py, and the witness siem_service.py.
mod Tests
use sentinel_ai_v3_0_the_fin.Prelude.{
  ℕ, ◌<◌, String, ◌≡◌, refl, sym, ap, ◌∙◌, subst, Option, none, some, List, [], ◌∷◌, ◌++◌, length,
  arith,
}
use sentinel_ai_v3_0_the_fin.AuditChain.{genesis_hash}
use sentinel_ai_v3_0_the_fin.AuditBuffer.{AuditBuffer, empty_buffer, Operation, flush_threshold}
use sentinel_ai_v3_0_the_fin.AuditBuffer.Events.{
  then_run, all_audited, taken, Holds, Delivers, operations-Delivers,
}
use sentinel_ai_v3_0_the_fin.Merkle.{build_merkle_root}
use sentinel_ai_v3_0_the_fin.Signatures.{Rsa, Files, generate_keys}
use sentinel_ai_v3_0_the_fin.Siem.{
  Trail, get_latest_root, RootHashPayload, Judged, Signer, chain_hash, payload_of,
}
use sentinel_ai_v3_0_the_fin.Siem.Sequences.{flush_all, chained, NewAll}
use sentinel_ai_v3_0_the_fin.Siem.Keys.{
  Hex, load_private_key, load_public_key, verify_root, signer_of, generated_keys_record_batches,
}

abbrev cons_root : Option String → Option (List String) → Option (List String)
cons_root (some root) (some roots) = some (root ∷ roots)
cons_root _ _ = none

-- The roots of the batches, as `flush_batch` computes them.
unfoldable pub roots_of : (String → String) → List (List String) → Option (List String)
unfolding build_merkle_root
roots_of sha256 [] = some []
roots_of sha256 (batch ∷ batches) =
    cons_root (build_merkle_root sha256 batch) (roots_of sha256 batches)

-- The gateway and the witness when they start for the first time.
abbrev pub first_trail : Trail
first_trail = record { prev_root = genesis_hash; wal = []; rows = [] }

module _ (s : Signer) where
  -- The table has a row for each batch, in their order: its hash joins the one before with the Merkle
  -- root of the batch.
  pub Mirrors : String → List (List String) → List RootHashPayload → Type 0
  Mirrors prev_root [] [] = Unit
  Mirrors prev_root (batch ∷ batches) (row ∷ rows) =
      (root : String) × (build_merkle_root s.sha256 batch ≡ some root)
      × (row ≡ payload_of s prev_root root)
      × Mirrors (chain_hash s prev_root root) batches rows
  Mirrors prev_root _ _ = ⊥

  cons_roots :
      (first : Option String) (rest : Option (List String)) (roots : List String)
      → cons_root first rest ≡ some roots
      → (root : String) × (roots' : List String) × (first ≡ some root)
        × (rest ≡ some roots')
        × (roots ≡ root ∷ roots')
  cons_roots (some root) (some roots') roots e = (root, roots', refl, refl, ground (arith, e))
  cons_roots none rest roots e = cc e
  cons_roots (some root) none roots e = cc e

  chained-Mirrors :
      (verify : String → String → Judged) (prev_root : String) (batches : List (List String))
      (roots : List String)
      → roots_of s.sha256 batches ≡ some roots
      → Mirrors prev_root batches (chained verify s prev_root roots)
  unfolding roots_of Mirrors
  chained-Mirrors verify prev_root [] [] e = tt
  chained-Mirrors verify prev_root [] (root ∷ roots) e = absurd (ground (arith, e))
  chained-Mirrors verify prev_root (batch ∷ batches) roots e =
      let (root, roots', first, rest, same) =
        cons_roots (build_merkle_root s.sha256 batch) (roots_of s.sha256 batches) roots e in
      subst
        (λ (rs : List String). Mirrors prev_root (batch ∷ batches) (chained verify s prev_root rs))
        (sym same)
        (
          root,
          first,
          refl,
          chained-Mirrors verify (chain_hash s prev_root root) batches roots' rest,
        )

module _ (rsa : Rsa) (hx : Hex) (fresh : rsa.PrivateKey) (sha256 : String → String)
    (timestamp : String) where
  abbrev pub gateway : Signer
  gateway = signer_of rsa hx sha256 timestamp fresh

  abbrev pub witness : String → String → Judged
  witness = verify_root rsa hx (rsa.public_key fresh)

  -- The buffer after some audits and ticks, and the witness's table once all of its batches have been
  -- flushed: every audited event is in a batch or among the less than five that wait, in its order,
  -- and every batch has its row.
  pub record Accounts (os : List Operation) (buffer : AuditBuffer) (t : Trail) : Type 0 where
    pub complete : taken buffer ≡ all_audited os
    pub short : length buffer.events < flush_threshold
    pub mirrored : Mirrors gateway genesis_hash buffer.batches t.rows
    pub in_step : t.prev_root ≡ get_latest_root t.rows

  buffer_holds :
      (os : List Operation) (buffer : AuditBuffer)
      → then_run os (some empty_buffer) ≡ some buffer
      → Holds (all_audited os) buffer
  buffer_holds os buffer e =
      let all = operations-Delivers os in
      let same : all.result ≡ buffer = cc (all.succeeds, e) in
      subst (Holds (all_audited os)) same all.holds

  -- The witness accounts for every event: if the batches that some audits and ticks have handed over
  -- are flushed one after another and answered, from the first start of a gateway and a witness with
  -- keys that admin_signer.py generates, then the witness's rows are those of the batches, in their
  -- order, and the batches with the less than five waiting events are exactly the audited events.
  -- The chained hashes of the batches are assumed to differ.
  pub events-Accounts :
      (files : Files) (os : List Operation) (buffer : AuditBuffer) (roots : List String)
      → then_run os (some empty_buffer) ≡ some buffer
      → roots_of sha256 buffer.batches ≡ some roots
      → NewAll witness gateway [] genesis_hash roots
      → let files' = generate_keys rsa fresh files in
        (load_private_key rsa hx files' ≡ some fresh)
        × (load_public_key rsa hx files' ≡ some (rsa.public_key fresh))
        × Accounts os buffer (flush_all witness gateway roots first_trail)
  unfolding get_latest_root
  events-Accounts files os buffer roots ran rooted new =
      let kept =
        generated_keys_record_batches rsa hx fresh files sha256 timestamp roots first_trail refl
          new in
      let all = buffer_holds os buffer ran in
      (
        kept.0,
        kept.1,
        record {
          complete = all.kept;
          short = all.short;
          mirrored =
              subst (Mirrors gateway genesis_hash buffer.batches) (sym kept.2)
                (chained-Mirrors gateway witness genesis_hash buffer.batches roots rooted);
          in_step = kept.3;
        },
      )
