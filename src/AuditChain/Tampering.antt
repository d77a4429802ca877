-- ===== src/AuditChain/Tampering.antt =====
-- What verify_chain.py finds in a ledger that somebody has edited, and what it cannot find.
use Prim.Native.String.{◌++◌ as ◌<>◌, count}
use text.Mathlib.TextLemmas.{append_cancel_left, append_inj, append_assoc}
use sentinel_ai_v3_0_the_fin.Prelude.{
  String, ◌≡◌, ◌≢◌, refl, sym, ap, ◌∙◌, ◌⊎◌, inl, inr, List, [], ◌∷◌, ◌++◌, map, ◌==◌, arith,
  eq_iff, Bool-cases, length,
}
use sentinel_ai_v3_0_the_fin.Database.{AuditRow}
use sentinel_ai_v3_0_the_fin.AuditChain.{
  genesis_hash, data_to_hash, intact, chain_broken, data_forged, verify_from, verify_audit_chain,
}
use sentinel_ai_v3_0_the_fin.AuditChain.Chain.{
  IsChain, IsChain-prefix, IsChain-suffix, head_hash, row_data, verify_audit_chain_iff,
}

module _ (sha256 : String → String) where
  -- Two rows whose hashed texts differ and have one hash.
  abbrev pub RowsCollide : AuditRow → AuditRow → Type 0
  RowsCollide r r' = (row_data r ≢ row_data r') × (sha256 (row_data r) ≡ sha256 (row_data r'))

  -- Two ledgers have such rows at the same place.
  abbrev pub LedgersCollide : List AuditRow → List AuditRow → Type 0
  LedgersCollide (x ∷ xs) (y ∷ ys) = RowsCollide x y ⊎ LedgersCollide xs ys
  LedgersCollide _ _ = ⊥

  -- The loop goes through an intact beginning to what follows it.
  verify_from-append :
      (h : String) (xs ys : List AuditRow)
      → IsChain sha256 h xs
      → verify_from sha256 h (xs ++ ys) ≡ verify_from sha256 (head_hash h xs) ys
  unfolding verify_from
  verify_from-append h [] ys c = refl
  verify_from-append h (r ∷ rs) ys c = ground (
    arith,
    eq_iff r.prev_hash h,
    eq_iff (sha256 (row_data r)) r.current_hash,
    verify_from-append r.current_hash rs ys c.2,
  )

  verify-append :
      (xs : List AuditRow) (r : AuditRow) (ys : List AuditRow)
      → IsChain sha256 genesis_hash xs
      → verify_audit_chain sha256 (xs ++ r ∷ ys)
        ≡ verify_from sha256 (head_hash genesis_hash xs) (r ∷ ys)
  unfolding verify_audit_chain
  verify-append [] r ys c = refl
  verify-append (x ∷ xs) r ys c = verify_from-append genesis_hash (x ∷ xs) (r ∷ ys) c

  intact-IsChain :
      (xs ys : List AuditRow)
      → verify_audit_chain sha256 (xs ++ ys) ≡ intact
      → IsChain sha256 genesis_hash (xs ++ ys)
  intact-IsChain xs ys e = ((verify_audit_chain_iff sha256 (xs ++ ys)).0 e).1

  forged_stops :
      (h : String) (r : AuditRow) (ys : List AuditRow)
      → r.prev_hash ≡ h
      → sha256 (row_data r) ≢ r.current_hash
      → verify_from sha256 h (r ∷ ys) ≡ data_forged r.seq_id
  unfolding verify_from
  forged_stops h r ys p n =
      ground (arith, eq_iff r.prev_hash h, eq_iff (sha256 (row_data r)) r.current_hash)

  broken_stops :
      (h : String) (r : AuditRow) (ys : List AuditRow)
      → r.prev_hash ≢ h
      → verify_from sha256 h (r ∷ ys) ≡ chain_broken r.seq_id
  unfolding verify_from
  broken_stops h r ys n = ground (arith, eq_iff r.prev_hash h)

  data-payload_inj :
      (prev tx act p q : String) → data_to_hash prev tx act p ≡ data_to_hash prev tx act q → p ≡ q
  unfolding data_to_hash
  data-payload_inj prev tx act p q e = append_cancel_left "|" p q (
      append_cancel_left act _ _ (
        append_cancel_left "|" _ _
          (append_cancel_left tx _ _ (append_cancel_left "|" _ _ (append_cancel_left prev _ _ e)))))

  -- If the payload of one row of an intact ledger is replaced by another text, the audit stops at
  -- that row and reports forged data, or the row's two texts have one hash.
  pub altered_payload_detected :
      (xs : List AuditRow) (r : AuditRow) (ys : List AuditRow) (forged : String)
      → verify_audit_chain sha256 (xs ++ r ∷ ys) ≡ intact
      → forged ≢ r.payload
      → (verify_audit_chain sha256 (xs ++ record r { payload = forged } ∷ ys)
          ≡ data_forged r.seq_id)
        ⊎ RowsCollide (record r { payload = forged }) r
  altered_payload_detected xs r ys forged e n =
      let chain = intact-IsChain xs (r ∷ ys) e in
      let before = IsChain-prefix sha256 genesis_hash xs (r ∷ ys) chain in
      let here = IsChain-suffix sha256 genesis_hash xs (r ∷ ys) chain in
      let r' : AuditRow = record r { payload = forged } in
      elim (Bool-cases (sha256 (row_data r') == r.current_hash)) [
        | inl same ↦ inr (
          (λ q. n (data-payload_inj r.prev_hash r.tx_id r.action forged r.payload q)),
          (eq_iff (sha256 (row_data r')) r.current_hash).0 same ∙ sym here.1,
        )
        | inr other ↦ inl (
            verify-append xs r' ys before
            ∙ forged_stops (head_hash genesis_hash xs) r' ys here.0
                (λ q. cc ((eq_iff (sha256 (row_data r')) r.current_hash).1 q, other)))
      ]

  -- If a row that has a successor is deleted from an intact ledger, the audit stops at the successor
  -- and reports a broken chain, provided that the deleted row's hash is not the hash before it.
  pub deleted_row_detected :
      (xs : List AuditRow) (r s : AuditRow) (ys : List AuditRow)
      → verify_audit_chain sha256 (xs ++ r ∷ s ∷ ys) ≡ intact
      → r.current_hash ≢ r.prev_hash
      → verify_audit_chain sha256 (xs ++ s ∷ ys) ≡ chain_broken s.seq_id
  deleted_row_detected xs r s ys e n =
      let chain = intact-IsChain xs (r ∷ s ∷ ys) e in
      let before = IsChain-prefix sha256 genesis_hash xs (r ∷ s ∷ ys) chain in
      let here = IsChain-suffix sha256 genesis_hash xs (r ∷ s ∷ ys) chain in
      verify-append xs s ys before
      ∙ broken_stops (head_hash genesis_hash xs) s ys (λ q. n (sym here.2.0 ∙ q ∙ sym here.0))

  -- Deleting the newest rows of an intact ledger goes unnoticed, as long as one row is left.
  pub deleted_tail_undetected :
      (x : AuditRow) (xs ys : List AuditRow)
      → verify_audit_chain sha256 (x ∷ xs ++ ys) ≡ intact
      → verify_audit_chain sha256 (x ∷ xs) ≡ intact
  deleted_tail_undetected x xs ys e =
      let chain = intact-IsChain (x ∷ xs) ys e in
      (verify_audit_chain_iff sha256 (x ∷ xs)).1
        ((λ q. cc), IsChain-prefix sha256 genesis_hash (x ∷ xs) ys chain)

  verify_from-same :
      (h : String) (xs : List AuditRow) (r r' : AuditRow) (ys : List AuditRow)
      → r'.seq_id ≡ r.seq_id
      → r'.prev_hash ≡ r.prev_hash
      → r'.current_hash ≡ r.current_hash
      → row_data r' ≡ row_data r
      → verify_from sha256 h (xs ++ r' ∷ ys) ≡ verify_from sha256 h (xs ++ r ∷ ys)
  unfolding verify_from
  verify_from-same h [] r r' ys a b c d =
      ground (arith, ap (λ (k : String). verify_from sha256 k ys) c, ap sha256 d)
  verify_from-same h (x ∷ xs) r r' ys a b c d =
      simp (verify_from-same x.current_hash xs r r' ys a b c d)

  verify-same :
      (xs : List AuditRow) (r r' : AuditRow) (ys : List AuditRow)
      → r'.seq_id ≡ r.seq_id
      → r'.prev_hash ≡ r.prev_hash
      → r'.current_hash ≡ r.current_hash
      → row_data r' ≡ row_data r
      → verify_audit_chain sha256 (xs ++ r' ∷ ys) ≡ verify_audit_chain sha256 (xs ++ r ∷ ys)
  unfolding verify_audit_chain
  verify-same [] r r' ys = verify_from-same genesis_hash [] r r' ys
  verify-same (x ∷ xs) r r' ys = verify_from-same genesis_hash (x ∷ xs) r r' ys

  data-shift :
      (prev tx act p q : String)
      → data_to_hash prev tx (act <> ("|" <> p)) q ≡ data_to_hash prev tx act (p <> ("|" <> q))
  unfolding data_to_hash
  data-shift prev tx act p q = simp append_assoc

  -- The separator of the hashed text may stand in a payload. Where it does, its part before the
  -- separator can be moved into the `action` column, in any row of any ledger, and the audit's report
  -- is the same.
  pub shifted_boundary_undetected :
      (xs : List AuditRow) (r : AuditRow) (ys : List AuditRow) (p q : String)
      → r.payload ≡ p <> ("|" <> q)
      → verify_audit_chain sha256
          (xs ++ record r { action = r.action <> ("|" <> p); payload = q } ∷ ys)
        ≡ verify_audit_chain sha256 (xs ++ r ∷ ys)
  shifted_boundary_undetected xs r ys p q e = verify-same xs r _ ys refl refl refl (
      data-shift r.prev_hash r.tx_id r.action p q
      ∙ ap (data_to_hash r.prev_hash r.tx_id r.action) (sym e))

  data-prev_inj :
      (prev prev' tx tx' act act' p p' : String)
      → count prev ≡ count prev'
      → data_to_hash prev tx act p ≡ data_to_hash prev' tx' act' p'
      → prev ≡ prev'
  unfolding data_to_hash
  data-prev_inj prev prev' tx tx' act act' p p' n e = (append_inj e n).0

  module _ (digest_size : (x : String) → count (sha256 x) ≡ 64) where
    chains_agree :
        (h h' : String) (xs ys : List AuditRow)
        → count h ≡ 64
        → count h' ≡ 64
        → IsChain sha256 h xs
        → IsChain sha256 h' ys
        → length xs ≡ length ys
        → head_hash h xs ≡ head_hash h' ys
        → ((h ≡ h') × (map row_data xs ≡ map row_data ys)) ⊎ LedgersCollide xs ys
    chains_agree h h' [] [] n n' c c' l e = inl (e, refl)
    chains_agree h h' [] (y ∷ ys) n n' c c' l e = absurd (omega arith)
    chains_agree h h' (x ∷ xs) [] n n' c c' l e = absurd (omega arith)
    chains_agree h h' (x ∷ xs) (y ∷ ys) n n' c c' l e = heads (
        chains_agree x.current_hash y.current_hash xs ys
          (ap count (sym c.1) ∙ digest_size (row_data x))
          (ap count (sym c'.1) ∙ digest_size (row_data y)) c.2 c'.2 (omega arith) e)
      where
        heads :
            ((x.current_hash ≡ y.current_hash) × (map row_data xs ≡ map row_data ys))
              ⊎ LedgersCollide xs ys
            → ((h ≡ h') × (map row_data (x ∷ xs) ≡ map row_data (y ∷ ys)))
              ⊎ LedgersCollide (x ∷ xs) (y ∷ ys)
        heads (inr found) = inr (inr found)
        heads (inl (same, rest)) = elim (Bool-cases (row_data x == row_data y)) [
          | inl equal ↦
              let q = (eq_iff (row_data x) (row_data y)).0 equal in
              inl (
                sym c.0
                    ∙ data-prev_inj x.prev_hash y.prev_hash x.tx_id y.tx_id x.action y.action
                        x.payload y.payload (ap count c.0 ∙ n ∙ sym n' ∙ sym (ap count c'.0)) q
                    ∙ c'.0,
                cc (q, rest),
              )
          | inr differ ↦ inr (
              inl
                ((λ q. cc ((eq_iff (row_data x) (row_data y)).1 q, differ)), c.1 ∙ same ∙ sym c'.1))
        ]

    -- Two ledgers of equally many rows that the audit both finds intact, and whose newest rows carry
    -- the same hash, have hashed the same texts row by row, or they have, at the same place, two rows
    -- whose texts differ and have one hash. The hash is assumed to give digests of 64 characters.
    pub newest_hash_fixes_ledger :
        (xs ys : List AuditRow)
        → verify_audit_chain sha256 xs ≡ intact
        → verify_audit_chain sha256 ys ≡ intact
        → length xs ≡ length ys
        → head_hash genesis_hash xs ≡ head_hash genesis_hash ys
        → (map row_data xs ≡ map row_data ys) ⊎ LedgersCollide xs ys
    newest_hash_fixes_ledger xs ys e e' l h =
        elim (chains_agree genesis_hash genesis_hash xs ys refl refl
          ((verify_audit_chain_iff sha256 xs).0 e).1 ((verify_audit_chain_iff sha256 ys).0 e').1 l
          h) [ inl (_, same) ↦ inl same | inr found ↦ inr found ]
