-- ===== src/Core/Registry.antt =====
-- The first hash of a transaction is kept for good, and a mismatch freezes the instance.
use sentinel_ai_v3_0_the_fin.Prelude.{
  String, ◌≡◌, ◌≢◌, refl, ◌∙◌, true, false, List, [], ◌∷◌, arith, eq_iff, Option-cases, Bool-cases,
  inl, inr,
}
use sentinel_ai_v3_0_the_fin.Core.{
  KeyStore, Fetched, failed, absent, stored, checked, SentinelCore, is_frozen, compare_stored,
  audit_and_verify,
}

module _ (ks : KeyStore) where
  open ks use {Store, get, put, get-put_self, get-put_ne}

  -- Calls one after another.
  unfoldable pub run_audits : List (String × String) → SentinelCore ks → SentinelCore ks
  run_audits [] c = c
  run_audits ((tx, h) ∷ calls) c = run_audits calls (audit_and_verify ks c tx h).0

  compare_stored-keeps :
      (c : SentinelCore ks) (tx h tx' h' : String) (r : Fetched)
      → get c.db tx' ≡ r
      → get c.db tx ≡ stored h
      → get (compare_stored ks c tx' h' r).0.db tx ≡ stored h
  unfolding compare_stored
  compare_stored-keeps c tx h tx' h' failed e k = k
  compare_stored-keeps c tx h tx' h' (stored x) e k = ground (arith, k)
  compare_stored-keeps c tx h tx' h' absent e k = elim (Option-cases (put c.db tx' h')) [
    | inl none' ↦ rw none' k
    | inr (db, done) ↦ rw done (get-put_ne c.db db tx' tx h' done (different c tx h tx' e k) ∙ k)
  ]
    where
      different :
          (c : SentinelCore ks) (tx h tx' : String)
          → get c.db tx' ≡ absent
          → get c.db tx ≡ stored h
          → tx' ≢ tx
      different c tx h tx' e k q = ground (arith, e, k, q)

  pub audit-keeps :
      (c : SentinelCore ks) (tx h tx' h' : String)
      → get c.db tx ≡ stored h
      → get (audit_and_verify ks c tx' h').0.db tx ≡ stored h
  unfolding audit_and_verify
  audit-keeps c tx h tx' h' k = elim (Bool-cases c.fail_safe) [
    | inl frozen ↦ simp frozen k
    | inr live ↦ simp live (compare_stored-keeps c tx h tx' h' (get c.db tx') refl k)
  ]

  run_audits-keeps :
      (calls : List (String × String)) (c : SentinelCore ks) (tx h : String)
      → get c.db tx ≡ stored h
      → get (run_audits calls c).db tx ≡ stored h
  unfolding run_audits
  run_audits-keeps [] c tx h k = k
  run_audits-keeps ((tx', h') ∷ calls) c tx h k =
      run_audits-keeps calls (audit_and_verify ks c tx' h').0 tx h (audit-keeps c tx h tx' h' k)

  compare_stored-registers :
      (c : SentinelCore ks) (tx h : String) (r : Fetched)
      → get c.db tx ≡ r
      → (compare_stored ks c tx h r).1 ≡ checked true
      → get (compare_stored ks c tx h r).0.db tx ≡ stored h
  unfolding compare_stored
  compare_stored-registers c tx h failed e a = cc
  compare_stored-registers c tx h (stored x) e a = ground (arith, eq_iff x h)
  compare_stored-registers c tx h absent e a = elim (Option-cases (put c.db tx h)) [
    | inl refused ↦ absurd (ground (arith, refused, a))
    | inr (db, done) ↦ rw done (get-put_self c.db db tx h done)
  ]

  pub audit-registers :
      (c : SentinelCore ks) (tx h : String)
      → (audit_and_verify ks c tx h).1 ≡ checked true
      → get (audit_and_verify ks c tx h).0.db tx ≡ stored h
  unfolding audit_and_verify
  audit-registers c tx h a = elim (Bool-cases c.fail_safe) [
    | inl frozen ↦ absurd (ground (arith, frozen, a))
    | inr live ↦ simp live (compare_stored-registers c tx h (get c.db tx) refl (simp live at a))
  ]

  pub audit_accepts_stored :
      (c : SentinelCore ks) (tx h h' : String)
      → get c.db tx ≡ stored h
      → (audit_and_verify ks c tx h').1 ≡ checked true
      → h' ≡ h
  unfolding audit_and_verify compare_stored
  audit_accepts_stored c tx h h' k a = ground (arith, k, a, eq_iff h h')

  -- The first hash of a transaction is kept for good: once a call has accepted a hash for a
  -- transaction, then after any further calls, for this and other transactions, a call for it is
  -- accepted only with the same hash.
  pub first_hash_is_permanent :
      (c : SentinelCore ks) (tx h h' : String) (calls : List (String × String))
      → (audit_and_verify ks c tx h).1 ≡ checked true
      → (audit_and_verify ks (run_audits calls (audit_and_verify ks c tx h).0) tx h').1
        ≡ checked true
      → h' ≡ h
  first_hash_is_permanent c tx h h' calls a a' =
      audit_accepts_stored (run_audits calls (audit_and_verify ks c tx h).0) tx h h'
        (run_audits-keeps calls (audit_and_verify ks c tx h).0 tx h (audit-registers c tx h a)) a'

  run_audits-frozen :
      (calls : List (String × String)) (c : SentinelCore ks)
      → c.fail_safe ≡ true
      → run_audits calls c ≡ c
  unfolding run_audits audit_and_verify
  run_audits-frozen [] c f = refl
  run_audits-frozen ((tx, h) ∷ calls) c f = simp f (run_audits-frozen calls c f)

  mismatch_lem :
      (c : SentinelCore ks) (tx h h' : String)
      → c.fail_safe ≡ false
      → get c.db tx ≡ stored h
      → h' ≢ h
      → audit_and_verify ks c tx h' ≡ (record c { fail_safe = true }, checked false)
  unfolding audit_and_verify compare_stored
  mismatch_lem c tx h h' live k n = ground (arith, live, k, n, eq_iff h h')

  -- The kill switch: on an instance that is not frozen, a call with another hash than the stored one
  -- is refused, and freezes the instance for good: after it, whatever is called, the instance stays
  -- as it is, store included, and every call is refused.
  pub mismatch_freezes :
      (c : SentinelCore ks) (tx h h' : String)
      → c.fail_safe ≡ false
      → get c.db tx ≡ stored h
      → h' ≢ h
      → ((audit_and_verify ks c tx h').1 ≡ checked false)
        × ((calls : List (String × String)) (tx'' h'' : String)
            → let c' = run_audits calls (audit_and_verify ks c tx h').0 in
              (is_frozen ks c' ≡ true)
              × (c'.db ≡ c.db)
              × ((audit_and_verify ks c' tx'' h'').1 ≡ checked false))
  mismatch_freezes c tx h h' live k n =
      let frozen : SentinelCore ks = record c { fail_safe = true } in
      rw (mismatch_lem c tx h h' live k n) (
        refl,
        λ calls tx'' h''.
            rw (run_audits-frozen calls frozen refl)
              (unfold is_frozen audit_and_verify in (refl, refl, refl)),
      )
