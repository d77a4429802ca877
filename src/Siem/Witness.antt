-- ===== src/Siem/Witness.antt =====
-- What the witness accepts and keeps.
use sentinel_ai_v3_0_the_fin.Prelude.{
  String, ◌≡◌, ◌≢◌, ◌↔◌, ◌⊎◌, inl, inr, sym, subst, Bool, false, ◌++◌, List, [], ◌∷◌, any, ◌==◌,
  arith, eq_iff, All,
}
use sentinel_ai_v3_0_the_fin.AuditChain.{genesis_hash}
use sentinel_ai_v3_0_the_fin.Siem.{
  RootHashPayload, last_root_of, get_latest_root, Judged, genuine, accepted, refused, ingest_root,
}

abbrev pub is_known : String → List RootHashPayload → Bool
is_known root rows = any (λ r. r.root_hash == root) rows

-- A root that may follow the newest one.
abbrev pub Follows : RootHashPayload → List RootHashPayload → Type 0
Follows p rows = (get_latest_root rows ≡ genesis_hash) ⊎ (p.prev_hash ≡ get_latest_root rows)

-- The witness accepts a root exactly if it is new, its signature is genuine, it names the newest
-- root or there is none (or it is the genesis hash), and the insertion does not fail; then it is the
-- new last row, and in every other case the table is as it was.
pub ingest_root_accepts_iff :
    (verify : String → String → Judged) (fails : Bool) (p : RootHashPayload)
    (rows : List RootHashPayload)
    → let r = ingest_root verify fails p rows in
      ((r.0 ≡ accepted) ↔ (
        (is_known p.root_hash rows ≡ false)
        × (verify p.signature p.root_hash ≡ genuine)
        × Follows p rows
        × (fails ≡ false)))
      × (((r.0 ≡ accepted) × (r.1 ≡ rows ++ p ∷ [])) ⊎ ((r.0 ≢ accepted) × (r.1 ≡ rows)))
unfolding ingest_root
ingest_root_accepts_iff verify fails p rows =
    ground
      (arith, eq_iff (get_latest_root rows) genesis_hash, eq_iff p.prev_hash (get_latest_root rows))

-- A new root with a genuine signature that does not name the newest one is answered with 409.
pub ingest_root_conflicts :
    (verify : String → String → Judged) (fails : Bool) (p : RootHashPayload)
    (rows : List RootHashPayload)
    → is_known p.root_hash rows ≡ false
    → verify p.signature p.root_hash ≡ genuine
    → get_latest_root rows ≢ genesis_hash
    → p.prev_hash ≢ get_latest_root rows
    → ingest_root verify fails p rows ≡ (refused 409, rows)
unfolding ingest_root
ingest_root_conflicts verify fails p rows new own some_root other =
    ground
      (arith, eq_iff (get_latest_root rows) genesis_hash, eq_iff p.prev_hash (get_latest_root rows))

-- Rows one after another, from the root before the first.
abbrev pub Chained : String → List RootHashPayload → Type 0
Chained d [] = Unit
Chained d (r ∷ rs) = ((d ≡ genesis_hash) ⊎ (r.prev_hash ≡ d)) × Chained r.root_hash rs

-- The witness's table is in order: its rows are chained, and each of their signatures is genuine.
pub record IsInOrder (verify : String → String → Judged) (rows : List RootHashPayload)
    : Type 0 where
  pub chained : Chained genesis_hash rows
  pub signed : All (λ r. verify r.signature r.root_hash ≡ genuine) rows

Chained-append :
    (d : String) (rows : List RootHashPayload) (p : RootHashPayload)
    → Chained d rows
    → (last_root_of d rows ≡ genesis_hash) ⊎ (p.prev_hash ≡ last_root_of d rows)
    → Chained d (rows ++ p ∷ [])
Chained-append d [] p h f = (f, tt)
Chained-append d (r ∷ rs) p h f = (h.0, Chained-append r.root_hash rs p h.1 f)

All-append :
    (P : RootHashPayload → Type 0) (rows : List RootHashPayload) (p : RootHashPayload)
    → All P rows
    → P p
    → All P (rows ++ p ∷ [])
All-append P [] p h q = (q, tt)
All-append P (r ∷ rs) p h q = (h.0, All-append P rs p h.1 q)

-- Whatever is posted, the witness keeps its table in order.
pub ingest_root-IsInOrder :
    (verify : String → String → Judged) (fails : Bool) (p : RootHashPayload)
    (rows : List RootHashPayload)
    → IsInOrder verify rows
    → IsInOrder verify (ingest_root verify fails p rows).1
unfolding get_latest_root
ingest_root-IsInOrder verify fails p rows h =
    let known = ingest_root_accepts_iff verify fails p rows in
    elim known.1 [
      | inl (a, e) ↦
          let why = known.0.0 a in
          subst (IsInOrder verify) (sym e) (record {
            chained = Chained-append genesis_hash rows p h.chained why.2;
            signed =
                All-append (λ r. verify r.signature r.root_hash ≡ genuine) rows p h.signed why.1;
          })
      | inr (_, e) ↦ subst (IsInOrder verify) (sym e) h
    ]
