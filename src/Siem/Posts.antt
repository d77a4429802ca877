-- ===== src/Siem/Posts.antt =====
-- Where a payload may be after one POST: in the log, among the lines that are kept, at the witness.
use sentinel_ai_v3_0_the_fin.Prelude.{String, ◌≡◌, ◌⊎◌, inl, inr, subst, Bool, ◌++◌, List, [], ◌∷◌}
use sentinel_ai_v3_0_the_fin.Siem.{
  RootHashPayload, Judged, Trail, Delivery, unreached, unanswered, answered, posted, send_batch,
  resend,
}
use sentinel_ai_v3_0_the_fin.Siem.Log.{kept_line}
use sentinel_ai_v3_0_the_fin.Siem.Witness.{
  ingest_root_accepts_iff, IsInOrder, ingest_root-IsInOrder,
}

abbrev pub In : RootHashPayload → List RootHashPayload → Type 0
In q [] = ⊥
In q (x ∷ xs) = (x ≡ q) ⊎ In q xs

abbrev pub Within : List RootHashPayload → List RootHashPayload → Type 0
Within xs ys = (q : RootHashPayload) → In q xs → In q ys

module _ (q : RootHashPayload) where
  pub in_left : (xs ys : List RootHashPayload) → In q xs → In q (xs ++ ys)
  in_left [] ys h = absurd h
  in_left (x ∷ xs) ys (inl e) = inl e
  in_left (x ∷ xs) ys (inr h) = inr (in_left xs ys h)

  pub in_right : (xs ys : List RootHashPayload) → In q ys → In q (xs ++ ys)
  in_right [] ys h = h
  in_right (x ∷ xs) ys h = inr (in_right xs ys h)

  pub in_either : (xs ys : List RootHashPayload) → In q (xs ++ ys) → In q xs ⊎ In q ys
  in_either [] ys h = inr h
  in_either (x ∷ xs) ys (inl e) = inl (inl e)
  in_either (x ∷ xs) ys (inr h) = elim (in_either xs ys h) [ inl l ↦ inl (inr l) | inr r ↦ inr r ]

  -- The last one, or one before.
  pub in_last :
      (xs : List RootHashPayload) (p : RootHashPayload) → In q (xs ++ p ∷ []) → In q xs ⊎ (p ≡ q)
  in_last xs p h = elim (in_either xs (p ∷ []) h) [
    | inl l ↦ inl l
    | inr r ↦ elim r [ inl e ↦ inr e | inr n ↦ absurd n ]
  ]

  -- One of the others, or the one that is taken out.
  pub in_middle :
      (before after : List RootHashPayload) (p : RootHashPayload)
      → In q (before ++ p ∷ after)
      → (p ≡ q) ⊎ In q (before ++ after)
  in_middle before after p h = elim (in_either before (p ∷ after) h) [
    | inl l ↦ inr (in_left before after l)
    | inr r ↦ elim r [ inl e ↦ inl e | inr a ↦ inr (in_right before after a) ]
  ]

  pub in_begun :
      (before after : List RootHashPayload) (p : RootHashPayload)
      → In q (before ++ after)
      → In q (before ++ p ∷ after)
  in_begun before after p h = elim (in_either before after h) [
    | inl l ↦ in_left before (p ∷ after) l
    | inr r ↦ in_right before (p ∷ after) (inr r)
  ]

  module _ (verify : String → String → Judged) (fails : Bool) (p : RootHashPayload) where
    pub posted-rows :
        (d : Delivery) (rows : List RootHashPayload)
        → In q (posted verify d fails p rows)
        → In q rows ⊎ (p ≡ q)
    posted-rows unreached rows h = inl h
    posted-rows unanswered rows h = elim (ingest_root_accepts_iff verify fails p rows).1 [
      | inl (_, e) ↦ in_last rows p (subst (In q) e h)
      | inr (_, e) ↦ inl (subst (In q) e h)
    ]
    posted-rows answered rows h = elim (ingest_root_accepts_iff verify fails p rows).1 [
      | inl (_, e) ↦ in_last rows p (subst (In q) e h)
      | inr (_, e) ↦ inl (subst (In q) e h)
    ]

    pub send_batch-rows :
        (d : Delivery) (t : Trail)
        → In q (send_batch verify d fails p t).rows
        → In q t.rows ⊎ (p ≡ q)
    send_batch-rows unreached t h = posted-rows unreached t.rows h
    send_batch-rows unanswered t h = posted-rows unanswered t.rows h
    send_batch-rows answered t h = posted-rows answered t.rows h

    pub send_batch-wal :
        (d : Delivery) (t : Trail) → In q (send_batch verify d fails p t).wal → In q t.wal ⊎ (p ≡ q)
    send_batch-wal unreached t h = in_last t.wal p h
    send_batch-wal unanswered t h = in_last t.wal p h
    send_batch-wal answered t h = inl h

    pub resend-rows :
        (d : Delivery) (t : Trail) → In q (resend verify d fails p t).rows → In q t.rows ⊎ (p ≡ q)
    resend-rows unreached t h = posted-rows unreached t.rows h
    resend-rows unanswered t h = posted-rows unanswered t.rows h
    resend-rows answered t h = posted-rows answered t.rows h

  pub kept_line-one : (d : Delivery) (p : RootHashPayload) → In q (kept_line d p) → p ≡ q
  kept_line-one answered p h = absurd h
  kept_line-one unreached p h = elim h [ inl e ↦ e | inr n ↦ absurd n ]
  kept_line-one unanswered p h = elim h [ inl e ↦ e | inr n ↦ absurd n ]

module _ (verify : String → String → Judged) (fails : Bool) (p : RootHashPayload) where
  pub posted-IsInOrder :
      (d : Delivery) (rows : List RootHashPayload)
      → IsInOrder verify rows
      → IsInOrder verify (posted verify d fails p rows)
  posted-IsInOrder unreached rows h = h
  posted-IsInOrder unanswered rows h = ingest_root-IsInOrder verify fails p rows h
  posted-IsInOrder answered rows h = ingest_root-IsInOrder verify fails p rows h

  pub send_batch-IsInOrder :
      (d : Delivery) (t : Trail)
      → IsInOrder verify t.rows
      → IsInOrder verify (send_batch verify d fails p t).rows
  send_batch-IsInOrder unreached t h = h
  send_batch-IsInOrder unanswered t h = posted-IsInOrder unanswered t.rows h
  send_batch-IsInOrder answered t h = posted-IsInOrder answered t.rows h

  pub resend-IsInOrder :
      (d : Delivery) (t : Trail)
      → IsInOrder verify t.rows
      → IsInOrder verify (resend verify d fails p t).rows
  resend-IsInOrder unreached t h = h
  resend-IsInOrder unanswered t h = posted-IsInOrder unanswered t.rows h
  resend-IsInOrder answered t h = posted-IsInOrder answered t.rows h
