-- ===== src/Siem/Fates.antt =====
-- What becomes of the gateway's batches, however flushes and the retry worker interleave.
use sentinel_ai_v3_0_the_fin.Prelude.{
  String, ◌≡◌, ◌⊎◌, inl, inr, refl, sym, subst, Bool, ◌++◌, List, [], ◌∷◌,
}
use sentinel_ai_v3_0_the_fin.Siem.{RootHashPayload, Judged, Signer, payload_of, Delivery, init_db}
use sentinel_ai_v3_0_the_fin.Siem.Log.{kept_line}
use sentinel_ai_v3_0_the_fin.Siem.Witness.{IsInOrder}
use sentinel_ai_v3_0_the_fin.Siem.Workers.{
  Worker, idle, resending, Client, begin_flush, end_flush, resend_line, restart_gateway, Step,
  begin, end, read, line, write, restart, restart_siem, restart_witness, Reach, first, next,
}
use sentinel_ai_v3_0_the_fin.Siem.Posts.{
  In, in_left, in_right, in_either, in_last, in_begun, send_batch-rows, send_batch-wal, resend-rows,
  kept_line-one, send_batch-IsInOrder, resend-IsInOrder,
}

-- The lines that the worker has in its hands.
abbrev pub lines_of : Worker → List RootHashPayload
lines_of idle = []
lines_of (resending left remaining) = left ++ remaining

module _ (verify : String → String → Judged) (s : Signer) where
  -- Everything that is under way, in the log or at the witness has been made by a flush, and the
  -- witness's table is in order.
  pub record IsOwn (c : Client) : Type 0 where
    pub sent : (q : RootHashPayload) → In q c.sending → In q c.begun
    pub logged : (q : RootHashPayload) → In q c.trail.wal → In q c.begun
    pub held : (q : RootHashPayload) → In q (lines_of c.worker) → In q c.begun
    pub recorded : (q : RootHashPayload) → In q c.trail.rows → In q c.begun
    pub ordered : IsInOrder verify c.trail.rows

  begun_or :
      {q p : RootHashPayload} (xs begun : List RootHashPayload)
      → (In q xs → In q begun)
      → In p begun
      → In q xs ⊎ (p ≡ q)
      → In q begun
  begun_or xs begun f own (inl h) = f h
  begun_or xs begun f own (inr e) = subst (λ x. In x begun) e own

  line-IsOwn :
      (c : Client) (p : RootHashPayload) (left remaining : List RootHashPayload) (d : Delivery)
      (fails : Bool)
      → c.worker ≡ resending (p ∷ left) remaining
      → IsOwn c
      → IsOwn (resend_line verify s p left remaining d fails c)
  unfolding resend_line
  line-IsOwn c p left remaining d fails e h =
      let held' : (q : RootHashPayload) → In q (p ∷ left ++ remaining) → In q c.begun =
        λ q i. h.held q (subst (λ w. In q (lines_of w)) (sym e) i) in
      let own = held' p (inl refl) in
      record {
        sent = h.sent;
        logged = h.logged;
        held = λ q i. elim (in_either q left (remaining ++ kept_line d p) i) [
          | inl l ↦ held' q (inr (in_left q left remaining l))
          | inr r ↦ elim (in_either q remaining (kept_line d p) r) [
            | inl k ↦ held' q (inr (in_right q left remaining k))
            | inr k ↦ subst (λ x. In x c.begun) (kept_line-one q d p k) own
          ]
        ];
        recorded = λ q i.
            begun_or c.trail.rows c.begun (h.recorded q) own
              (resend-rows q verify fails p d c.trail i);
        ordered = resend-IsInOrder verify fails p d c.trail h.ordered;
      }

  Step-IsOwn : {c d : Client} → Step verify s c d → IsOwn c → IsOwn d
  unfolding begin_flush end_flush restart_gateway restart_witness init_db
  Step-IsOwn {c} (begin current_root) h =
      let p = payload_of s c.trail.prev_root current_root in
      let grow : (q : RootHashPayload) → In q c.begun → In q (c.begun ++ p ∷ []) =
        λ q. in_left q c.begun (p ∷ []) in
      record {
        sent = λ q i. elim (in_last q c.sending p i) [
          | inl l ↦ grow q (h.sent q l)
          | inr e ↦ in_right q c.begun (p ∷ []) (inl e)
        ];
        logged = λ q i. grow q (h.logged q i);
        held = λ q i. grow q (h.held q i);
        recorded = λ q i. grow q (h.recorded q i);
        ordered = h.ordered;
      }
  Step-IsOwn {c} (end before after p d fails e) h =
      let sent' : (q : RootHashPayload) → In q (before ++ p ∷ after) → In q c.begun =
        λ q i. h.sent q (subst (In q) (sym e) i) in
      let own = sent' p (in_right p before (p ∷ after) (inl refl)) in
      record {
        sent = λ q i. sent' q (in_begun q before after p i);
        logged = λ q i.
            begun_or c.trail.wal c.begun (h.logged q) own
              (send_batch-wal q verify fails p d c.trail i);
        held = h.held;
        recorded = λ q i.
            begun_or c.trail.rows c.begun (h.recorded q) own
              (send_batch-rows q verify fails p d c.trail i);
        ordered = send_batch-IsInOrder verify fails p d c.trail h.ordered;
      }
  Step-IsOwn {c} (read e lines) h = record {
    sent = h.sent;
    logged = h.logged;
    held = λ q i. elim (in_either q c.trail.wal [] i) [ inl l ↦ h.logged q l | inr n ↦ absurd n ];
    recorded = h.recorded;
    ordered = h.ordered;
  }
  Step-IsOwn {c} (line p left remaining d fails e) h = line-IsOwn c p left remaining d fails e h
  Step-IsOwn {c} (write remaining e) h = record {
    sent = h.sent;
    logged = λ q i. h.held q (subst (λ w. In q (lines_of w)) (sym e) i);
    held = λ q i. absurd i;
    recorded = h.recorded;
    ordered = h.ordered;
  }
  Step-IsOwn {c} restart h = record {
    sent = λ q i. absurd i;
    logged = h.logged;
    held = λ q i. absurd i;
    recorded = h.recorded;
    ordered = h.ordered;
  }
  Step-IsOwn {c} restart_siem h = record {
    sent = h.sent;
    logged = h.logged;
    held = h.held;
    recorded = h.recorded;
    ordered = h.ordered;
  }

  -- The witness holds only what the gateway has made: however flushes, the retry worker and restarts
  -- of either side interleave, from the first start on, and whatever becomes of each POST, every row
  -- of the witness, every line of the log and every payload under way is one that a flush has made
  -- from a batch and the gateway's root at that time, and the rows are chained and genuine.
  pub Reach-IsOwn : {c : Client} → Reach verify s c → IsOwn c
  unfolding init_db
  Reach-IsOwn first = record {
    sent = λ q i. i;
    logged = λ q i. i;
    held = λ q i. i;
    recorded = λ q i. i;
    ordered = record { chained = tt; signed = tt };
  }
  Reach-IsOwn (next r st) = Step-IsOwn st (Reach-IsOwn r)
