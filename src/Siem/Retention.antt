-- ===== src/Siem/Retention.antt =====
-- When no batch is lost on the gateway's side.
use sentinel_ai_v3_0_the_fin.Prelude.{String, ◌≡◌, ◌⊎◌, inl, inr, subst, Bool, ◌++◌, List, [], ◌∷◌}
use sentinel_ai_v3_0_the_fin.Siem.{
  RootHashPayload, Judged, Signer, payload_of, Delivery, unreached, unanswered, answered,
}
use sentinel_ai_v3_0_the_fin.Siem.Log.{kept_line}
use sentinel_ai_v3_0_the_fin.Siem.Workers.{
  Worker, idle, resending, Client, hear, begin_flush, end_flush, resend_line, restart_gateway, Step,
  begin, end, read, line, write, restart, restart_siem, restart_witness, IsCalm, CalmReach,
  first_calm, next_calm,
}
use sentinel_ai_v3_0_the_fin.Siem.Posts.{In, in_left, in_right, in_last, in_middle}

-- Where a payload is not lost: it waits for its answer, it has been answered, or it is in the log.
abbrev pub Retained :
    RootHashPayload → List RootHashPayload → List RootHashPayload → List RootHashPayload → Type 0
Retained q sending heard wal = In q sending ⊎ (In q heard ⊎ In q wal)

-- What the worker has read of the log is left, kept, or has been answered.
abbrev pub Covers : Worker → List RootHashPayload → List RootHashPayload → Type 0
Covers idle heard wal = Unit
Covers (resending left remaining) heard wal =
    (q : RootHashPayload) → In q wal → In q left ⊎ (In q remaining ⊎ In q heard)

pub record Retains (c : Client) : Type 0 where
  pub retained : (q : RootHashPayload) → In q c.begun → Retained q c.sending c.heard c.trail.wal
  pub covered : Covers c.worker c.heard c.trail.wal

in_heard :
    (q : RootHashPayload) (d : Delivery) (p : RootHashPayload) (heard : List RootHashPayload)
    → In q heard
    → In q (hear d p heard)
in_heard q answered p heard h = in_left q heard (p ∷ []) h
in_heard q unreached p heard h = h
in_heard q unanswered p heard h = h

-- More that has been heard covers as much.
Covers-heard :
    (w : Worker) (d : Delivery) (p : RootHashPayload) (heard wal : List RootHashPayload)
    → Covers w heard wal
    → Covers w (hear d p heard) wal
Covers-heard idle d p heard wal h = tt
Covers-heard (resending left remaining) d p heard wal h = λ q i. elim (h q i) [
  | inl l ↦ inl l
  | inr r ↦ elim r [ inl k ↦ inr (inl k) | inr k ↦ inr (inr (in_heard q d p heard k)) ]
]

Covers-idle : (w : Worker) (heard wal : List RootHashPayload) → w ≡ idle → Covers w heard wal
Covers-idle idle heard wal e = tt
Covers-idle (resending left remaining) heard wal e = cc e

-- A line that is sent again is kept or heard.
line-Covers :
    (p : RootHashPayload) (left remaining : List RootHashPayload) (d : Delivery)
    (heard wal : List RootHashPayload)
    → Covers (resending (p ∷ left) remaining) heard wal
    → Covers (resending left (remaining ++ kept_line d p)) (hear d p heard) wal
line-Covers p left remaining d heard wal h = λ q i. elim (h q i) [
  | inl l ↦ elim l [ inl e ↦ inr (taken q d e) | inr k ↦ inl k ]
  | inr r ↦ elim r [
    | inl k ↦ inr (inl (in_left q remaining (kept_line d p) k))
    | inr k ↦ inr (inr (in_heard q d p heard k))
  ]
]
  where
    taken :
        (q : RootHashPayload) (d : Delivery)
        → p ≡ q
        → In q (remaining ++ kept_line d p) ⊎ In q (hear d p heard)
    taken q answered e = inr (in_right q heard (p ∷ []) (inl e))
    taken q unreached e = inl (in_right q remaining (p ∷ []) (inl e))
    taken q unanswered e = inl (in_right q remaining (p ∷ []) (inl e))

module _ (verify : String → String → Judged) (s : Signer) where
  -- A flush that fails while the worker sleeps is in the log then.
  logged :
      (c : Client) (before after : List RootHashPayload) (p : RootHashPayload)
      → c.sending ≡ before ++ p ∷ after
      → Retains c
      → (q : RootHashPayload) → In q c.begun
      → Retained q (before ++ after) c.heard (c.trail.wal ++ p ∷ [])
  logged c before after p e h q i = elim (h.retained q i) [
    | inl w ↦ elim (in_middle q before after p (subst (In q) e w)) [
      | inl same ↦ inr (inr (in_right q c.trail.wal (p ∷ []) (inl same)))
      | inr w' ↦ inl w'
    ]
    | inr r ↦ elim r [ inl k ↦ inr (inl k) | inr k ↦ inr (inr (in_left q c.trail.wal (p ∷ []) k)) ]
  ]

  heard_now :
      (c : Client) (before after : List RootHashPayload) (p : RootHashPayload)
      → c.sending ≡ before ++ p ∷ after
      → Retains c
      → (q : RootHashPayload) → In q c.begun
      → Retained q (before ++ after) (c.heard ++ p ∷ []) c.trail.wal
  heard_now c before after p e h q i = elim (h.retained q i) [
    | inl w ↦ elim (in_middle q before after p (subst (In q) e w)) [
      | inl same ↦ inr (inl (in_right q c.heard (p ∷ []) (inl same)))
      | inr w' ↦ inl w'
    ]
    | inr r ↦ elim r [ inl k ↦ inr (inl (in_left q c.heard (p ∷ []) k)) | inr k ↦ inr (inr k) ]
  ]

  -- The end of a flush, which is heard, or fails while the worker sleeps.
  end-Retains :
      (c : Client) (before after : List RootHashPayload) (p : RootHashPayload) (d : Delivery)
      (fails : Bool)
      → c.sending ≡ before ++ p ∷ after
      → (d ≡ answered) ⊎ (c.worker ≡ idle)
      → Retains c
      → Retains (end_flush verify s p (before ++ after) d fails c)
  unfolding end_flush
  end-Retains c before after p answered fails e calm h = record {
    retained = heard_now c before after p e h;
    covered = Covers-heard c.worker answered p c.heard c.trail.wal h.covered;
  }
  end-Retains c before after p unreached fails e (inl heard) h = cc heard
  end-Retains c before after p unanswered fails e (inl heard) h = cc heard
  end-Retains c before after p unreached fails e (inr sleeps) h = record {
    retained = logged c before after p e h;
    covered = Covers-idle c.worker c.heard (c.trail.wal ++ p ∷ []) sleeps;
  }
  end-Retains c before after p unanswered fails e (inr sleeps) h = record {
    retained = logged c before after p e h;
    covered = Covers-idle c.worker c.heard (c.trail.wal ++ p ∷ []) sleeps;
  }

  -- What is heard besides takes nothing away.
  Retained-heard :
      (q p : RootHashPayload) (d : Delivery) (sending heard wal : List RootHashPayload)
      → Retained q sending heard wal
      → Retained q sending (hear d p heard) wal
  Retained-heard q p d sending heard wal (inl w) = inl w
  Retained-heard q p d sending heard wal (inr (inl k)) = inr (inl (in_heard q d p heard k))
  Retained-heard q p d sending heard wal (inr (inr k)) = inr (inr k)

  -- The lines that the worker writes, and what has been heard, are all that was in the log.
  Retained-written :
      (q : RootHashPayload) (remaining sending heard wal : List RootHashPayload)
      → Covers (resending [] remaining) heard wal
      → Retained q sending heard wal
      → Retained q sending heard remaining
  Retained-written q remaining sending heard wal f (inl w) = inl w
  Retained-written q remaining sending heard wal f (inr (inl k)) = inr (inl k)
  Retained-written q remaining sending heard wal f (inr (inr k)) = elim (f q k) [
    | inl n ↦ absurd n
    | inr r ↦ elim r [ inl k' ↦ inr (inr k') | inr k' ↦ inr (inl k') ]
  ]

  Step-Retains :
      {c d : Client} (st : Step verify s c d) → IsCalm verify s st → Retains c → Retains d
  unfolding begin_flush resend_line restart_gateway restart_witness
  Step-Retains {c} (begin current_root) calm h =
      let p = payload_of s c.trail.prev_root current_root in
      record {
        retained = λ q i. elim (in_last q c.begun p i) [
          | inr e ↦ inl (in_right q c.sending (p ∷ []) (inl e))
          | inl b ↦ elim (h.retained q b) [
            | inl w ↦ inl (in_left q c.sending (p ∷ []) w)
            | inr r ↦ inr r
          ]
        ];
        covered = h.covered;
      }
  Step-Retains {c} (end before after p d fails e) calm h =
      end-Retains c before after p d fails e calm h
  Step-Retains {c} (read e lines) calm h = record { retained = h.retained; covered = λ q i. inl i }
  Step-Retains {c} (line p left remaining d fails e) calm h = record {
    retained = λ q i. Retained-heard q p d c.sending c.heard c.trail.wal (h.retained q i);
    covered =
        line-Covers p left remaining d c.heard c.trail.wal
          (subst (λ w. Covers w c.heard c.trail.wal) e h.covered);
  }
  Step-Retains {c} (write remaining e) calm h = record {
    retained = λ q i.
        Retained-written q remaining c.sending c.heard c.trail.wal
          (subst (λ w. Covers w c.heard c.trail.wal) e h.covered) (h.retained q i);
    covered = tt;
  }
  Step-Retains {c} restart calm h = record {
    retained =
        λ q i. elim (h.retained q i) [ inl w ↦ absurd (subst (In q) calm w) | inr r ↦ inr r ];
    covered = tt;
  }
  Step-Retains {c} restart_siem calm h = record { retained = h.retained; covered = h.covered }

  -- No batch is lost unanswered: however flushes, the retry worker and restarts interleave from the
  -- first start on, every payload that a flush has made waits for the answer to its POST, has been
  -- answered, or stands in the log, as long as no flush fails between the worker's reading and its
  -- writing of the log, and no restart of the gateway meets a flush that waits.
  pub CalmReach-Retains : {c : Client} → CalmReach verify s c → Retains c
  CalmReach-Retains first_calm = record { retained = λ q i. absurd i; covered = tt }
  CalmReach-Retains (next_calm r st calm) = Step-Retains st calm (CalmReach-Retains r)
