-- ===== src/Relay/Publishing.antt =====
-- An event is marked only after it is published.
use sentinel_ai_v3_0_the_fin.Prelude.{
  ◌+◌, String, ◌≡◌, Bool, true, false, some, List, [], ◌∷◌, ◌++◌, map, arith, Bool-cases, ◌⊎◌, inl,
  inr, eq_iff, eq_refl, any, any-append, ◌==◌, All,
}
use sentinel_ai_v3_0_the_fin.Database.{Db, OutboxEvent, select_pending, mark_published, publish_if}
use sentinel_ai_v3_0_the_fin.Database.Connection.{
  Runtime, Conn, idle, Result, ok, err, modify, commit, operational_error, ◌>>=◌,
}
use sentinel_ai_v3_0_the_fin.Database.Rules.{query-cases}
use sentinel_ai_v3_0_the_fin.Relay.{Relay, commit_if_any, publish_all, relay_round}

abbrev pub is_published : List String → String → Bool
is_published log id = any (λ x. x == id) log

-- A marked event has been published.
abbrev pub IsSent : List String → OutboxEvent → Type 0
IsSent log e = e.status ≡ "PUBLISHED" → is_published log e.id ≡ true

abbrev pub IsHonest : List String → Db → Type 0
IsHonest log db = All (IsSent log) db.outbox_events

IsSent-later :
    (log : List String) (id : String) (e : OutboxEvent) → IsSent log e → IsSent (log ++ id ∷ []) e
IsSent-later log id e h p = ground (arith, h p, any-append (λ x. x == e.id) log (id ∷ []))

IsSent-now :
    (log : List String) (id : String) (e : OutboxEvent)
    → IsSent log e
    → IsSent (log ++ id ∷ []) (publish_if id e)
IsSent-now log id e h = elim (Bool-cases (e.id == id)) [
  | inl q ↦ rw q (λ _.
      ground (arith, (eq_iff e.id id).0 q, eq_refl e.id, any-append (λ x. x == e.id) log (id ∷ [])))
  | inr q ↦ rw q (IsSent-later log id e h)
]

All-later :
    (log : List String) (id : String) (es : List OutboxEvent)
    → All (IsSent log) es
    → All (IsSent (log ++ id ∷ [])) es
All-later log id [] h = tt
All-later log id (e ∷ es) h = (IsSent-later log id e h.0, All-later log id es h.1)

All-now :
    (log : List String) (id : String) (es : List OutboxEvent)
    → All (IsSent log) es
    → All (IsSent (log ++ id ∷ [])) (map (publish_if id) es)
All-now log id [] h = tt
All-now log id (e ∷ es) h = (IsSent-now log id e h.0, All-now log id es h.1)

abbrev pub Honest : Relay → Type 0
Honest r = IsHonest r.published r.conn.committed × IsHonest r.published r.conn.working

pub update_cases :
    (rt : Runtime) (id : String) (c : Conn)
    → (modify rt (λ db. some (mark_published id db)) c ≡ (
      ok tt,
      record c { working = mark_published id c.working; in_tx = true; sent = c.sent + 1 },
    ))
      ⊎ (modify rt (λ db. some (mark_published id db)) c
          ≡ (err operational_error, record c { sent = c.sent + 1 }))
unfolding modify ◌>>=◌
update_cases rt id c = ground arith

commit-Honest :
    (rt : Runtime) (log : List String) (c : Conn)
    → Honest (record { conn = c; published = log })
    → Honest (record { conn = (commit rt c).1; published = log })
unfolding commit
commit-Honest rt log c h = ground (arith, h)

publish_all-Honest :
    (rt : Runtime) (es : List OutboxEvent) (log : List String) (c : Conn)
    → Honest (record { conn = c; published = log })
    → Honest (publish_all rt es log c).1
unfolding publish_all mark_published
publish_all-Honest rt [] log c h = h
publish_all-Honest rt (e ∷ es) log c h =
    let log' = log ++ e.id ∷ [] in
    elim (update_cases rt e.id c) [
      | inl q ↦ rw q (
          publish_all-Honest rt es log'
            (record c { working = mark_published e.id c.working; in_tx = true; sent = c.sent + 1 })
            (
              All-later log e.id c.committed.outbox_events h.0,
              All-now log e.id c.working.outbox_events h.1,
            ))
      | inr q ↦ rw q (
        All-later log e.id c.committed.outbox_events h.0,
        All-later log e.id c.working.outbox_events h.1,
      )
    ]

finish-Honest :
    (rt : Runtime) (es : List OutboxEvent) (r : Result Unit × Relay)
    → Honest r.1
    → Honest (commit_if_any rt es r)
finish-Honest rt [] (a, relay) h = h
finish-Honest rt (e ∷ es) (err x, relay) h = h
finish-Honest rt (e ∷ es) (ok a, relay) h = commit-Honest rt relay.published relay.conn h

relay_round-Honest : (rt : Runtime) (r : Relay) → Honest r → Honest (relay_round rt r)
unfolding relay_round
relay_round-Honest rt r h = elim (query-cases rt select_pending r.conn) [
  | inl q ↦ rw q (
      finish-Honest rt (select_pending r.conn.working)
        (publish_all rt (select_pending r.conn.working) r.published
          (record r.conn { sent = r.conn.sent + 1 }))
        (publish_all-Honest rt (select_pending r.conn.working) r.published
          (record r.conn { sent = r.conn.sent + 1 }) h))
  | inr q ↦ rw q h
]

-- The worker after a restart in a turn that has come so far in its loop.
abbrev restarted_after : Runtime → List OutboxEvent → Relay → Relay
restarted_after rt events r =
    let t = (publish_all rt events r.published (record r.conn { sent = r.conn.sent + 1 })).1 in
    record t { conn = idle 0 t.conn.committed }

-- What happens to the worker: a turn with its own failures; commits of other connections while it has
-- no transaction open, which mark nothing as published; and a restart of the process on the file as it
-- is, between two turns, or in a turn whose first events have been published. What such a turn has
-- marked is lost with its transaction.
pub data Step (r : Relay) : Relay → Type 0 where
  turn : (rt : Runtime) → Step r (relay_round rt r)
  others :
      (db : Db)
      → r.conn.in_tx ≡ false
      → ((log : List String) → IsHonest log r.conn.committed → IsHonest log db)
      → Step r (record r { conn = record r.conn { committed = db; working = db } })
  restart : Step r (record r { conn = idle 0 r.conn.committed })
  restart_in_turn :
      (rt : Runtime) (events later : List OutboxEvent)
      → select_pending r.conn.working ≡ events ++ later
      → Step r (restarted_after rt events r)

pub data Reach : Relay → Type 0 where
  initial : (db : Db) → IsHonest [] db → Reach (record { conn = idle 0 db; published = [] })
  next : {r t : Relay} → Reach r → Step r t → Reach t

Step-Honest : {r t : Relay} → Step r t → Honest r → Honest t
Step-Honest {r} (turn rt) h = relay_round-Honest rt r h
Step-Honest {r} (others db c k) h = (k r.published h.0, k r.published h.0)
Step-Honest restart h = (h.0, h.0)
Step-Honest {r} (restart_in_turn rt events later e) h =
    let t = publish_all-Honest rt events r.published (record r.conn { sent = r.conn.sent + 1 }) h in
    (t.0, t.0)

-- At least once: whichever statements of each turn fail, whenever the process restarts, also in the
-- middle of a turn, and whatever else is committed in between by connections that mark no event,
-- every event that is marked PUBLISHED in the file or in the worker's view of it has been published,
-- if the file had no marked event at the start.
pub marked_events_are_published : {r : Relay} → Reach r → Honest r
marked_events_are_published (initial db h) = (h, h)
marked_events_are_published (next r st) = Step-Honest st (marked_events_are_published r)
