-- ===== src/Relay.antt =====
-- core/relay.py: `outbox_relay_worker`, which publishes the pending outbox events.
pub mod Publishing
pub mod Draining
pub mod Marking
mod Tests
use sentinel_ai_v3_0_the_fin.Prelude.{String, Option, some, List, [], ◌∷◌, ◌++◌}
use sentinel_ai_v3_0_the_fin.Database.{OutboxEvent, select_pending, mark_published}
use sentinel_ai_v3_0_the_fin.Database.Connection.{
  Runtime, Conn, Result, ok, err, query, modify, commit,
}

-- The worker's connection, and the identifiers of the events that it has published so far.
pub record Relay : Type 0 where
  pub conn : Conn
  pub published : List String

-- What the loop over the events does after the update of an event: it goes on, or the exception
-- leaves the loop.
abbrev after_update :
    (Conn → Result Unit × Relay) → List String → Result Unit × Conn → Result Unit × Relay
after_update rest published (ok a, c) = rest c
after_update rest published (err e, c) = (err e, record { conn = c; published = published })

-- `for event in events`: each event is published, then marked.
unfoldable pub publish_all : Runtime → List OutboxEvent → List String → Conn → Result Unit × Relay
publish_all rt [] published c = (ok tt, record { conn = c; published = published })
publish_all rt (event ∷ events) published c =
    let published' = published ++ event.id ∷ [] in
    after_update (publish_all rt events published') published'
      (modify rt (λ db. some (mark_published event.id db)) c)

-- `if events: await db.commit()`
abbrev pub commit_if_any : Runtime → List OutboxEvent → Result Unit × Relay → Relay
commit_if_any rt [] (r, relay) = relay
commit_if_any rt (event ∷ events) (err e, relay) = relay
commit_if_any rt (event ∷ events) (ok a, relay) = record relay { conn = (commit rt relay.conn).1 }

-- From the rows that are fetched on.
unfoldable pub with_events : Runtime → List String → Result (List OutboxEvent) × Conn → Relay
unfolding publish_all
with_events rt published (err e, c) = record { conn = c; published = published }
with_events rt published (ok events, c) =
    commit_if_any rt events (publish_all rt events published c)

-- One turn of `while True`; an exception is logged, and no ROLLBACK is sent.
unfoldable pub relay_round : Runtime → Relay → Relay
unfolding with_events
relay_round rt relay = with_events rt relay.published (query rt select_pending relay.conn)
