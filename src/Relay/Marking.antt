-- ===== src/Relay/Marking.antt =====
-- What the relay does to the ledger beside the status of its events.
use sentinel_ai_v3_0_the_fin.Prelude.{
  true, String, ◌≡◌, refl, inl, inr, ◌∙◌, List, [], ◌∷◌, map, arith, All, ◌++◌, ◌+◌,
}
use sentinel_ai_v3_0_the_fin.Database.{
  Db, PaymentIntent, OutboxEvent, select_pending, mark_published, publish_if,
}
use sentinel_ai_v3_0_the_fin.Database.Connection.{Runtime, Conn, idle, Result, ok, err, commit}
use sentinel_ai_v3_0_the_fin.Database.Rules.{query-cases}
use sentinel_ai_v3_0_the_fin.Relay.{Relay, commit_if_any, publish_all, relay_round}
use sentinel_ai_v3_0_the_fin.Relay.Publishing.{update_cases}
use sentinel_ai_v3_0_the_fin.Transaction.Consistency.{IsConsistent, IsTraced, has_event}

-- So many turns of the worker, each meeting its own failures, with nobody else committing.
unfoldable pub relay_rounds : List Runtime → Relay → Relay
relay_rounds [] r = r
relay_rounds (rt ∷ rts) r = relay_rounds rts (relay_round rt r)

-- What the file is after these turns of a worker that starts on it.
abbrev pub relayed : List Runtime → Db → Db
relayed rts db = (relay_rounds rts (record { conn = idle 0 db; published = [] })).conn.committed

-- Whatever holds of a database and is not lost by a mark is not lost by the worker.
module _ (P : Db → Type 0) (kept : (id : String) (db : Db) → P db → P (mark_published id db)) where
  abbrev Both : Conn → Type 0
  Both c = P c.committed × P c.working

  commit-Both : (rt : Runtime) (c : Conn) → Both c → Both (commit rt c).1
  unfolding commit
  commit-Both rt c h = ground (arith, h)

  publish_all-Both :
      (rt : Runtime) (es : List OutboxEvent) (log : List String) (c : Conn)
      → Both c
      → Both (publish_all rt es log c).1.conn
  unfolding publish_all
  publish_all-Both rt [] log c h = h
  publish_all-Both rt (e ∷ es) log c h = elim (update_cases rt e.id c) [
    | inl q ↦ rw q (
        publish_all-Both rt es (log ++ e.id ∷ [])
          (record c { working = mark_published e.id c.working; in_tx = true; sent = c.sent + 1 })
          (h.0, kept e.id c.working h.1))
    | inr q ↦ rw q h
  ]

  finish-Both :
      (rt : Runtime) (es : List OutboxEvent) (r : Result Unit × Relay)
      → Both r.1.conn
      → Both (commit_if_any rt es r).conn
  finish-Both rt [] (a, relay) h = h
  finish-Both rt (e ∷ es) (err x, relay) h = h
  finish-Both rt (e ∷ es) (ok a, relay) h = commit-Both rt relay.conn h

  relay_round-Both : (rt : Runtime) (r : Relay) → Both r.conn → Both (relay_round rt r).conn
  unfolding relay_round
  relay_round-Both rt r h = elim (query-cases rt select_pending r.conn) [
    | inl q ↦ rw q (
        finish-Both rt (select_pending r.conn.working)
          (publish_all rt (select_pending r.conn.working) r.published
            (record r.conn { sent = r.conn.sent + 1 }))
          (publish_all-Both rt (select_pending r.conn.working) r.published
            (record r.conn { sent = r.conn.sent + 1 }) h))
    | inr q ↦ rw q h
  ]

  relay_rounds-Both :
      (rts : List Runtime) (r : Relay) → Both r.conn → Both (relay_rounds rts r).conn
  unfolding relay_rounds
  relay_rounds-Both [] r h = h
  relay_rounds-Both (rt ∷ rts) r h =
      relay_rounds-Both rts (relay_round rt r) (relay_round-Both rt r h)

  pub relayed_lem : (rts : List Runtime) (db : Db) → P db → P (relayed rts db)
  relayed_lem rts db h =
      (relay_rounds-Both rts (record { conn = idle 0 db; published = [] }) (h, h)).0

-- The worker leaves the payments alone.
pub relayed-intents :
    (rts : List Runtime) (db : Db) → (relayed rts db).payment_intents ≡ db.payment_intents
unfolding mark_published
relayed-intents rts db =
    relayed_lem (λ x. x.payment_intents ≡ db.payment_intents) (λ id x h. h) rts db refl

has_event-publish :
    (id aggregate event : String) (es : List OutboxEvent)
    → has_event aggregate event (map (publish_if id) es) ≡ has_event aggregate event es
has_event-publish id aggregate event [] = refl
has_event-publish id aggregate event (e ∷ es) =
    ground (arith, has_event-publish id aggregate event es)

All-publish :
    (id : String) (db : Db) (ps : List PaymentIntent)
    → All (IsTraced db.outbox_events db.audit_ledger) ps
    → All (IsTraced (map (publish_if id) db.outbox_events) db.audit_ledger) ps
All-publish id db [] h = tt
All-publish id db (p ∷ ps) h = (
  record {
    started_event = has_event-publish id p.id "AUTH_STARTED" db.outbox_events ∙ h.0.started_event;
    created_row = h.0.created_row;
    approved_event =
        λ s. has_event-publish id p.id "AUTH_APPROVED" db.outbox_events ∙ h.0.approved_event s;
    approved_row = h.0.approved_row;
  },
  All-publish id db ps h.1,
)

-- It keeps the ledger's invariant.
pub relayed-IsConsistent :
    (sha256 : String → String) (rts : List Runtime) (db : Db)
    → IsConsistent sha256 db
    → IsConsistent sha256 (relayed rts db)
unfolding mark_published
relayed-IsConsistent sha256 rts db =
    relayed_lem (IsConsistent sha256)
      (λ id x h. record {
        chain = h.chain;
        unique = h.unique;
        traced = All-publish id x x.payment_intents h.traced;
      })
      rts db
