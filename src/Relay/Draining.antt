-- ===== src/Relay/Draining.antt =====
-- A turn in which nothing fails publishes its batch.
use sentinel_ai_v3_0_the_fin.Prelude.{
  zero, suc, take, keep, if◌then◌else◌, ℕ, ◌+◌, String, ◌≡◌, refl, sym, ap, ◌∙◌, true, false, some,
  List, [], ◌∷◌, ◌++◌, map, arith, Bool-cases, inl, inr, eq_iff, ◌==◌,
}
use mathlib.Core.List.{append_assoc, append-nil}
use sentinel_ai_v3_0_the_fin.Database.{
  Db, OutboxEvent, select_pending, mark_published, publish_if, is_pending,
}
use sentinel_ai_v3_0_the_fin.Database.Connection.{Runtime, Conn, idle, Result, ok, err}
use sentinel_ai_v3_0_the_fin.Database.Working.{query-ok, modify-ok, commit-ok}
use sentinel_ai_v3_0_the_fin.Relay.{Relay, commit_if_any, publish_all, relay_round}
use sentinel_ai_v3_0_the_fin.Relay.Publishing.{is_published}

abbrev pub ids : List OutboxEvent → List String
ids [] = []
ids (e ∷ es) = e.id ∷ ids es

abbrev mark_each : List OutboxEvent → Db → Db
mark_each [] db = db
mark_each (e ∷ es) db = mark_each es (mark_published e.id db)

-- The row, marked if its identifier is one of these.
abbrev pub mark_in : List String → OutboxEvent → OutboxEvent
mark_in done x = if is_published done x.id then record x { status = "PUBLISHED" } else x

-- The first so many events that are pending.
abbrev pub first_pending : ℕ → List OutboxEvent → List OutboxEvent
first_pending zero es = []
first_pending (suc n) [] = []
first_pending (suc n) (e ∷ es) =
    if e.status == "PENDING" then e ∷ first_pending n es else first_pending (suc n) es

take-pending : (n : ℕ) (es : List OutboxEvent) → take n (keep is_pending es) ≡ first_pending n es
take-pending zero es = refl
take-pending (suc n) [] = refl
take-pending (suc n) (e ∷ es) = elim (Bool-cases (e.status == "PENDING")) [
  | inl p ↦ rw p (ap (λ xs. e ∷ xs) (take-pending n es))
  | inr q ↦ rw q (take-pending (suc n) es)
]

map-mark_none : (xs : List OutboxEvent) → xs ≡ map (mark_in []) xs
map-mark_none [] = refl
map-mark_none (x ∷ xs) = ap (λ ys. x ∷ ys) (map-mark_none xs)

mark_more :
    (id : String) (done : List String) (x : OutboxEvent)
    → mark_in done (publish_if id x) ≡ mark_in (id ∷ done) x
mark_more id done x = elim (Bool-cases (x.id == id)) [
  | inl e ↦ ground (arith, e, (eq_iff id x.id).1 (sym ((eq_iff x.id id).0 e)))
  | inr n ↦ ground (arith, n, eq_iff id x.id, eq_iff x.id id)
]

map-mark_more :
    (id : String) (done : List String) (xs : List OutboxEvent)
    → map (mark_in done) (map (publish_if id) xs) ≡ map (mark_in (id ∷ done)) xs
map-mark_more id done [] = refl
map-mark_more id done (x ∷ xs) = cc (mark_more id done x, map-mark_more id done xs)

mark_each_lem :
    (es : List OutboxEvent) (db : Db)
    → mark_each es db ≡ record db { outbox_events = map (mark_in (ids es)) db.outbox_events }
unfolding mark_published
mark_each_lem [] db = ap (λ xs. record db { outbox_events = xs }) (map-mark_none db.outbox_events)
mark_each_lem (e ∷ es) db =
    mark_each_lem es (mark_published e.id db)
    ∙ ap (λ xs. record db { outbox_events = xs }) (map-mark_more e.id (ids es) db.outbox_events)

module _ (rt : Runtime) (working : (n : ℕ) → rt.fails n ≡ false) where
  publish_all-calm :
      (es : List OutboxEvent) (log : List String) (c : Conn)
      → let (r, relay) = publish_all rt es log c in
        (r ≡ ok tt)
        × (relay.published ≡ log ++ ids es)
        × (relay.conn.working ≡ mark_each es c.working)
        × (relay.conn.committed ≡ c.committed)
  unfolding publish_all
  publish_all-calm [] log c = (refl, sym (append-nil log), refl, refl)
  publish_all-calm (e ∷ es) log c =
      let c' : Conn = record c {
        working = mark_published e.id c.working;
        in_tx = true;
        sent = c.sent + 1;
      } in
      let rest = publish_all-calm es (log ++ e.id ∷ []) c' in
      rw
        (modify-ok rt working c (λ db. some (mark_published e.id db))
          (mark_published e.id c.working) refl)
        (rest.0, rest.1 ∙ append_assoc log (e.id ∷ []) (ids es), rest.2, rest.3)

  commit_if_any-calm :
      (es : List OutboxEvent) (r : Result Unit) (relay : Relay) (db : Db)
      → r ≡ ok tt
      → relay.conn.working ≡ mark_each es db
      → relay.conn.committed ≡ db
      → ((commit_if_any rt es (r, relay)).conn.committed ≡ mark_each es db)
        × ((commit_if_any rt es (r, relay)).published ≡ relay.published)
  commit_if_any-calm [] r relay db e w k = (k, refl)
  commit_if_any-calm (x ∷ xs) (err y) relay db e w k = cc e
  commit_if_any-calm (x ∷ xs) (ok a) relay db e w k =
      (ap (λ q. q.1.committed) (commit-ok rt working relay.conn) ∙ w, refl)

  -- A turn in which no statement fails, on a connection with no open transaction, publishes the
  -- first ten pending events in their order, and then the file is as before but that every row with
  -- the identifier of one of them is marked PUBLISHED.
  pub turn_publishes_batch :
      (n : ℕ) (db : Db) (log : List String)
      → let r = relay_round rt (record { conn = idle n db; published = log }) in
        let batch = ids (first_pending 10 db.outbox_events) in
        (r.published ≡ log ++ batch)
        × (r.conn.committed ≡ record db { outbox_events = map (mark_in batch) db.outbox_events })
  unfolding relay_round select_pending
  turn_publishes_batch n db log =
      let batch = select_pending db in
      let c : Conn = record (idle n db) { sent = n + 1 } in
      let (r, relay) = publish_all rt batch log c in
      let after = publish_all-calm batch log c in
      let done = commit_if_any-calm batch r relay db after.0 after.2 after.3 in
      let same : batch ≡ first_pending 10 db.outbox_events = take-pending 10 db.outbox_events in
      rw (query-ok rt working (idle n db) select_pending) (
        done.1 ∙ after.1 ∙ ap (λ es. log ++ ids es) same,
        done.0
            ∙ mark_each_lem batch db
            ∙ ap (λ es. record db { outbox_events = map (mark_in (ids es)) db.outbox_events }) same,
      )
