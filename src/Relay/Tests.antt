-- ===== src/Relay/Tests.antt =====
-- Turns of the worker on two pending events.
use sentinel_ai_v3_0_the_fin.Relay.Draining.{mark_in, turn_publishes_batch}
use sentinel_ai_v3_0_the_fin.Prelude.{map, ◌≡◌, refl, String, false, [], ◌∷◌, nat_eq}
use sentinel_ai_v3_0_the_fin.Database.{Db, OutboxEvent, empty_db, select_pending, mark_published}
use sentinel_ai_v3_0_the_fin.Database.Connection.{Runtime, idle, query, modify, commit}
use sentinel_ai_v3_0_the_fin.Relay.{Relay, publish_all, relay_round}
use sentinel_ai_v3_0_the_fin.Relay.Publishing.{
  Honest, initial, next, turn, restart_in_turn, marked_events_are_published,
}

abbrev calm : Runtime
calm = record {
  sha256 = λ s. s;
  dumps = λ _. "{}";
  dumps_sorted = λ _. "{}";
  uuid4 = λ _. "id";
  fails = λ _. false;
  others = λ db. db;
}

-- The third statement, the second update of a turn, fails.
abbrev flaky : Runtime
flaky = record calm { fails = λ n. nat_eq n 2 }

abbrev event : String → OutboxEvent
event id = record {
  id = id;
  aggregate_id = "intent";
  event_type = "AUTH_STARTED";
  payload = "{}";
  status = "PENDING";
}

abbrev db : Db
db = record empty_db { outbox_events = event "e1" ∷ event "e2" ∷ [] }

abbrev fresh : Relay
fresh = record { conn = idle 0 db; published = [] }

published_again_after_error :
    (relay_round flaky (relay_round flaky fresh)).published ≡ "e1" ∷ "e2" ∷ "e2" ∷ []
unfolding relay_round publish_all select_pending mark_published query modify commit
published_again_after_error = refl

-- A turn that ends in an error, a restart after the first event of the next one, and a calm turn.
abbrev after_error : Relay
after_error = relay_round flaky fresh

abbrev restarted : Relay
restarted = record after_error {
  conn = idle 0 after_error.conn.committed;
  published = "e1" ∷ "e2" ∷ "e2" ∷ [];
}

marked_events_are_published_example : Honest (relay_round calm restarted)
unfolding relay_round publish_all select_pending mark_published query modify commit
marked_events_are_published_example = marked_events_are_published (
    next
      (next (next (initial db ((λ p. cc p), ((λ p. cc p), tt))) (turn flaky))
        (restart_in_turn calm (event "e2" ∷ []) [] refl))
      (turn calm))

turn_publishes_batch_example :
    let r = relay_round calm fresh in
    (r.published ≡ "e1" ∷ "e2" ∷ [])
    × (r.conn.committed
        ≡ record db { outbox_events = map (mark_in ("e1" ∷ "e2" ∷ [])) db.outbox_events })
turn_publishes_batch_example = turn_publishes_batch calm (λ n. refl) 0 db []
