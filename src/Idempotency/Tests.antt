-- ===== src/Idempotency/Tests.antt =====
-- Two requests with one key, and what an expired lock does.
use sentinel_ai_v3_0_the_fin.Prelude.{
  ℕ, String, ◌≡◌, refl, false, true, none, some, List, [], ◌∷◌, length,
}
use sentinel_ai_v3_0_the_fin.Idempotency.{
  HttpResponse, World, step, polling, finished, replayed, on_entry, completed_response, admit,
  guarded,
}
use sentinel_ai_v3_0_the_fin.Idempotency.Workers.{System, advance, Reach, work, initial, next}
use sentinel_ai_v3_0_the_fin.Idempotency.Delivery.{RunsOnce, Reach-RunsOnce}

abbrev same : String → String
same s = s

abbrev paid : HttpResponse
paid = record { status_code = 200; body = "paid"; headers = [] }

abbrev calm : World
calm = record { redis_fails = false; overdue = false; response = some paid }

abbrev start : System
start = record {
  redis = record { lock = false; entry = none };
  phases = λ _. polling;
  successes = [];
  faulty = false;
}

abbrev hashes : ℕ → String
hashes _ = "hash"

abbrev run : List ℕ → System → System
run [] s = s
run (i ∷ is) s = run is (advance same same hashes i calm s)

run-Reach :
    (is : List ℕ) (s : System) → Reach same same hashes s → Reach same same hashes (run is s)
run-Reach [] s r = r
run-Reach (i ∷ is) s r = run-Reach is (advance same same hashes i calm s) (next r (work i calm))

-- The first request runs to the end, the second one after it.
abbrev schedule : List ℕ
schedule = 0 ∷ 0 ∷ 0 ∷ 0 ∷ 1 ∷ 0 ∷ 0 ∷ 1 ∷ 1 ∷ 1 ∷ 1 ∷ 1 ∷ []

replayed_to_second : (run schedule start).phases 1 ≡ finished (replayed paid)
unfolding step on_entry completed_response
replayed_to_second = refl

Reach-RunsOnce_example : RunsOnce same same hashes (run schedule start)
unfolding step on_entry completed_response
Reach-RunsOnce_example = Reach-RunsOnce same same hashes (run-Reach schedule start initial) refl

-- The lock of the first request expires while it is in the handler: the second one runs it too.
lock_expiry_runs_twice :
    let s = run (0 ∷ 0 ∷ 0 ∷ []) start in
    length
      (run
        (1 ∷ 1 ∷ 1 ∷ 1 ∷ 0 ∷ [])
        (record s { redis = record s.redis { lock = false }; faulty = true })).successes
    ≡ 2
unfolding step on_entry completed_response
lock_expiry_runs_twice = refl

key_is_required_of_posts : admit true "POST" (some "k") ≡ guarded "k"
unfolding admit
key_is_required_of_posts = refl
