-- ===== src/Idempotency/Workers.antt =====
-- Any number of requests with one key, in any interleaving.
use sentinel_ai_v3_0_the_fin.Prelude.{
  ℕ, String, Bool, true, false, ◌&&◌, ◌||◌, Option, none, some, List, [], ◌∷◌, nat_eq,
  if◌then◌else◌,
}
use sentinel_ai_v3_0_the_fin.Idempotency.{
  HttpResponse, Redis, Phase, polling, handling, saving, gone, World, is_final, cached, step,
}

-- `successes` are the cached forms of the responses below 500 that the handler has given. `faulty`
-- says whether an entry has expired or the writing of COMPLETED has failed.
pub record System : Type 0 where
  pub redis : Redis
  pub phases : ℕ → Phase
  pub successes : List HttpResponse
  pub faulty : Bool

abbrev pub put : ℕ → Phase → (ℕ → Phase) → ℕ → Phase
put i p phases j = if nat_eq j i then p else phases j

abbrev pub is_lost : Phase → World → Bool
is_lost (saving r) w = is_final r && w.redis_fails
is_lost _ w = false

module _ (decode lower : String → String) where
  abbrev pub logged : Option HttpResponse → List HttpResponse → List HttpResponse
  logged none xs = xs
  logged (some r) xs = if is_final r then cached decode lower r ∷ xs else xs

  abbrev pub log : Phase → World → List HttpResponse → List HttpResponse
  log handling w xs = logged w.response xs
  log _ w xs = xs

module _ (decode lower : String → String) (hashes : ℕ → String) where
  abbrev pub advance : ℕ → World → System → System
  advance i w s =
      let (redis, p) = step decode lower (hashes i) w s.redis (s.phases i) in
      record {
        redis = redis;
        phases = put i p s.phases;
        successes = log decode lower (s.phases i) w s.successes;
        faulty = s.faulty || is_lost (s.phases i) w;
      }

  pub data Step (s : System) : System → Type 0 where
    work : (i : ℕ) (w : World) → Step s (advance i w s)
    die : (i : ℕ) → Step s (record s { phases = put i gone s.phases })
    expire_lock : Step s (record s { redis = record s.redis { lock = false }; faulty = true })
    expire_entry : Step s (record s { redis = record s.redis { entry = none }; faulty = true })

  pub data Reach : System → Type 0 where
    initial : Reach (record {
      redis = record { lock = false; entry = none };
      phases = λ _. polling;
      successes = [];
      faulty = false;
    })
    next : {s t : System} → Reach s → Step s t → Reach t
