-- ===== src/Idempotency/Delivery.antt =====
-- What the clients of one key can rely on.
use sentinel_ai_v3_0_the_fin.Prelude.{
  ℕ, ◌≤◌, String, ◌≡◌, ◌↔◌, refl, sym, ap, subst, false, Option, none, some, List, [], ◌∷◌, arith,
  eq_iff, eq_refl, length,
}
use sentinel_ai_v3_0_the_fin.Idempotency.{
  HttpResponse, Entry, Redis, Status, Answer, Phase, World, completed_response, on_entry, step,
  replayed, started, handling, entered, leaving, finished, gone, completed,
}
use sentinel_ai_v3_0_the_fin.Idempotency.Workers.{
  System, put, Step, Reach, work, die, expire_lock, expire_entry, initial, next,
}
use sentinel_ai_v3_0_the_fin.Idempotency.Invariant.{is_active, success_of, OpenAt, ClosedAt, Valid}
use sentinel_ai_v3_0_the_fin.Idempotency.Moves.{Open-idle, Closed-put}
use sentinel_ai_v3_0_the_fin.Idempotency.Once.{either_step}

on_own :
    (hash : String) (entry : Option Entry) (r : HttpResponse)
    → entry ≡ some (record { payload_hash = hash; status = completed r })
    → on_entry hash entry ≡ leaving (replayed r)
unfolding on_entry
on_own hash entry r e = rw e (rw (eq_refl hash) refl)

own_only :
    (hash : String) (entry : Option Entry) (r : HttpResponse)
    → on_entry hash entry ≡ leaving (replayed r)
    → entry ≡ some (record { payload_hash = hash; status = completed r })
unfolding on_entry
own_only hash none r e = cc e
own_only hash (some x) r e = own_entry x.payload_hash x.status e
  where
    own_entry :
        (stored : String) (status : Status)
        → on_entry hash (some (record { payload_hash = stored; status = status }))
          ≡ leaving (replayed r)
        → ◌≡◌ {A = Option Entry}
            (some (record { payload_hash = stored; status = status }))
            (some (record { payload_hash = hash; status = completed r }))
    own_entry stored started q = ground (arith, q)
    own_entry stored (completed y) q = ground (arith, q, eq_iff stored hash)

replayed_only :
    (decode lower : String → String) (hash : String) (w : World) (redis : Redis) (r : HttpResponse)
    → (step decode lower hash w redis entered).1 ≡ leaving (replayed r)
    → (w.redis_fails ≡ false)
      × (redis.entry ≡ some (record { payload_hash = hash; status = completed r }))
unfolding step
replayed_only decode lower hash w redis r e = ground (arith, e, own_only hash redis.entry r)

-- A stored response is given exactly to a request whose body has the hash that is stored with it, if
-- the state can be read.
pub replayed_iff :
    (decode lower : String → String) (hash : String) (w : World) (redis : Redis) (r : HttpResponse)
    → ((step decode lower hash w redis entered).1 ≡ leaving (replayed r)) ↔ (
        (w.redis_fails ≡ false)
        × (redis.entry ≡ some (record { payload_hash = hash; status = completed r })))
unfolding step on_entry
replayed_iff decode lower hash w redis r = (
  replayed_only decode lower hash w redis r,
  λ h. ground (arith, h.0, on_own hash redis.entry r h.1),
)

module _ (decode lower : String → String) (hashes : ℕ → String) where
  abbrev IsValid : System → Type 0
  IsValid s = Valid decode lower s.redis (completed_response s.redis.entry) s.phases s.successes

  die-Valid :
      (o : Option HttpResponse) (redis : Redis) (phases : ℕ → Phase) (xs : List HttpResponse)
      (i : ℕ)
      → Valid decode lower redis o phases xs
      → Valid decode lower redis o (put i gone phases) xs
  die-Valid none redis phases xs i h = Open-idle decode lower redis phases xs i gone h refl tt
  die-Valid (some r) redis phases xs i h = Closed-put decode lower phases xs i gone r h tt

  Step-IsValid :
      {s t : System}
      → Step decode lower hashes s t
      → (s.faulty ≡ false → IsValid s)
      → t.faulty ≡ false
      → IsValid t
  Step-IsValid {s} (work i w) h f =
      either_step decode lower (hashes i) w s.redis s.phases s.successes i
        (completed_response s.redis.entry) refl (h (ground (arith, f))) (ground (arith, f))
  Step-IsValid {s} (die i) h f =
      die-Valid (completed_response s.redis.entry) s.redis s.phases s.successes i (h f)
  Step-IsValid expire_lock h f = cc f
  Step-IsValid expire_entry h f = cc f

  Reach-IsValid : {s : System} → Reach decode lower hashes s → s.faulty ≡ false → IsValid s
  unfolding completed_response
  Reach-IsValid initial f = record {
    each = λ i. tt;
    unique = λ i j a b. cc a;
    unlocked = λ _. refl;
    few = omega arith;
  }
  Reach-IsValid (next r st) f = Step-IsValid st (Reach-IsValid r) f

  -- What the handler has done for the key.
  pub record RunsOnce (s : System) : Type 0 where
    pub at_most_one : length s.successes ≤ 1
    pub exclusive : (i j : ℕ) → s.phases i ≡ handling → s.phases j ≡ handling → i ≡ j
    pub never_again : (i : ℕ) → s.phases i ≡ handling → s.successes ≡ []
    pub same_answer :
        (i : ℕ) (a : Answer) (r : HttpResponse)
        → s.phases i ≡ finished a
        → success_of decode lower a ≡ some r
        → s.successes ≡ r ∷ []

  Valid-RunsOnce :
      (s : System) (o : Option HttpResponse)
      → Valid decode lower s.redis o s.phases s.successes
      → RunsOnce s
  Valid-RunsOnce s none h = record {
    at_most_one = h.few;
    exclusive = λ i j p q. h.unique i j (ap is_active p) (ap is_active q);
    never_again = λ i p. (subst (OpenAt decode lower s.redis.lock s.successes) p (h.each i)).1;
    same_answer =
        λ i a x p q. cc (q, subst (OpenAt decode lower s.redis.lock s.successes) p (h.each i));
  }
  Valid-RunsOnce s (some r) h = record {
    at_most_one = subst (λ xs. length xs ≤ 1) (sym h.only_one) (omega arith);
    exclusive = λ i j p q. absurd (subst (ClosedAt decode lower r) p (h.each i));
    never_again = λ i p. absurd (subst (ClosedAt decode lower r) p (h.each i));
    same_answer = λ i a x p q.
        subst (λ y. s.successes ≡ y ∷ []) (sym (subst (ClosedAt decode lower r) p (h.each i) x q))
          h.only_one;
  }

  -- Exactly once: however the steps of any number of requests with the key interleave, whichever
  -- Redis commands raise, whichever handlers raise and whichever workers die, as long as no entry
  -- expires and the writing of COMPLETED does not fail, the handler gives at most one response below
  -- 500 for the key, no two requests are in the handler together, none enters it after such a
  -- response, and every request that ends with a stored response or with one below 500 ends with
  -- that one.
  pub Reach-RunsOnce : {s : System} → Reach decode lower hashes s → s.faulty ≡ false → RunsOnce s
  Reach-RunsOnce {s} r f = Valid-RunsOnce s (completed_response s.redis.entry) (Reach-IsValid r f)
