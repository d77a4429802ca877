-- ===== src/Idempotency/Replays.antt =====
-- The steps of a request that are taken once the final response is stored.
use sentinel_ai_v3_0_the_fin.Prelude.{
  ℕ, String, ◌≡◌, refl, sym, subst, Bool, true, false, Option, some, List, arith, ◌⊎◌, inl, inr,
  if◌then◌else◌, is_some,
}
use sentinel_ai_v3_0_the_fin.Idempotency.{
  HttpResponse, Entry, Redis, Phase, World, completed_response, on_entry, step, timeout, mismatch,
  raised, replayed, polling, looking, waiting, entered, starting, handling, saving, leaving,
  finished, gone,
}
use sentinel_ai_v3_0_the_fin.Idempotency.Workers.{put, log}
use sentinel_ai_v3_0_the_fin.Idempotency.Invariant.{ClosedAt, Closed, Valid}
use sentinel_ai_v3_0_the_fin.Idempotency.Moves.{Closed-put}

on_entry_closed :
    (hash : String) (entry : Option Entry) (r : HttpResponse)
    → completed_response entry ≡ some r
    → (on_entry hash entry ≡ leaving (replayed r)) ⊎ (on_entry hash entry ≡ leaving mismatch)
unfolding on_entry completed_response
on_entry_closed hash entry r e = ground arith

pub if_rule :
    (P : Redis × Phase → Type 0) (b : Bool) (x y : Redis × Phase)
    → (b ≡ true → P x)
    → (b ≡ false → P y)
    → P (if b then x else y)
if_rule P true x y f g = f refl
if_rule P false x y f g = g refl

-- The invariant after a move of request `i`.
abbrev pub ValidAfter :
    (String → String)
    → (String → String)
    → (ℕ → Phase)
    → ℕ
    → List HttpResponse
    → Redis × Phase
    → Type 0
ValidAfter decode lower phases i ys (redis, p) =
    Valid decode lower redis (completed_response redis.entry) (put i p phases) ys

module _ (decode lower : String → String) (hash : String) (w : World) (redis : Redis)
    (phases : ℕ → Phase) (xs : List HttpResponse) (i : ℕ) where
  abbrev Moved : List HttpResponse → Redis × Phase → Type 0
  Moved = ValidAfter decode lower phases i

  Closed-Moved :
      (redis' : Redis) (p : Phase) (ys : List HttpResponse) (r : HttpResponse)
      → completed_response redis'.entry ≡ some r
      → Closed decode lower r (put i p phases) ys
      → Moved ys (redis', p)
  Closed-Moved redis' p ys r e h =
      subst (λ o. Valid decode lower redis' o (put i p phases) ys) (sym e) h

  module _ (r : HttpResponse) (e : completed_response redis.entry ≡ some r)
      (h : Closed decode lower r phases xs) where
    late_move :
        (redis' : Redis) (p : Phase)
        → completed_response redis'.entry ≡ some r
        → ClosedAt decode lower r p
        → Moved xs (redis', p)
    late_move redis' p e' o =
        Closed-Moved redis' p xs r e' (Closed-put decode lower phases xs i p r h o)

    pub closed_step :
        (p : Phase)
        → phases i ≡ p
        → Moved (log decode lower p w xs) (step decode lower hash w redis p)
    unfolding step
    closed_step polling q =
        if_rule (Moved xs) w.redis_fails (redis, finished raised) _
          (λ _. late_move redis (finished raised) e (λ x. cc))
          (λ _.
            if_rule (Moved xs) redis.lock (redis, looking) (record redis { lock = true }, entered)
              (λ _. late_move redis looking e tt)
              (λ _. late_move (record redis { lock = true }) entered e tt))
    closed_step looking q =
        if_rule (Moved xs) w.redis_fails (redis, finished raised) _
          (λ _. late_move redis (finished raised) e (λ x. cc))
          (λ _.
            if_rule (Moved xs) (is_some (completed_response redis.entry)) (redis, entered)
              (redis, waiting) (λ _. late_move redis entered e tt)
              (λ _. late_move redis waiting e tt))
    closed_step waiting q =
        if_rule (Moved xs) w.overdue (redis, finished timeout) (redis, polling)
          (λ _. late_move redis (finished timeout) e (λ x. cc)) (λ _. late_move redis polling e tt)
    closed_step entered q =
        if_rule (Moved xs) w.redis_fails (redis, leaving raised) (redis, on_entry hash redis.entry)
          (λ _. late_move redis (leaving raised) e (λ x. cc))
          (λ _. elim (on_entry_closed hash redis.entry r e) [
            | inl s ↦
                subst (λ p. Moved xs (redis, p)) (sym s)
                  (late_move redis (leaving (replayed r)) e (λ x y. cc y))
            | inr s ↦
                subst (λ p. Moved xs (redis, p)) (sym s)
                  (late_move redis (leaving mismatch) e (λ x. cc))
          ])
    closed_step starting q = absurd (subst (ClosedAt decode lower r) q (h.each i))
    closed_step handling q = absurd (subst (ClosedAt decode lower r) q (h.each i))
    closed_step (saving x) q = absurd (subst (ClosedAt decode lower r) q (h.each i))
    closed_step (leaving x) q =
        let o = subst (ClosedAt decode lower r) q (h.each i) in
        if_rule (Moved xs) w.redis_fails (redis, finished raised)
          (record redis { lock = false }, finished x)
          (λ _. late_move redis (finished raised) e (λ y. cc))
          (λ _. late_move (record redis { lock = false }) (finished x) e o)
    closed_step (finished x) q =
        late_move redis (finished x) e (subst (ClosedAt decode lower r) q (h.each i))
    closed_step gone q = late_move redis gone e tt
