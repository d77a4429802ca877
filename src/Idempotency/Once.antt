-- ===== src/Idempotency/Once.antt =====
-- The steps of a request before a final response is stored, and a step of either kind.
use sentinel_ai_v3_0_the_fin.Prelude.{
  ℕ, ◌≤◌, String, ◌≡◌, refl, sym, ap, subst, true, false, Option, none, some, List, [], ◌∷◌, arith,
  ◌⊎◌, inl, inr, not, is_some, length,
}
use sentinel_ai_v3_0_the_fin.Idempotency.{
  HttpResponse, Entry, Redis, Phase, World, is_final, cached, completed_response, on_entry,
  on_response, step, timeout, mismatch, raised, handled, polling, looking, waiting, entered,
  starting, handling, saving, leaving, finished, gone, set_entry, started, completed,
}
use sentinel_ai_v3_0_the_fin.Idempotency.Workers.{put, logged, log, is_lost}
use sentinel_ai_v3_0_the_fin.Idempotency.Invariant.{
  is_active, success_of, only, OpenAt, Open, ClosedAt, Valid,
}
use sentinel_ai_v3_0_the_fin.Idempotency.Moves.{
  others_inactive, all_inactive, Open-idle, Open-alone, Closed-alone,
}
use sentinel_ai_v3_0_the_fin.Idempotency.Replays.{if_rule, ValidAfter, closed_step}

on_entry_open :
    (hash : String) (entry : Option Entry)
    → completed_response entry ≡ none
    → (on_entry hash entry ≡ starting) ⊎ (on_entry hash entry ≡ leaving mismatch)
unfolding on_entry completed_response
on_entry_open hash entry e = ground arith

module _ (decode lower : String → String) where
  not_final_only :
      (r : HttpResponse)
      → not (is_final r) ≡ true
      → (xs : List HttpResponse) → xs ≡ only decode lower r
      → xs ≡ []
  not_final_only r t xs e = ground (arith, t, e)

  not_final :
      (r : HttpResponse) → not (is_final r) ≡ true → success_of decode lower (handled r) ≡ none
  not_final r t = ground (arith, t)

  final_only :
      (r : HttpResponse)
      → not (is_final r) ≡ false
      → (xs : List HttpResponse) → xs ≡ only decode lower r
      → xs ≡ cached decode lower r ∷ []
  final_only r t xs e = ground (arith, t, e)

  logged_few : (r : HttpResponse) → length (logged decode lower (some r) []) ≤ 1
  logged_few r = ground arith

  final_answer :
      (r : HttpResponse) → ClosedAt decode lower (cached decode lower r) (leaving (handled r))
  final_answer r x e = ground (arith, e)

module _ (decode lower : String → String) (hash : String) (w : World) (redis : Redis)
    (phases : ℕ → Phase) (xs : List HttpResponse) (i : ℕ) where
  abbrev Moved : List HttpResponse → Redis × Phase → Type 0
  Moved = ValidAfter decode lower phases i

  Open-Moved :
      (redis' : Redis) (p : Phase) (ys : List HttpResponse)
      → completed_response redis'.entry ≡ none
      → Open decode lower redis' (put i p phases) ys
      → Moved ys (redis', p)
  Open-Moved redis' p ys e h =
      subst (λ o. Valid decode lower redis' o (put i p phases) ys) (sym e) h

  module _ (e : completed_response redis.entry ≡ none) (h : Open decode lower redis phases xs) where
    idle_move :
        (p : Phase)
        → is_active p ≡ false
        → OpenAt decode lower redis.lock xs p
        → Moved xs (redis, p)
    idle_move p a o = Open-Moved redis p xs e (Open-idle decode lower redis phases xs i p h a o)

    -- The request that is alone under the lock moves on.
    lone_move :
        (redis' : Redis) (p : Phase) (ys : List HttpResponse)
        → completed_response redis'.entry ≡ none
        → is_active (phases i) ≡ true
        → OpenAt decode lower redis'.lock ys p
        → (redis'.lock ≡ false → ys ≡ [])
        → length ys ≤ 1
        → Moved ys (redis', p)
    lone_move redis' p ys e' a o u few = Open-Moved redis' p ys e' (
        Open-alone decode lower redis redis' phases xs ys i p h
          (others_inactive decode lower redis phases xs i h a) o u few)

    response_move :
        (o : Option HttpResponse)
        → is_active (phases i) ≡ true
        → redis.lock ≡ true
        → xs ≡ []
        → Moved (logged decode lower o xs) (redis, on_response o)
    response_move none a l x = lone_move redis (leaving raised) xs e a (l, x, refl) (λ _. x) h.few
    response_move (some r) a l x =
        lone_move redis (saving r) (logged decode lower (some r) xs) e a
          (l, ap (logged decode lower (some r)) x) (λ u. cc (u, l))
          (subst (λ ys. length (logged decode lower (some r) ys) ≤ 1) (sym x)
            (logged_few decode lower r))

    open_step :
        (p : Phase)
        → phases i ≡ p
        → is_lost p w ≡ false
        → Moved (log decode lower p w xs) (step decode lower hash w redis p)
    unfolding step
    open_step polling q n =
        if_rule (Moved xs) w.redis_fails (redis, finished raised) _
          (λ _. idle_move (finished raised) refl refl)
          (λ _.
            if_rule (Moved xs) redis.lock (redis, looking) (record redis { lock = true }, entered)
              (λ _. idle_move looking refl tt)
              (λ l.
                Open-Moved (record redis { lock = true }) entered xs e
                  (Open-alone decode lower redis (record redis { lock = true }) phases xs xs i
                    entered h (λ j _. all_inactive decode lower redis phases xs h l j)
                    (refl, h.unlocked l) (λ u. h.unlocked l) h.few)))
    open_step looking q n =
        if_rule (Moved xs) w.redis_fails (redis, finished raised) _
          (λ _. idle_move (finished raised) refl refl)
          (λ _.
            if_rule (Moved xs) (is_some (completed_response redis.entry)) (redis, entered)
              (redis, waiting) (λ s. cc (s, ap is_some e)) (λ _. idle_move waiting refl tt))
    open_step waiting q n =
        if_rule (Moved xs) w.overdue (redis, finished timeout) (redis, polling)
          (λ _. idle_move (finished timeout) refl refl) (λ _. idle_move polling refl tt)
    open_step entered q n =
        let o = subst (OpenAt decode lower redis.lock xs) q (h.each i) in
        let a = ap is_active q in
        if_rule (Moved xs) w.redis_fails (redis, leaving raised) (redis, on_entry hash redis.entry)
          (λ _. lone_move redis (leaving raised) xs e a (o.0, o.1, refl) (λ _. o.1) h.few)
          (λ _. elim (on_entry_open hash redis.entry e) [
            | inl s ↦
                subst (λ p. Moved xs (redis, p)) (sym s)
                  (lone_move redis starting xs e a o (λ _. o.1) h.few)
            | inr s ↦
                subst (λ p. Moved xs (redis, p)) (sym s)
                  (lone_move redis (leaving mismatch) xs e a (o.0, o.1, refl) (λ _. o.1) h.few)
          ])
    open_step starting q n =
        let o = subst (OpenAt decode lower redis.lock xs) q (h.each i) in
        let a = ap is_active q in
        if_rule (Moved xs) w.redis_fails (redis, leaving raised)
          (set_entry hash started redis, handling)
          (λ _. lone_move redis (leaving raised) xs e a (o.0, o.1, refl) (λ _. o.1) h.few)
          (λ _. lone_move (set_entry hash started redis) handling xs refl a o (λ _. o.1) h.few)
    open_step handling q n =
        let o = subst (OpenAt decode lower redis.lock xs) q (h.each i) in
        response_move w.response (ap is_active q) o.0 o.1
    open_step (saving r) q n =
        let o = subst (OpenAt decode lower redis.lock xs) q (h.each i) in
        let a = ap is_active q in
        if_rule (Moved xs) (not (is_final r)) (redis, leaving (handled r)) _
          (λ t.
            lone_move redis (leaving (handled r)) xs e a
              (o.0, not_final_only decode lower r t xs o.1, not_final decode lower r t)
              (λ u. cc (u, o.0)) h.few)
          (λ t.
            if_rule (Moved xs) w.redis_fails (redis, leaving raised) _
              (λ f. ground (arith, n, t, f))
              (λ _.
                subst
                  (λ ys.
                    Moved ys (
                      set_entry hash (completed (cached decode lower r)) redis,
                      leaving (handled r),
                    ))
                  (sym (final_only decode lower r t xs o.1))
                  (Closed-alone decode lower redis phases xs i (leaving (handled r))
                    (cached decode lower r) h (others_inactive decode lower redis phases xs i h a)
                    (final_answer decode lower r))))
    open_step (leaving x) q n =
        let o = subst (OpenAt decode lower redis.lock xs) q (h.each i) in
        if_rule (Moved xs) w.redis_fails (redis, finished raised)
          (record redis { lock = false }, finished x) (λ _. idle_move (finished raised) refl refl)
          (λ _.
            lone_move (record redis { lock = false }) (finished x) xs e (ap is_active q) o.2
              (λ _. o.1) h.few)
    open_step (finished x) q n =
        idle_move (finished x) refl (subst (OpenAt decode lower redis.lock xs) q (h.each i))
    open_step gone q n = idle_move gone refl tt

  pub either_step :
      (o : Option HttpResponse)
      → completed_response redis.entry ≡ o
      → Valid decode lower redis o phases xs
      → is_lost (phases i) w ≡ false
      → Moved (log decode lower (phases i) w xs) (step decode lower hash w redis (phases i))
  either_step none e h n = open_step e h (phases i) refl n
  either_step (some r) e h n =
      closed_step decode lower hash w redis phases xs i r e h (phases i) refl
