-- ===== src/Idempotency/Moves.antt =====
-- How the invariant survives the move of one request.
use sentinel_ai_v3_0_the_fin.Prelude.{
  ℕ, ◌≤◌, length, String, ◌≡◌, ◌≢◌, refl, sym, subst, true, false, List, [], ◌∷◌, arith, Bool-cases,
  ◌⊎◌, inl, inr,
}
use sentinel_ai_v3_0_the_fin.Idempotency.{HttpResponse, Redis, Phase}
use sentinel_ai_v3_0_the_fin.Idempotency.Workers.{put}
use sentinel_ai_v3_0_the_fin.Idempotency.Invariant.{
  is_active, OpenAt, Open, ClosedAt, Closed, put-cases, OpenAt-inactive, OpenAt-active,
  OpenAt-Closed,
}

module _ (decode lower : String → String) where
  each_put :
      (P : Phase → Type 0) (i : ℕ) (p : Phase) (phases : ℕ → Phase)
      → P p
      → ((j : ℕ) → j ≢ i → P (phases j))
      → (j : ℕ) → P (put i p phases j)
  each_put P i p phases new old j = elim (put-cases decode lower i j p phases) [
    | inl (e, q) ↦ subst P (sym q) new
    | inr (n, q) ↦ subst P (sym q) (old j n)
  ]

  pub others_inactive :
      (redis : Redis) (phases : ℕ → Phase) (xs : List HttpResponse) (i : ℕ)
      → Open decode lower redis phases xs
      → is_active (phases i) ≡ true
      → (j : ℕ) → j ≢ i
      → is_active (phases j) ≡ false
  others_inactive redis phases xs i h a j n = elim (Bool-cases (is_active (phases j))) [
    | inl b ↦ ground (arith, h.unique j i b a)
    | inr b ↦ b
  ]

  pub all_inactive :
      (redis : Redis) (phases : ℕ → Phase) (xs : List HttpResponse)
      → Open decode lower redis phases xs
      → redis.lock ≡ false
      → (j : ℕ) → is_active (phases j) ≡ false
  all_inactive redis phases xs h u j = elim (Bool-cases (is_active (phases j))) [
    | inl b ↦ cc (u, OpenAt-active decode lower (phases j) redis.lock xs (h.each j) b)
    | inr b ↦ b
  ]

  active_put :
      (i j : ℕ) (p : Phase) (phases : ℕ → Phase)
      → is_active (put i p phases j) ≡ true
      → ((j ≡ i) × (is_active p ≡ true)) ⊎ ((j ≢ i) × (is_active (phases j) ≡ true))
  active_put i j p phases a = elim (put-cases decode lower i j p phases) [
    | inl (e, q) ↦ inl (e, subst (λ x. is_active x ≡ true) q a)
    | inr (n, q) ↦ inr (n, subst (λ x. is_active x ≡ true) q a)
  ]

  -- A request that is outside the lock moves.
  pub Open-idle :
      (redis : Redis) (phases : ℕ → Phase) (xs : List HttpResponse) (i : ℕ) (p : Phase)
      → Open decode lower redis phases xs
      → is_active p ≡ false
      → OpenAt decode lower redis.lock xs p
      → Open decode lower redis (put i p phases) xs
  Open-idle redis phases xs i p h idle o = record {
    each = each_put (OpenAt decode lower redis.lock xs) i p phases o (λ j n. h.each j);
    unique = λ j k a b.
        ground (arith, active_put i j p phases a, active_put i k p phases b, h.unique j k);
    unlocked = h.unlocked;
    few = h.few;
  }

  -- A request moves while all others are outside the lock.
  pub Open-alone :
      (redis redis' : Redis) (phases : ℕ → Phase) (xs xs' : List HttpResponse) (i : ℕ) (p : Phase)
      → Open decode lower redis phases xs
      → ((j : ℕ) → j ≢ i → is_active (phases j) ≡ false)
      → OpenAt decode lower redis'.lock xs' p
      → (redis'.lock ≡ false → xs' ≡ [])
      → length xs' ≤ 1
      → Open decode lower redis' (put i p phases) xs'
  Open-alone redis redis' phases xs xs' i p h idle o u few = record {
    each = each_put (OpenAt decode lower redis'.lock xs') i p phases o (λ j n.
        OpenAt-inactive decode lower (phases j) redis.lock redis'.lock xs xs' (idle j n)
          (h.each j));
    unique = λ j k a b.
        ground (arith, active_put i j p phases a, active_put i k p phases b, idle j, idle k);
    unlocked = u;
    few = few;
  }

  -- The request that holds the lock completes the state.
  pub Closed-alone :
      (redis : Redis) (phases : ℕ → Phase) (xs : List HttpResponse) (i : ℕ) (p : Phase)
      (r : HttpResponse)
      → Open decode lower redis phases xs
      → ((j : ℕ) → j ≢ i → is_active (phases j) ≡ false)
      → ClosedAt decode lower r p
      → Closed decode lower r (put i p phases) (r ∷ [])
  Closed-alone redis phases xs i p r h idle o = record {
    each =
        each_put (ClosedAt decode lower r) i p phases o
          (λ j n. OpenAt-Closed decode lower r (phases j) redis.lock xs (idle j n) (h.each j));
    only_one = refl;
  }

  pub Closed-put :
      (phases : ℕ → Phase) (xs : List HttpResponse) (i : ℕ) (p : Phase) (r : HttpResponse)
      → Closed decode lower r phases xs
      → ClosedAt decode lower r p
      → Closed decode lower r (put i p phases) xs
  Closed-put phases xs i p r h o = record {
    each = each_put (ClosedAt decode lower r) i p phases o (λ j n. h.each j);
    only_one = h.only_one;
  }
