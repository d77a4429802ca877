-- ===== src/Idempotency/Invariant.antt =====
-- What holds between the lock, the state and the requests as long as nothing is faulty.
use sentinel_ai_v3_0_the_fin.Prelude.{
  ℕ, ◌≤◌, length, String, ◌≡◌, ◌≢◌, Bool, true, false, Option, none, some, List, [], ◌∷◌, arith,
  ◌⊎◌, if◌then◌else◌,
}
use sentinel_ai_v3_0_the_fin.Idempotency.{
  HttpResponse, Redis, Answer, Phase, is_final, cached, replayed, handled, polling, looking,
  waiting, entered, starting, handling, saving, leaving, finished, gone,
}
use sentinel_ai_v3_0_the_fin.Idempotency.Workers.{put}

-- Past the loop and not yet past the deletion of the lock.
abbrev pub is_active : Phase → Bool
is_active polling = false
is_active looking = false
is_active waiting = false
is_active entered = true
is_active starting = true
is_active handling = true
is_active (saving r) = true
is_active (leaving a) = true
is_active (finished a) = false
is_active gone = false

module _ (decode lower : String → String) where
  -- The cached form of the handler's response that an answer carries, if it is below 500.
  abbrev pub success_of : Answer → Option HttpResponse
  success_of (replayed r) = some r
  success_of (handled r) = if is_final r then some (cached decode lower r) else none
  success_of _ = none

  abbrev pub only : HttpResponse → List HttpResponse
  only r = if is_final r then cached decode lower r ∷ [] else []

  -- A request while the state is not COMPLETED, by the lock and the successes so far.
  abbrev pub OpenAt : Bool → List HttpResponse → Phase → Type 0
  OpenAt l xs polling = Unit
  OpenAt l xs looking = Unit
  OpenAt l xs waiting = Unit
  OpenAt l xs entered = (l ≡ true) × (xs ≡ [])
  OpenAt l xs starting = (l ≡ true) × (xs ≡ [])
  OpenAt l xs handling = (l ≡ true) × (xs ≡ [])
  OpenAt l xs (saving r) = (l ≡ true) × (xs ≡ only r)
  OpenAt l xs (leaving a) = (l ≡ true) × (xs ≡ []) × (success_of a ≡ none)
  OpenAt l xs (finished a) = success_of a ≡ none
  OpenAt l xs gone = Unit

  pub record Open (redis : Redis) (phases : ℕ → Phase) (xs : List HttpResponse) : Type 0 where
    pub each : (i : ℕ) → OpenAt redis.lock xs (phases i)
    pub unique : (i j : ℕ) → is_active (phases i) ≡ true → is_active (phases j) ≡ true → i ≡ j
    pub unlocked : redis.lock ≡ false → xs ≡ []
    pub few : length xs ≤ 1

  -- A request while the state is COMPLETED with `r`: nobody is at the handler any more.
  abbrev pub ClosedAt : HttpResponse → Phase → Type 0
  ClosedAt r starting = ⊥
  ClosedAt r handling = ⊥
  ClosedAt r (saving x) = ⊥
  ClosedAt r (leaving a) = (x : HttpResponse) → success_of a ≡ some x → x ≡ r
  ClosedAt r (finished a) = (x : HttpResponse) → success_of a ≡ some x → x ≡ r
  ClosedAt r _ = Unit

  pub record Closed (r : HttpResponse) (phases : ℕ → Phase) (xs : List HttpResponse) : Type 0 where
    pub each : (i : ℕ) → ClosedAt r (phases i)
    pub only_one : xs ≡ r ∷ []

  abbrev pub Valid : Redis → Option HttpResponse → (ℕ → Phase) → List HttpResponse → Type 0
  Valid redis none phases xs = Open redis phases xs
  Valid redis (some r) phases xs = Closed r phases xs

  -- Idle requests do not depend on the lock or the successes.
  pub OpenAt-inactive :
      (p : Phase) (l l' : Bool) (xs xs' : List HttpResponse)
      → is_active p ≡ false
      → OpenAt l xs p
      → OpenAt l' xs' p
  OpenAt-inactive polling l l' xs xs' e h = tt
  OpenAt-inactive looking l l' xs xs' e h = tt
  OpenAt-inactive waiting l l' xs xs' e h = tt
  OpenAt-inactive entered l l' xs xs' e h = cc e
  OpenAt-inactive starting l l' xs xs' e h = cc e
  OpenAt-inactive handling l l' xs xs' e h = cc e
  OpenAt-inactive (saving r) l l' xs xs' e h = cc e
  OpenAt-inactive (leaving a) l l' xs xs' e h = cc e
  OpenAt-inactive (finished a) l l' xs xs' e h = h
  OpenAt-inactive gone l l' xs xs' e h = tt

  pub OpenAt-active :
      (p : Phase) (l : Bool) (xs : List HttpResponse)
      → OpenAt l xs p
      → is_active p ≡ true
      → l ≡ true
  OpenAt-active polling l xs h e = cc e
  OpenAt-active looking l xs h e = cc e
  OpenAt-active waiting l xs h e = cc e
  OpenAt-active entered l xs h e = h.0
  OpenAt-active starting l xs h e = h.0
  OpenAt-active handling l xs h e = h.0
  OpenAt-active (saving r) l xs h e = h.0
  OpenAt-active (leaving a) l xs h e = h.0
  OpenAt-active (finished a) l xs h e = cc e
  OpenAt-active gone l xs h e = cc e

  pub OpenAt-Closed :
      (r : HttpResponse) (p : Phase) (l : Bool) (xs : List HttpResponse)
      → is_active p ≡ false
      → OpenAt l xs p
      → ClosedAt r p
  OpenAt-Closed r polling l xs e h = tt
  OpenAt-Closed r looking l xs e h = tt
  OpenAt-Closed r waiting l xs e h = tt
  OpenAt-Closed r entered l xs e h = cc e
  OpenAt-Closed r starting l xs e h = cc e
  OpenAt-Closed r handling l xs e h = cc e
  OpenAt-Closed r (saving x) l xs e h = cc e
  OpenAt-Closed r (leaving a) l xs e h = cc e
  OpenAt-Closed r (finished a) l xs _ h = λ x y. cc (h, y)
  OpenAt-Closed r gone l xs e h = tt

  pub put-cases :
      (i j : ℕ) (p : Phase) (phases : ℕ → Phase)
      → ((j ≡ i) × (put i p phases j ≡ p)) ⊎ ((j ≢ i) × (put i p phases j ≡ phases j))
  put-cases i j p phases = ground arith
