-- ===== src/Service/Replays.antt =====
-- A request that is sent again once it has been answered.
use sentinel_ai_v3_0_the_fin.Prelude.{
  ℕ, zero, suc, ◌+◌, ℤ, String, ◌≡◌, refl, ap, ◌∙◌, Bool, true, false, Option, none, some, eq_refl,
  arith,
}
use sentinel_ai_v3_0_the_fin.Database.Connection.{Runtime}
use sentinel_ai_v3_0_the_fin.OpaClient.{OpaInput, Reply}
use sentinel_ai_v3_0_the_fin.Core.{KeyStore}
use sentinel_ai_v3_0_the_fin.Gateway.{GateAnswer, passed, App}
use sentinel_ai_v3_0_the_fin.Idempotency.{
  HttpResponse, Entry, started, starting, handling, saving, on_response, Admission, guarded, admit,
  Redis, polling, entered, leaving, finished, Answer, handled, replayed, completed, cached,
  is_final, on_entry, step,
}
use sentinel_ai_v3_0_the_fin.Service.{
  HttpRequest, Framework, Service, Served, under_key, scoped_key, put_redis, call_next, Passage,
  dispatch_step, dispatch, admitted, gate_of, if_passed, serve,
}

-- Redis answers, and no waiting time is over.
abbrev pub calm : ℕ → Bool × Bool
calm _ = (false, false)

abbrev pub unused : Redis
unused = record { lock = false; entry = none }

module _ (ks : KeyStore) (rt : Runtime) (post : OpaInput → Reply) (parse : String → Option ℤ)
    (fw : Framework) (q : HttpRequest) where
  -- The entries of the key once the response is saved.
  abbrev pub saved : HttpResponse → Redis
  saved r = record {
    lock = false;
    entry = some (record {
      payload_hash = fw.sha256 q.body;
      status = completed (cached fw.decode fw.lower r);
    });
  }

  rests :
      (n : ℕ) (redis : Redis) (a : Answer) (app : App ks)
      → dispatch ks rt post parse fw n q calm (redis, finished a, app) ≡ (redis, finished a, app)
  unfolding dispatch dispatch_step step
  rests zero redis a app = refl
  rests (suc n) redis a app = rests n redis a app

  -- One undisturbed step, and then the others.
  then_step :
      (n : ℕ) (s t : Passage ks rt post parse fw)
      → dispatch_step ks rt post parse fw q (false, false) s ≡ t
      → dispatch ks rt post parse fw (suc n) q calm s ≡ dispatch ks rt post parse fw n q calm t
  unfolding dispatch
  then_step n s t e = ap (dispatch ks rt post parse fw n q calm) e

  abbrev held : Option Entry → Redis
  held entry = record { lock = true; entry = entry }

  abbrev begun : Option Entry
  begun = some (record { payload_hash = fw.sha256 q.body; status = started })

  module _ (app app' : App ks) (r : HttpResponse) where
    handles :
        call_next ks rt post parse fw q app ≡ (some r, app')
        → dispatch_step ks rt post parse fw q (false, false) (held begun, handling, app)
          ≡ (held begun, saving r, app')
    unfolding dispatch_step step
    handles e = ap (λ (x : Option HttpResponse × App ks). (held begun, on_response x.0, x.1)) e

    saves :
        is_final r ≡ true
        → dispatch_step ks rt post parse fw q (false, false) (held begun, saving r, app')
          ≡ (record (saved r) { lock = true }, leaving (handled r), app')
    unfolding dispatch_step step
    saves f = rw f refl

    runs_handler :
        (n : ℕ)
        → call_next ks rt post parse fw q app ≡ (some r, app')
        → is_final r ≡ true
        → dispatch ks rt post parse fw (n + 6) q calm (unused, polling, app)
          ≡ (saved r, finished (handled r), app')
    unfolding dispatch_step step on_entry
    runs_handler n e f =
        let six : n + 6 ≡ suc (suc (suc (suc (suc (suc n))))) = omega arith in
        ap (λ (k : ℕ). dispatch ks rt post parse fw k q calm (unused, polling, app)) six
        ∙ then_step _ (unused, polling, app) (held none, entered, app) refl
        ∙ then_step _ (held none, entered, app) (held none, starting, app) refl
        ∙ then_step _ (held none, starting, app) (held begun, handling, app) refl
        ∙ then_step _ (held begun, handling, app) (held begun, saving r, app') (handles e)
        ∙ then_step _ (held begun, saving r, app') _ (saves f)
        ∙ then_step _ (record (saved r) { lock = true }, leaving (handled r), app') _ refl
        ∙ rests n (saved r) (handled r) app'

    recalls :
        dispatch_step ks rt post parse fw q
          (false, false)
          (record (saved r) { lock = true }, entered, app)
        ≡ (record (saved r) { lock = true }, leaving (replayed (cached fw.decode fw.lower r)), app)
    unfolding dispatch_step step on_entry
    recalls = rw (eq_refl (fw.sha256 q.body)) refl

    replays :
        (n : ℕ)
        → dispatch ks rt post parse fw (n + 3) q calm (saved r, polling, app)
          ≡ (saved r, finished (replayed (cached fw.decode fw.lower r)), app)
    unfolding dispatch_step step
    replays n =
        let three : n + 3 ≡ suc (suc (suc n)) = omega arith in
        ap (λ (k : ℕ). dispatch ks rt post parse fw k q calm (saved r, polling, app)) three
        ∙ then_step _ (saved r, polling, app) (record (saved r) { lock = true }, entered, app) refl
        ∙ then_step _ (record (saved r) { lock = true }, entered, app) _ recalls
        ∙ then_step _
            (
              record (saved r) { lock = true },
              leaving (replayed (cached fw.decode fw.lower r)),
              app,
            )
            _ refl
        ∙ rests n (saved r) (replayed (cached fw.decode fw.lower r)) app

  module _ (key : String) (guard : admit false q.method q.idempotency_key ≡ guarded key) where
    -- What `serve` makes of the middleware's last step.
    abbrev packed : Service ks → Passage ks rt post parse fw → Served × Service ks
    packed s (redis', phase', app') = (
      under_key phase',
      record s { app = app'; redis = put_redis (scoped_key q key) redis' s.redis },
    )

    serve_lem :
        (n random : ℕ) (s : Service ks) (redis : Redis) (p : Passage ks rt post parse fw)
        → gate_of ks rt post parse fw q random s ≡ passed
        → s.redis (scoped_key q key) ≡ redis
        → dispatch ks rt post parse fw n q calm (redis, polling, s.app) ≡ p
        → serve ks rt post parse fw n q random calm s ≡ packed s p
    unfolding serve admitted
    serve_lem n random s redis p g e d =
        ap
          (λ (a : GateAnswer).
            if_passed ks rt post parse fw a
              (admitted ks rt post parse fw n q calm (admit false q.method q.idempotency_key) s) s)
          g
        ∙ ap (λ (a : Admission). admitted ks rt post parse fw n q calm a s) guard
        ∙ ap (λ (x : Redis). packed s (dispatch ks rt post parse fw n q calm (x, polling, s.app))) e
        ∙ ap (packed s) d

    put_self :
        (redis : Redis) (all : String → Redis)
        → put_redis (scoped_key q key) redis all (scoped_key q key) ≡ redis
    put_self redis all = rw (eq_refl (scoped_key q key)) refl

    -- A retry is answered from the cache: if the route's answer to a request under an unused key is
    -- below 500, the request is answered with it, and the same request sent again gets the stored
    -- form of that answer and leaves the ledger, the breaker and the core as they are. The gate is
    -- assumed to pass both, and Redis to answer; any number of steps that suffices is given.
    pub retry_is_replayed :
        (n m random random' : ℕ) (s : Service ks) (r : HttpResponse) (app' : App ks)
        → gate_of ks rt post parse fw q random s ≡ passed
        → s.redis (scoped_key q key) ≡ unused
        → call_next ks rt post parse fw q s.app ≡ (some r, app')
        → is_final r ≡ true
        → gate_of ks rt post parse fw q random' (record s { app = app' }) ≡ passed
        → let (a, s') = serve ks rt post parse fw (n + 6) q random calm s in
          let (a', s'') = serve ks rt post parse fw (m + 3) q random' calm s' in
          (a ≡ under_key (finished (handled r)))
          × (a' ≡ under_key (finished (replayed (cached fw.decode fw.lower r))))
          × (s'.app ≡ app')
          × (s''.app ≡ app')
    retry_is_replayed n m random random' s r app' g e c f g' =
        let k = scoped_key q key in
        let after : Service ks = record s { app = app'; redis = put_redis k (saved r) s.redis } in
        let first =
          serve_lem (n + 6) random s unused (saved r, finished (handled r), app') g e
            (runs_handler s.app app' r n c f) in
        let second =
          serve_lem (m + 3) random' after (saved r)
            (saved r, finished (replayed (cached fw.decode fw.lower r)), app') g'
            (put_self (saved r) s.redis) (replays app' app' r m) in
        let again =
          ap (λ (x : Served × Service ks). serve ks rt post parse fw (m + 3) q random' calm x.1)
            first
          ∙ second in
        (
          ap (λ (x : Served × Service ks). x.0) first,
          ap (λ (x : Served × Service ks). x.0) again,
          ap (λ (x : Served × Service ks). x.1.app) first,
          ap (λ (x : Served × Service ks). x.1.app) again,
        )
