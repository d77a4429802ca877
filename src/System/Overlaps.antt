-- ===== src/System/Overlaps.antt =====
-- core/transaction.py and core/relay.py: what may be committed to the ledger while requests wait for
-- the bank. Requests overlap in any way: another one runs, stops after its first local transaction,
-- or records its answer, and the relay takes turns; each is interrupted in the same manner itself.
use sentinel_ai_v3_0_the_fin.Prelude.{
  ℕ, ℤ, String, ◌≡◌, ◌≢◌, ap, Bool, true, false, ◌&&◌, Option, none, some, List, ◌∷◌, arith, any,
  ◌==◌, eq_iff, if◌then◌else◌,
}
use sentinel_ai_v3_0_the_fin.Database.{Db}
use sentinel_ai_v3_0_the_fin.Database.Connection.{Runtime}
use sentinel_ai_v3_0_the_fin.Transaction.{Payment, settle}
use sentinel_ai_v3_0_the_fin.Transaction.Consistency.{IsUnique, IsConsistent}
use sentinel_ai_v3_0_the_fin.Transaction.Register.{
  register, authorizing, Evolves, stays, Evolves-trans,
}
use sentinel_ai_v3_0_the_fin.Transaction.Register.Refinement.{Cooperates}
use sentinel_ai_v3_0_the_fin.Transaction.Register.Answers.{paused}
use sentinel_ai_v3_0_the_fin.OpaClient.{OpaInput, Reply}
use sentinel_ai_v3_0_the_fin.Core.{KeyStore}
use sentinel_ai_v3_0_the_fin.Gateway.{TransferRequest, Headers, App}
use sentinel_ai_v3_0_the_fin.System.Entitlement.{IsEntitled}
use sentinel_ai_v3_0_the_fin.System.Endpoint.{requested}
use sentinel_ai_v3_0_the_fin.Relay.Marking.{relayed}

abbrev pub is_in : String → List String → Bool
is_in id ids = any (λ x. x == id) ids

-- Whether the payment `id` has started and waits for the bank.
abbrev pub is_started : String → Option Payment → Bool
is_started id none = false
is_started id (some p) = p.id == id && p.status == "AUTHORIZING"

-- A request whose payment waits under `key` goes on, after `n` statements.
unfoldable pub resumed : Runtime → String → String → ℕ → Db → Db
resumed rt id key n db =
    if is_started id (register db key) then (settle rt id (paused n db)).1.committed else db

-- What may be done to the file while the payments `ids` wait for the bank. The identifiers that are
-- drawn differ from those of the payments that wait. `request` is another call of the endpoint, which
-- may also stop after its first local transaction and be resumed later.
pub data Meanwhile (ks : KeyStore) (sha256 : String → String)
    : List String → (Db → Db) → Type 0 where
  calm : (ids : List String) → Meanwhile ks sha256 ids (λ db. db)
  request :
      (ids : List String) (rt : Runtime) (post : OpaInput → Reply) (parse : String → Option ℤ)
      (headers : Headers) (req : TransferRequest) (app : App ks) (rest : Db → Db)
      → rt.sha256 ≡ sha256
      → is_in (rt.uuid4 0) ids ≡ false
      → Meanwhile ks sha256 (rt.uuid4 0 ∷ ids) rt.others
      → Meanwhile ks sha256 ids rest
      → Meanwhile ks sha256 ids (λ db. rest (requested ks rt post parse headers req app db))
  resume :
      (ids : List String) (rt : Runtime) (id key : String) (n : ℕ) (rest : Db → Db)
      → rt.sha256 ≡ sha256
      → is_in id ids ≡ false
      → Meanwhile ks sha256 (id ∷ ids) rt.others
      → Meanwhile ks sha256 ids rest
      → Meanwhile ks sha256 ids (λ db. rest (resumed rt id key n db))
  relay :
      (ids : List String) (rts : List Runtime) (rest : Db → Db)
      → Meanwhile ks sha256 ids rest
      → Meanwhile ks sha256 ids (λ db. rest (relayed rts db))

-- What all of this respects.
pub record Safe (sha256 : String → String) (ids : List String) (f : Db → Db) : Type 0 where
  pub unique : (x : Db) → IsUnique x.payment_intents → IsUnique (f x).payment_intents
  pub evolves : (x : Db) → IsUnique x.payment_intents → Evolves (register x) (register (f x))
  pub keeps :
      (id : String)
      → is_in id ids ≡ true
      → (x : Db) (key : String) → register x key ≡ some (authorizing id)
      → register (f x) key ≡ some (authorizing id)
  pub consistent : (x : Db) → IsConsistent sha256 x → IsConsistent sha256 (f x)
  pub entitled : (x : Db) → IsEntitled x → IsEntitled (f x)

pub is_started_lem :
    (id : String) (o : Option Payment) → is_started id o ≡ true → o ≡ some (authorizing id)
is_started_lem id none e = cc e
is_started_lem id (some p) e = ground (arith, e, eq_iff p.id id, eq_iff p.status "AUTHORIZING")

pub is_in-apart :
    (x id : String) (ids : List String) → is_in x ids ≡ false → is_in id ids ≡ true → x ≢ id
is_in-apart x id ids a b e = cc (ap (λ y. is_in y ids) e, a, b)

pub calm-Safe : {sha256 : String → String} {ids : List String} → Safe sha256 ids (λ db. db)
calm-Safe = record {
  unique = λ x u. u;
  evolves = λ x u. stays _;
  keeps = λ id i x key e. e;
  consistent = λ x h. h;
  entitled = λ x h. h;
}

pub then-Safe :
    {sha256 : String → String} {ids : List String} {f g : Db → Db}
    → Safe sha256 ids f
    → Safe sha256 ids g
    → Safe sha256 ids (λ db. g (f db))
then-Safe {f = f} a b = record {
  unique = λ x u. b.unique (f x) (a.unique x u);
  evolves = λ x u. Evolves-trans (a.evolves x u) (b.evolves (f x) (a.unique x u));
  keeps = λ id i x key e. b.keeps id i (f x) key (a.keeps id i x key e);
  consistent = λ x h. b.consistent (f x) (a.consistent x h);
  entitled = λ x h. b.entitled (f x) (a.entitled x h);
}

abbrev pub Safe-Cooperates :
    {sha256 : String → String} {ids : List String} {f : Db → Db} (id : String)
    → is_in id ids ≡ true
    → Safe sha256 ids f
    → Cooperates id f
Safe-Cooperates id i s = record { unique = s.unique; evolves = s.evolves; keeps = s.keeps id i }
