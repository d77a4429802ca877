-- ===== src/System/Safety.antt =====
-- What is done to the ledger while requests wait for the bank is safe.
use sentinel_ai_v3_0_the_fin.Prelude.{
  ℕ, ℤ, String, ◌≡◌, inl, inr, refl, sym, ap, subst, ◌∙◌, true, false, Option, some, List, ◌∷◌,
  arith, eq_refl, Bool-cases,
}
use sentinel_ai_v3_0_the_fin.Database.{Db, select_by_key}
use sentinel_ai_v3_0_the_fin.Database.Connection.{Runtime}
use sentinel_ai_v3_0_the_fin.Transaction.{settle}
use sentinel_ai_v3_0_the_fin.Transaction.Consistency.{IsUnique, IsConsistent, Outcome-IsConsistent}
use sentinel_ai_v3_0_the_fin.Transaction.Register.{register, authorizing, Evolves, stays}
use sentinel_ai_v3_0_the_fin.Transaction.Register.Rows.{found}
use sentinel_ai_v3_0_the_fin.Transaction.Register.Refinement.{Cooperates, Outcome-Implements}
use sentinel_ai_v3_0_the_fin.Transaction.Register.Overlap.{still_authorizing}
use sentinel_ai_v3_0_the_fin.Transaction.Register.Answers.{
  paused, settle-Evolves, settle-IsUnique, settle-spares, settle-IsConsistent, settle-Ends,
}
use sentinel_ai_v3_0_the_fin.OpaClient.{OpaInput, Reply}
use sentinel_ai_v3_0_the_fin.Core.{KeyStore}
use sentinel_ai_v3_0_the_fin.Gateway.{TransferRequest, Headers, App}
use sentinel_ai_v3_0_the_fin.System.Entitlement.{
  IsEntitled, answered-IsEntitled, Outcome-IsEntitled, relayed-IsEntitled,
}
use sentinel_ai_v3_0_the_fin.System.Endpoint.{Written, requested, endpoint_lem}
use sentinel_ai_v3_0_the_fin.Relay.Marking.{relayed, relayed-intents, relayed-IsConsistent}
use sentinel_ai_v3_0_the_fin.System.Overlaps.{
  is_in, is_started, resumed, Meanwhile, calm, request, resume, relay, Safe, is_started_lem,
  is_in-apart, calm-Safe, then-Safe, Safe-Cooperates,
}

settle-IsEntitled :
    (rt : Runtime) (id : String) (db : Db) (n : ℕ)
    → IsEntitled (rt.others db)
    → IsEntitled (settle rt id (paused n db)).1.committed
settle-IsEntitled rt id db n h = elim (settle-Ends rt id db n) [
  | inl e ↦ subst IsEntitled (sym e) h
  | inr e ↦ subst IsEntitled (sym e) (answered-IsEntitled rt id (rt.uuid4 2) (rt.others db) h)
]

module _ (rt : Runtime) (id : String) (ids : List String) (fresh : is_in id ids ≡ false)
    (others : Safe rt.sha256 (id ∷ ids) rt.others) where
  own : Cooperates id rt.others
  own = Safe-Cooperates id (ground (arith, eq_refl id)) others

  waiting : (other : String) → is_in other ids ≡ true → Cooperates other rt.others
  waiting other i = Safe-Cooperates other (ground (arith, i)) others

  resumed-Safe : (key : String) (n : ℕ) → Safe rt.sha256 ids (resumed rt id key n)
  unfolding resumed
  resumed-Safe key n = record {
    unique = λ x u. elim (Bool-cases (is_started id (register x key))) [
      | inr e ↦ rw e u
      | inl e ↦ rw e (settle-IsUnique rt id x key (is_started_lem id (register x key) e) own n u)
    ];
    evolves = λ x u. elim (Bool-cases (is_started id (register x key))) [
      | inr e ↦ rw e (stays _)
      | inl e ↦ rw e (settle-Evolves rt id x key (is_started_lem id (register x key) e) own n u)
    ];
    keeps = λ other i x k w. elim (Bool-cases (is_started id (register x key))) [
      | inr e ↦ rw e w
      | inl e ↦
          rw e
            (settle-spares rt id x n other k (is_in-apart id other ids fresh i) (waiting other i) w)
    ];
    consistent = λ x h. elim (Bool-cases (is_started id (register x key))) [
      | inr e ↦ rw e h
      | inl e ↦ rw e (settle-IsConsistent rt id x n (others.consistent x h))
    ];
    entitled = λ x h. elim (Bool-cases (is_started id (register x key))) [
      | inr e ↦ rw e h
      | inl e ↦ rw e (settle-IsEntitled rt id x n (others.entitled x h))
    ];
  }

  -- The end of a request whose identifier is `id`, on the file `x`.
  module _ (e : rt.uuid4 0 ≡ id) (x file : Db) (w : Written rt x file) where
    mine : Cooperates (rt.uuid4 0) rt.others
    mine = subst (λ i. Cooperates i rt.others) (sym e) own

    written-IsUnique : IsUnique x.payment_intents → IsUnique file.payment_intents
    written-IsUnique u =
        subst (λ (y : Db). IsUnique y.payment_intents) w.left
          (Outcome-Implements rt w.transfer x u mine w.ended w.outcome).unique

    written-Evolves : IsUnique x.payment_intents → Evolves (register x) (register file)
    written-Evolves u =
        subst (λ (y : Db). Evolves (register x) (register y)) w.left
          (Outcome-Implements rt w.transfer x u mine w.ended w.outcome).evolves

    written_keeps :
        (other key : String)
        → is_in other ids ≡ true
        → register x key ≡ some (authorizing other)
        → register file key ≡ some (authorizing other)
    written_keeps other key i k =
        subst (λ (y : Db). register y key ≡ some (authorizing other)) w.left
          (still_authorizing rt w.transfer other (λ q. is_in-apart id other ids fresh i (sym e ∙ q))
            (waiting other i) x w.ended key w.outcome k)

    written-IsConsistent : IsConsistent rt.sha256 x → IsConsistent rt.sha256 file
    written-IsConsistent h =
        subst (IsConsistent rt.sha256) w.left
          (Outcome-IsConsistent rt w.transfer x w.ended h others.consistent w.outcome)

    written-IsEntitled : IsEntitled x → IsEntitled file
    written-IsEntitled h =
        subst IsEntitled w.left
          (Outcome-IsEntitled rt w.transfer x w.ended w.own others.entitled h w.outcome)

  module _ (ks : KeyStore) (post : OpaInput → Reply) (parse : String → Option ℤ) (headers : Headers)
      (req : TransferRequest) (app : App ks) where
    abbrev endpoint : Db → Db
    endpoint = requested ks rt post parse headers req app

    -- A file that is as before, or that a request has written.
    either :
        (P : Db → Type 0) (x : Db)
        → P x
        → (Written rt x (endpoint x) → P (endpoint x))
        → P (endpoint x)
    either P x same written =
        elim (endpoint_lem ks rt post parse headers req (record app { file = x })) [
          | inl e ↦ subst P (sym e) same
          | inr w ↦ written w
        ]

    pub requested-Safe : rt.uuid4 0 ≡ id → Safe rt.sha256 ids endpoint
    requested-Safe e = record {
      unique = λ x u.
          either (λ y. IsUnique y.payment_intents) x u (λ w. written-IsUnique e x (endpoint x) w u);
      evolves = λ x u.
          either (λ y. Evolves (register x) (register y)) x (stays _)
            (λ w. written-Evolves e x (endpoint x) w u);
      keeps = λ other i x key k.
          either (λ y. register y key ≡ some (authorizing other)) x k
            (λ w. written_keeps e x (endpoint x) w other key i k);
      consistent = λ x h.
          either (IsConsistent rt.sha256) x h (λ w. written-IsConsistent e x (endpoint x) w h);
      entitled = λ x h. either IsEntitled x h (λ w. written-IsEntitled e x (endpoint x) w h);
    }

pub relayed-Safe :
    (sha256 : String → String) (ids : List String) (rts : List Runtime)
    → Safe sha256 ids (relayed rts)
unfolding select_by_key
relayed-Safe sha256 ids rts = record {
  unique = λ x u. subst IsUnique (sym (relayed-intents rts x)) u;
  evolves = λ x u.
      subst (λ ps. Evolves (register x) (λ key. found key ps)) (sym (relayed-intents rts x))
        (stays (register x));
  keeps = λ id i x key e. ap (found key) (relayed-intents rts x) ∙ e;
  consistent = relayed-IsConsistent sha256 rts;
  entitled = relayed-IsEntitled rts;
}

-- Whatever happens meanwhile, however deep the requests interrupt one another, payments only start
-- under free keys and are authorized, those that wait are left alone, the ledger's invariant is
-- kept, and every intent still goes to an account that is registered for the user who pays.
pub Meanwhile-Safe :
    {ks : KeyStore} {sha256 : String → String} {ids : List String} {f : Db → Db}
    → Meanwhile ks sha256 ids f
    → Safe sha256 ids f
Meanwhile-Safe (calm ids) = calm-Safe
Meanwhile-Safe {ks} {sha256} (request ids rt post parse headers req app rest same fresh others m) =
    then-Safe
      (subst (λ h. Safe h ids (requested ks rt post parse headers req app)) same
        (requested-Safe rt (rt.uuid4 0) ids fresh
          (subst (λ h. Safe h (rt.uuid4 0 ∷ ids) rt.others) (sym same) (Meanwhile-Safe others)) ks
          post parse headers req app refl))
      (Meanwhile-Safe m)
Meanwhile-Safe {ks} {sha256} (resume ids rt id key n rest same fresh others m) =
    then-Safe
      (subst (λ h. Safe h ids (resumed rt id key n)) same
        (resumed-Safe rt id ids fresh
          (subst (λ h. Safe h (id ∷ ids) rt.others) (sym same) (Meanwhile-Safe others)) key n))
      (Meanwhile-Safe m)
Meanwhile-Safe {ks} {sha256} (relay ids rts rest m) =
    then-Safe (relayed-Safe sha256 ids rts) (Meanwhile-Safe m)
