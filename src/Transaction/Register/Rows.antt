-- ===== src/Transaction/Register/Rows.antt =====
-- What an inserted intent and a new status do to the register.
use sentinel_ai_v3_0_the_fin.Prelude.{
  String, ◌≡◌, inl, inr, refl, subst, false, Option, none, some, List, [], ◌∷◌, ◌++◌, map, arith,
  any, find_first, ◌==◌, eq_iff, Bool-cases,
}
use sentinel_ai_v3_0_the_fin.Database.{PaymentIntent, with_status}
use sentinel_ai_v3_0_the_fin.Transaction.{Payment, Transfer, intent_of}
use sentinel_ai_v3_0_the_fin.Transaction.Outcome.{payment_of}
use sentinel_ai_v3_0_the_fin.Transaction.Consistency.{clashes, IsUnique}
use sentinel_ai_v3_0_the_fin.Transaction.Register.{authorizing, Puts}

abbrev pub found : String → List PaymentIntent → Option Payment
found key ps = payment_of (find_first (λ p. p.idempotency_key == key) ps)

pub found-append :
    (t : Transfer) (id : String) (ps : List PaymentIntent)
    → any (clashes (intent_of id t)) ps ≡ false
    → Puts t.idempotency_key
        (authorizing id)
        (λ k. found k ps)
        (λ k. found k (ps ++ intent_of id t ∷ []))
found-append t id [] h k = ground arith
found-append t id (p ∷ ps) h k = ground (
  arith,
  found-append t id ps (ground (arith, h)) k,
  h,
  eq_iff p.idempotency_key k,
  eq_iff t.idempotency_key k,
  eq_iff p.idempotency_key t.idempotency_key,
)

pub free_key :
    (t : Transfer) (id : String) (ps : List PaymentIntent)
    → any (clashes (intent_of id t)) ps ≡ false
    → found t.idempotency_key ps ≡ none
free_key t id [] h = refl
free_key t id (p ∷ ps) h = ground (arith, h, free_key t id ps (ground (arith, h)))

module _ (s : String) where
  -- No other intent has the identifier of `x`.
  found-others :
      (x : PaymentIntent) (ps : List PaymentIntent) (k : String)
      → any (clashes x) ps ≡ false
      → found k (map (with_status x.id s) ps) ≡ found k ps
  found-others x [] k h = refl
  found-others x (p ∷ ps) k h = ground (arith, h, found-others x ps k (ground (arith, h)))

  -- One of the intents has the key and the identifier: none of the others clash with it.
  found-clashes :
      (key : String) (payment : Payment) (x : PaymentIntent) (ps : List PaymentIntent)
      → found key ps ≡ some payment
      → any (clashes x) ps ≡ false
      → (x.id == payment.id) ≡ false
  found-clashes key payment x [] e h = cc e
  found-clashes key payment x (p ∷ ps) e h = elim (Bool-cases (p.idempotency_key == key)) [
    | inl q ↦ ground (arith, e, h, q, eq_iff x.id payment.id, eq_iff p.id x.id)
    | inr q ↦ found-clashes key payment x ps (ground (arith, e, q)) (ground (arith, h))
  ]

  pub found-status :
      (key id old : String) (ps : List PaymentIntent)
      → IsUnique ps
      → found key ps ≡ some (record { id = id; status = old })
      → Puts key
          (record { id = id; status = s })
          (λ k. found k ps)
          (λ k. found k (map (with_status id s) ps))
  found-status key id old [] u e k = cc e
  found-status key id old (p ∷ ps) u e k = elim (Bool-cases (p.idempotency_key == key)) [
    | inl q ↦
        let same_id : p.id ≡ id = ground (arith, e, q) in
        let others =
          subst (λ i. found k (map (with_status i s) ps) ≡ found k ps) same_id
            (found-others p ps k u.0) in
        ground (
          arith,
          others,
          q,
          same_id,
          eq_iff p.id id,
          eq_iff p.idempotency_key key,
          eq_iff p.idempotency_key k,
          eq_iff key k,
        )
    | inr q ↦
        let later : found key ps ≡ some (record { id = id; status = old }) = ground (arith, e, q) in
        let rest = found-status key id old ps u.1 later k in
        let other = found-clashes key (record { id = id; status = old }) p ps later u.0 in
        ground (
          arith,
          rest,
          other,
          q,
          eq_iff p.idempotency_key k,
          eq_iff key k,
          eq_iff p.idempotency_key key,
        )
  ]
