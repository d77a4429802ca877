-- ===== src/Scrub/Matching.antt =====
-- The matcher of regular expressions finds what there is to find.
use sentinel_ai_v3_0_the_fin.Prelude.{
  ℕ, zero, suc, ◌-◌, ◌≤◌, ◌≡◌, ◌↔◌, ◌⊎◌, inl, inr, refl, sym, ap, subst, ◌∙◌, Bool, true, Option,
  none, some, [], ◌∷◌, arith, length, Bool-cases, Option-cases, if◌then◌else◌,
}
use sentinel_ai_v3_0_the_fin.Scrub.{
  Text, Unicode, Regex, one, boundary, seq, repeat, many, Place, or_else, Matcher, read_one, times,
  up_to, is_boundary, match_regex, first_match,
}

-- What may be read between two places.
abbrev pub Reading : Type 1
Reading = Place → Place → Type 0

abbrev pub ReadsOne : (ℕ → Bool) → Reading
ReadsOne p a b = (c : ℕ) × (p c ≡ true) × (a.rest ≡ c ∷ b.rest) × (b.before ≡ some c)

-- `n` times.
abbrev pub Iterate : ℕ → Reading → Reading
Iterate zero R a b = a ≡ b
Iterate (suc n) R a b = (m : Place) × R a m × Iterate n R m b

module _ (u : Unicode) where
  -- What an expression means, without any order of the ways to read.
  abbrev pub Reads : Regex → Reading
  Reads (one p) a b = ReadsOne p a b
  Reads boundary a b = (is_boundary u a ≡ true) × (a ≡ b)
  Reads (seq r s) a b = (m : Place) × Reads r a m × Reads s m b
  Reads (repeat lo hi r) a b =
      (m : Place) × (n : ℕ) × Iterate lo (Reads r) a m × (n ≤ hi - lo) × Iterate n (Reads r) m b
  Reads (many lo p) a b =
      (m : Place) × (n : ℕ) × Iterate lo (ReadsOne p) a m × Iterate n (ReadsOne p) m b

-- A matcher is sound and complete for a reading.
pub record Finds (m : Matcher) (R : Reading) : Type 0 where
  pub sound :
      (a x : Place) (next : Place → Option Place)
      → m a next ≡ some x
      → (b : Place) × R a b × (next b ≡ some x)
  pub complete :
      (a b : Place) (next : Place → Option Place) → m a next ≡ none → R a b → next b ≡ none

or_else-none : (x y : Option Place) → or_else x y ≡ none → (x ≡ none) × (y ≡ none)
or_else-none none y e = (refl, e)
or_else-none (some x) y e = cc e

or_else-cases :
    (x y : Option Place) (z : Place) → or_else x y ≡ some z → (x ≡ some z) ⊎ (y ≡ some z)
or_else-cases none y z e = inr e
or_else-cases (some x) y z e = inl e

read_one_sound :
    (p : ℕ → Bool) (before : Option ℕ) (rest : Text) (x : Place) (next : Place → Option Place)
    → read_one p before rest next ≡ some x
    → (b : Place) × ReadsOne p (record { before = before; rest = rest }) b × (next b ≡ some x)
read_one_sound p before [] x next e = cc e
read_one_sound p before (c ∷ cs) x next e = elim (Bool-cases (p c)) [
  | inl y ↦ (record { before = some c; rest = cs }, (c, y, refl, refl), simp y at e)
  | inr n ↦ absurd (ground (arith, n, e))
]

read_one_complete :
    (p : ℕ → Bool) (before : Option ℕ) (rest : Text) (b : Place) (next : Place → Option Place)
    → read_one p before rest next ≡ none
    → ReadsOne p (record { before = before; rest = rest }) b
    → next b ≡ none
read_one_complete p before rest b next e (c, yes', same, last) =
    let here : b ≡ record { before = some c; rest = b.rest } =
      λ i. record { before = last i; rest = b.rest } in
    let read : read_one p before (c ∷ b.rest) next
        ≡ next (record { before = some c; rest = b.rest }) =
      ap (λ (t : Bool). if t then next (record { before = some c; rest = b.rest }) else none)
        yes' in
    ap next here ∙ sym read ∙ ap (λ (t : Text). read_one p before t next) (sym same) ∙ e

pub read_one-Finds : (p : ℕ → Bool) → Finds (λ a next. read_one p a.before a.rest next) (ReadsOne p)
read_one-Finds p = record {
  sound = λ a x next e. read_one_sound p a.before a.rest x next e;
  complete = λ a b next e r. read_one_complete p a.before a.rest b next e r;
}

module _ {m : Matcher} {R : Reading} (f : Finds m R) where
  times-Finds : (n : ℕ) → Finds (times n m) (Iterate n R)
  unfolding times
  times-Finds zero = record {
    sound = λ a x next e. (a, refl, e);
    complete = λ a b next e q. ap next (sym q) ∙ e;
  }
  times-Finds (suc n) = record {
    sound = λ a x next e.
        let (b, r, e') = f.sound a x (λ c. times n m c next) e in
        let (d, rs, e'') = (times-Finds n).sound b x next e' in (d, (b, r, rs), e'');
    complete = λ a b next e (c, r, rs).
        (times-Finds n).complete c b next (f.complete a c (λ d. times n m d next) e r) rs;
  }

  up_to_sound :
      (n : ℕ) (a x : Place) (next : Place → Option Place)
      → up_to n m a next ≡ some x
      → (b : Place) × (k : ℕ) × (k ≤ n) × Iterate k R a b × (next b ≡ some x)
  unfolding up_to
  up_to_sound zero a x next e = (a, 0, omega arith, refl, e)
  up_to_sound (suc n) a x next e = elim (or_else-cases (m a (λ b. up_to n m b next)) (next a) x e) [
    | inr stop ↦ (a, 0, omega arith, refl, stop)
    | inl go ↦
        let (b, r, e') = f.sound a x (λ b. up_to n m b next) go in
        let (d, k, h, rs, e'') = up_to_sound n b x next e' in
        (d, suc k, omega (arith, h), (b, r, rs), e'')
  ]

  up_to_complete :
      (n k : ℕ) (a b : Place) (next : Place → Option Place)
      → up_to n m a next ≡ none
      → k ≤ n
      → Iterate k R a b
      → next b ≡ none
  unfolding up_to
  up_to_complete zero zero a b next e h q = ap next (sym q) ∙ e
  up_to_complete zero (suc k) a b next e h r = absurd (omega (arith, h))
  up_to_complete (suc n) zero a b next e h q =
      ap next (sym q) ∙ (or_else-none (m a (λ c. up_to n m c next)) (next a) e).1
  up_to_complete (suc n) (suc k) a b next e h (c, r, rs) =
      up_to_complete n k c b next
        (f.complete a c (λ d. up_to n m d next)
          (or_else-none (m a (λ d. up_to n m d next)) (next a) e).0 r)
        (omega (arith, h)) rs

-- Every repetition of a class takes a character.
Iterate-length :
    (p : ℕ → Bool) (n : ℕ) (a b : Place) → Iterate n (ReadsOne p) a b → n ≤ length a.rest
Iterate-length p zero a b q = omega arith
Iterate-length p (suc n) a b ((c), (d, y, same, last), rs) =
    let shorter = Iterate-length p n c b rs in omega (arith, shorter, ap length same)

module _ (u : Unicode) where
  -- The matcher is correct for every expression: whatever follows, it succeeds only at the end of a
  -- reading after which that succeeds, and fails only if that fails after every reading. So the
  -- characters left are enough to bound the repetitions of a class.
  pub match_regex-Finds : (r : Regex) → Finds (match_regex u r) (Reads u r)
  unfolding match_regex
  match_regex-Finds (one p) = read_one-Finds p
  match_regex-Finds boundary = record {
    sound = λ a x next e. elim (Bool-cases (is_boundary u a)) [
      | inl y ↦ (a, (y, refl), simp y at e)
      | inr n ↦ absurd (ground (arith, n, e))
    ];
    complete = λ a b next e r. ap next (sym r.1) ∙ (simp r.0 at e);
  }
  match_regex-Finds (seq r s) = record {
    sound = λ a x next e.
        let (b, f, e') = (match_regex-Finds r).sound a x (λ b. match_regex u s b next) e in
        let (c, g, e'') = (match_regex-Finds s).sound b x next e' in (c, (b, f, g), e'');
    complete = λ a b next e (m, f, g).
        (match_regex-Finds s).complete m b next
          ((match_regex-Finds r).complete a m (λ b. match_regex u s b next) e f) g;
  }
  match_regex-Finds (repeat lo hi r) =
      let f = match_regex-Finds r in
      record {
        sound = λ a x next e.
            let (b, first, e') =
              (times-Finds f lo).sound a x (λ b. up_to (hi - lo) (match_regex u r) b next) e in
            let (c, k, h, more, e'') = up_to_sound f (hi - lo) b x next e' in
            (c, (b, k, first, h, more), e'');
        complete = λ a b next e (m, k, first, h, more).
            up_to_complete f (hi - lo) k m b next
              ((times-Finds f lo).complete a m (λ b. up_to (hi - lo) (match_regex u r) b next) e
                first)
              h more;
      }
  match_regex-Finds (many lo p) =
      let f = read_one-Finds p in
      let m : Matcher = λ a k. read_one p a.before a.rest k in
      record {
        sound = λ a x next e.
            let (b, first, e') =
              (times-Finds f lo).sound a x (λ b. up_to (length b.rest) m b next) e in
            let (c, k, h, more, e'') = up_to_sound f (length b.rest) b x next e' in
            (c, (b, k, first, more), e'');
        complete = λ a b next e (c, k, first, more).
            up_to_complete f (length c.rest) k c b next
              ((times-Finds f lo).complete a c (λ b. up_to (length b.rest) m b next) e first)
              (Iterate-length p k c b more) more;
      }

  -- The matcher against its reference: it fails at a place exactly if the expression reads nothing
  -- from there, and where it succeeds, the expression reads up to the place that it gives.
  pub first_match_iff :
      (r : Regex) (a : Place)
      → ((first_match u r a ≡ none) ↔ ((b : Place) → ¬ Reads u r a b))
        × ((b : Place) → first_match u r a ≡ some b → Reads u r a b)
  first_match_iff r a = (
    (
      λ e b f. cc ((match_regex-Finds r).complete a b some e f),
      λ nothing. elim (Option-cases (first_match u r a)) [
        | inl e ↦ e
        | inr (x, e) ↦
            let (b, f, e') = (match_regex-Finds r).sound a x some e in absurd (nothing b f)
      ],
    ),
    λ x e.
        let (b, f, e') = (match_regex-Finds r).sound a x some e in
        subst (Reads u r a) (ground (arith, e')) f,
  )
