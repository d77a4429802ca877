-- ===== src/Scrub/Words.antt =====
-- The words of a regular expression: what it may have read, whatever stands around.
use sentinel_ai_v3_0_the_fin.Prelude.{
  ℕ, zero, suc, ◌+◌, ◌-◌, ◌≤◌, ◌≡◌, refl, sym, ap, subst, ◌∙◌, Bool, true, false, not, ◌&&◌, some,
  [], ◌∷◌, ◌++◌, arith, length, length-append, any, any-append, nat_eq, Bool-cases, inl, inr,
}
use mathlib.Core.List.{append_assoc}
use sentinel_ai_v3_0_the_fin.Scrub.{Text, Unicode, Regex, one, boundary, seq, repeat, many, Place}
use sentinel_ai_v3_0_the_fin.Scrub.Matching.{ReadsOne, Iterate, Reads}

-- A set of texts.
abbrev pub Words : Type 1
Words = Text → Type 0

abbrev pub Char : (ℕ → Bool) → Words
Char p w = (c : ℕ) × (p c ≡ true) × (w ≡ c ∷ [])

abbrev pub Then : Words → Words → Words
Then L K w = (v : Text) × (x : Text) × L v × K x × (w ≡ v ++ x)

abbrev pub Power : ℕ → Words → Words
Power zero L w = w ≡ []
Power (suc n) L w = Then L (Power n L) w

abbrev pub WordsOf : Regex → Words
WordsOf (one p) = Char p
WordsOf boundary = λ w. w ≡ []
WordsOf (seq r s) = Then (WordsOf r) (WordsOf s)
WordsOf (repeat lo hi r) =
    λ w. (n : ℕ) × (n ≤ hi - lo) × Then (Power lo (WordsOf r)) (Power n (WordsOf r)) w
WordsOf (many lo p) = λ w. (n : ℕ) × Then (Power lo (Char p)) (Power n (Char p)) w

-- Whether no `\b` occurs.
abbrev pub is_plain : Regex → Bool
is_plain (one p) = true
is_plain boundary = false
is_plain (seq r s) = is_plain r && is_plain s
is_plain (repeat lo hi r) = is_plain r
is_plain (many lo p) = true

-- Whether no class has the character.
abbrev pub rejects : ℕ → Regex → Bool
rejects c (one p) = not (p c)
rejects c boundary = true
rejects c (seq r s) = rejects c r && rejects c s
rejects c (repeat lo hi r) = rejects c r
rejects c (many lo p) = not (p c)

abbrev pub total : ℕ → ℕ → ℕ
total zero m = 0
total (suc n) m = m + total n m

-- What every word has at least for its length.
abbrev pub min_length : Regex → ℕ
min_length (one p) = 1
min_length boundary = 0
min_length (seq r s) = min_length r + min_length s
min_length (repeat lo hi r) = total lo (min_length r)
min_length (many lo p) = total lo 1

-- From readings to words.
abbrev Spells : Words → Place → Place → Type 0
Spells L a b = (w : Text) × L w × (a.rest ≡ w ++ b.rest)

Spells-Then : {L K : Words} (a m b : Place) → Spells L a m → Spells K m b → Spells (Then L K) a b
Spells-Then a m b (v, l, e) (x, k, e') =
    (v ++ x, (v, x, l, k, refl), e ∙ ap (λ t. v ++ t) e' ∙ sym (append_assoc v x b.rest))

Iterate-Spells :
    {R : Place → Place → Type 0} {L : Words}
    → ((a b : Place) → R a b → Spells L a b)
    → (n : ℕ) (a b : Place) → Iterate n R a b
    → Spells (Power n L) a b
Iterate-Spells f zero a b e = ([], refl, ap (λ (p : Place). p.rest) e)
Iterate-Spells f (suc n) a b (m, r, rs) = Spells-Then a m b (f a m r) (Iterate-Spells f n m b rs)

ReadsOne-Spells : (p : ℕ → Bool) (a b : Place) → ReadsOne p a b → Spells (Char p) a b
ReadsOne-Spells p a b (c, y, same, last) = (c ∷ [], (c, y, refl), same)

pub Reads-Spells : (u : Unicode) (r : Regex) (a b : Place) → Reads u r a b → Spells (WordsOf r) a b
Reads-Spells u (one p) a b f = ReadsOne-Spells p a b f
Reads-Spells u boundary a b (y, e) = ([], refl, ap (λ (p : Place). p.rest) e)
Reads-Spells u (seq r s) a b (m, f, g) =
    Spells-Then a m b (Reads-Spells u r a m f) (Reads-Spells u s m b g)
Reads-Spells u (repeat lo hi r) a b (m, n, f, h, g) =
    let (w, l, e) =
      Spells-Then a m b (Iterate-Spells (Reads-Spells u r) lo a m f)
        (Iterate-Spells (Reads-Spells u r) n m b g) in
    (w, (n, h, l), e)
Reads-Spells u (many lo p) a b (m, n, f, g) =
    let (w, l, e) =
      Spells-Then a m b (Iterate-Spells (ReadsOne-Spells p) lo a m f)
        (Iterate-Spells (ReadsOne-Spells p) n m b g) in
    (w, (n, l), e)

-- From words to readings: a word may be read wherever it stands.
abbrev CanRead : (Place → Place → Type 0) → Words → Type 0
CanRead R L =
    (w : Text) → L w → (a : Place) (t : Text) → a.rest ≡ w ++ t → (b : Place) × R a b × (b.rest ≡ t)

Iterate-CanRead :
    {R : Place → Place → Type 0} {L : Words}
    → CanRead R L
    → (n : ℕ) → CanRead (Iterate n R) (Power n L)
Iterate-CanRead f zero w e a t same = (a, refl, same ∙ ap (λ v. v ++ t) e)
Iterate-CanRead f (suc n) w (v, x, l, k, e) a t same =
    let (m, r, e') = f v l a (x ++ t) (same ∙ ap (λ y. y ++ t) e ∙ append_assoc v x t) in
    let (b, rs, e'') = Iterate-CanRead f n x k m t e' in (b, (m, r, rs), e'')

ReadsOne-CanRead : (p : ℕ → Bool) → CanRead (ReadsOne p) (Char p)
ReadsOne-CanRead p w (c, y, e) a t same =
    (record { before = some c; rest = t }, (c, y, same ∙ ap (λ y. y ++ t) e, refl), refl)

pub Reads-CanRead : (u : Unicode) (r : Regex) → is_plain r ≡ true → CanRead (Reads u r) (WordsOf r)
Reads-CanRead u (one p) plain w l a t same = ReadsOne-CanRead p w l a t same
Reads-CanRead u boundary plain w l a t same = cc plain
Reads-CanRead u (seq r s) plain w (v, x, l, k, e) a t same =
    let (m, f, e') =
      Reads-CanRead u r (ground (arith, plain)) v l a (x ++ t)
        (same ∙ ap (λ y. y ++ t) e ∙ append_assoc v x t) in
    let (b, g, e'') = Reads-CanRead u s (ground (arith, plain)) x k m t e' in (b, (m, f, g), e'')
Reads-CanRead u (repeat lo hi r) plain w (n, h, (v, x, l, k, e)) a t same =
    let each = Reads-CanRead u r plain in
    let (m, f, e') =
      Iterate-CanRead each lo v l a (x ++ t) (same ∙ ap (λ y. y ++ t) e ∙ append_assoc v x t) in
    let (b, g, e'') = Iterate-CanRead each n x k m t e' in (b, (m, n, f, h, g), e'')
Reads-CanRead u (many lo p) plain w (n, (v, x, l, k, e)) a t same =
    let each = ReadsOne-CanRead p in
    let (m, f, e') =
      Iterate-CanRead each lo v l a (x ++ t) (same ∙ ap (λ y. y ++ t) e ∙ append_assoc v x t) in
    let (b, g, e'') = Iterate-CanRead each n x k m t e' in (b, (m, n, f, g), e'')

-- Properties of a text that hold of [] and of concatenations hold of all words, if of the characters.
module _ (P : Text → Type 0) (nil : P []) (app : (v x : Text) → P v → P x → P (v ++ x)) where
  Then-all :
      {L K : Words}
      → ((w : Text) → L w → P w)
      → ((w : Text) → K w → P w)
      → (w : Text) → Then L K w
      → P w
  Then-all f g w (v, x, l, k, e) = subst P (sym e) (app v x (f v l) (g x k))

  Power-all : {L : Words} → ((w : Text) → L w → P w) → (n : ℕ) (w : Text) → Power n L w → P w
  Power-all f zero w e = subst P (sym e) nil
  Power-all {L} f (suc n) w l = Then-all {L = L} {K = Power n L} f (Power-all {L = L} f n) w l

abbrev has : ℕ → Text → Bool
has c = any (nat_eq c)

Lacks-append : (c : ℕ) (v x : Text) → has c v ≡ false → has c x ≡ false → has c (v ++ x) ≡ false
Lacks-append c v x f g = ground (arith, any-append (nat_eq c) v x, f, g)

Char-lacks : (c : ℕ) (p : ℕ → Bool) → not (p c) ≡ true → (w : Text) → Char p w → has c w ≡ false
Char-lacks c p n w (d, y, e) = elim (Bool-cases (nat_eq c d)) [
  | inl q ↦ let same : c ≡ d = ground (arith, q) in absurd (ground (arith, n, y, ap p same))
  | inr q ↦ ap (has c) e ∙ ground (arith, q)
]

pub WordsOf-lack :
    (c : ℕ) (r : Regex) → rejects c r ≡ true → (w : Text) → WordsOf r w → has c w ≡ false
WordsOf-lack c (one p) h w l = Char-lacks c p h w l
WordsOf-lack c boundary h w e = ap (has c) e
WordsOf-lack c (seq r s) h w l =
    Then-all (λ x. has c x ≡ false) refl (Lacks-append c) (WordsOf-lack c r (ground (arith, h)))
      (WordsOf-lack c s (ground (arith, h))) w l
WordsOf-lack c (repeat lo hi r) h w (n, b, l) =
    let P : Text → Type 0 = λ x. has c x ≡ false in
    let each = Power-all P refl (Lacks-append c) (WordsOf-lack c r h) in
    Then-all P refl (Lacks-append c) (each lo) (each n) w l
WordsOf-lack c (many lo p) h w (n, l) =
    let P : Text → Type 0 = λ x. has c x ≡ false in
    let each = Power-all P refl (Lacks-append c) (Char-lacks c p h) in
    Then-all P refl (Lacks-append c) (each lo) (each n) w l

Then-length :
    {L K : Words} (n m : ℕ)
    → ((w : Text) → L w → n ≤ length w)
    → ((w : Text) → K w → m ≤ length w)
    → (w : Text) → Then L K w
    → n + m ≤ length w
Then-length n m f g w (v, x, l, k, e) = omega (arith, f v l, g x k, length-append v x, ap length e)

Power-length :
    {L : Words} (m : ℕ)
    → ((w : Text) → L w → m ≤ length w)
    → (n : ℕ) (w : Text) → Power n L w
    → total n m ≤ length w
Power-length m f zero w e = omega arith
Power-length {L} m f (suc n) w l =
    Then-length {L = L} {K = Power n L} m (total n m) f (Power-length m f n) w l

pub WordsOf-length : (r : Regex) (w : Text) → WordsOf r w → min_length r ≤ length w
WordsOf-length (one p) w (c, y, e) = omega (arith, ap length e)
WordsOf-length boundary w e = omega arith
WordsOf-length (seq r s) w l =
    Then-length (min_length r) (min_length s) (WordsOf-length r) (WordsOf-length s) w l
WordsOf-length (repeat lo hi r) w (n, b, l) =
    let each = Power-length (min_length r) (WordsOf-length r) in
    let h = Then-length (total lo (min_length r)) (total n (min_length r)) (each lo) (each n) w l in
    omega (arith, h)
WordsOf-length (many lo p) w (n, l) =
    let one_each : (x : Text) → Char p x → 1 ≤ length x = λ x q. omega (arith, ap length q.2) in
    let each = Power-length 1 one_each in
    let h = Then-length (total lo 1) (total n 1) (each lo) (each n) w l in omega (arith, h)
