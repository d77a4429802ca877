-- ===== src/Scrub/Cuts.antt =====
-- What a substitution does to a text, and which words it leaves.
use sentinel_ai_v3_0_the_fin.Prelude.{
  ℕ, zero, suc, ◌<◌, ◌≡◌, ◌≢◌, refl, sym, ap, subst, ◌∙◌, true, false, Option, none, some, [], ◌∷◌,
  ◌++◌, arith, length, length-append, any, nat_eq,
}
use mathlib.Core.List.{append_assoc}
use sentinel_ai_v3_0_the_fin.Scrub.{
  Text, Unicode, Regex, Place, first_match, skip, after_match, sub_from, sub,
}
use sentinel_ai_v3_0_the_fin.Scrub.Matching.{first_match_iff}
use sentinel_ai_v3_0_the_fin.Scrub.Words.{
  Words, WordsOf, is_plain, min_length, Reads-Spells, Reads-CanRead, WordsOf-length,
}

-- No word begins the text; no word stands anywhere in it.
abbrev pub NoneBegins : Words → Text → Type 0
NoneBegins L xs = (w b : Text) → xs ≡ w ++ b → ¬ L w

abbrev pub NoneIn : Words → Text → Type 0
NoneIn L [] = NoneBegins L []
NoneIn L (c ∷ xs) = NoneBegins L (c ∷ xs) × NoneIn L xs

-- The second text is the first one with some parts replaced by the mask; what is kept has `K`.
pub data Cut (K : Text → Type 0) (mask : Text) : Text → Text → Type 0 where
  end : Cut K mask [] []
  kept : (c : ℕ) (xs ys : Text) → K (c ∷ xs) → Cut K mask xs ys → Cut K mask (c ∷ xs) (c ∷ ys)
  masked : (all w xs ys : Text) → all ≡ w ++ xs → Cut K mask xs ys → Cut K mask all (mask ++ ys)

NoneIn-suffix : (L : Words) (w xs : Text) → NoneIn L (w ++ xs) → NoneIn L xs
NoneIn-suffix L [] xs h = h
NoneIn-suffix L (c ∷ w) xs h = NoneIn-suffix L w xs h.1

pub NoneIn-begins : (L : Words) (xs : Text) → NoneIn L xs → NoneBegins L xs
NoneIn-begins L [] h = h
NoneIn-begins L (c ∷ xs) h = h.0

-- Nothing that lacks words begins with one.
pub Cut-NoneIn :
    {K : Text → Type 0} {mask : Text} (L : Words) (xs ys : Text)
    → Cut K mask xs ys
    → NoneIn L xs
    → Cut (NoneBegins L) mask xs ys
Cut-NoneIn L _ _ end h = end
Cut-NoneIn L _ _ (kept c xs ys k cut) h = kept c xs ys h.0 (Cut-NoneIn L xs ys cut h.1)
Cut-NoneIn {mask = mask} L _ _ (masked all w xs ys e cut) h =
    masked all w xs ys e (Cut-NoneIn L xs ys cut (NoneIn-suffix L w xs (subst (NoneIn L) e h)))

abbrev pub Lacks : ℕ → Text → Type 0
Lacks c w = any (nat_eq c) w ≡ false

abbrev pub bracketed : Text → Text
bracketed inside = b'[' ∷ inside ++ b']' ∷ []

Lacks-head : (c d : ℕ) (w : Text) → Lacks c (d ∷ w) → c ≢ d
Lacks-head c d w h e = ground (arith, h, e)

Lacks-tail : (c d : ℕ) (w : Text) → Lacks c (d ∷ w) → Lacks c w
Lacks-tail c d w h = ground (arith, h)

-- A word that lacks `c` ends before the first `c`.
prefix_before :
    (c : ℕ) (v w b t : Text) → v ++ c ∷ t ≡ w ++ b → Lacks c w → (x : Text) × (v ≡ w ++ x)
prefix_before c v [] b t e h = (v, refl)
prefix_before c [] (d ∷ w) b t e h = absurd (Lacks-head c d w h (cc e))
prefix_before c (a ∷ v) (d ∷ w) b t e h =
    let (x, e') = prefix_before c v w b t (cc e) (Lacks-tail c d w h) in (x, cc (e, e'))

-- No word that lacks `c` and is not empty begins with `c`.
NoneBegins-Lacks :
    (L : Words) (c : ℕ) (t : Text) → ¬ L [] → ((w : Text) → L w → Lacks c w) → NoneBegins L (c ∷ t)
NoneBegins-Lacks L c t n f [] b e l = n l
NoneBegins-Lacks L c t n f (d ∷ w) b e l = Lacks-head c d w (f (d ∷ w) l) (cc e)

NoneBegins-nil : (L : Words) → ¬ L [] → NoneBegins L []
NoneBegins-nil L n [] b e l = n l
NoneBegins-nil L n (d ∷ w) b e l = cc e

-- A word that lacks the opening bracket has not been put together from a mask.
Cut-prefix :
    {K : Text → Type 0} (inside w b xs ys : Text)
    → Cut K (bracketed inside) xs ys
    → ys ≡ w ++ b
    → Lacks b'[' w
    → (t : Text) × (xs ≡ w ++ t)
Cut-prefix inside [] b xs ys cut e h = (xs, refl)
Cut-prefix inside (c ∷ w) b _ _ end e h = cc e
Cut-prefix inside (c ∷ w) b _ _ (kept d xs ys k cut) e h =
    let (t, e') = Cut-prefix inside w b xs ys cut (cc e) (Lacks-tail b'[' c w h) in (t, cc (e, e'))
Cut-prefix inside (c ∷ w) b _ _ (masked all v xs ys e' cut) e h =
    absurd (Lacks-head b'[' c w h (cc e))

module _ (L : Words) (inside : Text) (nonempty : ¬ L []) (no_open : (w : Text) → L w → Lacks b'[' w)
    (no_close : (w : Text) → L w → Lacks b']' w) where
  mask-NoneIn : (v ys : Text) → NoneIn L v → NoneIn L ys → NoneIn L ((v ++ b']' ∷ []) ++ ys)
  mask-NoneIn [] ys h k = (NoneBegins-Lacks L b']' ys nonempty no_close, k)
  mask-NoneIn (c ∷ v) ys h k = (
    λ w b e l.
        let (x, e') =
          prefix_before b']' (c ∷ v) w b ys (sym (append_assoc (c ∷ v) (b']' ∷ []) ys) ∙ e)
            (no_close w l) in
        h.0 w x e' l,
    mask-NoneIn v ys h.1 k,
  )

  -- If no word begins where a character is kept, and none stands in the mask, none stands in the
  -- result.
  pub Cut-clean :
      (xs ys : Text) → NoneIn L inside → Cut (NoneBegins L) (bracketed inside) xs ys → NoneIn L ys
  Cut-clean _ _ i end = NoneBegins-nil L nonempty
  Cut-clean _ _ i (kept c xs ys k cut) = (
    λ w b e l.
        let (t, e') =
          Cut-prefix inside w b (c ∷ xs) (c ∷ ys) (kept c xs ys k cut) e (no_open w l) in
        k w t e' l,
    Cut-clean xs ys i cut,
  )
  Cut-clean _ _ i (masked all v xs ys e cut) = (
    NoneBegins-Lacks L b'[' ((inside ++ b']' ∷ []) ++ ys) nonempty no_open,
    mask-NoneIn inside ys i (Cut-clean xs ys i cut),
  )

-- A substitution cuts; where it keeps a character, the pattern reads nothing.
module _ (u : Unicode) (r : Regex) (mask : Text) (consumes : 0 < min_length r) where
  abbrev Quiet : Text → Type 0
  Quiet xs = is_plain r ≡ true → NoneBegins (WordsOf r) xs

  quiet : (a : Place) → first_match u r a ≡ none → Quiet a.rest
  quiet a e plain w b same l =
      let (end', f, e') = Reads-CanRead u r plain w l a b same in
      (first_match_iff u r a).0.0 e end' f

  skip-Cut :
      (xs : Text) (before : Option ℕ) (rest : Place → Text)
      → Quiet xs
      → ((p : Place) → length p.rest < length xs → Cut Quiet mask p.rest (rest p))
      → Cut Quiet mask xs (skip u xs before rest)
  skip-Cut [] before rest q f = end
  skip-Cut (c ∷ cs) before rest q f =
      kept c cs _ q (f (record { before = some c; rest = cs }) (omega arith))

  after_match-Cut :
      (a : Place) (found : Option Place) (rest : Place → Text)
      → first_match u r a ≡ found
      → ((p : Place) → length p.rest < length a.rest → Cut Quiet mask p.rest (rest p))
      → Cut Quiet mask a.rest (after_match u mask found a rest)
  after_match-Cut a (some b) rest e f =
      let (w, l, same) = Reads-Spells u r a b ((first_match_iff u r a).1 b e) in
      let shorter = WordsOf-length r w l in
      masked a.rest w b.rest (rest b) same
        (f b (omega (arith, shorter, consumes, ap length same, length-append w b.rest)))
  after_match-Cut a none rest e f = skip-Cut a.rest a.before rest (quiet a e) f

  sub_from-Cut :
      (n : ℕ) (a : Place) → length a.rest < n → Cut Quiet mask a.rest (sub_from u n r mask a)
  unfolding sub_from
  sub_from-Cut zero a h = absurd (omega (arith, h))
  sub_from-Cut (suc n) a h =
      after_match-Cut a (first_match u r a) (sub_from u n r mask) refl
        (λ p k. sub_from-Cut n p (omega (arith, h, k)))

  pub sub-Cut : (text : Text) → Cut Quiet mask text (sub u r mask text)
  unfolding sub
  sub-Cut text =
      sub_from-Cut (suc (length text)) (record { before = none; rest = text }) (omega arith)
