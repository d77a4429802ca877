-- ===== src/Scrub/Masking.antt =====
-- What a masked text holds no more.
use sentinel_ai_v3_0_the_fin.Prelude.{
  Option, none, some, zero, suc, ℕ, ◌≤◌, ◌<◌, ◌≡◌, refl, ap, ◌∙◌, true, [], ◌∷◌, ◌++◌, arith,
  length, length-append, any, any-append, nat_eq,
}
use sentinel_ai_v3_0_the_fin.Scrub.{
  Place, first_match, skip, after_match, sub_from, Text, Unicode, Regex, codes, sub, iban, card,
  email, mask_of, scrub_pii,
}
use sentinel_ai_v3_0_the_fin.Scrub.Matching.{first_match_iff}
use sentinel_ai_v3_0_the_fin.Scrub.Words.{
  Reads-Spells, Words, WordsOf, is_plain, rejects, min_length, WordsOf-length, WordsOf-lack,
}
use sentinel_ai_v3_0_the_fin.Scrub.Cuts.{
  NoneBegins, NoneIn, Cut, end, kept, masked, Cut-NoneIn, Cut-clean, NoneIn-begins, sub-Cut,
  bracketed, Lacks,
}

Cut-map :
    {K J : Text → Type 0} {mask : Text}
    → ((t : Text) → K t → J t)
    → (xs ys : Text) → Cut K mask xs ys
    → Cut J mask xs ys
Cut-map f _ _ end = end
Cut-map f _ _ (kept c xs ys k cut) = kept c xs ys (f (c ∷ xs) k) (Cut-map f xs ys cut)
Cut-map f _ _ (masked all w xs ys e cut) = masked all w xs ys e (Cut-map f xs ys cut)

-- A text that is too short, or that lacks a character that all words have, has none of them.
pub short-NoneIn :
    (L : Words) (n : ℕ) (xs : Text)
    → ((w : Text) → L w → n ≤ length w)
    → length xs < n
    → NoneIn L xs
short-NoneIn L n [] f h = λ w b e l. omega (arith, f w l, h, ap length e, length-append w b)
short-NoneIn L n (c ∷ xs) f h = (
  λ w b e l. omega (arith, f w l, h, ap length e, length-append w b),
  short-NoneIn L n xs f (omega (arith, h)),
)

lacking-NoneIn :
    (L : Words) (c : ℕ) (xs : Text)
    → ((w : Text) → L w → any (nat_eq c) w ≡ true)
    → Lacks c xs
    → NoneIn L xs
lacking-NoneIn L c [] f h =
    λ w b e l. ground (arith, f w l, h, ap (any (nat_eq c)) e, any-append (nat_eq c) w b)
lacking-NoneIn L c (d ∷ xs) f h = (
  λ w b e l. ground (arith, f w l, h, ap (any (nat_eq c)) e, any-append (nat_eq c) w b),
  lacking-NoneIn L c xs f (ground (arith, h)),
)

module _ (u : Unicode) (r : Regex) (inside : Text) (consumes : 0 < min_length r)
    (no_open : rejects b'[' r ≡ true) (no_close : rejects b']' r ≡ true) where
  clean :
      (xs ys : Text)
      → NoneIn (WordsOf r) inside
      → Cut (NoneBegins (WordsOf r)) (bracketed inside) xs ys
      → NoneIn (WordsOf r) ys
  clean =
      Cut-clean (WordsOf r) inside (λ l. omega (arith, consumes, WordsOf-length r [] l))
        (WordsOf-lack b'[' r no_open) (WordsOf-lack b']' r no_close)

  -- The words of a pattern without `\b` are gone after its substitution.
  sub-NoneIn :
      is_plain r ≡ true
      → NoneIn (WordsOf r) inside
      → (text : Text) → NoneIn (WordsOf r) (sub u r (bracketed inside) text)
  sub-NoneIn plain i text =
      clean text _ i
        (Cut-map (λ t q. q plain) text _ (sub-Cut u r (bracketed inside) consumes text))

  -- The substitution of another pattern brings none of them back.
  sub-keeps_NoneIn :
      (other : Regex)
      → 0 < min_length other
      → NoneIn (WordsOf r) inside
      → (text : Text) → NoneIn (WordsOf r) text
      → NoneIn (WordsOf r) (sub u other (bracketed inside) text)
  sub-keeps_NoneIn other positive i text h =
      clean text _ i
        (Cut-NoneIn (WordsOf r) text _ (sub-Cut u other (bracketed inside) positive text) h)

module _ (u : Unicode) where
  iban-rejects : (rejects b'[' (iban u) ≡ true) × (rejects b']' (iban u) ≡ true)
  iban-rejects = (
    ground (arith, u.digit_ascii b'[' (omega arith)),
    ground (arith, u.digit_ascii b']' (omega arith)),
  )

  email-rejects : (rejects b'[' (email u) ≡ true) × (rejects b']' (email u) ≡ true)
  email-rejects = (
    ground (arith, u.word_ascii b'[' (omega arith)),
    ground (arith, u.word_ascii b']' (omega arith)),
  )

  -- Every word for an e-mail address has its @.
  email-at : (w : Text) → WordsOf (email u) w → any (nat_eq b'@') w ≡ true
  email-at w (v, x, l, (at, y, (c, is_at, e), k, e'), e'') =
      ap (any (nat_eq b'@')) (e'' ∙ ap (λ t. v ++ t) (e' ∙ ap (λ t. t ++ y) e))
      ∙ ground (arith, is_at, any-append (nat_eq b'@') v (c ∷ y))

  iban-NoneIn : (xs : Text) → length xs < 15 → NoneIn (WordsOf (iban u)) xs
  iban-NoneIn xs h = short-NoneIn (WordsOf (iban u)) 15 xs (WordsOf-length (iban u)) h

  email-NoneIn : (xs : Text) → Lacks b'@' xs → NoneIn (WordsOf (email u)) xs
  email-NoneIn xs h = lacking-NoneIn (WordsOf (email u)) b'@' xs email-at h

  -- The substitution of another pattern by a short mask brings no IBAN back.
  keeps_iban_masked :
      (other : Regex) (inside text : Text)
      → 0 < min_length other
      → length inside < 15
      → NoneIn (WordsOf (iban u)) text
      → NoneIn (WordsOf (iban u)) (sub u other (bracketed inside) text)
  keeps_iban_masked other inside text positive short h =
      sub-keeps_NoneIn u (iban u) inside (omega arith) iban-rejects.0 iban-rejects.1 other positive
        (iban-NoneIn inside short) text h

  -- No IBAN and no e-mail address, as their patterns describe them, stands anywhere in the text.
  abbrev pub IsMasked : Text → Type 0
  IsMasked text = NoneIn (WordsOf (iban u)) text × NoneIn (WordsOf (email u)) text

  -- A masked text holds no IBAN and no e-mail address any more: nowhere in the result of `scrub_pii`
  -- stands a text that its pattern for IBANs or its pattern for e-mail addresses describes, neither
  -- left over nor put together by the masks, whatever the text was and whichever characters outside
  -- ASCII are digits or letters.
  pub scrub_pii-IsMasked : (text : Text) → IsMasked (scrub_pii u text)
  unfolding scrub_pii
  scrub_pii-IsMasked [] = (iban-NoneIn [] (omega arith), email-NoneIn [] refl)
  scrub_pii-IsMasked (c ∷ cs) =
      let no_iban = codes "IBAN_REDACTED" in
      let no_card = codes "CARD_REDACTED" in
      let no_email = codes "EMAIL_REDACTED" in
      let first = sub u (iban u) (bracketed no_iban) (c ∷ cs) in
      let second = sub u (card u) (bracketed no_card) first in
      let masked_first =
        sub-NoneIn u (iban u) no_iban (omega arith) iban-rejects.0 iban-rejects.1 refl
          (iban-NoneIn no_iban (omega arith)) (c ∷ cs) in
      let masked_second =
        keeps_iban_masked (card u) no_card first (omega arith) (omega arith) masked_first in
      (
        keeps_iban_masked (email u) no_email second (omega arith) (omega arith) masked_second,
        sub-NoneIn u (email u) no_email (omega arith) email-rejects.0 email-rejects.1 refl
            (email-NoneIn no_email refl) second,
      )

-- Where no word of the pattern stands, its substitution changes nothing.
module _ (u : Unicode) (r : Regex) (mask : Text) where
  skip_same :
      (xs : Text) (before : Option ℕ) (rest : Place → Text)
      → ((p : Place) → length p.rest < length xs → NoneIn (WordsOf r) p.rest → rest p ≡ p.rest)
      → NoneIn (WordsOf r) xs
      → skip u xs before rest ≡ xs
  skip_same [] before rest f h = refl
  skip_same (c ∷ cs) before rest f h =
      ap (λ t. c ∷ t) (f (record { before = some c; rest = cs }) (omega arith) h.1)

  after_match_same :
      (a : Place) (found : Option Place) (rest : Place → Text)
      → first_match u r a ≡ found
      → NoneIn (WordsOf r) a.rest
      → ((p : Place) → length p.rest < length a.rest → NoneIn (WordsOf r) p.rest → rest p ≡ p.rest)
      → after_match u mask found a rest ≡ a.rest
  after_match_same a none rest e h f = skip_same a.rest a.before rest f h
  after_match_same a (some b) rest e h f =
      let (w, l, same) = Reads-Spells u r a b ((first_match_iff u r a).1 b e) in
      absurd (NoneIn-begins (WordsOf r) a.rest h w b.rest same l)

  sub_from_same :
      (n : ℕ) (a : Place)
      → length a.rest < n
      → NoneIn (WordsOf r) a.rest
      → sub_from u n r mask a ≡ a.rest
  unfolding sub_from
  sub_from_same zero a h k = refl
  sub_from_same (suc n) a h k =
      after_match_same a (first_match u r a) (sub_from u n r mask) refl k
        (λ p l none_in. sub_from_same n p (omega (arith, h, l)) none_in)

  sub_same : (text : Text) → NoneIn (WordsOf r) text → sub u r mask text ≡ text
  unfolding sub
  sub_same text h =
      sub_from_same (suc (length text)) (record { before = none; rest = text }) (omega arith) h

-- What is no personal datum is left alone: a text in which no text stands that one of the three
-- patterns describes (that for card numbers taken without its word boundaries) is not changed.
pub scrub_pii_spares_clean :
    (u : Unicode) (text : Text)
    → NoneIn (WordsOf (iban u)) text
    → NoneIn (WordsOf (card u)) text
    → NoneIn (WordsOf (email u)) text
    → scrub_pii u text ≡ text
unfolding scrub_pii
scrub_pii_spares_clean u [] i c e = refl
scrub_pii_spares_clean u (x ∷ xs) i c e =
    let text : Text = x ∷ xs in
    ap (λ t. sub u (email u) (mask_of "EMAIL") (sub u (card u) (mask_of "CARD") t))
      (sub_same u (iban u) (mask_of "IBAN") text i)
    ∙ ap (sub u (email u) (mask_of "EMAIL")) (sub_same u (card u) (mask_of "CARD") text c)
    ∙ sub_same u (email u) (mask_of "EMAIL") text e
