-- ===== src/Scrub.antt =====
-- security/pii_scrub.py: the masking of texts, with as much of Python's `re` as its patterns use: a
-- backtracking matcher that is greedy, as `re` documents itself. A text is the list of its code
-- points; which of them are digits and word characters outside ASCII is a parameter.
pub mod Matching
pub mod Words
pub mod Cuts
pub mod Masking
mod Tests
use Prim.Native.Char.{code}
use Prim.Native.String.{String as NativeString}
use sentinel_ai_v3_0_the_fin.Prelude.{
  ℕ, zero, suc, ◌-◌, ◌<◌, String, ◌≡◌, Bool, true, false, not, ◌&&◌, ◌||◌, Option, none, some, List,
  [], ◌∷◌, ◌++◌, leb, nat_eq, length, if◌then◌else◌,
}

abbrev pub Text : Type 0
Text = List ℕ

abbrev pub codes : String → Text
codes NativeString.[] = []
codes (NativeString.◌∷◌ c s) = code c ∷ codes s

abbrev pub in_range : ℕ → ℕ → ℕ → Bool
in_range lo hi c = leb lo c && leb c hi

abbrev pub is_upper : ℕ → Bool
is_upper c = in_range b'A' b'Z' c

abbrev pub is_lower : ℕ → Bool
is_lower c = in_range b'a' b'z' c

abbrev pub is_upper_or_digit : ℕ → Bool
is_upper_or_digit c = is_upper c || in_range b'0' b'9' c

abbrev pub is_space_or_dash : ℕ → Bool
is_space_or_dash c = nat_eq c b' ' || nat_eq c b'-'

-- `[{label}_REDACTED]`
abbrev pub mask_of : String → Text
mask_of label = b'[' ∷ codes label ++ codes "_REDACTED" ++ b']' ∷ []

-- `\d` and `\w` of Python's `re` on texts, of which only ASCII is fixed.
pub record Unicode : Type 0 where
  pub is_digit : ℕ → Bool
  pub is_word : ℕ → Bool
  pub digit_ascii : (c : ℕ) → c < 128 → is_digit c ≡ in_range b'0' b'9' c
  pub word_ascii :
      (c : ℕ)
      → c < 128
      → is_word c ≡ (is_upper c || is_lower c || in_range b'0' b'9' c || nat_eq c b'_')

-- What the patterns are made of: a character of a class, `\b`, one after the other, `{lo,hi}`, and
-- `{lo,}` of a class.
pub data Regex : Type 0 where
  one : (ℕ → Bool) → Regex
  boundary : Regex
  seq : Regex → Regex → Regex
  repeat : ℕ → ℕ → Regex → Regex
  many : ℕ → (ℕ → Bool) → Regex

-- A place in a text: the character before it, and the text from it on.
pub record Place : Type 0 where
  pub before : Option ℕ
  pub rest : Text

abbrev pub or_else : Option Place → Option Place → Option Place
or_else (some x) other = some x
or_else none other = other

-- A matcher tries the ways to read on from a place, in order, until what follows succeeds.
abbrev pub Matcher : Type 0
Matcher = Place → (Place → Option Place) → Option Place

abbrev pub read_one : (ℕ → Bool) → Option ℕ → Text → (Place → Option Place) → Option Place
read_one p before [] next = none
read_one p before (c ∷ cs) next = if p c then next (record { before = some c; rest = cs }) else none

-- Exactly `n` times, and greedily at most `n` times.
unfoldable pub times : ℕ → Matcher → Matcher
times zero m a next = next a
times (suc n) m a next = m a (λ b. times n m b next)

unfoldable pub up_to : ℕ → Matcher → Matcher
up_to zero m a next = next a
up_to (suc n) m a next = or_else (m a (λ b. up_to n m b next)) (next a)

module _ (u : Unicode) where
  open u use {is_digit, is_word}

  abbrev pub is_word_at_end : Option ℕ → Bool
  is_word_at_end none = false
  is_word_at_end (some c) = is_word c

  abbrev pub is_word_at_start : Text → Bool
  is_word_at_start [] = false
  is_word_at_start (c ∷ cs) = is_word c

  abbrev pub is_boundary : Place → Bool
  is_boundary a =
      if is_word_at_end a.before then not (is_word_at_start a.rest) else is_word_at_start a.rest

  -- The characters left bound the repetitions of a class.
  unfoldable pub match_regex : Regex → Matcher
  unfolding times up_to
  match_regex (one p) a next = read_one p a.before a.rest next
  match_regex boundary a next = if is_boundary a then next a else none
  match_regex (seq r s) a next = match_regex r a (λ b. match_regex s b next)
  match_regex (repeat lo hi r) a next =
      times lo (match_regex r) a (λ b. up_to (hi - lo) (match_regex r) b next)
  match_regex (many lo p) a next =
      times lo (λ b k. read_one p b.before b.rest k) a
        (λ b. up_to (length b.rest) (λ c k. read_one p c.before c.rest k) b next)

  -- `pattern.match(text, pos)`: where the match ends.
  abbrev pub first_match : Regex → Place → Option Place
  first_match r a = match_regex r a some

  abbrev pub skip : Text → Option ℕ → (Place → Text) → Text
  skip [] before rest = []
  skip (c ∷ cs) before rest = c ∷ rest (record { before = some c; rest = cs })

  -- The match is replaced, or the next character is kept.
  abbrev pub after_match : Text → Option Place → Place → (Place → Text) → Text
  after_match mask (some b) a rest = mask ++ rest b
  after_match mask none a rest = skip a.rest a.before rest

  -- `pattern.sub(mask, text)` from a place on: leftmost matches, none of them empty, do not overlap.
  unfoldable pub sub_from : ℕ → Regex → Text → Place → Text
  unfolding match_regex
  sub_from zero r mask a = a.rest
  sub_from (suc n) r mask a = after_match mask (first_match r a) a (sub_from n r mask)

  unfoldable pub sub : Regex → Text → Text → Text
  unfolding sub_from
  sub r mask text = sub_from (suc (length text)) r mask (record { before = none; rest = text })

  -- The three patterns of `COMPILED_PATTERNS`.
  abbrev pub iban : Regex
  iban =
      seq (repeat 2 2 (one is_upper))
        (seq (repeat 2 2 (one is_digit)) (repeat 11 30 (one is_upper_or_digit)))

  abbrev pub card : Regex
  card =
      seq boundary
        (seq (repeat 13 16 (seq (one is_digit) (repeat 0 1 (one is_space_or_dash)))) boundary)

  abbrev pub is_name : ℕ → Bool
  is_name c = is_word c || nat_eq c b'.' || nat_eq c b'-'

  abbrev pub email : Regex
  email =
      seq (many 1 is_name)
        (seq (one (nat_eq b'@')) (seq (many 1 is_name) (seq (one (nat_eq b'.')) (many 2 is_lower))))

  unfoldable pub scrub_pii : Text → Text
  unfolding sub
  scrub_pii [] = []
  scrub_pii (c ∷ cs) =
      sub email (mask_of "EMAIL") (sub card (mask_of "CARD") (sub iban (mask_of "IBAN") (c ∷ cs)))
