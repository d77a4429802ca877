-- ===== src/Scrub/Tests.antt =====
-- Masks of concrete texts, on ASCII.
use sentinel_ai_v3_0_the_fin.Prelude.{◌↔◌, none, some, ◌≡◌, refl, ◌||◌, nat_eq, arith}
use sentinel_ai_v3_0_the_fin.Scrub.{
  Place, first_match, iban, card, email, Unicode, in_range, is_upper, is_lower, codes, times, up_to,
  match_regex, sub_from, sub, scrub_pii,
}
use sentinel_ai_v3_0_the_fin.Scrub.Matching.{Reads, first_match_iff}
use sentinel_ai_v3_0_the_fin.Scrub.Words.{WordsOf, WordsOf-length}
use sentinel_ai_v3_0_the_fin.Scrub.Cuts.{NoneIn}
use sentinel_ai_v3_0_the_fin.Scrub.Masking.{
  IsMasked, scrub_pii-IsMasked, scrub_pii_spares_clean, short-NoneIn,
}

abbrev start : Place
start = record { before = none; rest = codes "ES12345678901234567890 paid" }

abbrev ascii : Unicode
ascii = record {
  is_digit = λ c. in_range b'0' b'9' c;
  is_word = λ c. is_upper c || is_lower c || in_range b'0' b'9' c || nat_eq c b'_';
  digit_ascii = λ c h. refl;
  word_ascii = λ c h. refl;
}

masks_all :
    scrub_pii ascii (codes "pay ES12345678901234567890 by 4111 1111 1111 1111, ask a.b@c.example")
    ≡ codes "pay [IBAN_REDACTED] by [CARD_REDACTED], ask [EMAIL_REDACTED]"
unfolding scrub_pii sub sub_from match_regex times up_to
masks_all = refl

-- What is left in clear: card numbers of nineteen digits, or after a letter, the end of an IBAN that is
-- printed in groups, and an e-mail address in capitals.
left_in_clear :
    (scrub_pii ascii (codes "6304000000000000000 x4111111111111111")
      ≡ codes "6304000000000000000 x4111111111111111")
    × (scrub_pii ascii (codes "ES91 2100 0418 4502 0005 1332") ≡ codes "ES91 [CARD_REDACTED]1332")
    × (scrub_pii ascii (codes "A.B@C.EXAMPLE") ≡ codes "A.B@C.EXAMPLE")
unfolding scrub_pii sub sub_from match_regex times up_to
left_in_clear = (refl, refl, refl)

-- Masking again may mask more: the mask of the address uncovers the card number.
second_run_masks_more :
    (scrub_pii ascii (codes "a@b.cc4111111111111111") ≡ codes "[EMAIL_REDACTED]4111111111111111")
    × (scrub_pii ascii (scrub_pii ascii (codes "a@b.cc4111111111111111"))
        ≡ codes "[EMAIL_REDACTED][CARD_REDACTED]")
unfolding scrub_pii sub sub_from match_regex times up_to
second_run_masks_more = (refl, refl)

first_match_iff_example :
    ((first_match ascii (iban ascii) start ≡ none)
      ↔ ((b : Place) → ¬ Reads ascii (iban ascii) start b))
    × ((b : Place)
        → first_match ascii (iban ascii) start ≡ some b
        → Reads ascii (iban ascii) start b)
first_match_iff_example = first_match_iff ascii (iban ascii) start

scrub_pii-IsMasked_example : IsMasked ascii (scrub_pii ascii (codes "to a.b@c.example"))
scrub_pii-IsMasked_example = scrub_pii-IsMasked ascii (codes "to a.b@c.example")

clean_text :
    NoneIn (WordsOf (iban ascii)) (codes "pay 5")
    × NoneIn (WordsOf (card ascii)) (codes "pay 5")
    × NoneIn (WordsOf (email ascii)) (codes "pay 5")
clean_text = (
  short-NoneIn (WordsOf (iban ascii)) 15 (codes "pay 5") (WordsOf-length (iban ascii))
      (omega arith),
  short-NoneIn (WordsOf (card ascii)) 13 (codes "pay 5") (WordsOf-length (card ascii))
      (omega arith),
  short-NoneIn (WordsOf (email ascii)) 6 (codes "pay 5") (WordsOf-length (email ascii))
      (omega arith),
)

scrub_pii_spares_clean_example : scrub_pii ascii (codes "pay 5") ≡ codes "pay 5"
scrub_pii_spares_clean_example =
    scrub_pii_spares_clean ascii (codes "pay 5") clean_text.0 clean_text.1 clean_text.2
