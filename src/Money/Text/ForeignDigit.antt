-- ===== src/Money/Text/ForeignDigit.antt =====
-- How parseDecimalString reads a decimal part of one digit that is two bytes long.
use go_challenge_fc.Base.{
  ℕ, ◌*◌, ◌<◌, ◌≡◌, ◌∙◌, true, false, List, [], ◌∷◌, ◌++◌, some, arith, ◌==◌,
}
use go_challenge_fc.Base.Int.{pos, two_63, wrap64}
use go_challenge_fc.Base.Text.{length}
use go_challenge_fc.Errs.{ok}
use go_challenge_fc.Money.Text.{
  Unicode, digits, rune_len, byte_len, is_digit, all_digits_from, is_all_digits, before_dot,
  after_dot, count_dots, scan, parse_int, parse_parts, parse_decimal_string,
}
use go_challenge_fc.Money.Text.RoundTrip.{
  all_ascii, special-ascii, has-ascii, count_dots-ascii, before_dot-ascii, after_dot-ascii,
  ascii-all_digits, parse_int-digits, digits-ascii, scan-digits, digits-nonempty,
}

module _ (u : Unicode) (c : ℕ) (above : 255 < c) (below : c < 2048) (nd : u.is_nd c ≡ true) where
  parse-ascii_foreign :
      (x : ℕ) (xs : List ℕ)
      → all_ascii (x ∷ xs) ≡ true
      → parse_decimal_string u ((x ∷ xs) ++ (b'.' ∷ c ∷ [])) false
        ≡ parse_parts u (x ∷ xs) (c ∷ []) false
  unfolding parse_decimal_string all_ascii byte_len rune_len is_all_digits all_digits_from is_digit
      before_dot after_dot count_dots
  parse-ascii_foreign x xs h = ground (
    arith,
    special-ascii u x (xs ++ (b'.' ∷ c ∷ [])),
    has-ascii u (c ∷ []) b'e' (x ∷ xs),
    has-ascii u (c ∷ []) b'E' (x ∷ xs),
    count_dots-ascii u (c ∷ []) (x ∷ xs),
    before_dot-ascii u (c ∷ []) (x ∷ xs),
    after_dot-ascii u (c ∷ []) (x ∷ xs),
  )

  parse_int-foreign : parse_int (c ∷ []) ≡ (0, false)
  unfolding parse_int scan
  parse_int-foreign = ground arith

  parse_parts-foreign :
      (x : ℕ) (xs : List ℕ) (n : ℕ)
      → all_ascii (x ∷ xs) ≡ true
      → scan (x ∷ xs) 0 ≡ some n
      → n * 100 < two_63
      → parse_parts u (x ∷ xs) (c ∷ []) false ≡ ok (pos (n * 100))
  unfolding parse_parts is_all_digits wrap64
  parse_parts-foreign x xs n h hs fits =
      rw (parse_int-digits x xs n hs (ground arith), parse_int-foreign)
        (ground (arith, ascii-all_digits u [] (x ∷ xs)))

  parse_foreign_from :
      (s : List ℕ) (n : ℕ)
      → all_ascii s ≡ true
      → scan s 0 ≡ some n
      → (length s == 0) ≡ false
      → n * 100 < two_63
      → parse_decimal_string u (s ++ (b'.' ∷ c ∷ [])) false ≡ ok (pos (n * 100))
  parse_foreign_from [] n h hs ne fits = ground arith
  parse_foreign_from (x ∷ xs) n h hs ne fits =
      parse-ascii_foreign x xs h ∙ parse_parts-foreign x xs n h hs fits

  -- A decimal part of one code point between 256 and 2047 that Unicode counts as a digit, so of two
  -- bytes, is accepted and read as no cents at all.
  pub parse-foreign_digit :
      (n : ℕ)
      → n * 100 < two_63
      → parse_decimal_string u (digits n ++ (b'.' ∷ c ∷ [])) false ≡ ok (pos (n * 100))
  parse-foreign_digit n fits =
      parse_foreign_from (digits n) n (digits-ascii n) (scan-digits n) (digits-nonempty n) fits
