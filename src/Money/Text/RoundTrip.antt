-- ===== src/Money/Text/RoundTrip.antt =====
-- What Money.String prints, NewFromExternalString reads back.
use go_challenge_fc.Base.{
  ℕ, zero, suc, ◌+◌, ◌*◌, ◌/◌, ◌%◌, ◌<◌, ◌≡◌, ◌∙◌, refl, Bool, true, false, ◌&&◌, List, [], ◌∷◌,
  ◌++◌, some, arith, String, ◌==◌,
}
use go_challenge_fc.Base.Int.{pos, two_63, wrap64}
use go_challenge_fc.Base.Text.{has, has_prefix, length}
use go_challenge_fc.Errs.{ok}
use go_challenge_fc.Money.Defs.{valid_currency, validate_currency}
use go_challenge_fc.Money.Text.{
  digits_from, digits, two_digits, print, Unicode, rune_len, byte_len, ascii_digit, is_digit,
  all_digits_from, is_all_digits, lower, is_special, count_dots, before_dot, after_dot, scan,
  parse_int, parse_parts, parse_decimal_string, new_from_external_string,
}

-- All of a text is ASCII digits.
unfoldable pub all_ascii : List ℕ → Bool
all_ascii [] = true
all_ascii (c ∷ s) = ascii_digit c && all_ascii s

digits_from-ascii :
    (f n : ℕ) (acc : List ℕ) → all_ascii acc ≡ true → all_ascii (digits_from f n acc) ≡ true
unfolding digits_from all_ascii
digits_from-ascii zero n acc h = h
digits_from-ascii (suc f) n acc h =
    ground (arith, digits_from-ascii f (n / 10) ((b'0' + n % 10) ∷ acc))

-- The digits of `n` before a text are read as `n`.
scan-digits_from : (f n : ℕ) (acc : List ℕ) → n < f → scan (digits_from f n acc) 0 ≡ scan acc n
unfolding digits_from scan
scan-digits_from zero n acc h = ground arith
scan-digits_from (suc f) n acc h =
    ground (arith, scan-digits_from f (n / 10) ((b'0' + n % 10) ∷ acc))

digits_from-has_digit :
    (f n : ℕ) (acc : List ℕ)
    → has_prefix b'-' acc ≡ false
    → has_prefix b'-' (digits_from f n acc) ≡ false
unfolding digits_from
digits_from-has_digit zero n acc h = h
digits_from-has_digit (suc f) n acc h =
    ground (arith, digits_from-has_digit f (n / 10) ((b'0' + n % 10) ∷ acc))

length-digits_from :
    (f n : ℕ) (acc : List ℕ)
    → (length acc == 0) ≡ false
    → (length (digits_from f n acc) == 0) ≡ false
unfolding digits_from
length-digits_from zero n acc h = h
length-digits_from (suc f) n acc h =
    ground (arith, length-digits_from f (n / 10) ((b'0' + n % 10) ∷ acc))

-- Facts on a text of ASCII digits, a dot, and more.
module _ (u : Unicode) (ys : List ℕ) where
  pub ascii-all_digits : (xs : List ℕ) → all_ascii xs ≡ true → all_digits_from u xs ≡ true
  unfolding all_ascii all_digits_from is_digit
  ascii-all_digits [] h = refl
  ascii-all_digits (x ∷ xs) h = ground (arith, ascii-all_digits xs)

  pub before_dot-ascii : (xs : List ℕ) → all_ascii xs ≡ true → before_dot (xs ++ (b'.' ∷ ys)) ≡ xs
  unfolding all_ascii before_dot
  before_dot-ascii [] h = refl
  before_dot-ascii (x ∷ xs) h = ground (arith, before_dot-ascii xs)

  pub after_dot-ascii : (xs : List ℕ) → all_ascii xs ≡ true → after_dot (xs ++ (b'.' ∷ ys)) ≡ ys
  unfolding all_ascii after_dot
  after_dot-ascii [] h = refl
  after_dot-ascii (x ∷ xs) h = ground (arith, after_dot-ascii xs)

  pub count_dots-ascii :
      (xs : List ℕ) → all_ascii xs ≡ true → count_dots (xs ++ (b'.' ∷ ys)) ≡ suc (count_dots ys)
  unfolding all_ascii count_dots
  count_dots-ascii [] h = refl
  count_dots-ascii (x ∷ xs) h = ground (arith, count_dots-ascii xs)

  pub has-ascii :
      (c : ℕ) (xs : List ℕ)
      → 57 < c
      → all_ascii xs ≡ true
      → has c ys ≡ false
      → has c (xs ++ (b'.' ∷ ys)) ≡ false
  unfolding all_ascii
  has-ascii c [] hc h hy = ground arith
  has-ascii c (x ∷ xs) hc h hy = ground (arith, has-ascii c xs)

pub special-ascii :
    (u : Unicode) (c : ℕ) (s : List ℕ) → ascii_digit c ≡ true → is_special (lower u (c ∷ s)) ≡ false
unfolding is_special lower
special-ascii u c s h = ground arith

-- Digits, a dot and two digits pass the checks of the parser.
parse-digits :
    (u : Unicode) (x : ℕ) (xs : List ℕ) (d : ℕ)
    → all_ascii (x ∷ xs) ≡ true
    → d < 100
    → parse_decimal_string u ((x ∷ xs) ++ (b'.' ∷ two_digits d)) false
      ≡ parse_parts u (x ∷ xs) (two_digits d) false
unfolding parse_decimal_string all_ascii two_digits byte_len rune_len is_all_digits all_digits_from
    is_digit before_dot after_dot count_dots
parse-digits u x xs d h hd =
    let tail = (b'0' + d / 10) ∷ (b'0' + d % 10) ∷ [] in
    ground (
      arith,
      special-ascii u x (xs ++ (b'.' ∷ tail)),
      has-ascii u tail b'e' (x ∷ xs),
      has-ascii u tail b'E' (x ∷ xs),
      count_dots-ascii u tail (x ∷ xs),
      before_dot-ascii u tail (x ∷ xs),
      after_dot-ascii u tail (x ∷ xs),
    )

scan-two_digits : (d : ℕ) → d < 100 → scan (two_digits d) 0 ≡ some d
unfolding scan two_digits
scan-two_digits d h = ground arith

pub parse_int-digits :
    (x : ℕ) (xs : List ℕ) (n : ℕ)
    → scan (x ∷ xs) 0 ≡ some n
    → n < two_63
    → parse_int (x ∷ xs) ≡ (n, true)
unfolding parse_int
parse_int-digits x xs n hs h = rw (parse_int, hs) (ground arith)

parse_int-two_digits : (d : ℕ) → d < 100 → parse_int (two_digits d) ≡ (d, true)
unfolding two_digits
parse_int-two_digits d h = parse_int-digits _ _ d (scan-two_digits d h) (ground arith)

-- The value of digits and two digits more.
parse_parts-digits :
    (u : Unicode) (x : ℕ) (xs : List ℕ) (n d : ℕ)
    → all_ascii (x ∷ xs) ≡ true
    → scan (x ∷ xs) 0 ≡ some n
    → d < 100
    → n * 100 + d < two_63
    → parse_parts u (x ∷ xs) (two_digits d) false ≡ ok (pos (n * 100 + d))
unfolding parse_parts is_all_digits wrap64
parse_parts-digits u x xs n d h hs hd fits =
    rw (parse_int-digits x xs n hs (ground arith), parse_int-two_digits d hd)
      (ground (arith, ascii-all_digits u [] (x ∷ xs)))

pub digits-ascii : (n : ℕ) → all_ascii (digits n) ≡ true
unfolding digits all_ascii
digits-ascii n = digits_from-ascii (suc n) n [] refl

pub scan-digits : (n : ℕ) → scan (digits n) 0 ≡ some n
unfolding digits scan
scan-digits n = scan-digits_from (suc n) n [] (ground arith)

parse-print_parts :
    (u : Unicode) (s : List ℕ) (n d : ℕ)
    → all_ascii s ≡ true
    → scan s 0 ≡ some n
    → (length s == 0) ≡ false
    → d < 100
    → n * 100 + d < two_63
    → parse_decimal_string u (s ++ (b'.' ∷ two_digits d)) false ≡ ok (pos (n * 100 + d))
parse-print_parts u [] n d h hs ne hd fits = ground arith
parse-print_parts u (x ∷ xs) n d h hs ne hd fits =
    parse-digits u x xs d h hd ∙ parse_parts-digits u x xs n d h hs hd fits

pub digits-nonempty : (n : ℕ) → (length (digits n) == 0) ≡ false
unfolding digits digits_from
digits-nonempty n = ground (arith, length-digits_from n (n / 10) ((b'0' + n % 10) ∷ []))

print_pos :
    (n : ℕ) (c : String)
    → print (record { amount = pos n; currency = c })
      ≡ digits (n / 100) ++ (b'.' ∷ two_digits (n % 100))
unfolding print
print_pos n c = ground arith

-- For a supported currency and an int64 amount that is not negative, reading back what Money.String
-- prints gives the same amount of money.
pub parse-print :
    (u : Unicode) (n : ℕ) (c : String)
    → valid_currency c ≡ true
    → n < two_63
    → new_from_external_string u (print (record { amount = pos n; currency = c })) c
      ≡ ok (record { amount = pos n; currency = c })
unfolding new_from_external_string validate_currency
parse-print u n c known h =
    rw
      (
        known,
        print_pos n c,
        parse-print_parts u (digits (n / 100)) (n / 100) (n % 100) (digits-ascii (n / 100))
            (scan-digits (n / 100)) (digits-nonempty (n / 100)) (ground arith) (ground arith),
      )
      (ground arith)
