-- ===== src/Money/Text.antt =====
-- Money.String, and parseDecimalString with its callers, over lists of code points.
pub mod Range
pub mod RoundTrip
pub mod ForeignDigit
use go_challenge_fc.Base.{
  ℕ, zero, suc, ◌+◌, ◌-◌, ◌*◌, ◌/◌, ◌%◌, ◌≡◌, refl, Bool, true, false, not, ◌&&◌, ◌||◌, Option,
  none, some, List, [], ◌∷◌, ◌++◌, String, ltb, leb, ◌==◌, if◌then◌else◌, str_eq,
}
use go_challenge_fc.Base.Int.{
  ℤ, pos, negsuc, pos_part, neg_part, ◌-ℤ◌, ltb_ℤ, eqb_ℤ, wrap64, max_int64, min_int64,
}
use go_challenge_fc.Base.Text.{codes, length, codes_eq, has, has_prefix}
use go_challenge_fc.Errs.{
  Result, ok, err, plain, ◌>>=◌, ◌>>◌, reject_if, empty_amount, not_a_number, scientific_notation,
  negative_amount, explicit_sign, decimal_point, decimal_part, integer_part, integer_overflow,
  amount_overflow,
}
use go_challenge_fc.Money.Defs.{Money, validate_currency}

-- fmt's `%d` of a number that is not negative: its digits before `acc`. A fuel above `n` is enough.
unfoldable pub digits_from : ℕ → ℕ → List ℕ → List ℕ
digits_from zero n acc = acc
digits_from (suc f) n acc =
    let rest = digits_from f (n / 10) ((b'0' + n % 10) ∷ acc) in
    if ltb n 10 then (b'0' + n) ∷ acc else rest

unfoldable pub digits : ℕ → List ℕ
unfolding digits_from
digits n = digits_from (suc n) n []

-- fmt's `%02d` below 100
unfoldable pub two_digits : ℕ → List ℕ
two_digits n = (b'0' + n / 10) ∷ (b'0' + n % 10) ∷ []

-- Money.String. The quotients of the source round towards 0, so both branches print the magnitude.
unfoldable pub print : Money → List ℕ
unfolding digits two_digits
print m =
    if ltb_ℤ m.amount (pos 0)
    then b'-' ∷ (digits (neg_part m.amount / 100) ++ (b'.' ∷ two_digits (neg_part m.amount % 100)))
    else digits (pos_part m.amount / 100) ++ (b'.' ∷ two_digits (pos_part m.amount % 100))

-- The tables of Go's `unicode` package beyond Latin-1.
pub record Unicode : Type 0 where
  pub is_nd : ℕ → Bool
  pub to_lower : ℕ → ℕ

-- The bytes of a code point in UTF-8.
unfoldable pub rune_len : ℕ → ℕ
rune_len c = if ltb c 128 then 1 else if ltb c 2048 then 2 else if ltb c 65536 then 3 else 4

-- len(s), which counts bytes
unfoldable pub byte_len : List ℕ → ℕ
unfolding rune_len
byte_len [] = 0
byte_len (c ∷ s) = rune_len c + byte_len s

abbrev pub ascii_digit : ℕ → Bool
ascii_digit c = leb b'0' c && leb c b'9'

-- unicode.IsDigit tests Latin-1 by range and the rest by its table.
unfoldable pub is_digit : Unicode → ℕ → Bool
is_digit u c = if leb c 255 then ascii_digit c else u.is_nd c

unfoldable pub all_digits_from : Unicode → List ℕ → Bool
unfolding is_digit
all_digits_from u [] = true
all_digits_from u (c ∷ s) = if not (is_digit u c) then false else all_digits_from u s

-- isAllDigits
unfoldable pub is_all_digits : Unicode → List ℕ → Bool
unfolding all_digits_from
is_all_digits u s = if length s == 0 then false else all_digits_from u s

-- strings.ToLower
unfoldable pub lower : Unicode → List ℕ → List ℕ
lower u [] = []
lower u (c ∷ s) =
    (if leb b'A' c && leb c b'Z' then c + 32 else if ltb c 128 then c else u.to_lower c) ∷ lower u s

-- The cases of the `switch lower`.
unfoldable pub is_special : List ℕ → Bool
is_special s =
    codes_eq s (codes "nan")
    || codes_eq s (codes "inf")
    || codes_eq s (codes "+inf")
    || codes_eq s (codes "-inf")
    || codes_eq s (codes "infinity")
    || codes_eq s (codes "+infinity")
    || codes_eq s (codes "-infinity")

-- strings.Count(s, ".")
unfoldable pub count_dots : List ℕ → ℕ
count_dots [] = 0
count_dots (c ∷ s) = if c == b'.' then suc (count_dots s) else count_dots s

-- strings.SplitN(s, ".", 2): what stands before the first dot, and after it.
unfoldable pub before_dot : List ℕ → List ℕ
before_dot [] = []
before_dot (c ∷ s) = if c == b'.' then [] else c ∷ before_dot s

unfoldable pub after_dot : List ℕ → List ℕ
after_dot [] = []
after_dot (c ∷ s) = if c == b'.' then s else after_dot s

-- The number that ASCII digits denote; strconv's ErrSyntax is `none`.
unfoldable pub scan : List ℕ → ℕ → Option ℕ
scan [] n = some n
scan (c ∷ s) n = let rest = scan s (n * 10 + (c - b'0')) in if ascii_digit c then rest else none

-- What strconv.ParseInt(s, 10, 64) returns for a text without a sign: its value and whether it
-- succeeded. A syntax error comes with 0, a range error with math.MaxInt64.
unfoldable pub parse_int : List ℕ → ℕ × Bool
unfolding scan
parse_int [] = (0, false)
parse_int (c ∷ s) = elim (scan (c ∷ s) 0) [
  | none ↦ (0, false)
  | some n ↦ if leb n (pos_part max_int64) then (n, true) else (pos_part max_int64, false)
]

-- The end of parseDecimalString, from `negative := false` on. The error of the second ParseInt is
-- dropped, as in the source.
unfoldable pub parse_parts : Unicode → List ℕ → List ℕ → Bool → Result ℤ
unfolding parse_int is_all_digits
parse_parts u int_str dec_str negative = do
  reject_if (length int_str == 0 || not (is_all_digits u int_str)) (plain integer_part)
  let int_val = (parse_int int_str).0
  reject_if (not (parse_int int_str).1) (plain integer_overflow)
  let dec_val = (parse_int dec_str).0
  reject_if (ltb ((pos_part max_int64 - dec_val) / 100) int_val) (plain amount_overflow)
  let result = wrap64 (pos (int_val * 100 + dec_val))
  ok (if negative then wrap64 (pos 0 -ℤ result) else result)

-- intStr[1:]
unfoldable pub skip_first : List ℕ → List ℕ
skip_first [] = []
skip_first (c ∷ s) = s

unfoldable pub parse_decimal_string : Unicode → List ℕ → Bool → Result ℤ
unfolding parse_parts lower is_special count_dots before_dot after_dot byte_len skip_first
parse_decimal_string u s allow_negative = do
  reject_if (length s == 0) (plain empty_amount)
  reject_if (is_special (lower u s)) (plain not_a_number)
  reject_if (has b'e' s || has b'E' s) (plain scientific_notation)
  reject_if (has_prefix b'-' s && not allow_negative) (plain negative_amount)
  reject_if (has_prefix b'+' s) (plain explicit_sign)
  reject_if (not (count_dots s == 1)) (plain decimal_point)
  let int_str = before_dot s
  let dec_str = after_dot s
  reject_if (not (byte_len dec_str == 2) || not (is_all_digits u dec_str)) (plain decimal_part)
  let negative = has_prefix b'-' int_str
  parse_parts u (if negative then skip_first int_str else int_str) dec_str negative

unfoldable pub new_from_external_string : Unicode → List ℕ → String → Result Money
new_from_external_string u s c =
    validate_currency c
    >> (parse_decimal_string u s false >>= λ a. ok (record { amount = a; currency = c }))
