-- ===== src/Money/Defs.antt =====
-- internal/domain/money/money.go: amounts in cents as int64, and their arithmetic.
-- The printer and the parser are in `Money/Text`.
use go_challenge_fc.Base.{Bool, not, ◌&&◌, ◌||◌, String, str_eq, if◌then◌else◌}
use go_challenge_fc.Base.Int.{ℤ, pos, ◌+ℤ◌, ◌-ℤ◌, ltb_ℤ, eqb_ℤ, wrap64, max_int64, min_int64}
use go_challenge_fc.Errs.{
  Result, ok, err, plain, ◌>>=◌, operand_currency, add_overflow, add_underflow, neg_overflow,
  unsupported_currency,
}

-- `Currency` is a string; these are its constants.
abbrev pub brl : String
brl = "BRL"

abbrev pub usd : String
usd = "USD"

abbrev pub eur : String
eur = "EUR"

-- validCurrencies
unfoldable pub valid_currency : String → Bool
valid_currency c = str_eq c brl || str_eq c usd || str_eq c eur

pub record Money : Type 0 where
  pub amount : ℤ
  pub currency : String

unfoldable pub new_from_int64 : ℤ → String → Money
new_from_int64 a c = record { amount = a; currency = c }

unfoldable pub zero_money : String → Money
zero_money c = record { amount = pos 0; currency = c }

unfoldable pub is_zero : Money → Bool
is_zero m = eqb_ℤ m.amount (pos 0)

unfoldable pub is_positive : Money → Bool
is_positive m = ltb_ℤ (pos 0) m.amount

unfoldable pub is_negative : Money → Bool
is_negative m = ltb_ℤ m.amount (pos 0)

unfoldable pub equal : Money → Money → Bool
equal m n = eqb_ℤ m.amount n.amount && str_eq m.currency n.currency

-- Each `-` and `+` of the source is an int64 operation, so it is wrapped.
unfoldable pub add : Money → Money → Result Money
add m n =
    if not (str_eq m.currency n.currency)
    then err (plain operand_currency)
    else if ltb_ℤ (pos 0) n.amount && ltb_ℤ (wrap64 (max_int64 -ℤ n.amount)) m.amount
    then err (plain add_overflow)
    else if ltb_ℤ n.amount (pos 0) && ltb_ℤ m.amount (wrap64 (min_int64 -ℤ n.amount))
    then err (plain add_underflow)
    else ok (record { amount = wrap64 (m.amount +ℤ n.amount); currency = m.currency })

unfoldable pub neg : Money → Result Money
neg m =
    if eqb_ℤ m.amount min_int64
    then err (plain neg_overflow)
    else ok (record { amount = wrap64 (pos 0 -ℤ m.amount); currency = m.currency })

unfoldable pub sub : Money → Money → Result Money
sub m n =
    if not (str_eq m.currency n.currency)
    then err (plain operand_currency)
    else neg n >>= λ k. add m k

unfoldable pub greater_than : Money → Money → Result Bool
greater_than m n =
    if not (str_eq m.currency n.currency)
    then err (plain operand_currency)
    else ok (ltb_ℤ n.amount m.amount)

unfoldable pub less_than : Money → Money → Result Bool
less_than m n =
    if not (str_eq m.currency n.currency)
    then err (plain operand_currency)
    else ok (ltb_ℤ m.amount n.amount)

unfoldable pub greater_than_or_equal : Money → Money → Result Bool
greater_than_or_equal m n = greater_than m n >>= λ gt. ok (gt || equal m n)

unfoldable pub validate_currency : String → Result (Unit {0})
unfolding valid_currency
validate_currency c = if not (valid_currency c) then err (plain unsupported_currency) else ok tt
