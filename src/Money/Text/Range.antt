-- ===== src/Money/Text/Range.antt =====
-- The parser of money.go gives int64 amounts.
use go_challenge_fc.Base.{arith, ◌≡◌, List, ℕ, Bool, true, false, String}
use go_challenge_fc.Base.Int.{ℤ, IsInt64, wrap64-IsInt64}
use go_challenge_fc.Errs.{Result, ok, err, Error, reject_if, ◌>>◌, ◌>>=◌}
use go_challenge_fc.Money.Defs.{Money}
use go_challenge_fc.Money.Text.{
  Unicode, parse_parts, parse_decimal_string, new_from_external_string,
}

-- An amount that is read is an int64.
abbrev Fits : Result ℤ → Type 0
Fits (ok a) = IsInt64 a
Fits (err e) = Unit

reject_if-Fits : (b : Bool) (e : Error) (r : Result ℤ) → Fits r → Fits (reject_if b e >> r)
reject_if-Fits true e r h = tt
reject_if-Fits false e r h = h

ruleset checks = (reject_if-Fits)

module _ (u : Unicode) where
  parse_parts-Fits : (s d : List ℕ) (negative : Bool) → Fits (parse_parts u s d negative)
  unfolding parse_parts
  parse_parts-Fits s d true = search (checks, wrap64-IsInt64)
  parse_parts-Fits s d false = search (checks, wrap64-IsInt64)

  parse_decimal_string-Fits : (s : List ℕ) (b : Bool) → Fits (parse_decimal_string u s b)
  unfolding parse_decimal_string
  parse_decimal_string-Fits s b = search (checks, parse_parts-Fits) depth 20

  amount_read :
      (c : String) (v : Result (Unit {0})) (r : Result ℤ) {m : Money}
      → Fits r
      → (v >> (r >>= λ a. ok (record { amount = a; currency = c }))) ≡ ok m
      → IsInt64 m.amount
  amount_read c (ok _) (ok a) h e = ground (arith, h, e)
  amount_read c (ok _) (err x) h e = cc
  amount_read c (err x) r h e = cc

  pub new_from_external_string-IsInt64 :
      (s : List ℕ) (c : String) {m : Money}
      → new_from_external_string u s c ≡ ok m
      → IsInt64 m.amount
  unfolding new_from_external_string
  new_from_external_string-IsInt64 s c = amount_read c _ _ (parse_decimal_string-Fits s false)
