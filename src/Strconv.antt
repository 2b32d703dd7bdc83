-- ===== src/Strconv.antt =====
-- strconv.Atoi over code points, as internal/http/handler/wallet.go and
-- internal/infra/config/config.go use it.
use go_challenge_fc.Base.{
  ℕ, Bool, true, false, List, [], ◌∷◌, Option, none, some, leb, ◌==◌, if◌then◌else◌,
}
use go_challenge_fc.Base.Int.{ℤ, pos, sub_ℕ, pos_part, neg_part, max_int64, min_int64}
use go_challenge_fc.Money.Text.{scan}

-- strconv.Atoi of the digits after a sign, and of a text; none where it fails.
abbrev pub atoi_digits : Bool → Option ℕ → Option ℤ
atoi_digits negative none = none
atoi_digits false (some n) = if leb n (pos_part max_int64) then some (pos n) else none
atoi_digits true (some n) = if leb n (neg_part min_int64) then some (sub_ℕ 0 n) else none

abbrev pub scan_digits : List ℕ → Option ℕ
scan_digits [] = none
scan_digits (c ∷ s) = scan (c ∷ s) 0

unfoldable pub atoi : List ℕ → Option ℤ
unfolding scan
atoi [] = none
atoi (c ∷ s) =
    if c == b'-'
    then atoi_digits true (scan_digits s)
    else if c == b'+'
    then atoi_digits false (scan_digits s)
    else atoi_digits false (scan_digits (c ∷ s))
