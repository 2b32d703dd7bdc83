-- ===== src/Money/Arithmetic.antt =====
-- The checked int64 arithmetic of money.go is that of the integers.
use mathlib.Core.Logic.{◌↔◌}
use go_challenge_fc.Base.{sym, ap, ◌∙◌, subst, ◌≡◌, ◌≢◌, arith, eq_iff}
use go_challenge_fc.Base.Int.{pos, ◌+ℤ◌, ◌-ℤ◌, wrap64_id, IsInt64, min_int64, max_int64}
use go_challenge_fc.Errs.{ok}
use go_challenge_fc.Money.Defs.{Money, add, sub, neg}

-- The sum of two int64 amounts in one currency is returned if it is an int64 value.
pub add_fits :
    (m n : Money)
    → m.currency ≡ n.currency
    → IsInt64 m.amount
    → IsInt64 n.amount
    → IsInt64 (m.amount +ℤ n.amount)
    → add m n ≡ ok (record { amount = m.amount +ℤ n.amount; currency = m.currency })
unfolding add ◌-ℤ◌ ◌+ℤ◌
add_fits m n same hm hn fits = ground (
  arith,
  eq_iff m.currency n.currency,
  wrap64_id (m.amount +ℤ n.amount),
  wrap64_id (max_int64 -ℤ n.amount),
  wrap64_id (min_int64 -ℤ n.amount),
)

-- For two int64 amounts whose sum is no int64 value, Add returns no amount.
pub add_refuses :
    (m n : Money)
    → IsInt64 m.amount
    → IsInt64 n.amount
    → ¬ IsInt64 (m.amount +ℤ n.amount)
    → (r : Money) → add m n ≢ ok r
unfolding add ◌-ℤ◌ ◌+ℤ◌
add_refuses m n hm hn misfit r e = ground (
  arith,
  eq_iff m.currency n.currency,
  wrap64_id (max_int64 -ℤ n.amount),
  wrap64_id (min_int64 -ℤ n.amount),
)

-- An int64 amount other than math.MinInt64 is negated exactly.
pub neg_exact :
    (m : Money)
    → IsInt64 m.amount
    → m.amount ≢ min_int64
    → neg m ≡ ok (record { amount = pos 0 -ℤ m.amount; currency = m.currency })
unfolding neg ◌-ℤ◌
neg_exact m hm h = ground (arith, wrap64_id (pos 0 -ℤ m.amount))

-- What a successful Add returns.
pub add_ok :
    (m n : Money) {r : Money}
    → IsInt64 m.amount
    → IsInt64 n.amount
    → add m n ≡ ok r
    → (m.currency ≡ n.currency)
      × (r ≡ record { amount = m.amount +ℤ n.amount; currency = m.currency })
      × IsInt64 r.amount
unfolding add ◌-ℤ◌ ◌+ℤ◌
add_ok m n hm hn e = ground (
  arith,
  eq_iff m.currency n.currency,
  wrap64_id (m.amount +ℤ n.amount),
  wrap64_id (max_int64 -ℤ n.amount),
  wrap64_id (min_int64 -ℤ n.amount),
)

-- The difference of two int64 amounts in one currency is returned if it is an int64 value and the
-- second amount is not math.MinInt64.
pub sub_fits :
    (m n : Money)
    → m.currency ≡ n.currency
    → IsInt64 m.amount
    → IsInt64 n.amount
    → n.amount ≢ min_int64
    → IsInt64 (m.amount -ℤ n.amount)
    → sub m n ≡ ok (record { amount = m.amount -ℤ n.amount; currency = m.currency })
unfolding sub ◌-ℤ◌ ◌+ℤ◌
sub_fits m n same hm hn h fits = ground (
  arith,
  eq_iff m.currency n.currency,
  neg_exact n hn h,
  add_fits m (record { amount = pos 0 -ℤ n.amount; currency = n.currency }) same hm,
)

-- What a successful Sub returns.
pub sub_ok :
    (m n : Money) {r : Money}
    → IsInt64 m.amount
    → IsInt64 n.amount
    → sub m n ≡ ok r
    → (m.currency ≡ n.currency)
      × (r ≡ record { amount = m.amount -ℤ n.amount; currency = m.currency })
      × IsInt64 r.amount
unfolding sub neg ◌-ℤ◌ ◌+ℤ◌
sub_ok m n {r} hm hn e = ground (
  arith,
  eq_iff m.currency n.currency,
  wrap64_id (pos 0 -ℤ n.amount),
  add_ok m (record { amount = pos 0 -ℤ n.amount; currency = n.currency }) {r = r} hm,
)

module _ (m n : Money) (hm : IsInt64 m.amount) (hn : IsInt64 n.amount) (r : Money) where
  -- Add of two int64 amounts returns an amount exactly if their currencies are the same and their
  -- sum is an int64 value, and then it returns the sum.
  pub add_exact : (add m n ≡ ok r) ↔ (
      (m.currency ≡ n.currency)
      × IsInt64 (m.amount +ℤ n.amount)
      × (r ≡ record { amount = m.amount +ℤ n.amount; currency = m.currency }))
  add_exact = (
    (λ e.
        let (same, sum, fits) = add_ok m n {r = r} hm hn e in
        (same, subst (λ (x : Money). IsInt64 x.amount) sum fits, sum)),
    (λ (same, fits, sum). add_fits m n same hm hn fits ∙ ap ok (sym sum)),
  )

  sub_not_min : sub m n ≡ ok r → n.amount ≢ min_int64
  unfolding sub neg
  sub_not_min e h = ground (arith, e, h)

  -- Sub of two int64 amounts returns an amount exactly if their currencies are the same, the second
  -- is not math.MinInt64 and their difference is an int64 value, and then it returns the
  -- difference.
  pub sub_exact : (sub m n ≡ ok r) ↔ (
      (m.currency ≡ n.currency)
      × (n.amount ≢ min_int64)
      × IsInt64 (m.amount -ℤ n.amount)
      × (r ≡ record { amount = m.amount -ℤ n.amount; currency = m.currency }))
  sub_exact = (
    (λ e.
        let (same, difference, fits) = sub_ok m n {r = r} hm hn e in
        (same, sub_not_min e, subst (λ (x : Money). IsInt64 x.amount) difference fits, difference)),
    (λ (same, h, fits, difference). sub_fits m n same hm hn h fits ∙ ap ok (sym difference)),
  )
