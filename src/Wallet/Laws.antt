-- ===== src/Wallet/Laws.antt =====
-- The wallet's operations, whose arithmetic is that of int64, against their meaning over the
-- integers.
use go_challenge_fc.Base.{ℕ, ◌≡◌, not, arith, eq_iff, str_eq, if◌then◌else◌}
use go_challenge_fc.Base.Int.{
  min_int64, wrap64_id, ℤ, pos, ◌+ℤ◌, ◌-ℤ◌, ◌≤ℤ◌, ltb_ℤ, IsInt64, max_int64,
}
use go_challenge_fc.Errs.{
  rollback_insufficient_funds, Code, Result, ok, err, domain, plain, currency_mismatch,
  invalid_amount, insufficient_funds, add_overflow,
}
use go_challenge_fc.Money.Arithmetic.{sub_fits}
use go_challenge_fc.Money.Defs.{add, Money}
use go_challenge_fc.Wallet.{credit, debit_for_rollback, Wallet, debit, move_balance}

-- The balance is an int64 that is not negative, in the wallet's currency.
pub record IsSound (w : Wallet) : Type 0 where
  pub in_range : IsInt64 w.balance.amount
  pub not_negative : pos 0 ≤ℤ w.balance.amount
  pub one_currency : w.balance.currency ≡ w.currency

-- The wallet with its balance at `amount`, counted as one more version.
abbrev pub with_amount : ℕ → ℤ → Wallet → Wallet
with_amount now amount w =
    move_balance now (record { amount = amount; currency = w.balance.currency }) w

-- What a debit means over the integers: `short` is the code for missing funds.
abbrev pub debit_meaning : Code → ℕ → Money → Wallet → Wallet × Result Money
debit_meaning short now m w =
    if not (str_eq m.currency w.currency)
    then (w, err (domain currency_mismatch))
    else if not (ltb_ℤ (pos 0) m.amount)
    then (w, err (domain invalid_amount))
    else if ltb_ℤ w.balance.amount m.amount
    then (w, err (domain short))
    else (with_amount now (w.balance.amount -ℤ m.amount) w, ok w.balance)

-- What a credit means over the integers.
abbrev pub credit_meaning : ℕ → Money → Wallet → Wallet × Result Money
credit_meaning now m w =
    if not (str_eq m.currency w.currency)
    then (w, err (domain currency_mismatch))
    else if not (ltb_ℤ (pos 0) m.amount)
    then (w, err (domain invalid_amount))
    else if ltb_ℤ max_int64 (w.balance.amount +ℤ m.amount)
    then (w, err (plain add_overflow))
    else (with_amount now (w.balance.amount +ℤ m.amount) w, ok w.balance)

module _ (now : ℕ) (m : Money) (w : Wallet) (sound : IsSound w) (range : IsInt64 m.amount) where
  -- For a sound wallet and an int64 amount, a debit refuses another currency, an amount that is not
  -- positive and missing funds, and leaves the wallet alone; otherwise it takes the amount off and
  -- returns the balance before.
  pub debit-eq-meaning : debit now m w ≡ debit_meaning insufficient_funds now m w
  unfolding debit ◌-ℤ◌
  debit-eq-meaning = ground (
    arith,
    sound.in_range,
    sound.not_negative,
    sound.one_currency,
    eq_iff m.currency w.currency,
    sub_fits w.balance m,
  )

  -- For a sound wallet and an int64 amount, a rollback's debit does what a debit does, with its own
  -- code for missing funds.
  pub debit_for_rollback-eq-meaning :
      debit_for_rollback now m w ≡ debit_meaning rollback_insufficient_funds now m w
  unfolding debit_for_rollback ◌-ℤ◌
  debit_for_rollback-eq-meaning = ground (
    arith,
    sound.in_range,
    sound.not_negative,
    sound.one_currency,
    eq_iff m.currency w.currency,
    sub_fits w.balance m,
  )

  -- For a sound wallet and an int64 amount, a credit refuses another currency, an amount that is
  -- not positive and a balance beyond int64, and leaves the wallet alone; otherwise it adds the
  -- amount and returns the balance before.
  pub credit-eq-meaning : credit now m w ≡ credit_meaning now m w
  unfolding credit add ◌+ℤ◌ ◌-ℤ◌
  credit-eq-meaning = ground (
    arith,
    sound.in_range,
    sound.not_negative,
    sound.one_currency,
    eq_iff m.currency w.currency,
    eq_iff w.balance.currency m.currency,
    wrap64_id (w.balance.amount +ℤ m.amount),
    wrap64_id (max_int64 -ℤ m.amount),
    wrap64_id (min_int64 -ℤ m.amount),
  )

-- `w'` is `w` with its balance moved by `delta`, which is not 0, and sound.
pub record Moved (w w' : Wallet) (delta : ℤ) : Type 0 where
  pub same_id : w'.id ≡ w.id
  pub same_currency : w'.currency ≡ w.currency
  pub amount : w'.balance.amount ≡ w.balance.amount +ℤ delta
  pub sound : IsSound w'

-- What a method returns if it succeeds.
abbrev pub Moves : Wallet → ℤ → Wallet × Result Money → Type 0
Moves w delta (w', ok before) = (before ≡ w.balance) × Moved w w' delta
Moves w delta (w', err e) = w' ≡ w

module _ (now : ℕ) (m : Money) (w : Wallet) (sound : IsSound w) (range : IsInt64 m.amount) where
  pub debit-Moves : Moves w (pos 0 -ℤ m.amount) (debit now m w)
  unfolding move_balance ◌-ℤ◌ ◌+ℤ◌
  debit-Moves =
      rw (debit-eq-meaning now m w sound range)
        (ground (arith, sound.in_range, sound.not_negative, sound.one_currency))

  pub debit_for_rollback-Moves : Moves w (pos 0 -ℤ m.amount) (debit_for_rollback now m w)
  unfolding move_balance ◌-ℤ◌ ◌+ℤ◌
  debit_for_rollback-Moves =
      rw (debit_for_rollback-eq-meaning now m w sound range)
        (ground (arith, sound.in_range, sound.not_negative, sound.one_currency))

  pub credit-Moves : Moves w m.amount (credit now m w)
  unfolding move_balance ◌-ℤ◌ ◌+ℤ◌
  credit-Moves =
      rw (credit-eq-meaning now m w sound range)
        (ground (arith, sound.in_range, sound.not_negative, sound.one_currency))
