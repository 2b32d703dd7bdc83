-- ===== src/Wallet.antt =====
-- internal/domain/wallet/wallet.go. A method takes the time that its time.Now() returns, and gives
-- back the wallet after the call with its result. The proofs are in the children.
pub mod Laws
use go_challenge_fc.Base.{ℕ, Bool, not, ◌||◌, String, str_eq, ◌==◌, if◌then◌else◌}
use go_challenge_fc.Base.Int.{ℤ, pos, ◌+ℤ◌, wrap64}
use go_challenge_fc.Errs.{
  Result, ok, err, domain, ◌>>=◌, ◌>>◌, reject_if, invalid_input, currency_mismatch,
  negative_balance, invalid_amount, insufficient_funds, rollback_insufficient_funds,
}
use go_challenge_fc.Money.Defs.{Money, brl, usd, eur, add, sub, is_positive, is_negative}

-- UUIDs are only compared, so they are numbers; uuid.Nil is 0. Times are numbers too.
pub record Wallet : Type 0 where
  pub id : ℕ
  pub player_id : ℕ
  pub currency : String
  pub balance : Money
  pub version : ℤ
  pub created_at : ℕ
  pub updated_at : ℕ

-- validateCurrency of wallet.go, which has an error of its own.
unfoldable pub check_currency : String → Result (Unit {0})
check_currency c =
    if str_eq c brl || str_eq c usd || str_eq c eur then ok tt else err (domain invalid_input)

unfoldable pub new_wallet : ℕ → ℕ → ℕ → String → Money → Result Wallet
unfolding check_currency is_negative
new_wallet now id player currency initial = do
  reject_if (id == 0) (domain invalid_input)
  reject_if (player == 0) (domain invalid_input)
  check_currency currency
  reject_if (not (str_eq initial.currency currency)) (domain currency_mismatch)
  reject_if (is_negative initial) (domain negative_balance)
  ok (record {
    id = id;
    player_id = player;
    currency = currency;
    balance = initial;
    version = pos 1;
    created_at = now;
    updated_at = now;
  })

unfoldable pub rehydrate_wallet : ℕ → ℕ → String → Money → ℤ → ℕ → ℕ → Wallet
rehydrate_wallet id player currency balance version created updated = record {
  id = id;
  player_id = player;
  currency = currency;
  balance = balance;
  version = version;
  created_at = created;
  updated_at = updated;
}

-- w.validateOperation(m)
unfoldable pub validate_operation : Wallet → Money → Result (Unit {0})
unfolding is_positive
validate_operation w m = do
  reject_if (not (str_eq m.currency w.currency)) (domain currency_mismatch)
  reject_if (not (is_positive m)) (domain invalid_amount)
  ok tt

-- `w.balance = newBalance; w.version++; w.updatedAt = time.Now().UTC()`
unfoldable pub move_balance : ℕ → Money → Wallet → Wallet
move_balance now m w = record w {
  balance = m;
  version = wrap64 (w.version +ℤ pos 1);
  updated_at = now;
}

-- What the caller keeps of a method: the wallet is changed only by a call that succeeds.
abbrev pub settle : Wallet → Result Wallet → Wallet × Result Money
settle w (ok w') = (w', ok w.balance)
settle w (err e) = (w, err e)

-- w.Debit(m) returns the balance before.
unfoldable pub debit : ℕ → Money → Wallet → Wallet × Result Money
unfolding validate_operation move_balance is_negative
debit now m w = settle w (do
  validate_operation w m
  balance ← sub w.balance m
  reject_if (is_negative balance) (domain insufficient_funds)
  ok (move_balance now balance w))

-- w.DebitForRollback(m)
unfoldable pub debit_for_rollback : ℕ → Money → Wallet → Wallet × Result Money
unfolding validate_operation move_balance is_negative
debit_for_rollback now m w = settle w (do
  validate_operation w m
  balance ← sub w.balance m
  reject_if (is_negative balance) (domain rollback_insufficient_funds)
  ok (move_balance now balance w))

-- w.Credit(m)
unfoldable pub credit : ℕ → Money → Wallet → Wallet × Result Money
unfolding validate_operation move_balance
credit now m w =
    settle w (do validate_operation w m; balance ← add w.balance m; ok (move_balance now balance w))
