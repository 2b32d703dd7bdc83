-- ===== src/Ledger.antt =====
-- internal/domain/ledger/ledger.go: the immutable entries of a wallet's ledger.
pub mod Laws
use go_challenge_fc.Base.{ℕ, Bool, not, ◌||◌, String, str_eq, if◌then◌else◌}
use go_challenge_fc.Errs.{
  Result, ok, err, plain, ◌>>=◌, ◌>>◌, reject_if, entry_amount, entry_currency, debit_violated,
  credit_violated, bad_direction,
}
use go_challenge_fc.Money.Defs.{Money, add, sub, is_positive, equal}

-- `Direction` is a string; these are its constants.
abbrev pub direction_debit : String
direction_debit = "DEBIT"

abbrev pub direction_credit : String
direction_credit = "CREDIT"

-- WalletLedgerEntry
pub record Entry : Type 0 where
  pub id : ℕ
  pub wallet_id : ℕ
  pub transaction_id : ℕ
  pub direction : String
  pub money : Money
  pub balance_before : Money
  pub balance_after : Money
  pub created_at : ℕ

-- The `switch direction`.
unfoldable pub check_direction : String → Money → Money → Money → Result (Unit {0})
unfolding equal
check_direction direction m before after =
    if str_eq direction direction_debit
    then (sub before m >>= λ expected.
        reject_if (not (equal expected after)) (plain debit_violated))
    else if str_eq direction direction_credit
    then (add before m >>= λ expected.
        reject_if (not (equal expected after)) (plain credit_violated))
    else err (plain bad_direction)

-- ledger.New, with the values of uuid.New() and time.Now().
unfoldable pub new_entry : ℕ → ℕ → ℕ → ℕ → String → Money → Money → Money → Result Entry
unfolding check_direction is_positive
new_entry id now wallet txn direction m before after = do
  reject_if (not (is_positive m)) (plain entry_amount)
  reject_if (not (str_eq m.currency before.currency) || not (str_eq m.currency after.currency))
      (plain entry_currency)
  check_direction direction m before after
  ok (record {
    id = id;
    wallet_id = wallet;
    transaction_id = txn;
    direction = direction;
    money = m;
    balance_before = before;
    balance_after = after;
    created_at = now;
  })

unfoldable pub rehydrate_entry : ℕ → ℕ → ℕ → String → Money → Money → Money → ℕ → Entry
rehydrate_entry id wallet txn direction m before after created = record {
  id = id;
  wallet_id = wallet;
  transaction_id = txn;
  direction = direction;
  money = m;
  balance_before = before;
  balance_after = after;
  created_at = created;
}
