-- ===== src/Store/Tables/Transactions/Columns.antt =====
-- The columns of `wager_transactions`: what WagerTransactionRepository.Create and Update write, and
-- what scan and transaction.Rehydrate read back.
use mathlib.Core.Option
use go_challenge_fc.Base.{
  ◌≡◌, refl, ℕ, true, false, Option, none, some, String, str_eq, if◌then◌else◌, arith, eq_iff,
  subst, Bool-cases, inl, inr,
}
use go_challenge_fc.Base.Int.{ℤ}
use go_challenge_fc.Money.Defs.{Money, new_from_int64}
use go_challenge_fc.Store.Tables.Rows.{in_currency_code}
use go_challenge_fc.Store.Tables.Transactions.{transaction_row_ok, set_transaction}
use go_challenge_fc.Transaction.Defs.{
  other, WagerTransaction, Kind, Status, kind_text, kind_of_text, opening, bet, win, loss, refund,
  rollback, pending, pending_reference, processed, rejected, failed, is_known,
}

-- A row; `none` is NULL.
pub record Row : Type 0 where
  pub id : ℕ
  pub wallet_id : ℕ
  pub player_id : ℕ
  pub provider_id : Option String
  pub external_transaction_id : Option String
  pub idempotency_key : Option String
  pub payload_hash : Option String
  pub round_id : Option String
  pub game_id : Option String
  pub kind : String
  pub status : String
  pub money_amount : ℤ
  pub money_currency : Option String
  pub reference_external_transaction_id : Option String
  pub reference_transaction_id : Option ℕ
  pub result_balance_amount : Option ℤ
  pub result_balance_currency : Option String
  pub failure_code : Option String
  pub retry_count : ℤ
  pub retry_after : Option ℕ
  pub correlation_id : Option ℕ
  pub created_at : ℕ
  pub updated_at : ℕ

-- string(status), and transaction.Status(text) for the texts of the enum.
unfoldable pub status_text : Status → String
status_text pending = "PENDING"
status_text pending_reference = "PENDING_REFERENCE"
status_text processed = "PROCESSED"
status_text rejected = "REJECTED"
status_text failed = "FAILED"

unfoldable pub status_of_text : String → Option Status
status_of_text s =
    if str_eq s "PENDING"
    then some pending
    else if str_eq s "PENDING_REFERENCE"
    then some pending_reference
    else if str_eq s "PROCESSED"
    then some processed
    else if str_eq s "REJECTED"
    then some rejected
    else if str_eq s "FAILED"
    then some failed
    else none

-- resBalAmt and resBalCur
abbrev pub amount_of : Option Money → Option ℤ
amount_of none = none
amount_of (some m) = some m.amount

abbrev pub currency_of : Option Money → Option String
currency_of none = none
currency_of (some m) = some m.currency

-- The arguments of Create. `keep` is what the driver and a TIMESTAMPTZ keep of a time: it is less
-- precise than time.Now().
unfoldable pub create_row : (ℕ → ℕ) → WagerTransaction → Row
unfolding kind_text status_text
create_row keep t = record {
  id = t.id;
  wallet_id = t.wallet_id;
  player_id = t.player_id;
  provider_id = t.provider_id;
  external_transaction_id = t.external_transaction_id;
  idempotency_key = t.idempotency_key;
  payload_hash = t.payload_hash;
  round_id = t.round_id;
  game_id = t.game_id;
  kind = kind_text t.kind;
  status = status_text t.status;
  money_amount = t.money.amount;
  money_currency = if str_eq t.money.currency "" then none else some t.money.currency;
  reference_external_transaction_id = t.reference_external_transaction_id;
  reference_transaction_id = t.reference_transaction_id;
  result_balance_amount = amount_of t.result_balance;
  result_balance_currency = currency_of t.result_balance;
  failure_code = t.failure_code;
  retry_count = t.retry_count;
  retry_after = Option.map keep t.retry_after;
  correlation_id = t.correlation_id;
  created_at = keep t.created_at;
  updated_at = keep t.updated_at;
}

-- The columns that Update sets.
unfoldable pub update_row : (ℕ → ℕ) → WagerTransaction → Row → Row
unfolding status_text
update_row keep t r = record r {
  status = status_text t.status;
  reference_transaction_id = t.reference_transaction_id;
  result_balance_amount = amount_of t.result_balance;
  result_balance_currency = currency_of t.result_balance;
  failure_code = t.failure_code;
  retry_count = t.retry_count;
  retry_after = Option.map keep t.retry_after;
  updated_at = keep t.updated_at;
}

-- `if resultBalanceAmount != nil && resultBalanceCurrencyStr != nil`
abbrev pub balance_of : Option ℤ → Option String → Option Money
unfolding new_from_int64
balance_of (some a) (some c) = some (new_from_int64 a c)
balance_of _ _ = none

-- Rehydrate, with the kind, the status and the currency that scan has read.
unfoldable pub rehydrate_transaction : Row → Status → String → WagerTransaction
unfolding kind_of_text new_from_int64
rehydrate_transaction r status currency = record {
  id = r.id;
  wallet_id = r.wallet_id;
  player_id = r.player_id;
  provider_id = r.provider_id;
  external_transaction_id = r.external_transaction_id;
  idempotency_key = r.idempotency_key;
  payload_hash = r.payload_hash;
  round_id = r.round_id;
  game_id = r.game_id;
  kind = kind_of_text r.kind;
  status = status;
  money = new_from_int64 r.money_amount currency;
  reference_external_transaction_id = r.reference_external_transaction_id;
  reference_transaction_id = r.reference_transaction_id;
  result_balance = balance_of r.result_balance_amount r.result_balance_currency;
  failure_code = r.failure_code;
  retry_count = r.retry_count;
  retry_after = r.retry_after;
  correlation_id = r.correlation_id;
  created_at = r.created_at;
  updated_at = r.updated_at;
}

abbrev pub rehydrated : Row → Option Status → Option String → Option WagerTransaction
rehydrated r (some status) (some currency) = some (rehydrate_transaction r status currency)
rehydrated r _ _ = none

-- scan; none where the driver cannot read a column: a NULL in one that is a text.
unfoldable pub scan_transaction : Row → Option WagerTransaction
scan_transaction r = rehydrated r (status_of_text r.status) r.money_currency

status_round : (s : Status) → status_of_text (status_text s) ≡ some s
unfolding status_of_text status_text
status_round pending = refl
status_round pending_reference = refl
status_round processed = refl
status_round rejected = refl
status_round failed = refl

kind_round : (k : Kind) → is_known k ≡ true → kind_of_text (kind_text k) ≡ k
unfolding kind_of_text kind_text is_known
kind_round opening h = refl
kind_round bet h = refl
kind_round win h = refl
kind_round loss h = refl
kind_round refund h = refl
kind_round rollback h = refl
kind_round (other s) h = cc

balance_round : (b : Option Money) → balance_of (amount_of b) (currency_of b) ≡ b
unfolding new_from_int64
balance_round none = refl
balance_round (some m) = refl

supported_text : (c : String) → in_currency_code c ≡ true → str_eq c "" ≡ false
unfolding in_currency_code
supported_text c h = elim (Bool-cases (str_eq c "")) [
  | inl blank ↦
      let unsupported = subst (λ s. in_currency_code s ≡ true) ((eq_iff c "").0 blank) h in cc
  | inr e ↦ e
]

currency_set :
    (x : WagerTransaction) → transaction_row_ok x ≡ true → str_eq x.money.currency "" ≡ false
unfolding transaction_row_ok
currency_set x h = ground (arith, supported_text x.money.currency)

known_kind : (x : WagerTransaction) → transaction_row_ok x ≡ true → is_known x.kind ≡ true
unfolding transaction_row_ok
known_kind x h = ground arith

-- The transaction with each of its times as the column keeps it.
abbrev pub with_times : (ℕ → ℕ) → WagerTransaction → WagerTransaction
with_times keep x = record x {
  retry_after = Option.map keep x.retry_after;
  created_at = keep x.created_at;
  updated_at = keep x.updated_at;
}

-- For a transaction that meets the constraints of its table, where a TIMESTAMPTZ keeps of a time
-- what `keep` does: the row that Create inserts is read back as that transaction, its times as they
-- are kept, and after an Update with another one, as the transaction with the eight columns of the
-- update taken from the other, with the times as they are kept.
pub scan-create :
    (keep : ℕ → ℕ) (x y : WagerTransaction)
    → transaction_row_ok x ≡ true
    → (scan_transaction (create_row keep x) ≡ some (with_times keep x))
      × (scan_transaction (update_row keep y (create_row keep x))
          ≡ some (with_times keep (set_transaction y x)))
unfolding scan_transaction create_row update_row rehydrate_transaction set_transaction
    new_from_int64
scan-create keep x y h = (
  rw
      (
        status_round x.status,
        currency_set x h,
        kind_round x.kind (known_kind x h),
        balance_round x.result_balance,
      )
      refl,
  rw
      (
        status_round y.status,
        currency_set x h,
        kind_round x.kind (known_kind x h),
        balance_round y.result_balance,
      )
      refl,
)
