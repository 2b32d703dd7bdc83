-- ===== src/Store/Tables/Transactions.antt =====
-- internal/infra/db/postgres/transaction_repo.go and the table `wager_transactions`.
pub mod Columns
use go_challenge_fc.Money.Defs.{Money}
use go_challenge_fc.Base.{
  ℕ, zero, suc, Bool, true, false, not, ◌&&◌, ◌||◌, List, [], ◌∷◌, Option, none, some, String, leb,
  ◌==◌, if◌then◌else◌,
}
use go_challenge_fc.Base.Int.{negsuc, pos, ltb_ℤ, in_bigint}
use go_challenge_fc.Errs.{
  Result, ok, err, domain, plain, duplicate_operation, transaction_not_found, database,
}
use go_challenge_fc.Store.Tables.Rows.{
  Tables, in_currency_code, find, any, update_where, filter_where, eq_nullable, collides,
}
use go_challenge_fc.Store.Tables.Wallets.{wallet_has_id}
use go_challenge_fc.Transaction.Defs.{WagerTransaction, is_known, is_opening, is_pending_reference}

abbrev pub is_null : Option String → Bool
is_null none = true
is_null (some s) = false

-- A result balance is NULL, or a BIGINT in a currency of the enum.
unfoldable pub balance_row_ok : Option Money → Bool
unfolding in_currency_code
balance_row_ok none = true
balance_row_ok (some m) = in_currency_code m.currency && in_bigint m.amount

-- The CHECK constraints, the enums, and the BIGINT and INT of the table.
unfoldable pub transaction_row_ok : WagerTransaction → Bool
unfolding in_currency_code is_known balance_row_ok
transaction_row_ok t =
    is_known t.kind
    && in_currency_code t.money.currency
    && in_bigint t.money.amount
    && balance_row_ok t.result_balance
    && not (ltb_ℤ t.retry_count (negsuc 2147483647))
    && ltb_ℤ t.retry_count (pos 2147483648)
    && not (ltb_ℤ t.money.amount (pos 0))
    && (not (is_opening t.kind)
        || (is_null t.provider_id
            && is_null t.external_transaction_id
            && is_null t.idempotency_key
            && is_null t.payload_hash
            && is_null t.round_id
            && is_null t.game_id
            && is_null t.reference_external_transaction_id))
    && (is_opening t.kind
        || (not (is_null t.provider_id) && not (is_null t.external_transaction_id)))

-- wager_transactions_pkey, _provider_external_uniq and _idempotency_key_uniq
unfoldable pub transaction_collides : WagerTransaction → WagerTransaction → Bool
transaction_collides t r =
    r.id == t.id
    || (collides r.provider_id t.provider_id
        && collides r.external_transaction_id t.external_transaction_id)
    || collides r.idempotency_key t.idempotency_key

-- WagerTransactionRepository.Create; the foreign key is checked last.
unfoldable pub insert_transaction : WagerTransaction → Tables → Result (Unit {0} × Tables)
insert_transaction x t =
    if not (transaction_row_ok x)
    then err (plain database)
    else if any (transaction_collides x) t.wager_transactions
    then err (domain duplicate_operation)
    else if not (any (wallet_has_id x.wallet_id) t.wallets)
    then err (plain database)
    else ok (tt, record t { wager_transactions = x ∷ t.wager_transactions })

abbrev pub transaction_has_id : ℕ → WagerTransaction → Bool
transaction_has_id id x = x.id == id

abbrev pub transaction_has_key : String → WagerTransaction → Bool
transaction_has_key key x = eq_nullable x.idempotency_key key

abbrev pub transaction_has_external : String → String → WagerTransaction → Bool
transaction_has_external provider external x =
    eq_nullable x.provider_id provider && eq_nullable x.external_transaction_id external

-- The rows of GetByID, GetByIdempotencyKey and GetByProviderAndExternalID.
unfoldable pub select_transaction : ℕ → Tables → Option WagerTransaction
select_transaction id t = find (transaction_has_id id) t.wager_transactions

unfoldable pub select_by_key : String → Tables → Option WagerTransaction
select_by_key key t = find (transaction_has_key key) t.wager_transactions

unfoldable pub select_by_external : String → String → Tables → Option WagerTransaction
select_by_external provider external t =
    find (transaction_has_external provider external) t.wager_transactions

-- The columns that Update sets.
unfoldable pub set_transaction : WagerTransaction → WagerTransaction → WagerTransaction
set_transaction x r = record r {
  status = x.status;
  reference_transaction_id = x.reference_transaction_id;
  result_balance = x.result_balance;
  failure_code = x.failure_code;
  retry_count = x.retry_count;
  retry_after = x.retry_after;
  updated_at = x.updated_at;
}

-- WagerTransactionRepository.Update
unfoldable pub update_transaction : WagerTransaction → Tables → Result (Unit {0} × Tables)
update_transaction x t =
    if not (any (transaction_has_id x.id) t.wager_transactions)
    then err (domain transaction_not_found)
    else ok (
      tt,
      record t {
        wager_transactions =
            update_where (transaction_has_id x.id) (set_transaction x) t.wager_transactions;
      },
    )

-- `retry_after IS NULL OR retry_after <= NOW()`
abbrev pub is_due : ℕ → Option ℕ → Bool
is_due now none = true
is_due now (some at) = leb at now

-- `ORDER BY retry_after ASC NULLS FIRST`
abbrev pub retry_before : Option ℕ → Option ℕ → Bool
retry_before none r = true
retry_before (some a) none = false
retry_before (some a) (some b) = leb a b

unfoldable pub insert_by_retry : WagerTransaction → List WagerTransaction → List WagerTransaction
insert_by_retry x [] = x ∷ []
insert_by_retry x (y ∷ ys) =
    let rest = insert_by_retry x ys in
    if retry_before x.retry_after y.retry_after then x ∷ y ∷ ys else y ∷ rest

unfoldable pub sort_by_retry : List WagerTransaction → List WagerTransaction
sort_by_retry [] = []
sort_by_retry (x ∷ xs) = insert_by_retry x (sort_by_retry xs)

-- LIMIT
unfoldable pub limit {ℓ} : {A : Type ℓ} → ℕ → List A → List A
limit zero xs = []
limit (suc n) [] = []
limit (suc n) (x ∷ xs) = x ∷ limit n xs

-- GetPendingReferences at the time `now`.
unfoldable pub select_pending_references : ℕ → ℕ → Tables → List WagerTransaction
unfolding sort_by_retry limit
select_pending_references now n t = limit n (
    sort_by_retry (
      filter_where (λ x. is_pending_reference x.status && is_due now x.retry_after)
        t.wager_transactions))
