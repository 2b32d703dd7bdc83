-- ===== src/Store/Tables/Entries.antt =====
-- internal/infra/db/postgres/ledger_repo.go and the table `wallet_ledger_entries`.
use go_challenge_fc.Base.{
  ℕ, suc, Bool, not, ◌&&◌, ◌||◌, List, [], ◌∷◌, none, some, String, leb, str_eq, ◌==◌,
  if◌then◌else◌,
}
use go_challenge_fc.Base.Int.{ℤ, pos, ◌+ℤ◌, ◌-ℤ◌, ltb_ℤ, eqb_ℤ, max_int64, min_int64}
use go_challenge_fc.Errs.{Result, ok, err, plain, database, ◌>>=◌}
use go_challenge_fc.Ledger.{Entry, rehydrate_entry, direction_debit, direction_credit}
use go_challenge_fc.Money.Defs.{Money, new_from_int64, brl, usd, eur}
use go_challenge_fc.Store.Tables.Rows.{Tables, in_currency_code, any}
use go_challenge_fc.Store.Tables.Transactions.{transaction_has_id}
use go_challenge_fc.Store.Tables.Wallets.{wallet_has_id, select_wallet}

-- What a row is read back as: the three amounts have one currency column.
unfoldable pub scan_entry : Entry → Entry
unfolding rehydrate_entry new_from_int64
scan_entry e =
    rehydrate_entry e.id e.wallet_id e.transaction_id e.direction
      (new_from_int64 e.money.amount e.money.currency)
      (new_from_int64 e.balance_before.amount e.money.currency)
      (new_from_int64 e.balance_after.amount e.money.currency) e.created_at

-- The CHECK constraints and the enums of the table.
unfoldable pub entry_row_ok : Entry → Bool
unfolding in_currency_code
entry_row_ok e =
    (str_eq e.direction direction_debit || str_eq e.direction direction_credit)
    && in_currency_code e.money.currency
    && ltb_ℤ (pos 0) e.money.amount
    && not (ltb_ℤ e.balance_before.amount (pos 0))
    && not (ltb_ℤ e.balance_after.amount (pos 0))
    && (not (str_eq e.direction direction_debit)
        || eqb_ℤ e.balance_after.amount (e.balance_before.amount -ℤ e.money.amount))
    && (not (str_eq e.direction direction_credit)
        || eqb_ℤ e.balance_after.amount (e.balance_before.amount +ℤ e.money.amount))

-- wallet_ledger_entries_pkey and _wallet_transaction_uniq
unfoldable pub entry_collides : Entry → Entry → Bool
entry_collides e r =
    r.id == e.id || (r.wallet_id == e.wallet_id && r.transaction_id == e.transaction_id)

-- LedgerRepository.Create, whose errors are all wrapped alike.
unfoldable pub insert_entry : Entry → Tables → Result (Unit {0} × Tables)
insert_entry e t =
    if not (entry_row_ok e)
      || any (entry_collides e) t.wallet_ledger_entries
      || not (any (wallet_has_id e.wallet_id) t.wallets)
      || not (any (transaction_has_id e.transaction_id) t.wager_transactions)
    then err (plain database)
    else ok (tt, record t { wallet_ledger_entries = scan_entry e ∷ t.wallet_ledger_entries })

-- `CASE WHEN direction = 'CREDIT' THEN money_amount ELSE -money_amount END`
unfoldable pub signed_amount : Entry → ℤ
signed_amount e =
    if str_eq e.direction direction_credit then e.money.amount else pos 0 -ℤ e.money.amount

-- `COALESCE(SUM(…), 0) … WHERE wallet_id = $1`; SUM over BIGINT is a NUMERIC.
unfoldable pub sum_entries : ℕ → List Entry → ℤ
unfolding signed_amount
sum_entries id [] = pos 0
sum_entries id (e ∷ es) =
    if e.wallet_id == id then signed_amount e +ℤ sum_entries id es else sum_entries id es

-- `COUNT(id) … WHERE wallet_id = $1`
unfoldable pub count_entries : ℕ → List Entry → ℕ
count_entries id [] = 0
count_entries id (e ∷ es) =
    if e.wallet_id == id then suc (count_entries id es) else count_entries id es

-- The order of the enum currency_code, with what stands for no currency below it.
unfoldable pub currency_rank : String → ℕ
currency_rank c =
    if str_eq c brl then 1 else if str_eq c usd then 2 else if str_eq c eur then 3 else 0

-- `COALESCE(MAX(money_currency)::text, '') … WHERE wallet_id = $1`
unfoldable pub max_currency : ℕ → List Entry → String
unfolding currency_rank
max_currency id [] = ""
max_currency id (e ∷ es) =
    let c = max_currency id es in
    if e.wallet_id == id
    then (if leb (currency_rank c) (currency_rank e.money.currency) then e.money.currency else c)
    else c

-- The currency that CalculateBalance falls back on.
unfoldable pub ledger_currency : ℕ → Tables → Result String
unfolding max_currency
ledger_currency id t =
    if str_eq (max_currency id t.wallet_ledger_entries) ""
    then elim (select_wallet id t) [ none ↦ err (plain database) | some w ↦ ok w.currency ]
    else ok (max_currency id t.wallet_ledger_entries)

-- LedgerRepository.CalculateBalance; a sum that is no int64 is not scanned.
unfoldable pub calculate_balance : ℕ → Tables → Result (Money × ℕ)
unfolding new_from_int64
calculate_balance id t =
    let cents = sum_entries id t.wallet_ledger_entries in
    if ltb_ℤ max_int64 cents || ltb_ℤ cents min_int64
    then err (plain database)
    else (ledger_currency id t >>= λ currency.
        ok (new_from_int64 cents currency, count_entries id t.wallet_ledger_entries))
