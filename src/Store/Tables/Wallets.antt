-- ===== src/Store/Tables/Wallets.antt =====
-- internal/infra/db/postgres/wallet_repo.go and the table `wallets`.
use go_challenge_fc.Base.{
  ℕ, Bool, not, ◌&&◌, ◌||◌, ◌∷◌, Option, none, some, String, str_eq, ◌==◌, if◌then◌else◌,
}
use go_challenge_fc.Base.Int.{pos, ltb_ℤ}
use go_challenge_fc.Errs.{
  Result, ok, err, domain, plain, wallet_already_exists, wallet_not_found, database,
}
use go_challenge_fc.Money.Defs.{new_from_int64}
use go_challenge_fc.Store.Tables.Rows.{Tables, in_currency_code, find, any, update_where}
use go_challenge_fc.Wallet.{Wallet, rehydrate_wallet}

-- What scanRow makes of the stored columns: the balance has the wallet's currency.
unfoldable pub scan_wallet : Wallet → Wallet
unfolding rehydrate_wallet new_from_int64
scan_wallet w =
    rehydrate_wallet w.id w.player_id w.currency (new_from_int64 w.balance.amount w.currency)
      w.version w.created_at w.updated_at

-- The CHECK constraints and the enum of the table.
unfoldable pub wallet_row_ok : Wallet → Bool
unfolding in_currency_code
wallet_row_ok w =
    in_currency_code w.currency
    && not (ltb_ℤ w.balance.amount (pos 0))
    && not (ltb_ℤ w.version (pos 1))

-- wallets_pkey and wallets_player_currency_uniq
unfoldable pub wallet_collides : Wallet → Wallet → Bool
wallet_collides w r = r.id == w.id || (r.player_id == w.player_id && str_eq r.currency w.currency)

-- WalletRepository.Create
unfoldable pub insert_wallet : Wallet → Tables → Result (Unit {0} × Tables)
insert_wallet w t =
    if not (wallet_row_ok w)
    then err (plain database)
    else if any (wallet_collides w) t.wallets
    then err (domain wallet_already_exists)
    else ok (tt, record t { wallets = scan_wallet w ∷ t.wallets })

abbrev pub wallet_has_id : ℕ → Wallet → Bool
wallet_has_id id w = w.id == id

-- The rows of GetByID and GetByIDForUpdate.
unfoldable pub select_wallet : ℕ → Tables → Option Wallet
select_wallet id t = find (wallet_has_id id) t.wallets

-- The row of GetByPlayerAndCurrency.
unfoldable pub select_wallet_of_player : ℕ → String → Tables → Option Wallet
select_wallet_of_player player currency t =
    find (λ w. w.player_id == player && str_eq w.currency currency) t.wallets

-- scanRow turns pgx.ErrNoRows into ErrWalletNotFound.
unfoldable pub wallet_or_not_found : Option Wallet → Result Wallet
wallet_or_not_found none = err (domain wallet_not_found)
wallet_or_not_found (some w) = ok w

-- `SET balance_amount = $1, version = $2, updated_at = $3`
unfoldable pub set_wallet : Wallet → Wallet → Wallet
unfolding new_from_int64
set_wallet w r = record r {
  balance = new_from_int64 w.balance.amount r.currency;
  version = w.version;
  updated_at = w.updated_at;
}

-- WalletRepository.Update
unfoldable pub update_wallet : Wallet → Tables → Result (Unit {0} × Tables)
update_wallet w t =
    if not (any (wallet_has_id w.id) t.wallets)
    then err (domain wallet_not_found)
    else if ltb_ℤ w.balance.amount (pos 0) || ltb_ℤ w.version (pos 1)
    then err (plain database)
    else ok (tt, record t { wallets = update_where (wallet_has_id w.id) (set_wallet w) t.wallets })
