-- ===== src/Usecase/Reconcile/Sound.antt =====
-- What ReconcileWalletUseCase.Execute reports, and when it reports a wallet as consistent.
use go_challenge_fc.Base.{ℕ, ◌≡◌, ◌≢◌, refl, [], some, true, false, arith}
use go_challenge_fc.Base.Int.{◌-ℤ◌, eqb_ℤ, IsInt64, min_int64}
use go_challenge_fc.Errs.{ok}
use go_challenge_fc.Money.Arithmetic.{sub_fits}
use go_challenge_fc.Money.Defs.{new_from_int64, is_zero}
use go_challenge_fc.Store.Balance.{IsBalanced}
use go_challenge_fc.Store.Repos.{get_wallet, balance_of_entries}
use go_challenge_fc.Store.Session.{World, ◌>>=◌, lift, pure, query, statement, finish, with_tx}
use go_challenge_fc.Store.Tables.Entries.{
  sum_entries, count_entries, ledger_currency, calculate_balance,
}
use go_challenge_fc.Store.Tables.Wallets.{select_wallet, wallet_or_not_found}
use go_challenge_fc.Usecase.Reconcile.{Reconciliation, reconcile_tx, reconcile}
use go_challenge_fc.Wallet.{Wallet}

-- The report about a wallet.
abbrev pub report : ℕ → World → Wallet → Reconciliation
report id w x = record {
  wallet_id = x.id;
  stored_balance = x.balance;
  calculated_balance =
      new_from_int64 (sum_entries id w.tables.wallet_ledger_entries) x.balance.currency;
  difference =
      new_from_int64 (x.balance.amount -ℤ sum_entries id w.tables.wallet_ledger_entries)
        x.balance.currency;
  consistent = eqb_ℤ x.balance.amount (sum_entries id w.tables.wallet_ledger_entries);
  checked_entries = count_entries id w.tables.wallet_ledger_entries;
}

module _ (id : ℕ) (w : World) (x : Wallet) (up : w.faults ≡ [])
    (found : select_wallet id w.tables ≡ some x) (range : IsInt64 x.balance.amount)
    (currency : ledger_currency id w.tables ≡ ok x.balance.currency) where
  calculated :
      IsInt64 (sum_entries id w.tables.wallet_ledger_entries)
      → calculate_balance id w.tables
        ≡ ok (
          new_from_int64 (sum_entries id w.tables.wallet_ledger_entries) x.balance.currency,
          count_entries id w.tables.wallet_ledger_entries,
        )
  unfolding calculate_balance
  calculated h = rw currency (ground arith)

  -- With a database that answers, a wallet that is stored and whose ledger is in the currency of
  -- its balance, and where the stored balance, the sum of the ledger and their difference are int64
  -- values (the sum not the smallest), the report has these amounts, calls the wallet consistent
  -- exactly if the two are equal, and changes no table.
  pub reconcile_exact :
      IsInt64 (sum_entries id w.tables.wallet_ledger_entries)
      → sum_entries id w.tables.wallet_ledger_entries ≢ min_int64
      → IsInt64 (x.balance.amount -ℤ sum_entries id w.tables.wallet_ledger_entries)
      → reconcile id w ≡ (ok (report id w x), record w { aborted = false })
  unfolding reconcile reconcile_tx get_wallet balance_of_entries ◌>>=◌ lift pure query statement
      finish with_tx wallet_or_not_found is_zero new_from_int64 ◌-ℤ◌
  reconcile_exact h ne fits =
      rw
        (
          up,
          found,
          calculated h,
          sub_fits x.balance
              (new_from_int64 (sum_entries id w.tables.wallet_ledger_entries) x.balance.currency)
              refl range h ne fits,
        )
        (ground arith)

  -- With a database that answers, a wallet that is stored and whose ledger is in the currency of
  -- its balance, and where no wallet is in debt and every ledger adds up to its wallet's balance,
  -- the report calls the wallet consistent.
  pub reconcile_balanced :
      IsBalanced w.tables
      → (reconcile id w ≡ (ok (report id w x), record w { aborted = false }))
        × ((report id w x).consistent ≡ true)
  unfolding ◌-ℤ◌
  reconcile_balanced h =
      let adds_up = h.adds_up id in
      let sound = h.sound id x found in ground (arith, found, reconcile_exact)
