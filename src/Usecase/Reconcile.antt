-- ===== src/Usecase/Reconcile.antt =====
-- internal/application/usecase/reconcile_wallet.go; its metrics are not modelled.
pub mod Sound
use go_challenge_fc.Base.{ℕ, Bool}
use go_challenge_fc.Money.Defs.{Money, sub, is_zero}
use go_challenge_fc.Store.Repos.{get_wallet, balance_of_entries}
use go_challenge_fc.Store.Session.{M, lift, pure, with_tx, ◌>>=◌}

pub record Reconciliation : Type 0 where
  pub wallet_id : ℕ
  pub stored_balance : Money
  pub calculated_balance : Money
  pub difference : Money
  pub consistent : Bool
  pub checked_entries : ℕ

unfoldable pub reconcile_tx : ℕ → M Reconciliation
unfolding is_zero
reconcile_tx id = do
  w ← get_wallet id
  calculated ← balance_of_entries id
  diff ← lift (sub w.balance calculated.0)
  pure (record {
    wallet_id = w.id;
    stored_balance = w.balance;
    calculated_balance = calculated.0;
    difference = diff;
    consistent = is_zero diff;
    checked_entries = calculated.1;
  })

-- ReconcileWalletUseCase.Execute
unfoldable pub reconcile : ℕ → M Reconciliation
reconcile id = with_tx (reconcile_tx id)
