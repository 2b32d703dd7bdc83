-- ===== src/Usecase/OpenWallet.antt =====
-- internal/application/usecase/open_wallet.go
pub mod Opened
pub mod Rollback
use go_challenge_fc.Base.{ℕ, String, Option, none, some}
use go_challenge_fc.Base.Int.{ℤ}
use go_challenge_fc.Ledger.{direction_credit, new_entry}
use go_challenge_fc.Messages.Events.{new_processed, new_balance_changed}
use go_challenge_fc.Money.Defs.{Money, zero_money, is_positive}
use go_challenge_fc.Store.Repos.{create_wallet, create_transaction, create_entry}
use go_challenge_fc.Store.Session.{M, Env, lift, pure, new_uuid, time_now, with_tx, ◌>>=◌, ◌>>◌}
use go_challenge_fc.Transaction.Defs.{opening, kind_text, new_opening, mark_processed}
use go_challenge_fc.Usecase.Emit.{emit}
use go_challenge_fc.Usecase.ProcessWager.Steps.{when}
use go_challenge_fc.Wallet.{Wallet, new_wallet}

pub record OpenInput : Type 0 where
  pub player_id : ℕ
  pub initial_balance : Money
  pub correlation_id : ℕ

pub record OpenOutput : Type 0 where
  pub id : ℕ
  pub player_id : ℕ
  pub balance : Money
  pub version : ℤ

-- The two events of an opening.
unfoldable pub announce_opening : Env → OpenInput → Wallet → ℕ → M (Unit {0})
announce_opening env i w txn_id = do
  id ← new_uuid env
  at ← time_now env
  emit env
      (new_processed id at txn_id w.id i.player_id none none (kind_text opening) i.initial_balance
        i.initial_balance i.correlation_id none)
      w.id "Wallet" (some i.correlation_id)
  id' ← new_uuid env
  at' ← time_now env
  emit env
      (new_balance_changed id' at' w.id txn_id direction_credit i.initial_balance
        (zero_money i.initial_balance.currency) i.initial_balance w.version i.correlation_id none)
      w.id "Wallet" (some i.correlation_id)

-- `if input.InitialBalance.IsPositive()`: the OPENING transaction and its entry.
unfoldable pub post_opening : Env → OpenInput → Wallet → M (Unit {0})
unfolding zero_money
post_opening env i w = do
  txn_id ← new_uuid env
  made ← time_now env
  txn ← lift (new_opening made txn_id w.id i.player_id i.initial_balance)
  now ← time_now env
  txn' ← lift (mark_processed now i.initial_balance txn)
  create_transaction txn'
  entry_id ← new_uuid env
  at ← time_now env
  entry ← lift (
      new_entry entry_id at w.id txn_id direction_credit i.initial_balance
        (zero_money i.initial_balance.currency) i.initial_balance)
  create_entry entry
  announce_opening env i w txn_id

-- The function that Execute hands to WithTx.
unfoldable pub open_tx : Env → OpenInput → Wallet → M (Unit {0})
unfolding is_positive
open_tx env i w = do create_wallet w; when (is_positive i.initial_balance) (post_opening env i w)

-- OpenWalletUseCase.Execute
unfoldable pub open_wallet : Env → OpenInput → M OpenOutput
open_wallet env i = do
  id ← new_uuid env
  now ← time_now env
  w ← lift (new_wallet now id i.player_id i.initial_balance.currency i.initial_balance)
  with_tx (open_tx env i w)
  pure (record { id = w.id; player_id = w.player_id; balance = w.balance; version = w.version })
