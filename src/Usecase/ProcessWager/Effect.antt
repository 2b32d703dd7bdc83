-- ===== src/Usecase/ProcessWager/Effect.antt =====
-- What a successful run of the use case has done to the tables: the specification that the steps of
-- Execute refine.
use go_challenge_fc.Base.{◌≡◌, ◌≢◌, ◌⊎◌, ◌∷◌, Option, none, some, String, false}
use go_challenge_fc.Base.Int.{pos}
use go_challenge_fc.Ledger.{Entry}
use go_challenge_fc.Store.Tables.Entries.{signed_amount}
use go_challenge_fc.Store.Tables.Rows.{Tables, update_where}
use go_challenge_fc.Store.Tables.Transactions.{select_by_key, select_by_external}
use go_challenge_fc.Store.Tables.Wallets.{select_wallet, wallet_has_id, set_wallet}
use go_challenge_fc.Transaction.Defs.{Kind, WagerTransaction, processed, requires_reference}
use go_challenge_fc.Usecase.ProcessWager.Defs.{
  Input, Output, build_replay_output, deref, validate_reference,
}
use go_challenge_fc.Usecase.ProcessWager.Operate.{effect_of}
use go_challenge_fc.Wallet.{Wallet}
use go_challenge_fc.Wallet.Laws.{Moved}

-- No balance and no ledger entry has changed.
pub record Quiet (t t' : Tables) : Type 0 where
  pub same_wallets : t'.wallets ≡ t.wallets
  pub same_entries : t'.wallet_ledger_entries ≡ t.wallet_ledger_entries

-- One transaction has been stored, with the operation's data and the status that is returned.
pub record Stored (hash : String) (i : Input) (t : Tables) (o : Output) (t' : Tables) : Type 0 where
  pub row : WagerTransaction
  pub stored : t'.wager_transactions ≡ row ∷ t.wager_transactions
  pub row_id : row.id ≡ o.transaction_id
  pub row_status : row.status ≡ o.status
  pub row_money : row.money ≡ i.money
  pub row_key : row.idempotency_key ≡ some i.idempotency_key
  pub row_hash : row.payload_hash ≡ some hash
  pub is_new : o.idempotent_replay ≡ false

-- The kind that a rollback undoes is that of a reference that is stored and passes the checks.
abbrev pub Justified : Input → Tables → Option Kind → Type 0
Justified i t ref =
    ((requires_reference i.kind ≡ false) × (ref ≡ none))
    ⊎ ((r : WagerTransaction) × (select_by_external i.provider_id
            (deref i.reference_external_transaction_id) t
          ≡ some r)
        × (validate_reference r i ≡ none)
        × (ref ≡ some r.kind))

-- The wallet of the operation has moved by what the operation means, and one entry says so.
pub record Movement (i : Input) (t : Tables) (o : Output) (t' : Tables) : Type 0 where
  pub ref : Option Kind
  pub before : Wallet
  pub after : Wallet
  pub entry : Entry
  pub found : select_wallet i.wallet_id t ≡ some before
  pub justified : Justified i t ref
  pub moved : Moved before after (effect_of i.kind ref i.money.amount)
  pub wallets : t'.wallets ≡ update_where (wallet_has_id i.wallet_id) (set_wallet after) t.wallets
  pub entries : t'.wallet_ledger_entries ≡ entry ∷ t.wallet_ledger_entries
  pub entry_wallet : entry.wallet_id ≡ i.wallet_id
  pub entry_transaction : entry.transaction_id ≡ o.transaction_id
  pub entry_amount : signed_amount entry ≡ effect_of i.kind ref i.money.amount
  pub balance : o.balance ≡ after.balance

-- The outcomes that are no error.
pub data Effect (hash : String) (i : Input) (t : Tables) (o : Output) (t' : Tables) : Type 0 where
  -- A stored transaction answers; nothing is stored again.
  replayed :
      (x : WagerTransaction)
      → (select_by_key i.idempotency_key t ≡ some x)
        ⊎ (select_by_external i.provider_id i.external_transaction_id t ≡ some x)
      → o ≡ build_replay_output x
      → t'.wager_transactions ≡ t.wager_transactions
      → Quiet t t'
      → Effect hash i t o t'
  -- The transaction is stored as rejected or as waiting for its reference.
  recorded : Stored hash i t o t' → o.status ≢ processed → Quiet t t' → Effect hash i t o t'
  -- The transaction is processed and moves nothing, since that is what its kind means, or what it
  -- means to undo the reference that is stored.
  idle :
      Stored hash i t o t'
      → o.status ≡ processed
      → (ref : Option Kind) → Justified i t ref
      → effect_of i.kind ref i.money.amount ≡ pos 0
      → Quiet t t'
      → Effect hash i t o t'
  -- The transaction is processed and moves money.
  posted : Stored hash i t o t' → o.status ≡ processed → Movement i t o t' → Effect hash i t o t'
