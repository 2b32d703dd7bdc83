-- ===== src/Store/Tables/Laws.antt =====
-- What the SELECT, INSERT and UPDATE statements do to the tables, one lemma for each.
use go_challenge_fc.Base.{ℕ, ◌≡◌, Bool, true, List, [], ◌∷◌, some, arith}
use go_challenge_fc.Errs.{ok}
use go_challenge_fc.Ledger.{Entry}
use go_challenge_fc.Messages.Outbox.{OutboxEvent}
use go_challenge_fc.Messages.Inbox.{InboxMessage}
use go_challenge_fc.Store.Tables.Entries.{insert_entry, scan_entry}
use go_challenge_fc.Store.Tables.Messages.{insert_event, insert_message}
use go_challenge_fc.Store.Tables.Rows.{Tables, find, update_where}
use go_challenge_fc.Store.Tables.Transactions.{
  insert_transaction, update_transaction, set_transaction, transaction_has_id,
}
use go_challenge_fc.Store.Tables.Wallets.{
  insert_wallet, scan_wallet, update_wallet, set_wallet, wallet_has_id, select_wallet,
}
use go_challenge_fc.Transaction.Defs.{WagerTransaction}
use go_challenge_fc.Wallet.{Wallet}

-- A row that a WHERE clause finds passes it.
pub find_passes :
    {A : Type 0} (p : A → Bool) (xs : List A) (x : A) → find p xs ≡ some x → p x ≡ true
unfolding find
find_passes p [] x h = cc
find_passes p (y ∷ ys) x h = ground (arith, find_passes p ys x)

pub select_wallet-id : (id : ℕ) (t : Tables) (w : Wallet) → select_wallet id t ≡ some w → w.id ≡ id
unfolding select_wallet
select_wallet-id id t w h = ground (arith, find_passes (wallet_has_id id) t.wallets w h)

module _ (t : Tables) where
  pub insert_wallet_ok :
      (w : Wallet) (t' : Tables)
      → insert_wallet w t ≡ ok (tt, t')
      → t' ≡ record t { wallets = scan_wallet w ∷ t.wallets }
  unfolding insert_wallet
  insert_wallet_ok w t' h = ground arith

  pub update_wallet_ok :
      (w : Wallet) (t' : Tables)
      → update_wallet w t ≡ ok (tt, t')
      → t' ≡ record t { wallets = update_where (wallet_has_id w.id) (set_wallet w) t.wallets }
  unfolding update_wallet
  update_wallet_ok w t' h = ground arith

  pub insert_transaction_ok :
      (x : WagerTransaction) (t' : Tables)
      → insert_transaction x t ≡ ok (tt, t')
      → t' ≡ record t { wager_transactions = x ∷ t.wager_transactions }
  unfolding insert_transaction
  insert_transaction_ok x t' h = ground arith

  pub update_transaction_ok :
      (x : WagerTransaction) (t' : Tables)
      → update_transaction x t ≡ ok (tt, t')
      → t' ≡ record t {
        wager_transactions =
            update_where (transaction_has_id x.id) (set_transaction x) t.wager_transactions;
      }
  unfolding update_transaction
  update_transaction_ok x t' h = ground arith

  pub insert_entry_ok :
      (e : Entry) (t' : Tables)
      → insert_entry e t ≡ ok (tt, t')
      → t' ≡ record t { wallet_ledger_entries = scan_entry e ∷ t.wallet_ledger_entries }
  unfolding insert_entry
  insert_entry_ok e t' h = ground arith

  pub insert_event_ok :
      (e : OutboxEvent) (t' : Tables)
      → insert_event e t ≡ ok (tt, t')
      → t' ≡ record t { outbox_events = e ∷ t.outbox_events }
  unfolding insert_event
  insert_event_ok e t' h = ground arith

-- INSERT … ON CONFLICT DO NOTHING leaves the other tables alone.
pub insert_message_ok :
    (m : InboxMessage) (t : Tables) (new : Bool) (t' : Tables)
    → insert_message m t ≡ ok (new, t')
    → t' ≡ record t { inbox_messages = t'.inbox_messages }
unfolding insert_message
insert_message_ok m t new t' h = ground arith
