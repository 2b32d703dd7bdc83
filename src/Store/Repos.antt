-- ===== src/Store/Repos.antt =====
-- The repositories of internal/application/port/repositories.go over a session: each method is the
-- SQL statement of internal/infra/db/postgres and its translation of an absent row.
use go_challenge_fc.Store.Tables.Paging.{select_page}
use go_challenge_fc.Base.{ℕ, Bool, String, Option, List}
use go_challenge_fc.Base.Int.{ℤ}
use go_challenge_fc.Errs.{ok}
use go_challenge_fc.Ledger.{Entry}
use go_challenge_fc.Messages.Inbox.{InboxMessage}
use go_challenge_fc.Messages.Outbox.{OutboxEvent}
use go_challenge_fc.Money.Defs.{Money}
use go_challenge_fc.Store.Session.{M, Env, statement, query, lift, time_now, ◌>>=◌}
use go_challenge_fc.Store.Tables.Entries.{insert_entry, calculate_balance}
use go_challenge_fc.Store.Tables.Messages.{
  insert_event, insert_message, select_pending_events, set_published, set_failure,
}
use go_challenge_fc.Store.Tables.Transactions.{
  select_transaction, insert_transaction, update_transaction, select_by_key, select_by_external,
  select_pending_references,
}
use go_challenge_fc.Store.Tables.Wallets.{
  insert_wallet, update_wallet, select_wallet, wallet_or_not_found,
}
use go_challenge_fc.Transaction.Defs.{WagerTransaction}
use go_challenge_fc.Wallet.{Wallet}

unfoldable pub create_wallet : Wallet → M (Unit {0})
create_wallet w = statement (insert_wallet w)

-- GetByID and GetByIDForUpdate; sessions run one at a time, so the row lock has no effect here.
unfoldable pub get_wallet : ℕ → M Wallet
get_wallet id = query (select_wallet id) >>= λ row. lift (wallet_or_not_found row)

unfoldable pub save_wallet : Wallet → M (Unit {0})
save_wallet w = statement (update_wallet w)

unfoldable pub create_transaction : WagerTransaction → M (Unit {0})
create_transaction x = statement (insert_transaction x)

unfoldable pub save_transaction : WagerTransaction → M (Unit {0})
save_transaction x = statement (update_transaction x)

-- `none` is ErrTransactionNotFound, on which every caller branches.
unfoldable pub get_by_key : String → M (Option WagerTransaction)
get_by_key key = query (select_by_key key)

unfoldable pub get_by_external : String → String → M (Option WagerTransaction)
get_by_external provider external = query (select_by_external provider external)

unfoldable pub get_pending_references : Env → ℕ → M (List WagerTransaction)
get_pending_references env n = time_now env >>= λ now. query (select_pending_references now n)

unfoldable pub create_entry : Entry → M (Unit {0})
create_entry e = statement (insert_entry e)

unfoldable pub balance_of_entries : ℕ → M (Money × ℕ)
balance_of_entries id = query (calculate_balance id) >>= lift

unfoldable pub create_message_if_absent : InboxMessage → M Bool
create_message_if_absent m = statement (insert_message m)

unfoldable pub create_event : OutboxEvent → M (Unit {0})
create_event e = statement (insert_event e)

unfoldable pub fetch_pending_events : Env → ℕ → M (List OutboxEvent)
fetch_pending_events env n = time_now env >>= λ now. query (select_pending_events now n)

unfoldable pub mark_published : Env → ℕ → M (Unit {0})
mark_published env id = time_now env >>= λ now. statement (λ t. ok (tt, set_published now id t))

unfoldable pub record_failure : Env → ℕ → String → ℤ → M (Unit {0})
record_failure env id last delay =
    time_now env >>= λ now. statement (λ t. ok (tt, set_failure now id last delay t))

unfoldable pub get_page : ℕ → Option ℕ → ℕ → M (List Entry)
get_page wallet cursor n = query (select_page wallet cursor n)

-- GetByID of the transactions, which the handlers read with its error.
unfoldable pub get_transaction : ℕ → M (Option WagerTransaction)
get_transaction id = query (select_transaction id)
