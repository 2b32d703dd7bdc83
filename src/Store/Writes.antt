-- ===== src/Store/Writes.antt =====
-- The statements by which the program changes the tables. Each method of the repositories that
-- writes is one of them.
use go_challenge_fc.Base.{ℕ, ◌≡◌, Bool, String}
use go_challenge_fc.Base.Int.{ℤ}
use go_challenge_fc.Errs.{Result, ok}
use go_challenge_fc.Ledger.{Entry}
use go_challenge_fc.Messages.Inbox.{InboxMessage}
use go_challenge_fc.Messages.Outbox.{OutboxEvent}
use go_challenge_fc.Store.Tables.Entries.{insert_entry}
use go_challenge_fc.Store.Tables.Messages.{insert_event, insert_message, set_published, set_failure}
use go_challenge_fc.Store.Tables.Rows.{Tables}
use go_challenge_fc.Store.Tables.Transactions.{insert_transaction, update_transaction}
use go_challenge_fc.Store.Tables.Wallets.{insert_wallet, update_wallet}
use go_challenge_fc.Transaction.Defs.{WagerTransaction}
use go_challenge_fc.Wallet.{Wallet}

pub data Write (t t' : Tables) : Type 0 where
  wallet_inserted : (w : Wallet) → insert_wallet w t ≡ ok (tt, t') → Write t t'
  wallet_updated : (w : Wallet) → update_wallet w t ≡ ok (tt, t') → Write t t'
  transaction_inserted : (x : WagerTransaction) → insert_transaction x t ≡ ok (tt, t') → Write t t'
  transaction_updated : (x : WagerTransaction) → update_transaction x t ≡ ok (tt, t') → Write t t'
  entry_inserted : (e : Entry) → insert_entry e t ≡ ok (tt, t') → Write t t'
  message_inserted :
      (m : InboxMessage) (new : Bool) → insert_message m t ≡ ok (new, t') → Write t t'
  event_inserted : (e : OutboxEvent) → insert_event e t ≡ ok (tt, t') → Write t t'
  event_published : (now id : ℕ) → t' ≡ set_published now id t → Write t t'
  event_failed :
      (now id : ℕ) (last : String) (delay : ℤ) → t' ≡ set_failure now id last delay t → Write t t'

-- Any number of writes, the last one outermost.
pub data Wrote (t : Tables) : Tables → Type 0 where
  nothing : Wrote t t
  further : {u t' : Tables} → Wrote t u → Write u t' → Wrote t t'

pub Wrote-trans : {t u t' : Tables} → Wrote t u → Wrote u t' → Wrote t t'
Wrote-trans h nothing = h
Wrote-trans h (further k w) = further (Wrote-trans h k) w

-- A statement that changes the tables by writes alone.
pub record IsWrite {A : Type 0} (f : Tables → Result (A × Tables)) : Type 0 where
  pub writes : (t : Tables) (a : A) (t' : Tables) → f t ≡ ok (a, t') → Wrote t t'

pub insert_wallet-IsWrite : (w : Wallet) → IsWrite (insert_wallet w)
insert_wallet-IsWrite w = record { writes = λ t a t' e. further nothing (wallet_inserted w e) }

pub update_wallet-IsWrite : (w : Wallet) → IsWrite (update_wallet w)
update_wallet-IsWrite w = record { writes = λ t a t' e. further nothing (wallet_updated w e) }

pub insert_transaction-IsWrite : (x : WagerTransaction) → IsWrite (insert_transaction x)
insert_transaction-IsWrite x = record {
  writes = λ t a t' e. further nothing (transaction_inserted x e);
}

pub update_transaction-IsWrite : (x : WagerTransaction) → IsWrite (update_transaction x)
update_transaction-IsWrite x = record {
  writes = λ t a t' e. further nothing (transaction_updated x e);
}

pub insert_entry-IsWrite : (e : Entry) → IsWrite (insert_entry e)
insert_entry-IsWrite e = record { writes = λ t a t' h. further nothing (entry_inserted e h) }

pub insert_message-IsWrite : (m : InboxMessage) → IsWrite (insert_message m)
insert_message-IsWrite m = record {
  writes = λ t new t' e. further nothing (message_inserted m new e);
}

pub insert_event-IsWrite : (e : OutboxEvent) → IsWrite (insert_event e)
insert_event-IsWrite e = record { writes = λ t a t' h. further nothing (event_inserted e h) }

-- A statement that returns the tables `t` leaves them.
pub same_tables :
    {A : Type 0} (a b : A) (t u : Tables)
    → ◌≡◌ {A = Result (A × Tables)} (ok (a, t)) (ok (b, u))
    → u ≡ t
same_tables a b t u e = cc

pub set_published-IsWrite : (now id : ℕ) → IsWrite (λ t. ok (tt, set_published now id t))
set_published-IsWrite now id = record {
  writes = λ t a t' e. further nothing (event_published now id (same_tables _ a _ t' e));
}

pub set_failure-IsWrite :
    (now id : ℕ) (last : String) (delay : ℤ)
    → IsWrite (λ t. ok (tt, set_failure now id last delay t))
set_failure-IsWrite now id last delay = record {
  writes = λ t a t' e. further nothing (event_failed now id last delay (same_tables _ a _ t' e));
}

pub ruleset writes = (
  insert_wallet-IsWrite, update_wallet-IsWrite, insert_transaction-IsWrite,
  update_transaction-IsWrite, insert_entry-IsWrite, insert_message-IsWrite, insert_event-IsWrite,
  set_published-IsWrite, set_failure-IsWrite,
)
