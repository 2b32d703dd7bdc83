-- ===== src/System/Consistent.antt =====
-- What no history of the program breaks, key by key and reference by reference.
use go_challenge_fc.Base.{Bool, ◌||◌, ◌&&◌, ◌==◌, arith, str_eq}
use go_challenge_fc.Ledger.{Entry}
use go_challenge_fc.Messages.Inbox.{InboxMessage}
use go_challenge_fc.Store.Session.{World}
use go_challenge_fc.Store.Tables.Entries.{entry_collides}
use go_challenge_fc.Store.Tables.Keys.{Distinct, Distinct-mono, Distinct-or, All}
use go_challenge_fc.Store.Tables.Rows.{Tables, collides}
use go_challenge_fc.Store.Tables.Transactions.{transaction_collides}
use go_challenge_fc.Store.Tables.Wallets.{wallet_collides}
use go_challenge_fc.System.{System, Acts, acts, empty}
use go_challenge_fc.System.Schema.{message_collides, IsChecked, IsOwned, Refers, acts-IsChecked}
use go_challenge_fc.Transaction.Defs.{WagerTransaction}
use go_challenge_fc.Wallet.{Wallet}

-- Two rows with one key.
abbrev same_wallet_id : Wallet → Wallet → Bool
same_wallet_id w r = r.id == w.id

abbrev same_player : Wallet → Wallet → Bool
same_player w r = r.player_id == w.player_id && str_eq r.currency w.currency

abbrev same_transaction_id : WagerTransaction → WagerTransaction → Bool
same_transaction_id x r = r.id == x.id

abbrev same_external : WagerTransaction → WagerTransaction → Bool
same_external x r =
    collides r.provider_id x.provider_id
    && collides r.external_transaction_id x.external_transaction_id

abbrev same_key : WagerTransaction → WagerTransaction → Bool
same_key x r = collides r.idempotency_key x.idempotency_key

abbrev same_entry_id : Entry → Entry → Bool
same_entry_id e r = r.id == e.id

abbrev same_posting : Entry → Entry → Bool
same_posting e r = r.wallet_id == e.wallet_id && r.transaction_id == e.transaction_id

abbrev same_message_id : InboxMessage → InboxMessage → Bool
same_message_id m r = r.id == m.id

abbrev same_delivery : InboxMessage → InboxMessage → Bool
same_delivery m r = str_eq r.consumer_name m.consumer_name && str_eq r.message_id m.message_id

pub record IsConsistent (t : Tables) : Type 0 where
  pub wallet_ids : Distinct same_wallet_id t.wallets
  pub players : Distinct same_player t.wallets
  pub transaction_ids : Distinct same_transaction_id t.wager_transactions
  pub externals : Distinct same_external t.wager_transactions
  pub keys : Distinct same_key t.wager_transactions
  pub entry_ids : Distinct same_entry_id t.wallet_ledger_entries
  pub postings : Distinct same_posting t.wallet_ledger_entries
  pub message_ids : Distinct same_message_id t.inbox_messages
  pub deliveries : Distinct same_delivery t.inbox_messages
  pub owned : All (IsOwned t) t.wager_transactions
  pub posted : All (Refers t) t.wallet_ledger_entries

pub empty-IsConsistent : IsConsistent empty
empty-IsConsistent = record {
  wallet_ids = tt;
  players = tt;
  transaction_ids = tt;
  externals = tt;
  keys = tt;
  entry_ids = tt;
  postings = tt;
  message_ids = tt;
  deliveries = tt;
  owned = tt;
  posted = tt;
}

-- The constraints of the tables are these keys.
module _ (t : Tables) where
  IsConsistent-IsChecked : IsConsistent t → IsChecked t
  unfolding wallet_collides transaction_collides entry_collides
  IsConsistent-IsChecked h = record {
    wallets =
        Distinct-or same_wallet_id same_player wallet_collides (λ x y e. e) _ h.wallet_ids
          h.players;
    transactions =
        Distinct-or (λ x r. same_transaction_id x r || same_external x r) same_key
          transaction_collides (λ x y e. ground arith) _
          (Distinct-or same_transaction_id same_external _ (λ x y e. e) _ h.transaction_ids
            h.externals)
          h.keys;
    entries =
        Distinct-or same_entry_id same_posting entry_collides (λ x y e. e) _ h.entry_ids h.postings;
    messages =
        Distinct-or same_delivery same_message_id message_collides (λ x y e. e) _ h.deliveries
          h.message_ids;
    owned = h.owned;
    posted = h.posted;
  }

  IsChecked-IsConsistent : IsChecked t → IsConsistent t
  unfolding wallet_collides transaction_collides entry_collides
  IsChecked-IsConsistent h = record {
    wallet_ids = Distinct-mono wallet_collides same_wallet_id (λ x y e. ground arith) _ h.wallets;
    players = Distinct-mono wallet_collides same_player (λ x y e. ground arith) _ h.wallets;
    transaction_ids =
        Distinct-mono transaction_collides same_transaction_id (λ x y e. ground arith) _
          h.transactions;
    externals =
        Distinct-mono transaction_collides same_external (λ x y e. ground arith) _ h.transactions;
    keys = Distinct-mono transaction_collides same_key (λ x y e. ground arith) _ h.transactions;
    entry_ids = Distinct-mono entry_collides same_entry_id (λ x y e. ground arith) _ h.entries;
    postings = Distinct-mono entry_collides same_posting (λ x y e. ground arith) _ h.entries;
    message_ids =
        Distinct-mono message_collides same_message_id (λ x y e. ground arith) _ h.messages;
    deliveries = Distinct-mono message_collides same_delivery (λ x y e. ground arith) _ h.messages;
    owned = h.owned;
    posted = h.posted;
  }

-- Any acts of the program, in any order, with any acts of other sessions between the transactions
-- of a wager and of a batch, and whatever the database fails, keep the tables consistent: no two
-- wallets have one identifier, or one player and currency; no two transactions one identifier, one
-- provider and external identifier, or one idempotency key; no two ledger entries one identifier,
-- or one wallet and transaction; no two messages one identifier of their own, or one consumer and
-- message identifier; each transaction has an int64 amount and its wallet stored; and each entry
-- has its wallet and its transaction stored.
pub acts-IsConsistent :
    (s : System) (a : Acts) (w : World) → IsConsistent w.tables → IsConsistent (acts s a w).tables
acts-IsConsistent s a w h =
    IsChecked-IsConsistent _ (acts-IsChecked s a w (IsConsistent-IsChecked w.tables h))
