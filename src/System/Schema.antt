-- ===== src/System/Schema.antt =====
-- What no history of the program breaks: the keys of the tables, and the references between them.
use go_challenge_fc.Base.Int.{in_bigint-IsInt64, IsInt64}
use go_challenge_fc.Messages.Outbox.{OutboxEvent}
use go_challenge_fc.Base.{
  ◌==◌, ◌||◌, sym, subst, ◌∷◌, ◌∙◌, List, inr, inl, Bool-cases, [], ◌≡◌, refl, Bool, true, false,
  arith,
}
use go_challenge_fc.Errs.{ok}
use go_challenge_fc.Ledger.{Entry}
use go_challenge_fc.Messages.Inbox.{InboxMessage}
use go_challenge_fc.Store.Session.{World}
use go_challenge_fc.Store.Tables.Laws.{
  insert_wallet_ok, update_wallet_ok, insert_transaction_ok, update_transaction_ok, insert_entry_ok,
  insert_event_ok, insert_message_ok,
}
use go_challenge_fc.Store.Tables.Entries.{insert_entry, entry_collides, scan_entry}
use go_challenge_fc.Store.Tables.Keys.{
  any-either, All, Distinct, All-mono, any-cons, any-update, Distinct-update,
}
use go_challenge_fc.Store.Tables.Messages.{
  insert_event, insert_message, set_published, set_failure, same_message,
}
use go_challenge_fc.Store.Tables.Rows.{Tables, any, update_where}
use go_challenge_fc.Store.Tables.Transactions.{
  transaction_row_ok, insert_transaction, update_transaction, transaction_collides,
  transaction_has_id, set_transaction,
}
use go_challenge_fc.Store.Tables.Wallets.{
  insert_wallet, update_wallet, wallet_collides, wallet_has_id, set_wallet, scan_wallet,
}
use go_challenge_fc.Store.Writes.{
  Write, Wrote, nothing, further, wallet_inserted, wallet_updated, transaction_inserted,
  transaction_updated, entry_inserted, message_inserted, event_inserted, event_published,
  event_failed,
}
use go_challenge_fc.System.{System, Act, Acts, act, acts, empty}
use go_challenge_fc.System.Recorded.{act-Wrote, acts-Wrote}
use go_challenge_fc.Transaction.Defs.{WagerTransaction}
use go_challenge_fc.Wallet.{Wallet}

-- inbox_messages_pkey and inbox_messages_consumer_message_uniq
abbrev pub message_collides : InboxMessage → InboxMessage → Bool
message_collides m r = same_message m.consumer_name m.message_id r || r.id == m.id

-- An entry belongs to a wallet and a transaction that are stored.
abbrev pub Refers : Tables → Entry → Type 0
Refers t e =
    (any (wallet_has_id e.wallet_id) t.wallets ≡ true)
    × (any (transaction_has_id e.transaction_id) t.wager_transactions ≡ true)

-- A transaction has an int64 amount, and its wallet is stored.
abbrev pub IsOwned : Tables → WagerTransaction → Type 0
IsOwned t x = IsInt64 x.money.amount × (any (wallet_has_id x.wallet_id) t.wallets ≡ true)

-- The constraints that the statements check.
pub record IsChecked (t : Tables) : Type 0 where
  pub wallets : Distinct wallet_collides t.wallets
  pub transactions : Distinct transaction_collides t.wager_transactions
  pub entries : Distinct entry_collides t.wallet_ledger_entries
  pub messages : Distinct message_collides t.inbox_messages
  pub owned : All (IsOwned t) t.wager_transactions
  pub posted : All (Refers t) t.wallet_ledger_entries

pub empty-IsChecked : IsChecked empty
empty-IsChecked = record {
  wallets = tt;
  transactions = tt;
  entries = tt;
  messages = tt;
  owned = tt;
  posted = tt;
}

-- What the constraints have checked before a row is inserted.
pub wallet_fresh :
    (w : Wallet) (t t' : Tables)
    → insert_wallet w t ≡ ok (tt, t')
    → any (wallet_collides w) t.wallets ≡ false
unfolding insert_wallet
wallet_fresh w t t' e = ground arith

pub transaction_fresh :
    (x : WagerTransaction) (t t' : Tables)
    → insert_transaction x t ≡ ok (tt, t')
    → (any (transaction_collides x) t.wager_transactions ≡ false) × IsOwned t x
unfolding insert_transaction transaction_row_ok
transaction_fresh x t t' e = ground (arith, in_bigint-IsInt64 x.money.amount)

entry_fresh :
    (x : Entry) (t t' : Tables)
    → insert_entry x t ≡ ok (tt, t')
    → (any (entry_collides x) t.wallet_ledger_entries ≡ false) × Refers t x
unfolding insert_entry
entry_fresh x t t' e = ground arith

module _ (t : Tables) (h : IsChecked t) where
  wallet_inserted-IsChecked :
      (w : Wallet) (t' : Tables) → insert_wallet w t ≡ ok (tt, t') → IsChecked t'
  unfolding scan_wallet wallet_collides
  wallet_inserted-IsChecked w t' e = rw (insert_wallet_ok t w t' e) (record {
    wallets = (wallet_fresh w t t' e, h.wallets);
    transactions = h.transactions;
    entries = h.entries;
    messages = h.messages;
    owned = All-mono (IsOwned t) _ (λ x p. (p.0, any-cons _ _ _ p.1)) _ h.owned;
    posted = All-mono (Refers t) _ (λ x p. (any-cons _ _ _ p.0, p.1)) _ h.posted;
  })

  wallet_updated-IsChecked :
      (w : Wallet) (t' : Tables) → update_wallet w t ≡ ok (tt, t') → IsChecked t'
  unfolding set_wallet wallet_collides
  wallet_updated-IsChecked w t' e = rw (update_wallet_ok t w t' e) (record {
    wallets = Distinct-update _ _ _ (λ x y. refl) (λ x y. refl) t.wallets h.wallets;
    transactions = h.transactions;
    entries = h.entries;
    messages = h.messages;
    owned =
        All-mono (IsOwned t) _
          (λ x p. (p.0, any-update _ _ (wallet_has_id x.wallet_id) (λ y. refl) t.wallets ∙ p.1)) _
          h.owned;
    posted =
        All-mono (Refers t) _
          (λ x p. (any-update _ _ (wallet_has_id x.wallet_id) (λ y. refl) t.wallets ∙ p.0, p.1)) _
          h.posted;
  })

  transaction_inserted-IsChecked :
      (x : WagerTransaction) (t' : Tables) → insert_transaction x t ≡ ok (tt, t') → IsChecked t'
  transaction_inserted-IsChecked x t' e =
      let (fresh, wallet) = transaction_fresh x t t' e in
      rw (insert_transaction_ok t x t' e) (record {
        wallets = h.wallets;
        transactions = (fresh, h.transactions);
        entries = h.entries;
        messages = h.messages;
        owned = (wallet, h.owned);
        posted = All-mono (Refers t) _ (λ y p. (p.0, any-cons _ _ _ p.1)) _ h.posted;
      })

  updated-IsOwned :
      (x : WagerTransaction) (p : WagerTransaction → Bool) (xs : List WagerTransaction)
      → All (IsOwned t) xs
      → All (IsOwned t) (update_where p (set_transaction x) xs)
  unfolding update_where set_transaction
  updated-IsOwned x p [] k = tt
  updated-IsOwned x p (y ∷ ys) (one, k) = elim (Bool-cases (p y)) [
    | inl hit ↦ rw hit (one, updated-IsOwned x p ys k)
    | inr miss ↦ rw miss (one, updated-IsOwned x p ys k)
  ]

  transaction_updated-IsChecked :
      (x : WagerTransaction) (t' : Tables) → update_transaction x t ≡ ok (tt, t') → IsChecked t'
  unfolding set_transaction transaction_collides
  transaction_updated-IsChecked x t' e = rw (update_transaction_ok t x t' e) (record {
    wallets = h.wallets;
    transactions =
        Distinct-update _ _ _ (λ x y. refl) (λ x y. refl) t.wager_transactions h.transactions;
    entries = h.entries;
    messages = h.messages;
    owned = updated-IsOwned x _ t.wager_transactions h.owned;
    posted =
        All-mono (Refers t) _
          (λ y p. (
            p.0,
            any-update _ _ (transaction_has_id y.transaction_id) (λ z. refl) t.wager_transactions
                ∙ p.1,
          ))
          _ h.posted;
  })

  entry_inserted-IsChecked :
      (x : Entry) (t' : Tables) → insert_entry x t ≡ ok (tt, t') → IsChecked t'
  unfolding scan_entry entry_collides
  entry_inserted-IsChecked x t' e =
      let (fresh, refers) = entry_fresh x t t' e in
      rw (insert_entry_ok t x t' e) (record {
        wallets = h.wallets;
        transactions = h.transactions;
        entries = (fresh, h.entries);
        messages = h.messages;
        owned = h.owned;
        posted = (refers, h.posted);
      })

  messages_fresh :
      (m : InboxMessage) (new : Bool) (t' : Tables)
      → insert_message m t ≡ ok (new, t')
      → Distinct message_collides t'.inbox_messages
  unfolding insert_message any
  messages_fresh m new t' e = ground (
    arith,
    h.messages,
    any-either (same_message m.consumer_name m.message_id) (λ r. r.id == m.id) t.inbox_messages,
  )

  messages-IsChecked :
      (ms : List InboxMessage)
      → Distinct message_collides ms
      → IsChecked (record t { inbox_messages = ms })
  messages-IsChecked ms fresh = record {
    wallets = h.wallets;
    transactions = h.transactions;
    entries = h.entries;
    messages = fresh;
    owned = h.owned;
    posted = h.posted;
  }

  message_inserted-IsChecked :
      (m : InboxMessage) (new : Bool) (t' : Tables)
      → insert_message m t ≡ ok (new, t')
      → IsChecked t'
  message_inserted-IsChecked m new t' e =
      subst IsChecked (sym (insert_message_ok m t new t' e))
        (messages-IsChecked t'.inbox_messages (messages_fresh m new t' e))

  events-IsChecked : (es : List OutboxEvent) → IsChecked (record t { outbox_events = es })
  events-IsChecked es = record {
    wallets = h.wallets;
    transactions = h.transactions;
    entries = h.entries;
    messages = h.messages;
    owned = h.owned;
    posted = h.posted;
  }

  event_inserted-IsChecked :
      (x : OutboxEvent) (t' : Tables) → insert_event x t ≡ ok (tt, t') → IsChecked t'
  event_inserted-IsChecked x t' e = rw (insert_event_ok t x t' e) (events-IsChecked _)

Write-IsChecked : (t t' : Tables) → Write t t' → IsChecked t → IsChecked t'
unfolding set_published set_failure
Write-IsChecked t t' (wallet_inserted w e) h = wallet_inserted-IsChecked t h w t' e
Write-IsChecked t t' (wallet_updated w e) h = wallet_updated-IsChecked t h w t' e
Write-IsChecked t t' (transaction_inserted x e) h = transaction_inserted-IsChecked t h x t' e
Write-IsChecked t t' (transaction_updated x e) h = transaction_updated-IsChecked t h x t' e
Write-IsChecked t t' (entry_inserted x e) h = entry_inserted-IsChecked t h x t' e
Write-IsChecked t t' (message_inserted m new e) h = message_inserted-IsChecked t h m new t' e
Write-IsChecked t t' (event_inserted x e) h = event_inserted-IsChecked t h x t' e
Write-IsChecked t t' (event_published now id e) h = rw e (events-IsChecked t h _)
Write-IsChecked t t' (event_failed now id last delay e) h = rw e (events-IsChecked t h _)

pub Wrote-IsChecked : {t t' : Tables} → Wrote t t' → IsChecked t → IsChecked t'
Wrote-IsChecked nothing h = h
Wrote-IsChecked {t' = t'} (further {u = u} k w) h = Write-IsChecked u t' w (Wrote-IsChecked k h)

pub act-IsChecked :
    (s : System) (a : Act) (w : World) → IsChecked w.tables → IsChecked (act s a w).tables
act-IsChecked s a w h = Wrote-IsChecked (act-Wrote s a w) h

pub acts-IsChecked :
    (s : System) (a : Acts) (w : World) → IsChecked w.tables → IsChecked (acts s a w).tables
acts-IsChecked s a w h = Wrote-IsChecked (acts-Wrote s a w) h
