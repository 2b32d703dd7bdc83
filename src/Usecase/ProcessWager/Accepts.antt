-- ===== src/Usecase/ProcessWager/Accepts.antt =====
-- A new bet or win that its wallet covers is processed.
use go_challenge_fc.Messages.Events.{new_balance_changed}
use go_challenge_fc.Messages.Outbox.{new_event}
use go_challenge_fc.Store.Tables.Laws.{select_wallet-id}
use go_challenge_fc.Base.{
  ap, ℕ, ◌+◌, ◌≡◌, refl, ◌∙◌, sym, true, false, not, ◌||◌, ◌&&◌, [], ◌∷◌, none, some, String,
  str_eq, ◌==◌, arith, eq_iff,
}
use go_challenge_fc.Base.Int.{ℤ, pos, ◌+ℤ◌, ◌-ℤ◌, ltb_ℤ, wrap64, wrap64_id, eqb_ℤ}
use go_challenge_fc.Errs.{ok}
use go_challenge_fc.Ledger.{Entry, new_entry, direction_debit, direction_credit}
use go_challenge_fc.Ledger.Laws.{new_entry_accepts}
use go_challenge_fc.Store.Session.{World, Env}
use go_challenge_fc.Store.Tables.Entries.{insert_entry, entry_row_ok, entry_collides, scan_entry}
use go_challenge_fc.Store.Tables.Keys.{any-update, any-none, any-or, any-or_and, found_any}
use go_challenge_fc.Store.Tables.Messages.{event_has_id}
use go_challenge_fc.Store.Tables.Rows.{in_currency_code, Tables, any, update_where}
use go_challenge_fc.Store.Tables.Transactions.{
  balance_row_ok, insert_transaction, transaction_row_ok, transaction_collides, transaction_has_id,
  transaction_has_key, transaction_has_external, select_by_key, select_by_external,
}
use go_challenge_fc.Store.Tables.Wallets.{select_wallet, update_wallet, set_wallet, wallet_has_id}
use go_challenge_fc.Transaction.Defs.{
  WagerTransaction, bet, win, new_external, mark_processed, processed, external_transaction, Kind,
}
use go_challenge_fc.Usecase.ProcessWager.Defs.{Input, external_of, payload_hash}
use go_challenge_fc.Usecase.ProcessWager.Execute.{execute}
use go_challenge_fc.Usecase.ProcessWager.Operate.{effect_of}
use go_challenge_fc.Usecase.ProcessWager.Runs.{Succeeds, moved, execute_runs}
use go_challenge_fc.Usecase.ProcessWager.Steps.{new_output}
use go_challenge_fc.Wallet.{Wallet, move_balance}
use go_challenge_fc.Wallet.Laws.{IsSound, with_amount}
use go_challenge_fc.Usecase.ProcessWager.Covered.{
  is_simple, direction_of, after, operate_simple, IsCovered, Unused, kind_facts,
}

module _ (env : Env) (i : Input) (hash : String) (w : World) (t : Tables) (d : ℕ) (u : Wallet)
    (c : IsCovered i u) (free : Unused env t) where
  -- The transaction as it is created, and as it is processed.
  abbrev made : WagerTransaction
  unfolding external_transaction
  made = external_transaction (env.clock (d + 1)) (external_of (env.uuid d) hash i)

  abbrev moved_wallet : Wallet
  moved_wallet = with_amount (env.clock (d + 1 + 1)) (after i.kind u i.money.amount).amount u

  abbrev done : WagerTransaction
  unfolding external_transaction
  done = record made {
    status = processed;
    result_balance = some moved_wallet.balance;
    updated_at = env.clock (d + 1 + 1 + 1);
  }

  made_ok : new_external (env.clock (d + 1)) (external_of (env.uuid d) hash i) ≡ ok made
  unfolding new_external external_transaction
  made_ok =
      let k = kind_facts i.kind c.simple in
      rw
        (
          k.0,
          k.2,
          free.not_nil d,
          c.wallet,
          c.player,
          c.provider,
          c.operation,
          c.key,
          k.6 i.money c.positive,
          k.1,
        )
        refl

  done_ok : mark_processed (env.clock (d + 1 + 1 + 1)) moved_wallet.balance made ≡ ok done
  unfolding mark_processed external_transaction
  done_ok = refl

  module _ (found : select_wallet i.wallet_id t ≡ some u)
      (no_key : select_by_key i.idempotency_key t ≡ none)
      (no_operation : select_by_external i.provider_id i.external_transaction_id t ≡ none) where
    abbrev inserted_tables : Tables
    unfolding external_transaction
    inserted_tables = record t { wager_transactions = done ∷ t.wager_transactions }

    stored_wallet : any (wallet_has_id i.wallet_id) t.wallets ≡ true
    unfolding select_wallet
    stored_wallet = found_any _ _ u found

    wallet_id : u.id ≡ i.wallet_id
    wallet_id = select_wallet-id i.wallet_id t u found

    balance_ok : IsSound u → balance_row_ok (some moved_wallet.balance) ≡ true
    unfolding balance_row_ok move_balance
    balance_ok sound =
        let known : in_currency_code u.balance.currency ≡ true =
          rw (sound.one_currency, c.currency) c.known_currency in
        rw known (ground (arith, c.fits, c.low))

    row_ok : IsSound u → transaction_row_ok done ≡ true
    unfolding transaction_row_ok external_transaction
    row_ok sound =
        let k = kind_facts i.kind c.simple in
        rw (k.0, k.2, c.known_currency, balance_ok sound) (ground (arith, c.range, c.positive))

    no_collision : any (transaction_collides done) t.wager_transactions ≡ false
    unfolding transaction_collides external_transaction select_by_key select_by_external
    no_collision =
        any-or (transaction_has_id (env.uuid d))
          (transaction_has_external i.provider_id i.external_transaction_id)
          (transaction_has_key i.idempotency_key) t.wager_transactions (free.transaction d)
          (any-none _ _ no_operation) (any-none _ _ no_key)

    insert_ok : IsSound u → insert_transaction done t ≡ ok (tt, inserted_tables)
    unfolding insert_transaction external_transaction
    insert_ok sound = rw (row_ok sound, no_collision, stored_wallet) refl

    abbrev updated_tables : Tables
    unfolding external_transaction
    updated_tables = record inserted_tables {
      wallets = update_where (wallet_has_id u.id) (set_wallet moved_wallet) t.wallets;
    }

    not_negative : ltb_ℤ (after i.kind u i.money.amount).amount (pos 0) ≡ false
    not_negative = ground (arith, c.low)

    version_ok : ltb_ℤ (wrap64 (u.version +ℤ pos 1)) (pos 1) ≡ false
    unfolding ◌+ℤ◌
    version_ok = ground (arith, wrap64_id (u.version +ℤ pos 1), c.next_version, c.version)

    update_ok : update_wallet moved_wallet inserted_tables ≡ ok (tt, updated_tables)
    unfolding update_wallet external_transaction move_balance
    update_ok = rw (wallet_id, stored_wallet, not_negative, version_ok) refl

    module _ (sound : IsSound u) where
      abbrev entry : Entry
      entry = record {
        id = env.uuid (d + 1 + 1 + 1 + 1);
        wallet_id = i.wallet_id;
        transaction_id = env.uuid d;
        direction = direction_of i.kind;
        money = i.money;
        balance_before = u.balance;
        balance_after = moved_wallet.balance;
        created_at = env.clock (d + 1 + 1 + 1 + 1 + 1);
      }

      built_ok :
          new_entry
            (env.uuid (d + 1 + 1 + 1 + 1))
            (env.clock (d + 1 + 1 + 1 + 1 + 1))
            i.wallet_id
            (env.uuid d)
            (direction_of i.kind)
            i.money
            u.balance
            moved_wallet.balance
          ≡ ok entry
      unfolding move_balance
      built_ok =
          let k = kind_facts i.kind c.simple in
          new_entry_accepts _ _ _ _ (direction_of i.kind) i.money u.balance moved_wallet.balance
            c.range sound.in_range (sym (sound.one_currency ∙ c.currency)) refl c.positive c.fits
            k.4 (ap (λ a. u.balance.amount +ℤ a) (sym (k.5 i.money.amount)))

      balances_ok :
          (k : Kind) (a : ℤ)
          → is_simple k ≡ true
          → (not (str_eq (direction_of k) direction_debit)
                || eqb_ℤ (u.balance.amount +ℤ effect_of k none a) (u.balance.amount -ℤ a))
              && (not (str_eq (direction_of k) direction_credit)
                  || eqb_ℤ (u.balance.amount +ℤ effect_of k none a) (u.balance.amount +ℤ a))
            ≡ true
      unfolding ◌+ℤ◌ ◌-ℤ◌
      balances_ok bet a s = ground arith
      balances_ok win a s = ground arith
      balances_ok _ a s = cc

      entry_no_collision : any (entry_collides entry) t.wallet_ledger_entries ≡ false
      unfolding entry_collides
      entry_no_collision =
          any-or_and _ _ _ t.wallet_ledger_entries (free.entry (d + 1 + 1 + 1 + 1)) (free.posting d)

      entry_row : entry_row_ok entry ≡ true
      unfolding entry_row_ok move_balance
      entry_row = ground (
        arith,
        c.known_currency,
        c.positive,
        sound.not_negative,
        not_negative,
        (kind_facts i.kind c.simple).4,
        balances_ok i.kind i.money.amount c.simple,
        eq_iff (direction_of i.kind) direction_debit,
        eq_iff (direction_of i.kind) direction_credit,
      )

      abbrev posted_tables : Tables
      unfolding external_transaction
      posted_tables = record updated_tables {
        wallet_ledger_entries = scan_entry entry ∷ t.wallet_ledger_entries;
      }

      still_stored :
          any
            (wallet_has_id i.wallet_id)
            (update_where (wallet_has_id u.id) (set_wallet moved_wallet) t.wallets)
          ≡ true
      unfolding set_wallet
      still_stored =
          any-update (wallet_has_id u.id) (set_wallet moved_wallet) (wallet_has_id i.wallet_id)
            (λ y. refl) t.wallets
          ∙ stored_wallet

      same_id : (env.uuid d == env.uuid d) ≡ true
      same_id = ground arith

      post_ok : insert_entry entry updated_tables ≡ ok (tt, posted_tables)
      unfolding insert_entry any external_transaction
      post_ok = rw (entry_row, entry_no_collision, still_stored, same_id) refl

      second_event :
          any
            (event_has_id (env.uuid (d + 1 + 1 + 1 + 1 + 1 + 1 + 1 + 1 + 1 + 1)))
            (moved env w i
              (env.uuid d)
              (direction_of i.kind)
              u.balance
              moved_wallet
              posted_tables
              (d + 1 + 1 + 1 + 1 + 1 + 1)).outbox_events
          ≡ false
      unfolding any new_event new_balance_changed posted_tables
      second_event =
          rw
            (free.apart (d + 1 + 1 + 1 + 1 + 1 + 1) (d + 1 + 1 + 1 + 1 + 1 + 1 + 1 + 1 + 1 + 1)
              (λ e. omega arith))
            (free.event (d + 1 + 1 + 1 + 1 + 1 + 1 + 1 + 1 + 1 + 1))

      covered-Succeeds : Succeeds env w i hash t d
      unfolding external_transaction
      covered-Succeeds =
          let k = kind_facts i.kind c.simple in
          record {
            u = u;
            found = found;
            owner = ground (arith, c.owner);
            currency = (eq_iff u.currency i.money.currency).1 c.currency;
            x = made;
            accepted = made_ok;
            plain = k.1;
            direction = direction_of i.kind;
            u' = moved_wallet;
            operated =
                operate_simple _ i.money u sound c.range c.positive (sym c.currency) i.kind c.simple
                  c.low c.fits;
            x' = done;
            marked = done_ok;
            t1 = inserted_tables;
            inserted = insert_ok sound;
            moves = k.3;
            t2 = updated_tables;
            updated = update_ok;
            entry = entry;
            built = built_ok;
            t3 = posted_tables;
            posted = post_ok;
            one = free.event (d + 1 + 1 + 1 + 1 + 1 + 1);
            two = second_event;
          }

-- With a database that answers and hands out unused identifiers, on tables where no wallet is in
-- debt: a new bet or win that is no queue message and that its wallet covers (the request is valid,
-- the wallet is stored for the player and the currency, and the balance after it is an int64 that
-- is not negative) is processed, with that balance, and is no replay.
pub execute_accepts :
    (env : Env) (rival : Tables → Tables) (i : Input) (w : World) (u : Wallet)
    → w.faults ≡ []
    → str_eq i.source "SQS" ≡ false
    → select_by_key i.idempotency_key w.tables ≡ none
    → select_by_external i.provider_id i.external_transaction_id w.tables ≡ none
    → select_wallet i.wallet_id w.tables ≡ some u
    → IsSound u
    → IsCovered i u
    → Unused env w.tables
    → (execute env rival i w).0
      ≡ ok (new_output (env.uuid w.draws) processed (after i.kind u i.money.amount) none)
unfolding external_transaction move_balance covered-Succeeds
execute_accepts env rival i w u up no_message no_key no_operation found sound c free =
    execute_runs env i rival w up (kind_facts i.kind c.simple).0 no_message no_key no_operation (
      covered-Succeeds env i (payload_hash env i) w w.tables w.draws u c free found no_key
        no_operation sound)
