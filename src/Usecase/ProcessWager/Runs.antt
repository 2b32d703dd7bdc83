-- ===== src/Usecase/ProcessWager/Runs.antt =====
-- How Execute runs on a new operation without a reference that moves money, if every step succeeds.
use go_challenge_fc.Base.{
  ℕ, ◌+◌, ◌≡◌, refl, true, false, [], ◌∷◌, Option, none, some, String, str_eq, ◌==◌,
}
use go_challenge_fc.Errs.{err, Result, ok}
use go_challenge_fc.Ledger.{Entry, new_entry}
use go_challenge_fc.Messages.Events.{Payload, envelope_of, new_balance_changed, new_processed}
use go_challenge_fc.Messages.Outbox.{new_event}
use go_challenge_fc.Money.Defs.{Money}
use go_challenge_fc.Store.Repos.{
  get_by_key, get_by_external, get_wallet, create_transaction, save_wallet, create_entry,
  create_event,
}
use go_challenge_fc.Store.Session.{
  World, Env, ◌>>=◌, lift, pure, query, statement, finish, with_tx, new_uuid, time_now,
}
use go_challenge_fc.Store.Tables.Entries.{insert_entry}
use go_challenge_fc.Store.Tables.Messages.{event_has_id, insert_event}
use go_challenge_fc.Store.Tables.Rows.{any, Tables}
use go_challenge_fc.Store.Tables.Transactions.{
  select_by_key, select_by_external, insert_transaction,
}
use go_challenge_fc.Store.Tables.Wallets.{select_wallet, wallet_or_not_found, update_wallet}
use go_challenge_fc.Transaction.Defs.{
  WagerTransaction, is_opening, requires_reference, new_external, mark_processed, processed,
  kind_text,
}
use go_challenge_fc.Usecase.Emit.{emit}
use go_challenge_fc.Usecase.ProcessWager.Defs.{
  Input, Output, external_of, moves_money, payload_hash,
}
use go_challenge_fc.Usecase.ProcessWager.Execute.{
  register_message, check_key, check_external, execute_tx, after_tx, execute,
}
use go_challenge_fc.Usecase.ProcessWager.Steps.{
  raise_if, or_else, handle_new, dispatch, apply_operation, settle_operation, complete, when,
  post_movement, announce, operate, new_output,
}
use go_challenge_fc.Wallet.{Wallet}

-- The session with these tables after `d` draws, with a database that answers.
abbrev pub at : World → Tables → ℕ → World
at w t d = record w { tables = t; draws = d; faults = []; aborted = false }

module _ (env : Env) (w : World) where
  abbrev pub emitted : Payload → ℕ → String → Option ℕ → Tables → ℕ → Tables
  unfolding new_event
  emitted p aggregate type correlation t d = record t {
    outbox_events =
        new_event (env.clock (d + 1)) (envelope_of p).event_id (envelope_of p).event_type aggregate
          type correlation none p (env.clock d) 1
        ∷ t.outbox_events;
  }

  emit_runs :
      (p : Payload) (aggregate : ℕ) (type : String) (correlation : Option ℕ) (t : Tables) (d : ℕ)
      → any (event_has_id (envelope_of p).event_id) t.outbox_events ≡ false
      → emit env p aggregate type correlation (at w t d)
        ≡ (ok tt, at w (emitted p aggregate type correlation t d) (d + 1 + 1))
  unfolding emit create_event statement ◌>>=◌ time_now insert_event new_event
  emit_runs p aggregate type correlation t d fresh = rw fresh refl

  module _ (i : Input) where
    -- The tables after the event about a processed transaction.
    abbrev pub announced : ℕ → Wallet → Tables → ℕ → Tables
    announced txn u t d =
        emitted
          (new_processed (env.uuid d) (env.clock (d + 1)) txn i.wallet_id i.player_id
            (some i.provider_id) (some i.external_transaction_id) (kind_text i.kind) i.money
            u.balance i.correlation_id none)
          txn "WagerTransaction" (some i.correlation_id) t (d + 1 + 1)

    announce_runs :
        (txn : ℕ) (u : Wallet) (t : Tables) (d : ℕ)
        → any (event_has_id (env.uuid d)) t.outbox_events ≡ false
        → announce env txn i u (at w t d) ≡ (
          ok (new_output txn processed u.balance none),
          at w (announced txn u t d) (d + 1 + 1 + 1 + 1),
        )
    unfolding announce ◌>>=◌ new_uuid time_now pure new_processed
    announce_runs txn u t d fresh =
        rw (emit_runs _ txn "WagerTransaction" (some i.correlation_id) t (d + 1 + 1) fresh) refl

    -- The tables after the wallet, its entry, and the event about its balance.
    abbrev pub moved : ℕ → String → Money → Wallet → Tables → ℕ → Tables
    moved txn direction before u t d =
        emitted
          (new_balance_changed (env.uuid d) (env.clock (d + 1)) i.wallet_id txn direction i.money
            before u.balance u.version i.correlation_id none)
          i.wallet_id "Wallet" (some i.correlation_id) t (d + 1 + 1)

    post_movement_runs :
        (txn : ℕ) (direction : String) (before : Money) (u : Wallet) (entry : Entry)
        (t t1 t2 : Tables) (d : ℕ)
        → update_wallet u t ≡ ok (tt, t1)
        → new_entry
            (env.uuid d)
            (env.clock (d + 1))
            i.wallet_id
            txn
            direction
            i.money
            before
            u.balance
          ≡ ok entry
        → insert_entry entry t1 ≡ ok (tt, t2)
        → any (event_has_id (env.uuid (d + 1 + 1))) t2.outbox_events ≡ false
        → post_movement env txn i direction before u (at w t d)
          ≡ (ok tt, at w (moved txn direction before u t2 (d + 1 + 1)) (d + 1 + 1 + 1 + 1 + 1 + 1))
    unfolding post_movement save_wallet create_entry ◌>>=◌ new_uuid time_now lift statement
        new_balance_changed
    post_movement_runs txn direction before u entry t t1 t2 d updated built posted fresh =
        rw
          (
            updated,
            built,
            posted,
            emit_runs _ i.wallet_id "Wallet" (some i.correlation_id) t2 (d + 1 + 1 + 1 + 1) fresh,
          )
          refl

    complete_runs :
        (x x' : WagerTransaction) (direction : String) (before : Money) (u : Wallet) (entry : Entry)
        (t t1 t2 t3 : Tables) (d : ℕ)
        → mark_processed (env.clock d) u.balance x ≡ ok x'
        → insert_transaction x' t ≡ ok (tt, t1)
        → moves_money direction ≡ true
        → update_wallet u t1 ≡ ok (tt, t2)
        → new_entry
            (env.uuid (d + 1))
            (env.clock (d + 1 + 1))
            i.wallet_id
            x.id
            direction
            i.money
            before
            u.balance
          ≡ ok entry
        → insert_entry entry t2 ≡ ok (tt, t3)
        → any (event_has_id (env.uuid (d + 1 + 1 + 1))) t3.outbox_events ≡ false
        → any
            (event_has_id (env.uuid (d + 1 + 1 + 1 + 1 + 1 + 1 + 1)))
            (moved x.id direction before u t3 (d + 1 + 1 + 1)).outbox_events
          ≡ false
        → complete env x i direction before u (at w t d) ≡ (
          ok (new_output x.id processed u.balance none),
          at w
              (announced x.id u
                (moved x.id direction before u t3 (d + 1 + 1 + 1))
                (d + 1 + 1 + 1 + 1 + 1 + 1 + 1))
              (d + 1 + 1 + 1 + 1 + 1 + 1 + 1 + 1 + 1 + 1 + 1),
        )
    unfolding complete create_transaction ◌>>=◌ time_now lift statement when
    complete_runs x x' direction before u entry t t1 t2 t3 d marked inserted moves updated built
          posted one two =
        rw
          (
            marked,
            inserted,
            moves,
            post_movement_runs x.id direction before u entry t1 t2 t3 (d + 1) updated built posted
                one,
            announce_runs x.id u (moved x.id direction before u t3 (d + 1 + 1 + 1))
                (d + 1 + 1 + 1 + 1 + 1 + 1 + 1) two,
          )
          refl

-- What each step returns, from the tables `t` after `d` draws.
pub record Succeeds (env : Env) (w : World) (i : Input) (hash : String) (t : Tables) (d : ℕ)
    : Type 0 where
  pub u : Wallet
  pub found : select_wallet i.wallet_id t ≡ some u
  pub owner : (u.player_id == i.player_id) ≡ true
  pub currency : str_eq u.currency i.money.currency ≡ true
  pub x : WagerTransaction
  pub accepted : new_external (env.clock (d + 1)) (external_of (env.uuid d) hash i) ≡ ok x
  pub plain : requires_reference i.kind ≡ false
  pub direction : String
  pub u' : Wallet
  pub operated :
      operate (env.clock (d + 1 + 1)) i.kind none i.money u ≡ ok (direction, u', ok u.balance)
  pub x' : WagerTransaction
  pub marked : mark_processed (env.clock (d + 1 + 1 + 1)) u'.balance x ≡ ok x'
  pub t1 : Tables
  pub inserted : insert_transaction x' t ≡ ok (tt, t1)
  pub moves : moves_money direction ≡ true
  pub t2 : Tables
  pub updated : update_wallet u' t1 ≡ ok (tt, t2)
  pub entry : Entry
  pub built :
      new_entry
        (env.uuid (d + 1 + 1 + 1 + 1))
        (env.clock (d + 1 + 1 + 1 + 1 + 1))
        i.wallet_id
        x.id
        direction
        i.money
        u.balance
        u'.balance
      ≡ ok entry
  pub t3 : Tables
  pub posted : insert_entry entry t2 ≡ ok (tt, t3)
  pub one : any (event_has_id (env.uuid (d + 1 + 1 + 1 + 1 + 1 + 1))) t3.outbox_events ≡ false
  pub two :
      any
        (event_has_id (env.uuid (d + 1 + 1 + 1 + 1 + 1 + 1 + 1 + 1 + 1 + 1)))
        (moved env w i x.id direction u.balance u' t3 (d + 1 + 1 + 1 + 1 + 1 + 1)).outbox_events
      ≡ false

module _ (env : Env) (i : Input) where
  handle_new_runs :
      (w : World) (hash : String) (t : Tables) (d : ℕ) (s : Succeeds env w i hash t d)
      → (v : World) × (handle_new env hash i (at w t d)
          ≡ (ok (new_output s.x.id processed s.u'.balance none), v))
        × (v.faults ≡ [])
        × (v.aborted ≡ false)
  unfolding handle_new get_wallet query statement ◌>>=◌ lift raise_if wallet_or_not_found new_uuid
      time_now dispatch apply_operation settle_operation pure
  handle_new_runs w hash t d s = (
    at w
        (announced env w i s.x.id s.u'
          (moved env w i s.x.id s.direction s.u.balance s.u' s.t3 (d + 1 + 1 + 1 + 1 + 1 + 1))
          (d + 1 + 1 + 1 + 1 + 1 + 1 + 1 + 1 + 1 + 1))
        (d + 1 + 1 + 1 + 1 + 1 + 1 + 1 + 1 + 1 + 1 + 1 + 1 + 1 + 1),
    rw (s.found, s.owner, s.currency, s.accepted, s.plain, s.operated)
        (complete_runs env w i s.x s.x' s.direction s.u.balance s.u' s.entry t s.t1 s.t2 s.t3
          (d + 1 + 1 + 1) s.marked s.inserted s.moves s.updated s.built s.posted s.one s.two),
    refl,
    refl,
  )

  committed :
      {A : Type 0} (before : Tables) (r : Result A × World) (a : A)
      → (v : World) × (r ≡ (ok a, v)) × (v.faults ≡ []) × (v.aborted ≡ false)
      → (finish before r).0 ≡ ok a
  unfolding finish
  committed before r a (v, e, up, calm) = rw (e, up, calm) refl

  module _ (rival : Tables → Tables) (w : World) (up : w.faults ≡ [])
      (external : is_opening i.kind ≡ false) (no_message : str_eq i.source "SQS" ≡ false)
      (no_key : select_by_key i.idempotency_key w.tables ≡ none)
      (no_operation : select_by_external i.provider_id i.external_transaction_id w.tables
        ≡ none) where
    tx_runs :
        (hash : String) (s : Succeeds env w i hash w.tables w.draws)
        → (v : World) × (execute_tx env hash i (at w w.tables w.draws)
            ≡ (ok (new_output s.x.id processed s.u'.balance none), v))
          × (v.faults ≡ [])
          × (v.aborted ≡ false)
    unfolding execute_tx register_message get_by_key get_by_external check_key check_external
        or_else query statement ◌>>=◌ pure
    tx_runs hash s =
        rw (no_message, no_key, no_operation) (handle_new_runs w hash w.tables w.draws s)

    begun_runs :
        (hash : String) (s : Succeeds env w i hash w.tables w.draws)
        → (with_tx (execute_tx env hash i) w).0 ≡ ok (new_output s.x.id processed s.u'.balance none)
    unfolding with_tx
    begun_runs hash s = rw up (committed w.tables _ _ (tx_runs hash s))

    finished :
        (hash : String) (r : Result Output × World) (o : Output)
        → r.0 ≡ ok o
        → (after_tx rival hash i r).0 ≡ ok o
    unfolding after_tx
    finished hash (ok o', v) o e = e
    finished hash (err x, v) o e = cc

    -- If every step succeeds, Execute returns the output of the last one.
    pub execute_runs :
        (s : Succeeds env w i (payload_hash env i) w.tables w.draws)
        → (execute env rival i w).0 ≡ ok (new_output s.x.id processed s.u'.balance none)
    unfolding execute
    execute_runs s =
        rw external (finished (payload_hash env i) _ _ (begun_runs (payload_hash env i) s))
