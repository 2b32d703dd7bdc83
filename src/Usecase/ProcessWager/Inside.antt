-- ===== src/Usecase/ProcessWager/Inside.antt =====
-- Execute asks nothing of the queues, and changes the tables by the writes of the repositories
-- alone.
use go_challenge_fc.Base.{
  ◌≡◌, refl, ◌∙◌, Bool-cases, inl, inr, ℕ, Bool, true, false, Option, none, some, String,
}
use go_challenge_fc.Errs.{Code, Result, ok, err, Error, is_code, duplicate_operation}
use go_challenge_fc.Store.Tables.Rows.{Tables}
use go_challenge_fc.Money.Defs.{Money}
use go_challenge_fc.Store.Inside.{
  Inside, Inside-pure, Inside-raise, Inside-lift, Inside-if, Inside-statement, Inside-query,
  Inside-attempt, Inside-with_tx, Inside-uuid, Inside-time, Inside-bind,
}
use go_challenge_fc.Store.Writes.{
  Wrote, nothing, Wrote-trans, insert_wallet-IsWrite, update_wallet-IsWrite,
  insert_transaction-IsWrite, update_transaction-IsWrite, insert_entry-IsWrite,
  insert_message-IsWrite, insert_event-IsWrite, set_published-IsWrite, set_failure-IsWrite,
}
use go_challenge_fc.Store.Repos.{
  get_wallet, save_wallet, create_transaction, get_by_key, get_by_external, create_entry,
  create_message_if_absent, create_event,
}
use go_challenge_fc.Store.Session.{World, M, Env}
use go_challenge_fc.Transaction.Defs.{WagerTransaction, is_opening}
use go_challenge_fc.Usecase.Emit.{emit}
use go_challenge_fc.Messages.Events.{Payload}
use go_challenge_fc.Usecase.ProcessWager.Defs.{Input, Output}
use go_challenge_fc.Usecase.ProcessWager.Execute.{
  redelivery, register_message, replay_or_conflict, check_key, check_external, execute_tx,
  stored_or_error, found_or, reread_tx, replay_or_error, after_tx, execute,
}
use go_challenge_fc.Usecase.ProcessWager.Steps.{
  raise_if, or_else, when, reject_transaction, reject_with, park, post_movement, announce, complete,
  settle_operation, apply_operation, apply_reference, with_reference, dispatch, handle_new,
}
use go_challenge_fc.Wallet.{Wallet}

pub raise_if-Inside : (b : Bool) (e : Error) → Inside (raise_if b e)
unfolding raise_if
raise_if-Inside true e = Inside-raise e
raise_if-Inside false e = Inside-pure tt

pub or_else-Inside : (o : Option Output) (m : M Output) → Inside m → Inside (or_else o m)
unfolding or_else
or_else-Inside none m h = h
or_else-Inside (some o) m h = Inside-pure o

pub when-Inside : (b : Bool) (m : M (Unit {0})) → Inside m → Inside (when b m)
unfolding when
when-Inside true m h = h
when-Inside false m h = Inside-pure tt

-- The steps that a block is made of.
pub ruleset inside = (
  insert_wallet-IsWrite, update_wallet-IsWrite, insert_transaction-IsWrite,
  update_transaction-IsWrite, insert_entry-IsWrite, insert_message-IsWrite, insert_event-IsWrite,
  set_published-IsWrite, set_failure-IsWrite, Inside-pure, Inside-raise, Inside-lift, Inside-if,
  Inside-statement, Inside-query, Inside-attempt, Inside-with_tx, Inside-uuid, Inside-time,
  Inside-bind, raise_if-Inside, or_else-Inside, when-Inside,
)

pub emit-Inside :
    (env : Env) (p : Payload) (aggregate : ℕ) (type : String) (correlation : Option ℕ)
    → Inside (emit env p aggregate type correlation)
unfolding emit create_event
emit-Inside env p aggregate type correlation = search inside

module _ (env : Env) (i : Input) where
  reject_transaction-Inside :
      (x : WagerTransaction) (code : String) → Inside (reject_transaction env x i code)
  unfolding reject_transaction create_transaction
  reject_transaction-Inside x code = search (inside, emit-Inside) depth 20

  reject_with-Inside :
      (x : WagerTransaction) (w : Wallet) (code : Code) → Inside (reject_with env x w i code)
  unfolding reject_with
  reject_with-Inside x w code = search (inside, reject_transaction-Inside)

  park-Inside : (x : WagerTransaction) (w : Wallet) → Inside (park env x w i)
  unfolding park create_transaction
  park-Inside x w = search (inside, emit-Inside) depth 20

  post_movement-Inside :
      (txn : ℕ) (direction : String) (before : Money) (w : Wallet)
      → Inside (post_movement env txn i direction before w)
  unfolding post_movement save_wallet create_entry
  post_movement-Inside txn direction before w = search (inside, emit-Inside) depth 20

  announce-Inside : (txn : ℕ) (w : Wallet) → Inside (announce env txn i w)
  unfolding announce
  announce-Inside txn w = search (inside, emit-Inside) depth 20

  complete-Inside :
      (x : WagerTransaction) (direction : String) (before : Money) (w : Wallet)
      → Inside (complete env x i direction before w)
  unfolding complete create_transaction
  complete-Inside x direction before w =
      search (inside, post_movement-Inside, announce-Inside) depth 20

  settle_operation-Inside :
      (x : WagerTransaction) (direction : String) (w : Wallet) (b : Result Money)
      → Inside (settle_operation env x i direction w b)
  unfolding settle_operation
  settle_operation-Inside x direction w (ok before) = complete-Inside x direction before w
  settle_operation-Inside x direction w (err e) = reject_with-Inside x w _

  apply_operation-Inside :
      (x : WagerTransaction) (r : Option WagerTransaction) (w : Wallet)
      → Inside (apply_operation env x r w i)
  unfolding apply_operation
  apply_operation-Inside x r w = search (inside, settle_operation-Inside) depth 12

  apply_reference-Inside :
      (x r : WagerTransaction) (w : Wallet) (c : Option Code)
      → Inside (apply_reference env x r w i c)
  unfolding apply_reference
  apply_reference-Inside x r w (some code) = reject_with-Inside x w code
  apply_reference-Inside x r w none = apply_operation-Inside _ _ w

  with_reference-Inside :
      (x : WagerTransaction) (w : Wallet) (r : Option WagerTransaction)
      → Inside (with_reference env x w i r)
  unfolding with_reference
  with_reference-Inside x w none = park-Inside x w
  with_reference-Inside x w (some r) = apply_reference-Inside x r w _

  dispatch-Inside : (x : WagerTransaction) (w : Wallet) → Inside (dispatch env x w i)
  unfolding dispatch get_by_external
  dispatch-Inside x w = search (inside, with_reference-Inside, apply_operation-Inside) depth 12

  handle_new-Inside : (hash : String) → Inside (handle_new env hash i)
  unfolding handle_new get_wallet
  handle_new-Inside hash = search (inside, dispatch-Inside) depth 20

  redelivery-Inside : (b : Bool) → Inside (redelivery i b)
  unfolding redelivery get_by_key
  redelivery-Inside true = Inside-pure none
  redelivery-Inside false = search inside depth 12

  register_message-Inside : (hash : String) → Inside (register_message env hash i)
  unfolding register_message create_message_if_absent
  register_message-Inside hash = search (inside, redelivery-Inside) depth 20

  replay_or_conflict-Inside :
      (hash : String) (x : WagerTransaction) → Inside (replay_or_conflict hash x)
  unfolding replay_or_conflict
  replay_or_conflict-Inside hash x = search inside depth 12

  check_key-Inside : (hash : String) (r : Option WagerTransaction) → Inside (check_key hash r)
  unfolding check_key
  check_key-Inside hash none = Inside-pure none
  check_key-Inside hash (some x) = replay_or_conflict-Inside hash x

  check_external-Inside :
      (hash : String) (r : Option WagerTransaction) → Inside (check_external hash i r)
  unfolding check_external
  check_external-Inside hash none = Inside-pure none
  check_external-Inside hash (some x) = search (inside, replay_or_conflict-Inside) depth 12

  execute_tx-Inside : (hash : String) → Inside (execute_tx env hash i)
  unfolding execute_tx get_by_key get_by_external
  execute_tx-Inside hash =
      search
        (
          inside, register_message-Inside, check_key-Inside, check_external-Inside,
          handle_new-Inside,
        )
        depth 20

  stored_or_error-Inside : (r : Option WagerTransaction) → Inside (stored_or_error r)
  unfolding stored_or_error
  stored_or_error-Inside none = Inside-raise _
  stored_or_error-Inside (some x) = Inside-pure x

  found_or-Inside :
      (r : Option WagerTransaction) (m : M (Option WagerTransaction))
      → Inside m
      → Inside (found_or r m)
  unfolding found_or
  found_or-Inside (some x) m h = Inside-pure x
  found_or-Inside none m h = search (inside, stored_or_error-Inside) depth 12

  reread_tx-Inside : (hash : String) → Inside (reread_tx hash i)
  unfolding reread_tx get_by_key get_by_external
  reread_tx-Inside hash = search (inside, found_or-Inside) depth 20

  replay_kept : (e : Error) (r : Result Output × World) → (replay_or_error e r).1 ≡ r.1
  replay_kept e (ok o, w) = refl
  replay_kept e (err x, w) = refl

  module _ (rival : Tables → Tables) where
    after_tx_kept :
        (hash : String) (r : Result Output × World)
        → (after_tx rival hash i r).1.outside ≡ r.1.outside
    unfolding after_tx
    after_tx_kept hash (ok o, w) = refl
    after_tx_kept hash (err e, w) = elim (Bool-cases (is_code e duplicate_operation)) [
      | inl twice ↦ rw (twice, replay_kept e _) ((Inside-with_tx _ (reread_tx-Inside hash)).kept _)
      | inr once ↦ rw once refl
    ]

    -- Execute leaves the queues alone.
    pub execute_kept : (w : World) → (execute env rival i w).1.outside ≡ w.outside
    unfolding execute
    execute_kept w = elim (Bool-cases (is_opening i.kind)) [
      | inl yes_opening ↦ rw yes_opening refl
      | inr external ↦
          rw external (after_tx_kept _ _ ∙ (Inside-with_tx _ (execute_tx-Inside _)).kept w)
    ]

    after_tx-Wrote :
        ((t : Tables) → Wrote t (rival t))
        → (hash : String) (t : Tables) (r : Result Output × World) → Wrote t r.1.tables
        → Wrote t (after_tx rival hash i r).1.tables
    unfolding after_tx
    after_tx-Wrote others hash t (ok o, w) h = h
    after_tx-Wrote others hash t (err e, w) h = elim (Bool-cases (is_code e duplicate_operation)) [
      | inl twice ↦
          rw (twice, replay_kept e _)
            (Wrote-trans h
              (Wrote-trans (others w.tables) ((Inside-with_tx _ (reread_tx-Inside hash)).wrote _)))
      | inr once ↦ rw once h
    ]

    -- If the other sessions write by these statements alone, so does Execute.
    pub execute-Wrote :
        ((t : Tables) → Wrote t (rival t))
        → (w : World) → Wrote w.tables (execute env rival i w).1.tables
    unfolding execute
    execute-Wrote others w = elim (Bool-cases (is_opening i.kind)) [
      | inl yes_opening ↦ rw yes_opening nothing
      | inr external ↦
          rw external
            (after_tx-Wrote others _ w.tables _ ((Inside-with_tx _ (execute_tx-Inside _)).wrote w))
    ]
