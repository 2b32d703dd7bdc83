-- ===== src/Usecase/ProcessWager/Execute.antt =====
-- ProcessWagerUseCase.Execute. The metrics and the spans around it are not modelled.
use go_challenge_fc.Base.{
  Bool, true, false, not, ◌&&◌, String, Option, none, some, str_eq, if◌then◌else◌,
}
use go_challenge_fc.Errs.{
  Error, Result, ok, err, is_code, domain, opening_forbidden, payload_conflict, duplicate_operation,
  transaction_not_found,
}
use go_challenge_fc.Messages.Inbox.{new_message}
use go_challenge_fc.Store.Repos.{get_by_key, get_by_external, create_message_if_absent}
use go_challenge_fc.Store.Session.{
  World, M, Env, pure, raise, attempt, new_uuid, time_now, with_tx, ◌>>=◌, ◌>>◌,
}
use go_challenge_fc.Store.Tables.Rows.{Tables}
use go_challenge_fc.Transaction.Defs.{WagerTransaction, is_opening}
use go_challenge_fc.Usecase.ProcessWager.Defs.{
  Input, Output, differs_from, is_key, payload_hash, build_replay_output,
}
use go_challenge_fc.Usecase.ProcessWager.Steps.{raise_if, or_else, handle_new}

abbrev pub replay_found : Option WagerTransaction → Option Output
replay_found none = none
replay_found (some t) = some (build_replay_output t)

-- `if !inserted`: a redelivery is answered by the stored transaction, if it can be read.
unfoldable pub redelivery : Input → Bool → M (Option Output)
redelivery i true = pure none
redelivery i false = attempt (get_by_key i.idempotency_key) >>= λ t. pure (replay_found t)

-- Step 2: the inbox, for messages of the queue.
unfoldable pub register_message : Env → String → Input → M (Option Output)
register_message env hash i =
    if str_eq i.source "SQS" && not (str_eq i.message_id "")
    then (do
      id ← new_uuid env
      now ← time_now env
      inserted ← create_message_if_absent (new_message id now i.consumer_name i.message_id hash)
      redelivery i inserted)
    else pure none

-- The payload of an operation that is stored must be the same.
unfoldable pub replay_or_conflict : String → WagerTransaction → M (Option Output)
replay_or_conflict hash t = do
  raise_if (differs_from t.payload_hash hash) (domain payload_conflict)
  pure (some (build_replay_output t))

-- Step 3: the idempotency key.
unfoldable pub check_key : String → Option WagerTransaction → M (Option Output)
check_key hash none = pure none
check_key hash (some t) = replay_or_conflict hash t

-- The operation of the provider, perhaps under another key.
unfoldable pub check_external : String → Input → Option WagerTransaction → M (Option Output)
check_external hash i none = pure none
check_external hash i (some t) =
    if is_key t.idempotency_key i.idempotency_key
    then replay_or_conflict hash t
    else raise (domain payload_conflict)

-- The function that Execute hands to WithTx.
unfoldable pub execute_tx : Env → String → Input → M Output
execute_tx env hash i = do
  seen ← register_message env hash i
  or_else seen (do
    keyed ← get_by_key i.idempotency_key
    replay ← check_key hash keyed
    or_else replay (do
      known ← get_by_external i.provider_id i.external_transaction_id
      answer ← check_external hash i known
      or_else answer (handle_new env hash i)))

-- `if extErr != nil { return … }`
unfoldable pub stored_or_error : Option WagerTransaction → M WagerTransaction
stored_or_error (some t) = pure t
stored_or_error none = raise (domain transaction_not_found)

-- `if getErr != nil || existingTxn == nil`
unfoldable pub found_or : Option WagerTransaction → M (Option WagerTransaction) → M WagerTransaction
unfolding stored_or_error
found_or (some t) other = pure t
found_or none other = other >>= stored_or_error

-- The second transaction: a concurrent request has stored the operation.
unfoldable pub reread_tx : String → Input → M Output
reread_tx hash i = do
  keyed ← attempt (get_by_key i.idempotency_key)
  t ← found_or keyed (get_by_external i.provider_id i.external_transaction_id)
  raise_if (not (is_key t.idempotency_key i.idempotency_key)) (domain payload_conflict)
  raise_if (differs_from t.payload_hash hash) (domain payload_conflict)
  pure (build_replay_output t)

-- The error of the first transaction stands unless the second one gives a replay.
abbrev pub replay_or_error : Error → Result Output × World → Result Output × World
replay_or_error e (ok o, w) = (ok o, w)
replay_or_error e (err _, w) = (err e, w)

-- What follows the first transaction. `rival` is what other sessions commit before the second.
unfoldable pub after_tx :
    (Tables → Tables) → String → Input → Result Output × World → Result Output × World
after_tx rival hash i (ok o, w) = (ok o, w)
after_tx rival hash i (err e, w) =
    let again =
      replay_or_error e (with_tx (reread_tx hash i) (record w { tables = rival w.tables })) in
    if is_code e duplicate_operation then again else (err e, w)

unfoldable pub execute : Env → (Tables → Tables) → Input → M Output
execute env rival i w =
    let hash = payload_hash env i in
    let done = after_tx rival hash i (with_tx (execute_tx env hash i) w) in
    if is_opening i.kind then (err (domain opening_forbidden), w) else done
