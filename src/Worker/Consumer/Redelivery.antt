-- ===== src/Worker/Consumer/Redelivery.antt =====
-- A message that the queue delivers again.
use go_challenge_fc.Money.Defs.{Money}
use go_challenge_fc.Usecase.ProcessWager.Steps.{or_else}
use go_challenge_fc.Usecase.ProcessWager.Execute.{
  after_tx, redelivery, register_message, execute_tx, execute,
}
use go_challenge_fc.Store.Tables.Transactions.{select_by_key}
use go_challenge_fc.Transaction.Defs.{kind_of_text, WagerTransaction, is_opening}
use go_challenge_fc.Usecase.ProcessWager.Defs.{
  build_replay_output, Input, differs_from, payload_hash,
}
use go_challenge_fc.Usecase.ProcessWager.Idempotent.{execute_conflicts}
use go_challenge_fc.Base.{◌≡◌, refl, ℕ, ◌+◌, some, true, false, [], str_eq}
use go_challenge_fc.Errs.{ok, err, domain, payload_conflict}
use go_challenge_fc.Worker.Consumer.{
  EnvelopeMessage, QueueMessage, Consumer, request, read_message, handle_message, handle_reading,
  finish_message, delete_message, message_input, key_of,
}
use go_challenge_fc.Store.Session.{
  World, Env, ◌>>=◌, pure, query, statement, finish, with_tx, attempt, new_uuid, time_now,
}
use go_challenge_fc.Messages.Inbox.{new_message}
use go_challenge_fc.Store.Repos.{get_by_key, create_message_if_absent}
use go_challenge_fc.Store.Tables.Messages.{insert_message, same_message}
use go_challenge_fc.Store.Tables.Rows.{Tables, any}

module _ (env : Env) (rival : Tables → Tables) (i : Input) (w : World) (up : w.faults ≡ [])
    (external : is_opening i.kind ≡ false) (queued : str_eq i.source "SQS" ≡ true)
    (named : str_eq i.message_id "" ≡ false)
    (recorded : any (same_message i.consumer_name i.message_id) w.tables.inbox_messages ≡ true)
    (x : WagerTransaction) (keyed : select_by_key i.idempotency_key w.tables ≡ some x) where
  -- The payload hash of the stored transaction plays no part.
  pub execute_redelivers :
      execute env rival i w
      ≡ (ok (build_replay_output x), record w { draws = w.draws + 1 + 1; aborted = false })
  unfolding execute execute_tx register_message get_by_key redelivery create_message_if_absent
      insert_message new_message or_else ◌>>=◌ pure query statement finish with_tx after_tx attempt
      new_uuid time_now
  execute_redelivers = rw (external, up, queued, named, recorded, keyed) refl

module _ (env : Env) (rival : Tables → Tables) (c : Consumer) (m : QueueMessage) (w : World)
    (up : w.faults ≡ []) (e : EnvelopeMessage) (player wallet : ℕ) (money : Money)
    (read : read_message c m.body ≡ request e player wallet money)
    (external : is_opening (kind_of_text e.message_data.kind) ≡ false)
    (named : str_eq e.message_id "" ≡ false)
    (recorded : any (same_message c.consumer_name e.message_id) w.tables.inbox_messages ≡ true)
    (x : WagerTransaction) (keyed : select_by_key (key_of e.message_data) w.tables ≡ some x) where
  -- The answer of the stored transaction deletes the message.
  pub handle_redelivered :
      handle_message env rival c m w
      ≡ delete_message m (record w { draws = w.draws + 1 + 1 + 1; aborted = false })
  unfolding handle_message handle_reading ◌>>=◌ new_uuid finish_message
  handle_redelivered =
      rw
        (
          read,
          execute_redelivers env rival (message_input c e player wallet money (env.uuid w.draws))
              (record w { draws = w.draws + 1 }) up external refl named recorded x keyed,
        )
        refl

  -- The input of the message, and the same over HTTP.
  abbrev pub queued_input : Input
  queued_input = message_input c e player wallet money (env.uuid w.draws)

  abbrev pub http_input : Input
  http_input = record queued_input { source = "HTTP"; consumer_name = ""; message_id = "" }

  -- With a database that answers, a message that can be read, is no opening and has an identifier,
  -- that the inbox already has, and whose key is stored with another payload, is deleted, though
  -- nothing is stored for what it asks, and changes no table; and the same request over HTTP gets
  -- the error PAYLOAD_CONFLICT.
  pub redelivered_unchecked :
      differs_from x.payload_hash (payload_hash env queued_input) ≡ true
      → (handle_message env rival c m w
          ≡ delete_message m (record w { draws = w.draws + 1 + 1 + 1; aborted = false }))
        × (execute env rival http_input w
            ≡ (err (domain payload_conflict), record w { aborted = false }))
  unfolding payload_hash
  redelivered_unchecked other =
      (handle_redelivered, execute_conflicts env rival http_input w up external refl x keyed other)
