-- ===== src/Examples/Queue.antt =====
-- Messages of the queue and events of the outbox.
use go_challenge_fc.Errs.{err, domain, payload_conflict}
use go_challenge_fc.Usecase.ProcessWager.Defs.{payload_hash}
use go_challenge_fc.Usecase.Hash.{canonical_payload_hash}
use go_challenge_fc.Usecase.ProcessWager.Execute.{execute}
use go_challenge_fc.Store.Tables.Wallets.{select_wallet}
use go_challenge_fc.Store.Tables.Transactions.{select_by_key}
use go_challenge_fc.Store.Tables.Rows.{find, filter_where, any}
use go_challenge_fc.Money.Text.{new_from_external_string, parse_decimal_string}
use go_challenge_fc.Store.Tables.Messages.{is_due_for_publish, select_pending_events}
use go_challenge_fc.Base.{◌+◌, ◌≡◌, refl, ap, none, some, str_eq, if◌then◌else◌, false, [], ◌∷◌}
use go_challenge_fc.Messages.Dto.{read_money}
use go_challenge_fc.Transaction.Defs.{kind_of_text}
use go_challenge_fc.Money.Defs.{validate_currency}
use go_challenge_fc.Base.Int.{wrap64, pos}
use go_challenge_fc.Examples.{
  conflict_row, env, unicode, alone, tables, world, bet_row, opening_row, reais,
}
use go_challenge_fc.Examples.Wager.{tables-IsBalanced}
use go_challenge_fc.Messages.Inbox.{InboxMessage}
use go_challenge_fc.Messages.Outbox.{is_published, OutboxEvent}
use go_challenge_fc.Messages.Events.{rejected, type_rejected}
use go_challenge_fc.Store.Session.{World}
use go_challenge_fc.Worker.Consumer.{
  Consumer, EnvelopeMessage, QueueMessage, read_message, request, message_input, key_of,
  handle_message, delete_message,
}
use go_challenge_fc.Worker.Consumer.Durable.{Resolved, deleted-Resolved}
use go_challenge_fc.Worker.Consumer.Outcome.{Settled, handle_message-Settled}
use go_challenge_fc.Worker.Consumer.Redelivery.{handle_redelivered, redelivered_unchecked}
use go_challenge_fc.Worker.Lifecycle.{
  idle, start, stop, starts, stops, created, further, IsOrderly, Reach-IsOrderly,
}
use go_challenge_fc.Worker.Outbox.{WorkerConfig, Producer, process_batch}
use go_challenge_fc.Worker.Outbox.Progress.{
  sends, AllDone, process_batch-publishes, process_batch-stuck,
}
use go_challenge_fc.Worker.Outbox.Sent.{IsSent, process_batch-IsSent}

-- The bet as a message.
abbrev bet_message : EnvelopeMessage
bet_message = record {
  message_id = "message-1";
  type = "WagerTransactionRequested";
  occurred_at = "";
  message_data = record {
    provider_id = "provider";
    external_transaction_id = "ext-1";
    idempotency_key = "key-1";
    player_id = "two";
    wallet_id = "one";
    round_id = "round";
    game_id = "game";
    kind = "BET";
    money = record { amount = "30.00"; currency = "BRL" };
    reference_external_transaction_id = none;
  };
}

abbrev pub consumer : Consumer
consumer = record {
  consumer_name = "wagers";
  unmarshal = λ body. some bet_message;
  readers = record {
    parse_uuid = λ s. if str_eq s "one" then some 1 else some 2;
    unicode = unicode;
  };
}

abbrev pub message : QueueMessage
message = record { receipt_handle = "handle"; body = some "body" }

bet_message_reads : read_message consumer message.body ≡ request bet_message 2 1 (reais 3000)
unfolding read_message new_from_external_string read_money validate_currency parse_decimal_string
    wrap64
bet_message_reads = refl

handle_message-Settled_example :
    Settled alone message world (handle_message env alone consumer message world)
handle_message-Settled_example = handle_message-Settled env alone consumer message world

-- The message has been handled before.
abbrev seen : InboxMessage
seen = record {
  id = 50;
  consumer_name = "wagers";
  message_id = "message-1";
  payload_hash = "digest";
  received_at = 1;
  processed_at = none;
}

abbrev recorded_world : World
recorded_world = record world {
  tables = record tables {
    wager_transactions = bet_row ∷ opening_row ∷ [];
    inbox_messages = seen ∷ [];
  };
}

-- The same, but the bet was stored with another payload.
abbrev changed_world : World
changed_world = record recorded_world {
  tables = record recorded_world.tables { wager_transactions = conflict_row ∷ opening_row ∷ [] };
}

redelivered_unchecked_example :
    (handle_message env alone consumer message changed_world
      ≡ delete_message message (record changed_world { draws = 3; aborted = false }))
    × (execute env alone
          (record (message_input consumer bet_message 2 1 (reais 3000) 100) {
            source = "HTTP";
            consumer_name = "";
            message_id = "";
          })
          changed_world
        ≡ (err (domain payload_conflict), record changed_world { aborted = false }))
unfolding any select_by_key find key_of kind_of_text payload_hash canonical_payload_hash
redelivered_unchecked_example =
    redelivered_unchecked env alone consumer message changed_world refl bet_message 2 1 (reais 3000)
      bet_message_reads refl refl refl conflict_row refl refl

deleted-Resolved_example :
    Resolved env alone
      (message_input consumer bet_message 2 1 (reais 3000) 100)
      recorded_world.tables
      (execute env alone
        (message_input consumer bet_message 2 1 (reais 3000) 100)
        (record recorded_world { draws = recorded_world.draws + 1 }))
      (handle_message env alone consumer message recorded_world).tables
unfolding any select_by_key find key_of kind_of_text delete_message select_wallet
deleted-Resolved_example =
    deleted-Resolved env alone consumer message recorded_world bet_message 2 1 (reais 3000)
      bet_message_reads (tables-IsBalanced.sound 1)
      (ap (λ (w : World). w.outside)
        (handle_redelivered env alone consumer message recorded_world refl bet_message 2 1
          (reais 3000) bet_message_reads refl refl refl bet_row refl))

abbrev event : OutboxEvent
event = record {
  id = 60;
  event_type = type_rejected;
  aggregate_id = 5;
  aggregate_type = "WagerTransaction";
  correlation_id = none;
  causation_id = none;
  payload =
      rejected
        (record {
          event_id = 60;
          event_type = type_rejected;
          aggregate_id = 5;
          aggregate_type = "WagerTransaction";
          correlation_id = 0;
          causation_id = none;
          occurred_at = 0;
          version = 1;
        })
        (record {
          transaction_id = 5;
          wallet_id = 1;
          player_id = 2;
          provider_id = some "provider";
          external_transaction_id = some "ext-1";
          kind = "BET";
          failure_code = "INSUFFICIENT_FUNDS";
        });
  occurred_at = 0;
  version = 1;
  published_at = none;
  attempts = pos 0;
  next_attempt_at = 0;
  last_error = none;
  created_at = 0;
}

abbrev pub worker_config : WorkerConfig
worker_config = record {
  events_queue_url = "queue";
  poll_interval = pos 1;
  batch_size = pos 50;
  max_attempts = pos 10;
}

abbrev pub eager : Producer
eager w p = none

abbrev event_world : World
event_world = record world { tables = record tables { outbox_events = event ∷ [] } }

process_batch-IsSent_example : IsSent (process_batch env eager worker_config event_world).1
unfolding is_published
process_batch-IsSent_example =
    process_batch-IsSent env eager worker_config event_world ((λ p. cc), tt)

process_batch-publishes_example :
    ((process_batch env eager worker_config event_world).0 ≡ 1)
    × ((process_batch env eager worker_config event_world).1.outside
        ≡ sends worker_config (event ∷ []) [])
    × AllDone worker_config
        (event ∷ [])
        (process_batch env eager worker_config event_world).1.tables.outbox_events
unfolding select_pending_events filter_where is_due_for_publish
process_batch-publishes_example =
    process_batch-publishes env eager worker_config (λ w p. refl) event_world refl

-- The event has failed ten times.
abbrev exhausted_world : World
exhausted_world = record world {
  tables = record tables { outbox_events = record event { attempts = pos 10 } ∷ [] };
}

process_batch-stuck_example :
    process_batch env eager worker_config exhausted_world
    ≡ (0, record exhausted_world { draws = 1; aborted = false })
unfolding select_pending_events filter_where is_due_for_publish
process_batch-stuck_example =
    process_batch-stuck env eager worker_config exhausted_world refl (refl, tt)

Reach-IsOrderly_example : IsOrderly (stop (start idle))
unfolding start stop
Reach-IsOrderly_example =
    Reach-IsOrderly (stop (start idle))
      (further (further created (starts idle refl)) (stops (start idle) refl))
