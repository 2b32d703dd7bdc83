-- ===== src/Worker/Consumer.antt =====
-- internal/worker/sqs/consumer.go: what happens to one message of the queue. Its metrics are not
-- modelled.
pub mod Outcome
pub mod Durable
pub mod Redelivery
use go_challenge_fc.Base.{
  ℕ, Bool, ◌||◌, String, Option, none, some, str_eq, ◌∷◌, List, [], if◌then◌else◌,
}
use go_challenge_fc.Base.Int.{ℤ, pos, or_default}
use go_challenge_fc.Errs.{
  Result, ok, err, Error, is_code, payload_conflict, opening_forbidden, wallet_not_found,
  invalid_input,
}
use go_challenge_fc.Messages.Dto.{MoneyDto, Readers, read_money}
use go_challenge_fc.Messages.Queue.{deleted, released}
use go_challenge_fc.Money.Defs.{Money}
use go_challenge_fc.Store.Session.{World, Env, new_uuid, ◌>>=◌}
use go_challenge_fc.Store.Tables.Rows.{Tables}
use go_challenge_fc.Transaction.Defs.{kind_of_text}
use go_challenge_fc.Usecase.ProcessWager.Defs.{Input, Output}
use go_challenge_fc.Usecase.ProcessWager.Execute.{execute}
use Prim.Native.String.{◌++◌}

pub record WagerMessageData : Type 0 where
  pub provider_id : String
  pub external_transaction_id : String
  pub idempotency_key : String
  pub player_id : String
  pub wallet_id : String
  pub round_id : String
  pub game_id : String
  pub kind : String
  pub money : MoneyDto
  pub reference_external_transaction_id : Option String

pub record EnvelopeMessage : Type 0 where
  pub message_id : String
  pub type : String
  pub occurred_at : String
  pub message_data : WagerMessageData

-- sqstypes.Message
pub record QueueMessage : Type 0 where
  pub receipt_handle : String
  pub body : Option String

-- The name of the consumer, json.Unmarshal into an EnvelopeMessage (none where it fails), and the
-- readers of the fields.
pub record Consumer : Type 0 where
  pub consumer_name : String
  pub unmarshal : String → Option EnvelopeMessage
  pub readers : Readers

pub record ConsumerConfig : Type 0 where
  pub queue_url : String
  pub consumer_name : String
  pub max_messages : ℤ
  pub visibility_timeout : ℤ
  pub wait_time_seconds : ℤ

-- NewConsumer
unfoldable pub new_consumer : ConsumerConfig → ConsumerConfig
new_consumer c = record c {
  max_messages = or_default c.max_messages (pos 10);
  visibility_timeout = or_default c.visibility_timeout (pos 60);
  wait_time_seconds = or_default c.wait_time_seconds (pos 20);
  consumer_name = if str_eq c.consumer_name "" then "sqs-wager-consumer" else c.consumer_name;
}

-- The idempotency key, or else `fmt.Sprintf("%s:%s", …)`.
unfoldable pub key_of : WagerMessageData → String
key_of d =
    if str_eq d.idempotency_key ""
    then d.provider_id ++ ":" ++ d.external_transaction_id
    else d.idempotency_key

-- c.deleteMessage and c.releaseVisibility. Whether the queue obeys is not known here: an error is
-- only logged.
unfoldable pub delete_message : QueueMessage → World → World
delete_message m w = record w { outside = deleted m.receipt_handle ∷ w.outside }

unfoldable pub release_visibility : QueueMessage → World → World
release_visibility m w = record w { outside = released m.receipt_handle ∷ w.outside }

-- The errors after which a message is removed.
unfoldable pub is_irreversible : Error → Bool
unfolding is_code
is_irreversible e =
    is_code e payload_conflict
    || is_code e opening_forbidden
    || is_code e wallet_not_found
    || is_code e invalid_input

-- What follows Execute.
unfoldable pub finish_message : QueueMessage → Result Output × World → World
unfolding is_irreversible delete_message release_visibility
finish_message m (ok o, w) = delete_message m w
finish_message m (err e, w) =
    if is_irreversible e then delete_message m w else release_visibility m w

-- The ProcessWagerInput of a message.
abbrev pub message_input : Consumer → EnvelopeMessage → ℕ → ℕ → Money → ℕ → Input
message_input c m player wallet money correlation = record {
  source = "SQS";
  consumer_name = c.consumer_name;
  message_id = m.message_id;
  idempotency_key = key_of m.message_data;
  correlation_id = correlation;
  provider_id = m.message_data.provider_id;
  external_transaction_id = m.message_data.external_transaction_id;
  player_id = player;
  wallet_id = wallet;
  round_id = m.message_data.round_id;
  game_id = m.message_data.game_id;
  kind = kind_of_text m.message_data.kind;
  money = money;
  reference_external_transaction_id = m.message_data.reference_external_transaction_id;
}

abbrev pub is_wager_request : EnvelopeMessage → Bool
is_wager_request m = str_eq m.type "WagerTransactionRequested"

-- What a message asks for, but for its correlation id; none for a poison pill and for another type.
pub data Reading : Type 0 where
  unreadable : Reading
  request : EnvelopeMessage → ℕ → ℕ → Money → Reading

unfoldable pub read_money_of : EnvelopeMessage → ℕ → ℕ → Result Money → Reading
read_money_of m player wallet (ok money) = request m player wallet money
read_money_of m player wallet (err e) = unreadable

unfoldable pub read_wallet : Consumer → EnvelopeMessage → ℕ → Option ℕ → Reading
unfolding read_money_of
read_wallet c m player none = unreadable
read_wallet c m player (some wallet) =
    read_money_of m player wallet (read_money c.readers m.message_data.money)

unfoldable pub read_player : Consumer → EnvelopeMessage → Option ℕ → Reading
unfolding read_wallet
read_player c m none = unreadable
read_player c m (some player) =
    read_wallet c m player (c.readers.parse_uuid m.message_data.wallet_id)

unfoldable pub read_envelope : Consumer → Option EnvelopeMessage → Reading
unfolding read_player
read_envelope c none = unreadable
read_envelope c (some m) =
    if is_wager_request m
    then read_player c m (c.readers.parse_uuid m.message_data.player_id)
    else unreadable

-- From `if msg.Body == nil` to the reading of the amount: each failure deletes the message.
unfoldable pub read_message : Consumer → Option String → Reading
unfolding read_envelope
read_message c none = unreadable
read_message c (some body) = read_envelope c (c.unmarshal body)

unfoldable pub handle_reading :
    Env → (Tables → Tables) → Consumer → QueueMessage → Reading → World → World
unfolding delete_message finish_message
handle_reading env rival c m unreadable w = delete_message m w
handle_reading env rival c m (request e player wallet money) w = finish_message m (
    (new_uuid env >>= λ correlation.
    execute env rival (message_input c e player wallet money correlation))
      w)

-- Consumer.handleMessage
unfoldable pub handle_message : Env → (Tables → Tables) → Consumer → QueueMessage → World → World
unfolding read_message handle_reading
handle_message env rival c m w = handle_reading env rival c m (read_message c m.body) w

-- The loop over output.Messages. `rivals` is what other sessions commit during each of them.
unfoldable pub handle_messages :
    Env → List ((Tables → Tables) × QueueMessage) → Consumer → World → World
unfolding handle_message
handle_messages env [] c w = w
handle_messages env ((rival, m) ∷ ms) c w =
    handle_messages env ms c (handle_message env rival c m w)
