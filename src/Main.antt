-- ===== src/Main.antt =====
-- cmd/server/main.go: how the server is put together from its configuration.
pub mod Started
use go_challenge_fc.Worker.Lifecycle.{Life, start, stop}
use go_challenge_fc.Base.{◌&&◌, Bool, if◌then◌else◌, List, ℕ, Option, none, some, String}
use go_challenge_fc.Base.Int.{ℤ}
use Prim.Native.String.{◌++◌}
use go_challenge_fc.Config.{Config}
use go_challenge_fc.Config.DotEnv.{Os, load_config}
use go_challenge_fc.Http.Auth.{Claims}
use go_challenge_fc.Http.Auth.Validator.{Validator, new_validator}
use go_challenge_fc.Messages.Dto.{Readers}
use go_challenge_fc.Http.Message.{Server, Decoded, WagerRequest, OpenWalletRequest}
use go_challenge_fc.Store.Session.{World, Env}
use go_challenge_fc.System.{System}
use go_challenge_fc.Worker.Consumer.{ConsumerConfig, EnvelopeMessage, new_consumer}
use go_challenge_fc.Worker.Outbox.{Producer, WorkerConfig, new_worker}
use go_challenge_fc.Worker.PendingRef.{start_retries, stop_retries, new_interval}

-- What the parts use: the libraries' values, the validation of a token by the validator, the
-- decoders of the requests and of a message, the readers of their fields, the queue of the events,
-- whether postgres.NewPool reaches the database of a URL, and whether awsconfig.LoadDefaultConfig
-- has no error.
pub record Libraries : Type 0 where
  pub env : Env
  pub validate : Validator → World → List ℕ → Option Claims
  pub decode_wager : String → Decoded WagerRequest
  pub decode_open : String → Decoded OpenWalletRequest
  pub unmarshal : String → Option EnvelopeMessage
  pub readers : Readers
  pub queue : Producer
  pub new_pool : String → Bool
  pub load_aws_config : Bool

-- cfg.PendingRef.MaxRetries, the one setting of a use case.
unfoldable pub provide_use_cases : Config → ℤ
provide_use_cases c = c.pending_ref.max_retries

unfoldable pub provide_auth_validator : Config → Validator
provide_auth_validator c = new_validator c.auth.issuer

unfoldable pub provide_sqs_consumer : Config → ConsumerConfig
provide_sqs_consumer c = new_consumer (record {
  queue_url = c.sqs.queue_url;
  consumer_name = "desafio-sqs-consumer";
  max_messages = c.sqs.max_messages;
  visibility_timeout = c.sqs.visibility_timeout;
  wait_time_seconds = c.sqs.wait_time_seconds;
})

unfoldable pub provide_outbox_worker : Config → WorkerConfig
provide_outbox_worker c = new_worker (record {
  events_queue_url = c.sqs.events_queue_url;
  poll_interval = c.outbox.poll_interval;
  batch_size = c.outbox.batch_size;
  max_attempts = c.outbox.max_attempts;
})

-- What fx.New builds: the parts, what the consumer asks its queue for, the ticker of the retries,
-- the validator, and the address of the HTTP server.
pub record Program : Type 0 where
  pub system : System
  pub consumer_config : ConsumerConfig
  pub retry_interval : ℤ
  pub validator : Validator
  pub address : String

unfoldable pub provide : Libraries → Config → Program
provide l c = record {
  system = record {
    server = record {
      env = l.env;
      validate_token = l.validate (provide_auth_validator c);
      decode_wager = l.decode_wager;
      decode_open = l.decode_open;
      readers = l.readers;
    };
    consumer = record {
      consumer_name = (provide_sqs_consumer c).consumer_name;
      unmarshal = l.unmarshal;
      readers = l.readers;
    };
    publisher = provide_outbox_worker c;
    queue = l.queue;
    max_retries = provide_use_cases c;
  };
  consumer_config = provide_sqs_consumer c;
  retry_interval = new_interval c.pending_ref.poll_interval;
  validator = provide_auth_validator c;
  address = ":" ++ c.http_port;
}

-- The providers of the database and of the queues, where they have no error.
unfoldable pub provide_database_pool : Libraries → Config → Bool
provide_database_pool l c = l.new_pool c.database_url

unfoldable pub provide_sqs_client : Libraries → Bool
provide_sqs_client l = l.load_aws_config

unfoldable pub provide_if : Libraries → Option Config → Option Program
unfolding provide_database_pool provide_sqs_client
provide_if l none = none
provide_if l (some c) =
    if provide_database_pool l c && provide_sqs_client l then some (provide l c) else none

-- main, until the parts are started; none if the configuration panics or a provider has an error.
unfoldable pub main : {V : Type 0} → Libraries → Os V → V → Option Program
main l os v = provide_if l (load_config os v)

-- The three workers, and the hooks OnStart and OnStop; the HTTP server is net/http's. The stops run
-- at once, and none looks at another worker.
pub record Workers : Type 0 where
  pub consumer : Life
  pub outbox : Life
  pub retries : Life

unfoldable pub on_start : Workers → Workers
on_start w = record {
  consumer = start w.consumer;
  outbox = start w.outbox;
  retries = start_retries w.retries;
}

unfoldable pub on_stop : Workers → Workers
on_stop w = record {
  consumer = stop w.consumer;
  outbox = stop w.outbox;
  retries = stop_retries w.retries;
}
