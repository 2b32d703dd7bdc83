-- ===== src/Config.antt =====
-- internal/infra/config/config.go, from the variables of the environment on: a variable that is not
-- set is the empty text, and a panic is `none`.
pub mod DotEnv
use go_challenge_fc.Base.{◌-◌, ◌%◌, ltb, ℕ, ◌*◌, Option, none, some, String, str_eq, if◌then◌else◌}
use go_challenge_fc.Base.Int.{ℤ, pos, negsuc}
use go_challenge_fc.Base.Text.{codes}
use go_challenge_fc.Base.Time.{second}
use go_challenge_fc.Strconv.{atoi}

pub record SqsConfig : Type 0 where
  pub endpoint : String
  pub queue_url : String
  pub dlq_url : String
  pub events_queue_url : String
  pub max_messages : ℤ
  pub visibility_timeout : ℤ
  pub wait_time_seconds : ℤ
  pub max_retries : ℤ

pub record AuthConfig : Type 0 where
  pub issuer : String
  pub jwks_url : String

pub record OutboxConfig : Type 0 where
  pub poll_interval : ℤ
  pub batch_size : ℤ
  pub max_attempts : ℤ

pub record PendingRefConfig : Type 0 where
  pub poll_interval : ℤ
  pub max_retries : ℤ
  pub initial_backoff : ℤ

-- The ports, the URL and the timeout stand for the records of one field that the source has.
pub record Config : Type 0 where
  pub http_port : String
  pub database_url : String
  pub sqs : SqsConfig
  pub auth : AuthConfig
  pub outbox : OutboxConfig
  pub pending_ref : PendingRefConfig
  pub shutdown_timeout : ℤ

-- os.Getenv, and time.ParseDuration (none where it fails).
pub record Environment : Type 0 where
  pub get : String → String
  pub parse_duration : String → Option ℤ

unfoldable pub get_env_or_default : Environment → String → String → String
get_env_or_default e key default = if str_eq (e.get key) "" then default else e.get key

unfoldable pub must_get_env : Environment → String → Option String
must_get_env e key = if str_eq (e.get key) "" then none else some (e.get key)

abbrev pub value_or : Option ℤ → ℤ → ℤ
value_or none default = default
value_or (some n) default = n

unfoldable pub get_env_int : Environment → String → ℤ → ℤ
unfolding atoi
get_env_int e key default =
    if str_eq (e.get key) "" then default else value_or (atoi (codes (e.get key))) default

unfoldable pub get_env_duration : Environment → String → ℤ → ℤ
get_env_duration e key default =
    if str_eq (e.get key) "" then default else value_or (e.parse_duration (e.get key)) default

-- int32(n)
unfoldable pub to_int32 : ℤ → ℤ
to_int32 (pos n) =
    if ltb (n % 4294967296) 2147483648
    then pos (n % 4294967296)
    else negsuc (4294967295 - n % 4294967296)
to_int32 (negsuc n) =
    if ltb (n % 4294967296) 2147483648
    then negsuc (n % 4294967296)
    else pos (4294967295 - n % 4294967296)

infixl 5 ◌>>=◌
abbrev ◌>>=◌ : {A B : Type 0} → Option A → (A → Option B) → Option B
none >>= f = none
some a >>= f = f a

abbrev seconds : ℕ → ℤ
seconds n = pos (n * second)

-- Load, after loadDotEnv.
unfoldable pub load : Environment → Option Config
unfolding get_env_or_default must_get_env get_env_int get_env_duration to_int32
load e = do
  database_url ← must_get_env e "DATABASE_URL"
  endpoint ← must_get_env e "SQS_ENDPOINT"
  queue_url ← must_get_env e "SQS_QUEUE_URL"
  dlq_url ← must_get_env e "SQS_DLQ_URL"
  issuer ← must_get_env e "KEYCLOAK_ISSUER"
  jwks_url ← must_get_env e "KEYCLOAK_JWKS_URL"
  some (record {
    http_port = get_env_or_default e "HTTP_PORT" "3000";
    database_url = database_url;
    sqs = record {
      endpoint = endpoint;
      queue_url = queue_url;
      dlq_url = dlq_url;
      events_queue_url = get_env_or_default e "SQS_EVENTS_QUEUE_URL" "";
      max_messages = to_int32 (get_env_int e "SQS_MAX_MESSAGES" (pos 10));
      visibility_timeout = to_int32 (get_env_int e "SQS_VISIBILITY_TIMEOUT" (pos 60));
      wait_time_seconds = to_int32 (get_env_int e "SQS_WAIT_TIME" (pos 20));
      max_retries = get_env_int e "SQS_MAX_RETRIES" (pos 5);
    };
    auth = record { issuer = issuer; jwks_url = jwks_url };
    outbox = record {
      poll_interval = get_env_duration e "OUTBOX_POLL_INTERVAL" (seconds 2);
      batch_size = get_env_int e "OUTBOX_BATCH_SIZE" (pos 50);
      max_attempts = get_env_int e "OUTBOX_MAX_ATTEMPTS" (pos 10);
    };
    pending_ref = record {
      poll_interval = get_env_duration e "PENDING_REF_POLL_INTERVAL" (seconds 5);
      max_retries = get_env_int e "PENDING_REF_MAX_RETRIES" (pos 10);
      initial_backoff = get_env_duration e "PENDING_REF_INITIAL_BACKOFF" (seconds 5);
    };
    shutdown_timeout = get_env_duration e "SHUTDOWN_TIMEOUT" (seconds 30);
  })
