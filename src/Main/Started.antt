-- ===== src/Main/Started.antt =====
-- When the server comes up, and with which settings.
use go_challenge_fc.Base.{
  inr, inl, ap, ◌≢◌, if◌then◌else◌, Bool-cases, ◌≡◌, refl, ◌∙◌, Bool, true, false, not, ◌&&◌, List,
  [], ◌∷◌, Option, none, some, String, str_eq, arith, eq_iff, subst,
}
use go_challenge_fc.Base.Int.{ℤ, pos, ltb_ℤ, or_default}
use go_challenge_fc.Config.{Config, Environment, load, get_env_or_default, must_get_env}
use go_challenge_fc.Config.DotEnv.{Os, load_config, load_dot_env, environment}
use go_challenge_fc.Config.DotEnv.Found.{IsSetting, value_of, load_dot_env-eq-value}
use go_challenge_fc.Main.{
  provide_sqs_client, provide_database_pool, Libraries, Program, main, provide,
  provide_sqs_consumer, provide_outbox_worker, provide_auth_validator, provide_if,
}
use go_challenge_fc.Worker.Consumer.{new_consumer}
use go_challenge_fc.Worker.Outbox.{new_worker}
use go_challenge_fc.Worker.PendingRef.{new_interval}
use go_challenge_fc.Http.Auth.Validator.{new_validator}

abbrev pub required : List String
required =
    "DATABASE_URL" ∷ "SQS_ENDPOINT" ∷ "SQS_QUEUE_URL" ∷ "SQS_DLQ_URL" ∷ "KEYCLOAK_ISSUER"
    ∷ "KEYCLOAK_JWKS_URL" ∷ []

abbrev pub are_set : (String → String) → List String → Bool
are_set value [] = true
are_set value (key ∷ keys) = not (str_eq (value key) "") && are_set value keys

abbrev pub is_some : {A : Type 0} → Option A → Bool
is_some none = false
is_some (some a) = true

load-is_some : (e : Environment) → is_some (load e) ≡ are_set e.get required
unfolding load must_get_env
load-is_some e = ground arith

-- Equal tests of the keys.
are_set-eq :
    (f g : String → String)
    → ((key : String) → f key ≡ g key)
    → (keys : List String) → are_set f keys ≡ are_set g keys
are_set-eq f g e [] = refl
are_set-eq f g e (key ∷ keys) = rw (e key, are_set-eq f g e keys) refl

no_program : (p : Program) → none ≢ some p
no_program p e = cc

is_some-if : (b : Bool) (p : Program) → is_some (if b then some p else none) ≡ b
is_some-if true p = refl
is_some-if false p = refl

same_program : (p q : Program) → some p ≡ some q → p ≡ q
same_program p q e = cc

-- The settings of a program: its parts are directed as the variables say, and its loops have
-- settings above 0 (a ticker panics on an interval of 0 or below).
pub record IsSetUp (value : String → String) (p : Program) : Type 0 where
  pub issuer : p.validator.issuer ≡ value "KEYCLOAK_ISSUER"
  pub queue_url : p.consumer_config.queue_url ≡ value "SQS_QUEUE_URL"
  pub events_queue_url : p.system.publisher.events_queue_url ≡ value "SQS_EVENTS_QUEUE_URL"
  pub poll_interval : ltb_ℤ (pos 0) p.system.publisher.poll_interval ≡ true
  pub batch_size : ltb_ℤ (pos 0) p.system.publisher.batch_size ≡ true
  pub max_attempts : ltb_ℤ (pos 0) p.system.publisher.max_attempts ≡ true
  pub max_messages : ltb_ℤ (pos 0) p.consumer_config.max_messages ≡ true
  pub visibility_timeout : ltb_ℤ (pos 0) p.consumer_config.visibility_timeout ≡ true
  pub wait_time_seconds : ltb_ℤ (pos 0) p.consumer_config.wait_time_seconds ≡ true
  pub retry_interval : ltb_ℤ (pos 0) p.retry_interval ≡ true

or_default-positive : (n d : ℤ) → ltb_ℤ (pos 0) d ≡ true → ltb_ℤ (pos 0) (or_default n d) ≡ true
or_default-positive n d h = ground arith

-- What a configuration takes from the variables that direct the parts.
record Follows (value : String → String) (c : Config) : Type 0 where
  database_url : c.database_url ≡ value "DATABASE_URL"
  issuer : c.auth.issuer ≡ value "KEYCLOAK_ISSUER"
  queue_url : c.sqs.queue_url ≡ value "SQS_QUEUE_URL"
  events : c.sqs.events_queue_url ≡ value "SQS_EVENTS_QUEUE_URL"

load-Follows : (e : Environment) (c : Config) → load e ≡ some c → Follows e.get c
unfolding load must_get_env get_env_or_default
load-Follows e c h = record {
  database_url = ground (arith, eq_iff (e.get "SQS_EVENTS_QUEUE_URL") "");
  issuer = ground (arith, eq_iff (e.get "SQS_EVENTS_QUEUE_URL") "");
  queue_url = ground (arith, eq_iff (e.get "SQS_EVENTS_QUEUE_URL") "");
  events = ground (arith, eq_iff (e.get "SQS_EVENTS_QUEUE_URL") "");
}

provide-IsSetUp :
    (value : String → String) (l : Libraries) (c : Config)
    → Follows value c
    → IsSetUp value (provide l c)
unfolding provide provide_sqs_consumer provide_outbox_worker provide_auth_validator new_consumer
    new_worker new_interval new_validator
provide-IsSetUp value l c h = record {
  issuer = h.issuer;
  queue_url = h.queue_url;
  events_queue_url = h.events;
  poll_interval = or_default-positive c.outbox.poll_interval _ refl;
  batch_size = or_default-positive c.outbox.batch_size _ refl;
  max_attempts = or_default-positive c.outbox.max_attempts _ refl;
  max_messages = or_default-positive c.sqs.max_messages _ refl;
  visibility_timeout = or_default-positive c.sqs.visibility_timeout _ refl;
  wait_time_seconds = or_default-positive c.sqs.wait_time_seconds _ refl;
  retry_interval = or_default-positive c.pending_ref.poll_interval _ refl;
}

provide_if-IsSetUp :
    (value : String → String) (l : Libraries) (c : Option Config) (p : Program)
    → ((k : Config) → c ≡ some k → Follows value k)
    → provide_if l c ≡ some p
    → IsSetUp value p
unfolding provide_if
provide_if-IsSetUp value l none p f e = cc
provide_if-IsSetUp value l (some c) p f e =
    elim (Bool-cases (provide_database_pool l c && provide_sqs_client l)) [
      | inl up ↦
          subst (IsSetUp value) (same_program (provide l c) p (rw up at e))
            (provide-IsSetUp value l c (f c refl))
      | inr down ↦ absurd (no_program p (rw down at e))
    ]

-- The parts are there if the configuration is, and the database and the queues can be reached.
provide_if-is_some :
    (l : Libraries) (e : Environment) (c : Option Config)
    → load e ≡ c
    → is_some (provide_if l c)
      ≡ is_some c && (l.new_pool (e.get "DATABASE_URL") && l.load_aws_config)
unfolding provide_if provide_database_pool provide_sqs_client
provide_if-is_some l e none h = refl
provide_if-is_some l e (some c) h =
    is_some-if (l.new_pool c.database_url && l.load_aws_config) (provide l c)
    ∙ ap (λ u. l.new_pool u && l.load_aws_config) (load-Follows e c h).database_url

module _ {V : Type 0} (l : Libraries) (os : Os V) (accepts : String → String → Bool)
    (law : IsSetting os accepts) (v : V) where
  -- Where os.Setenv sets the variable for the keys and the values that it accepts, and no other:
  -- main puts the parts together exactly if each of the six required variables is set in the
  -- process or gets a value from the first of the two files that is there, the database of
  -- DATABASE_URL is reached, and the AWS configuration can be loaded.
  pub main-eq-required :
      is_some (main l os v)
      ≡ are_set (value_of os accepts v) required
        && (l.new_pool (value_of os accepts v "DATABASE_URL") && l.load_aws_config)
  unfolding main load_config
  main-eq-required =
      let found = load_dot_env-eq-value os accepts law v in
      let e = environment os (load_dot_env os v) in
      provide_if-is_some l e (load e) refl
      ∙ ap (λ b. b && (l.new_pool (e.get "DATABASE_URL") && l.load_aws_config))
          (load-is_some e ∙ are_set-eq _ _ found required)
      ∙ ap (λ u. are_set (value_of os accepts v) required && (l.new_pool u && l.load_aws_config))
          (found "DATABASE_URL")

  -- Where os.Setenv is so: what main puts together validates the tokens of the issuer, takes
  -- messages from the queue and sends events to the queue that the variables name, and each
  -- interval, size and number of attempts of its workers is above 0, whatever the other variables
  -- say.
  pub main-IsSetUp : (p : Program) → main l os v ≡ some p → IsSetUp (value_of os accepts v) p
  unfolding main load_config
  main-IsSetUp p e =
      provide_if-IsSetUp (value_of os accepts v) l _ p
        (λ k h.
          let f = load-Follows (environment os (load_dot_env os v)) k h in
          record {
            database_url = f.database_url ∙ load_dot_env-eq-value os accepts law v _;
            issuer = f.issuer ∙ load_dot_env-eq-value os accepts law v _;
            queue_url = f.queue_url ∙ load_dot_env-eq-value os accepts law v _;
            events = f.events ∙ load_dot_env-eq-value os accepts law v _;
          })
        e
