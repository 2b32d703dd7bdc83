-- ===== src/Examples/Main.antt =====
-- The start of the server, with one variable of its own and a file for the others.
use go_challenge_fc.Base.{
  ◌≡◌, refl, Bool, true, not, List, [], ◌∷◌, none, some, String, str_eq, if◌then◌else◌, arith, ◌*◌,
}
use go_challenge_fc.Config.{
  Config, load, must_get_env, get_env_or_default, get_env_int, get_env_duration, to_int32,
}
use go_challenge_fc.Base.Int.{pos}
use go_challenge_fc.Base.Time.{second}
use go_challenge_fc.Config.DotEnv.{
  Os, load_dot_env, load_config, split_on, assignment, assign, load_lines, load_file, load_files,
}
use go_challenge_fc.Config.DotEnv.Found.{IsSetting, value_of, load_dot_env-eq-value}
use go_challenge_fc.Examples.{env}
use go_challenge_fc.Examples.Http.{server}
use go_challenge_fc.Examples.Queue.{consumer, eager}
use go_challenge_fc.Main.{
  provide_sqs_client, provide_database_pool, provide_if, Libraries, main, provide,
}
use go_challenge_fc.Main.Started.{is_some, IsSetUp, main-eq-required, main-IsSetUp}

abbrev Variables : Type 0
Variables = List (String × String)

abbrev look_up : Variables → String → String
look_up [] j = ""
look_up ((k, x) ∷ v) j = if str_eq j k then x else look_up v j

-- A variable without a name is refused.
abbrev accepts : String → String → Bool
accepts k x = not (str_eq k "")

abbrev os : Os Variables
os = record {
  get_env = look_up;
  set_env = λ v k x. if accepts k x then (k, x) ∷ v else v;
  read_file = λ name.
      if str_eq name ".env.example"
      then some
          "# sample\nDATABASE_URL=db\nSQS_ENDPOINT=e\nSQS_QUEUE_URL=q\nSQS_DLQ_URL=d\n\nKEYCLOAK_ISSUER=i\nKEYCLOAK_JWKS_URL=j\nSQS_QUEUE_URL=other"
      else none;
  trim_space = λ s. s;
  parse_duration = λ s. none;
}

os-IsSetting : IsSetting os accepts
os-IsSetting = record { sets = λ v k x j. ground arith }

abbrev own : Variables
own = ("KEYCLOAK_ISSUER", "issuer") ∷ []

abbrev libraries : Libraries
libraries = record {
  env = env;
  validate = λ v. server.validate_token;
  decode_wager = server.decode_wager;
  decode_open = server.decode_open;
  unmarshal = consumer.unmarshal;
  readers = server.readers;
  queue = eager;
  new_pool = λ url. str_eq url "db";
  load_aws_config = true;
}

load_dot_env-eq-value_example : look_up (load_dot_env os own) "SQS_QUEUE_URL" ≡ "q"
unfolding load_dot_env split_on assignment
load_dot_env-eq-value_example = load_dot_env-eq-value os accepts os-IsSetting own "SQS_QUEUE_URL"

main-eq-required_example : is_some (main libraries os own) ≡ true
unfolding split_on assignment
main-eq-required_example = main-eq-required libraries os accepts os-IsSetting own

abbrev config : Config
config = record {
  http_port = "3000";
  database_url = "db";
  sqs = record {
    endpoint = "e";
    queue_url = "q";
    dlq_url = "d";
    events_queue_url = "";
    max_messages = pos 10;
    visibility_timeout = pos 60;
    wait_time_seconds = pos 20;
    max_retries = pos 5;
  };
  auth = record { issuer = "issuer"; jwks_url = "j" };
  outbox = record { poll_interval = pos (2 * second); batch_size = pos 50; max_attempts = pos 10 };
  pending_ref = record {
    poll_interval = pos (5 * second);
    max_retries = pos 10;
    initial_backoff = pos (5 * second);
  };
  shutdown_timeout = pos (30 * second);
}

main-IsSetUp_example : IsSetUp (value_of os accepts own) (provide libraries config)
unfolding main provide_if provide_database_pool provide_sqs_client load_config load_dot_env
    load_files load_file load_lines assign split_on assignment load must_get_env get_env_or_default
    get_env_int get_env_duration to_int32
main-IsSetUp_example =
    main-IsSetUp libraries os accepts os-IsSetting own (provide libraries config) refl
