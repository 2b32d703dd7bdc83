-- ===== src/Examples/System.antt =====
-- A history of the whole program.
use go_challenge_fc.Base.{[], ◌∷◌, true, false, some}
use go_challenge_fc.Base.Int.{pos}
use go_challenge_fc.Examples.{env, world, unicode}
use go_challenge_fc.Examples.Http.{server, post}
use go_challenge_fc.Examples.Queue.{consumer, message, worker_config, eager}
use go_challenge_fc.Http.Message.{Server}
use go_challenge_fc.Http.Router.{open_wallet, post_transaction}
use go_challenge_fc.Store.Tables.Rows.{Tables}
use go_challenge_fc.Store.Balance.{IsBalanced}
use go_challenge_fc.System.{
  System, Act, Acts, request, publish, retry, done, first, acts, history, empty, session_on,
}
use go_challenge_fc.System as Running
use go_challenge_fc.System.Balanced.{history-IsBalanced}
use go_challenge_fc.System.Grows.{Grows, acts-Grows}
use go_challenge_fc.System.Consistent.{IsConsistent, empty-IsConsistent, acts-IsConsistent}

-- Every token is an internal one, and every identifier is 2.
abbrev internal_server : Server
internal_server = record server {
  env = record env { uuid = λ n. n };
  validate_token =
      λ w token. some (record { client_id = "desafio-internal"; roles = "internal" ∷ [] });
  readers = record { parse_uuid = λ s. some 2; unicode = unicode };
}

abbrev system : System
system = record {
  server = internal_server;
  consumer = record consumer { readers = internal_server.readers };
  publisher = worker_config;
  queue = eager;
  max_retries = pos 10;
}

-- A wallet is opened, a message and a request ask for the same bet at once, the database fails a
-- batch of the outbox, and the next one is run.
abbrev day : Acts
day = first 2 [] (request done open_wallet post) (
    first 20 [] (request (first 40 [] (Running.message done message) done) post_transaction post) (
      first 60 (false ∷ true ∷ []) publish
        (first 80 [] (retry (first 70 [] publish done)) (first 90 [] publish done))))

abbrev after_day : Tables
unfolding acts
after_day = history system day

history-IsBalanced_example : IsBalanced (history system day)
history-IsBalanced_example = history-IsBalanced system day

acts-IsConsistent_example : IsConsistent (acts system day (session_on empty)).tables
acts-IsConsistent_example = acts-IsConsistent system day (session_on empty) empty-IsConsistent

acts-Grows_example : Grows world.tables (acts system day world).tables
acts-Grows_example = acts-Grows system day world
