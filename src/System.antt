-- ===== src/System.antt =====
-- The running program, as cmd/server/main.go starts it: the HTTP server, the consumer of the queue,
-- the publisher of the outbox and the retries of waiting transactions, on one database. A history
-- is a list of acts. The acts that run more than one transaction are the wagers, which have between
-- the two the acts that other sessions carry out, and a batch of retries, which has such an act
-- before each of its transactions.
pub mod Recorded
pub mod Schema
pub mod Consistent
pub mod Balanced
pub mod Grows
use go_challenge_fc.Base.{false, ℕ, Bool, List, [], ◌∷◌}
use go_challenge_fc.Base.Int.{ℤ}
use go_challenge_fc.Http.Message.{Server, Request}
use go_challenge_fc.Http.Router.{Route, serve}
use go_challenge_fc.Store.Session.{World}
use go_challenge_fc.Store.Tables.Rows.{Tables}
use go_challenge_fc.Worker.Consumer.{Consumer, QueueMessage, handle_message}
use go_challenge_fc.Worker.Outbox.{Producer, WorkerConfig, process_batch}
use go_challenge_fc.Worker.PendingRef.{tick}

pub record System : Type 0 where
  pub server : Server
  pub consumer : Consumer
  pub publisher : WorkerConfig
  pub queue : Producer
  pub max_retries : ℤ

mutual
  -- A request, a message of the queue, a batch of the outbox, a batch of retries, and several acts
  -- as one.
  pub data Act : Type 0 where
    request : Acts → Route → Request → Act
    message : Acts → QueueMessage → Act
    publish : Act
    retry : Acts → Act
    together : Acts → Act

  -- Acts one after the other: each with the number of values that have been drawn before it and
  -- with the requests that the database will fail.
  pub data Acts : Type 0 where
    done : Acts
    first : ℕ → List Bool → Act → Acts → Acts

-- The session of an act on the tables that are there.
abbrev pub session : ℕ → List Bool → World → World
session draws faults w = record w { draws = draws; faults = faults; aborted = false }

abbrev pub session_on : Tables → World
session_on t = record { tables = t; draws = 0; faults = []; aborted = false; outside = [] }

unfoldable mutual
  pub act : System → Act → World → World
  act s (request others route r) w =
      (serve s.server (λ t. (acts s others (session_on t)).tables) route r w).1
  act s (message others m) w =
      handle_message s.server.env (λ t. (acts s others (session_on t)).tables) s.consumer m w
  act s publish w = (process_batch s.server.env s.queue s.publisher w).1
  act s (retry others) w = tick s.server.env (in_turn s others) s.max_retries w
  act s (together others) w = acts s others w

  pub acts : System → Acts → World → World
  acts s done w = w
  acts s (first draws faults a rest) w = acts s rest (act s a (session draws faults w))

  -- Each act by itself, as a change of the tables.
  pub in_turn : System → Acts → List (Tables → Tables)
  in_turn s done = []
  in_turn s (first draws faults a rest) =
      (λ t. (act s a (session draws faults (session_on t))).tables) ∷ in_turn s rest

-- What other sessions commit during an act.
abbrev pub committed : System → Acts → Tables → Tables
committed s others t = (acts s others (session_on t)).tables

-- A database without rows, and the tables after acts that began there.
abbrev pub empty : Tables
empty = record {
  wallets = [];
  wager_transactions = [];
  wallet_ledger_entries = [];
  inbox_messages = [];
  outbox_events = [];
}

abbrev pub history : System → Acts → Tables
history s a = (acts s a (session_on empty)).tables
