-- ===== src/System/Recorded.antt =====
-- Whatever the program does, it changes the tables by the writes of the repositories alone.
use go_challenge_fc.Http.Router.Stored.{serve-Wrote}
use go_challenge_fc.Store.Session.{World, Env, ◌>>=◌, new_uuid}
use go_challenge_fc.Store.Tables.Rows.{Tables}
use go_challenge_fc.Store.Writes.{Wrote, nothing, Wrote-trans}
use go_challenge_fc.Store.Tables.Keys.{All}
use go_challenge_fc.System.{
  together, in_turn, System, Act, Acts, request, message, publish, retry, done, first, act, acts,
  session, session_on, committed,
}
use go_challenge_fc.Usecase.Inside.{Writes, execute_batch-Wrote}
use go_challenge_fc.Usecase.ProcessWager.Inside.{execute-Wrote}
use go_challenge_fc.Worker.Consumer.{
  Consumer, QueueMessage, Reading, unreadable, handle_reading, handle_message,
}
use go_challenge_fc.Worker.Consumer.Outcome.{finish_message_kept, run}
use go_challenge_fc.Worker.Outbox.Writes.{process_batch-Wrote}
use go_challenge_fc.Worker.PendingRef.{tick}

module _ (env : Env) (rival : Tables → Tables) (others : (t : Tables) → Wrote t (rival t))
    (c : Consumer) (m : QueueMessage) (w : World) where
  reading-Wrote : (r : Reading) → Wrote w.tables (handle_reading env rival c m r w).tables
  unfolding handle_reading ◌>>=◌ new_uuid
  reading-Wrote unreadable = nothing
  reading-Wrote (Reading.request e player wallet money) =
      rw (finish_message_kept m (run env rival c e player wallet money w))
        (execute-Wrote env _ rival others _)

  handle_message-Wrote : Wrote w.tables (handle_message env rival c m w).tables
  unfolding handle_message
  handle_message-Wrote = reading-Wrote _

module _ (s : System) where
  mutual
    unfolding act acts tick

    pub act-Wrote : (a : Act) (w : World) → Wrote w.tables (act s a w).tables
    act-Wrote (request others route r) w =
        serve-Wrote s.server (committed s others) (λ t. acts-Wrote others (session_on t)) r route w
    act-Wrote (message others m) w =
        handle_message-Wrote s.server.env (committed s others)
          (λ t. acts-Wrote others (session_on t)) s.consumer m w
    act-Wrote publish w = process_batch-Wrote s.server.env s.queue s.publisher w
    act-Wrote (retry others) w =
        execute_batch-Wrote s.server.env (in_turn s others) s.max_retries 20 w
          (in_turn-Writes others)
    act-Wrote (together others) w = acts-Wrote others w

    in_turn-Writes : (a : Acts) → All Writes (in_turn s a)
    in_turn-Writes done = tt
    in_turn-Writes (first draws faults a rest) =
        (λ t. act-Wrote a (session draws faults (session_on t)), in_turn-Writes rest)

    pub acts-Wrote : (a : Acts) (w : World) → Wrote w.tables (acts s a w).tables
    acts-Wrote done w = nothing
    acts-Wrote (first draws faults a rest) w =
        Wrote-trans (act-Wrote a (session draws faults w)) (acts-Wrote rest _)
