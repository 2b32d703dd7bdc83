-- ===== src/Worker/Outbox/Progress.antt =====
-- What a batch publishes when the database and the queue answer, and what stops it.
use go_challenge_fc.Base.Int.{pos_part}
use go_challenge_fc.Base.{
  ap, ℕ, ◌+◌, ◌≡◌, refl, Bool, true, false, not, ◌&&◌, ◌||◌, List, [], ◌∷◌, none, some, arith,
  Bool-cases, inl, inr, if◌then◌else◌,
}
use go_challenge_fc.Errs.{Result, ok}
use go_challenge_fc.Messages.Outbox.{OutboxEvent, is_published}
use go_challenge_fc.Messages.Queue.{Action, Publication, published}
use go_challenge_fc.Store.Repos.{fetch_pending_events, mark_published}
use go_challenge_fc.Store.Session.{
  World, Env, pure, ◌>>=◌, statement, query, time_now, with_tx, finish,
}
use go_challenge_fc.Store.Tables.Messages.{set_published, event_has_id, select_pending_events}
use go_challenge_fc.Store.Tables.Rows.{Tables, update_where}
use go_challenge_fc.Worker.Outbox.{
  Producer, WorkerConfig, publication, send_message, settle_event, is_exhausted, process_event,
  process_events, batch_body, process_batch, published_count,
}

-- How many events of a batch may still be sent, and the queue after they are sent in order.
abbrev pub count_ready : WorkerConfig → List OutboxEvent → ℕ
count_ready c [] = 0
count_ready c (e ∷ es) = if is_exhausted c e then count_ready c es else 1 + count_ready c es

abbrev pub sends : WorkerConfig → List OutboxEvent → List Action → List Action
sends c [] outside = outside
sends c (e ∷ es) outside =
    sends c es (if is_exhausted c e then outside else published (publication e) ∷ outside)

-- Whether a row with the identifier waits to be published.
abbrev pub is_waiting : ℕ → List OutboxEvent → Bool
is_waiting id [] = false
is_waiting id (e ∷ es) = (event_has_id id e && not (is_published e)) || is_waiting id es

-- No event that could be sent waits any longer.
abbrev pub AllDone : WorkerConfig → List OutboxEvent → List OutboxEvent → Type 0
AllDone c [] rows = Unit
AllDone c (e ∷ es) rows =
    (is_exhausted c e ≡ false → is_waiting e.id rows ≡ false) × AllDone c es rows

set_published-done :
    (now id : ℕ) (rows : List OutboxEvent)
    → is_waiting id
        (update_where (event_has_id id) (λ e. record e { published_at = some now }) rows)
      ≡ false
unfolding update_where is_published
set_published-done now id [] = refl
set_published-done now id (e ∷ rows) = ground (arith, set_published-done now id rows)

set_published-stays :
    (now id j : ℕ) (rows : List OutboxEvent)
    → is_waiting j rows ≡ false
    → is_waiting j (update_where (event_has_id id) (λ e. record e { published_at = some now }) rows)
      ≡ false
unfolding update_where is_published
set_published-stays now id j [] h = refl
set_published-stays now id j (e ∷ rows) h = ground (arith, set_published-stays now id j rows)

-- A database that answers, in a transaction that is not aborted.
abbrev answering : Tables → ℕ → List Action → World
answering t draws outside = record {
  tables = t;
  draws = draws;
  faults = [];
  aborted = false;
  outside = outside;
}

-- How the loop ends, from a count, tables and a queue.
record Ended (c : WorkerConfig) (es : List OutboxEvent) (n : ℕ) (t : Tables) (outside : List Action)
    (r : ℕ × Result (Unit {0}) × World) : Type 0 where
  tables : Tables
  draws : ℕ
  result : r ≡ (n + count_ready c es, ok tt, answering tables draws (sends c es outside))
  done : AllDone c es tables.outbox_events
  stays :
      (id : ℕ) → is_waiting id t.outbox_events ≡ false → is_waiting id tables.outbox_events ≡ false

module _ (c : WorkerConfig) (e : OutboxEvent) (es : List OutboxEvent) (n : ℕ) (t : Tables)
    (outside : List Action) (r : ℕ × Result (Unit {0}) × World) where
  Ended-over :
      is_exhausted c e ≡ true → Ended c es (n + 0) t outside r → Ended c (e ∷ es) n t outside r
  Ended-over over h = record {
    tables = h.tables;
    draws = h.draws;
    result =
        rw (h.result, over)
          (ap (λ k. (k, ok tt, answering h.tables h.draws (sends c es outside))) (omega arith));
    done = ((λ ready. cc), h.done);
    stays = h.stays;
  }

  Ended-ready :
      (now : ℕ)
      → is_exhausted c e ≡ false
      → Ended c es (n + 1) (set_published now e.id t) (published (publication e) ∷ outside) r
      → Ended c (e ∷ es) n t outside r
  unfolding set_published
  Ended-ready now ready h = record {
    tables = h.tables;
    draws = h.draws;
    result =
        rw (h.result, ready)
          (ap
            (λ k. (
              k,
              ok tt,
              answering h.tables h.draws (sends c es (published (publication e) ∷ outside)),
            ))
            (omega arith));
    done = ((λ _. h.stays e.id (set_published-done now e.id t.outbox_events)), h.done);
    stays = λ id k. h.stays id (set_published-stays now e.id id t.outbox_events k);
  }

module _ (env : Env) (queue : Producer) (c : WorkerConfig)
    (accepts : (w : World) (p : Publication) → queue w p ≡ none) where
  process_events-Ended :
      (es : List OutboxEvent) (n : ℕ) (t : Tables) (draws : ℕ) (outside : List Action)
      → Ended c es n t outside (process_events env queue c es n (answering t draws outside))
  unfolding process_events process_event send_message settle_event mark_published ◌>>=◌ pure
      statement time_now
  process_events-Ended [] n t draws outside = record {
    tables = t;
    draws = draws;
    result = ap (λ k. (k, ok tt, answering t draws outside)) (omega arith);
    done = tt;
    stays = λ id h. h;
  }
  process_events-Ended (e ∷ es) n t draws outside = elim (Bool-cases (is_exhausted c e)) [
    | inl over ↦
        rw over
          (Ended-over c e es n t outside _ over (process_events-Ended es (n + 0) t draws outside))
    | inr ready ↦
        rw (ready, accepts (answering t draws outside) (publication e))
          (Ended-ready c e es n t outside _ (env.clock draws) ready (
            process_events-Ended es (n + 1) (set_published (env.clock draws) e.id t) (draws + 1)
              (published (publication e) ∷ outside)))
  ]

  module _ (w : World) (up : w.faults ≡ []) where
    -- What is fetched.
    abbrev fetched : List OutboxEvent
    fetched = select_pending_events (env.clock w.draws) (pos_part c.batch_size) w.tables

    -- With a database that answers and a queue that accepts every message, a batch publishes the
    -- events that it fetches and that have attempts left, in their order, returns how many they
    -- are, and leaves none of them waiting.
    pub process_batch-publishes :
        ((process_batch env queue c w).0 ≡ count_ready c fetched)
        × ((process_batch env queue c w).1.outside ≡ sends c fetched w.outside)
        × AllDone c fetched (process_batch env queue c w).1.tables.outbox_events
    unfolding process_batch published_count batch_body fetch_pending_events ◌>>=◌ query statement
        time_now with_tx finish
    process_batch-publishes =
        let h = process_events-Ended fetched 0 w.tables (w.draws + 1) w.outside in
        rw (up, h.result) (omega arith, refl, h.done)

-- No event of the batch has attempts left.
abbrev pub AllExhausted : WorkerConfig → List OutboxEvent → Type 0
AllExhausted c [] = Unit
AllExhausted c (e ∷ es) = (is_exhausted c e ≡ true) × AllExhausted c es

module _ (env : Env) (queue : Producer) (c : WorkerConfig) where
  process_events-exhausted :
      (es : List OutboxEvent) (w : World)
      → AllExhausted c es
      → process_events env queue c es 0 w ≡ (0, ok tt, w)
  unfolding process_events process_event pure
  process_events-exhausted [] w h = refl
  process_events-exhausted (e ∷ es) w (over, h) = rw over (process_events-exhausted es w h)

  -- With a database that answers, and whatever the queue would answer: if no event that a batch
  -- fetches has attempts left, then the batch sends nothing and changes no table, however many
  -- other events wait.
  pub process_batch-stuck :
      (w : World) (up : w.faults ≡ [])
      → AllExhausted c (select_pending_events (env.clock w.draws) (pos_part c.batch_size) w.tables)
      → process_batch env queue c w ≡ (0, record w { draws = w.draws + 1; aborted = false })
  unfolding process_batch published_count batch_body fetch_pending_events ◌>>=◌ query statement
      time_now with_tx finish
  process_batch-stuck w up h = rw (up, process_events-exhausted _ _ h) refl
