-- ===== src/Worker/Outbox.antt =====
-- internal/worker/outbox/worker.go: what one batch publishes. Its metrics are not modelled.
pub mod Writes
pub mod Sent
pub mod Progress
use go_challenge_fc.Base.{
  false, ◌*◌, if◌then◌else◌, not, ℕ, ◌+◌, Option, none, some, String, List, [], ◌∷◌, Bool,
}
use go_challenge_fc.Base.Int.{or_default, ℤ, pos, pos_part, ltb_ℤ}
use go_challenge_fc.Base.Time.{second, shift_left}
use go_challenge_fc.Errs.{Result, ok, err, Error}
use go_challenge_fc.Messages.Outbox.{OutboxEvent}
use go_challenge_fc.Messages.Queue.{Publication, published}
use go_challenge_fc.Store.Repos.{fetch_pending_events, mark_published, record_failure}
use go_challenge_fc.Store.Session.{
  World, M, Env, pure, ◌>>=◌, ◌>>◌, with_tx, next_fault, rest_faults,
}

pub record WorkerConfig : Type 0 where
  pub events_queue_url : String
  pub poll_interval : ℤ
  pub batch_size : ℤ
  pub max_attempts : ℤ

-- SQSProducerAPI: `none` if the queue accepts a message, or else the text of the error. What it
-- answers may depend on anything.
abbrev pub Producer : Type 0
Producer = World → Publication → Option String

-- NewWorker
unfoldable pub new_worker : WorkerConfig → WorkerConfig
new_worker c = record c {
  poll_interval = or_default c.poll_interval (pos (2 * second));
  batch_size = or_default c.batch_size (pos 50);
  max_attempts = or_default c.max_attempts (pos 10);
}

unfoldable pub publication : OutboxEvent → Publication
publication e = record { deduplication_id = e.id; group_id = e.aggregate_id; body = e.payload }

abbrev pub deliver : Publication → Option String → World → Result (Option String) × World
deliver p none w = (ok none, record w { outside = published p ∷ w.outside })
deliver p (some e) w = (ok (some e), w)

-- w.sqsProducer.SendMessage: its error, if there is one.
unfoldable pub send_message : Producer → Publication → M (Option String)
send_message queue p w = deliver p (queue w p) w

abbrev pub forget : Result (Unit {0}) × World → Result (Unit {0}) × World
forget r = (ok tt, r.1)

-- `_ = …`
unfoldable pub ignore_error : M (Unit {0}) → M (Unit {0})
ignore_error m w = forget (m w)

-- delaySecs. Attempts count up from 0.
unfoldable pub delay_secs : ℤ → ℤ
delay_secs attempts =
    let delay = shift_left (pos_part attempts) in if ltb_ℤ (pos 60) delay then pos 60 else delay

-- What follows SendMessage, and how many events it has published.
unfoldable pub settle_event : Env → OutboxEvent → Option String → M ℕ
unfolding ignore_error delay_secs
settle_event env e (some failure) =
    ignore_error (record_failure env e.id failure (delay_secs e.attempts)) >> pure 0
settle_event env e none = mark_published env e.id >> pure 1

-- evt.Attempts() >= w.cfg.MaxAttempts
abbrev pub is_exhausted : WorkerConfig → OutboxEvent → Bool
is_exhausted c e = not (ltb_ℤ e.attempts c.max_attempts)

-- The body of the loop.
unfoldable pub process_event : Env → Producer → WorkerConfig → OutboxEvent → M ℕ
unfolding send_message publication settle_event
process_event env queue c e =
    if is_exhausted c e then pure 0 else send_message queue (publication e) >>= settle_event env e

abbrev pub after_event :
    ℕ
    → (ℕ → World → ℕ × Result (Unit {0}) × World)
    → Result ℕ × World
    → ℕ × Result (Unit {0}) × World
after_event count rest (ok n, w) = rest (count + n) w
after_event count rest (err x, w) = (count, err x, w)

-- The loop: publishedCount, which an error does not take back, and how the loop ends.
unfoldable pub process_events :
    Env → Producer → WorkerConfig → List OutboxEvent → ℕ → World → ℕ × Result (Unit {0}) × World
process_events env queue c [] count w = (count, ok tt, w)
process_events env queue c (e ∷ es) count w =
    after_event count (λ n v. process_events env queue c es n v) (process_event env queue c e w)

abbrev pub process_fetched :
    Env
    → Producer
    → WorkerConfig
    → Result (List OutboxEvent) × World
    → ℕ × Result (Unit {0}) × World
process_fetched env queue c (ok es, w) = process_events env queue c es 0 w
process_fetched env queue c (err x, w) = (0, err x, w)

-- The function that ProcessBatch hands to WithTx, with publishedCount.
unfoldable pub batch_body : Env → Producer → WorkerConfig → World → ℕ × Result (Unit {0}) × World
unfolding process_events
batch_body env queue c w =
    process_fetched env queue c (fetch_pending_events env (pos_part c.batch_size) w)

abbrev pub batch_tx : Env → Producer → WorkerConfig → M (Unit {0})
batch_tx env queue c w = let (count, r, v) = batch_body env queue c w in (r, v)

-- publishedCount stays 0 if the transaction does not begin.
unfoldable pub published_count : Env → Producer → WorkerConfig → World → ℕ
unfolding batch_body
published_count env queue c w =
    let body =
      batch_body env queue c (record w { faults = rest_faults w.faults; aborted = false }) in
    if next_fault w.faults then 0 else body.0

-- Worker.ProcessBatch: its result and the world after it. An error is only logged.
unfoldable pub process_batch : Env → Producer → WorkerConfig → World → ℕ × World
unfolding published_count
process_batch env queue c w = (published_count env queue c w, (with_tx (batch_tx env queue c) w).1)
