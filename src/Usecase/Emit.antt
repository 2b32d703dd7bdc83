-- ===== src/Usecase/Emit.antt =====
-- The calls of outbox.New and OutboxRepository.Create that the use cases repeat for each event.
pub mod Laws
use go_challenge_fc.Base.{ℕ, String, Option, none}
use go_challenge_fc.Messages.Events.{Payload, envelope_of}
use go_challenge_fc.Messages.Outbox.{new_event}
use go_challenge_fc.Store.Repos.{create_event}
use go_challenge_fc.Store.Session.{M, Env, time_now, ◌>>=◌}

unfoldable pub emit : Env → Payload → ℕ → String → Option ℕ → M (Unit {0})
emit env p aggregate aggregate_type correlation = do
  occurred ← time_now env
  now ← time_now env
  create_event (
      new_event now (envelope_of p).event_id (envelope_of p).event_type aggregate aggregate_type
        correlation none p occurred 1)
