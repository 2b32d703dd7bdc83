-- ===== src/Messages/Outbox.antt =====
-- internal/domain/outbox/outbox.go. The payload stays the event that json.Marshal prints;
-- marshalling these structs does not fail.
use go_challenge_fc.Base.{ℕ, Bool, true, false, String, Option, none, some}
use go_challenge_fc.Base.Int.{ℤ, pos}
use go_challenge_fc.Messages.Events.{Payload}

pub record OutboxEvent : Type 0 where
  pub id : ℕ
  pub event_type : String
  pub aggregate_id : ℕ
  pub aggregate_type : String
  pub correlation_id : Option ℕ
  pub causation_id : Option ℕ
  pub payload : Payload
  pub occurred_at : ℕ
  pub version : ℕ
  pub published_at : Option ℕ
  pub attempts : ℤ
  pub next_attempt_at : ℕ
  pub last_error : Option String
  pub created_at : ℕ

unfoldable pub new_event :
    ℕ → ℕ → String → ℕ → String → Option ℕ → Option ℕ → Payload → ℕ → ℕ → OutboxEvent
new_event now id type aggregate aggregate_type correlation causation payload occurred version =
    record {
      id = id;
      event_type = type;
      aggregate_id = aggregate;
      aggregate_type = aggregate_type;
      correlation_id = correlation;
      causation_id = causation;
      payload = payload;
      occurred_at = occurred;
      version = version;
      published_at = none;
      attempts = pos 0;
      next_attempt_at = now;
      last_error = none;
      created_at = now;
    }

unfoldable pub is_published : OutboxEvent → Bool
is_published e = elim e.published_at [ none ↦ false | some t ↦ true ]
