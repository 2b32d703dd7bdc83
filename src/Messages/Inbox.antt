-- ===== src/Messages/Inbox.antt =====
-- internal/domain/inbox/inbox.go
use go_challenge_fc.Base.{ℕ, Bool, true, false, String, Option, none, some}

pub record InboxMessage : Type 0 where
  pub id : ℕ
  pub consumer_name : String
  pub message_id : String
  pub payload_hash : String
  pub received_at : ℕ
  pub processed_at : Option ℕ

unfoldable pub new_message : ℕ → ℕ → String → String → String → InboxMessage
new_message id now consumer message hash = record {
  id = id;
  consumer_name = consumer;
  message_id = message;
  payload_hash = hash;
  received_at = now;
  processed_at = none;
}

unfoldable pub mark_processed : ℕ → InboxMessage → InboxMessage
mark_processed now m = record m { processed_at = some now }

unfoldable pub is_processed : InboxMessage → Bool
is_processed m = elim m.processed_at [ none ↦ false | some t ↦ true ]
