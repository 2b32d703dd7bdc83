-- ===== src/Messages/Queue.antt =====
-- The requests to the SQS queues, in internal/worker/outbox/worker.go and
-- internal/worker/sqs/consumer.go.
use go_challenge_fc.Base.{ℕ, String}
use go_challenge_fc.Messages.Events.{Payload}

-- awssqs.SendMessageInput: MessageDeduplicationId, MessageGroupId and MessageBody.
pub record Publication : Type 0 where
  pub deduplication_id : ℕ
  pub group_id : ℕ
  pub body : Payload

-- A message that a queue has accepted, and a message that is deleted or made visible again, by its
-- receipt handle.
pub data Action : Type 0 where
  published : Publication → Action
  deleted : String → Action
  released : String → Action
