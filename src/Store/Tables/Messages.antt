-- ===== src/Store/Tables/Messages.antt =====
-- internal/infra/db/postgres/outbox_repo.go and inbox_repo.go, and their tables.
use go_challenge_fc.Base.{
  ℕ, Bool, true, false, ◌&&◌, List, [], ◌∷◌, none, some, String, leb, str_eq, ◌==◌, if◌then◌else◌,
}
use go_challenge_fc.Base.Int.{ℤ, pos, ◌+ℤ◌}
use go_challenge_fc.Base.Time.{second, times, after_delay}
use go_challenge_fc.Errs.{Result, ok, err, plain, database}
use go_challenge_fc.Messages.Inbox.{InboxMessage}
use go_challenge_fc.Messages.Outbox.{OutboxEvent}
use go_challenge_fc.Store.Tables.Rows.{Tables, any, update_where, filter_where}
use go_challenge_fc.Store.Tables.Transactions.{limit}

abbrev pub event_has_id : ℕ → OutboxEvent → Bool
event_has_id id e = e.id == id

-- OutboxRepository.Create
unfoldable pub insert_event : OutboxEvent → Tables → Result (Unit {0} × Tables)
insert_event e t =
    if any (event_has_id e.id) t.outbox_events
    then err (plain database)
    else ok (tt, record t { outbox_events = e ∷ t.outbox_events })

abbrev pub insert_by_attempt : OutboxEvent → List OutboxEvent → List OutboxEvent
insert_by_attempt x [] = x ∷ []
insert_by_attempt x (y ∷ ys) =
    let rest = insert_by_attempt x ys in
    if leb x.next_attempt_at y.next_attempt_at then x ∷ y ∷ ys else y ∷ rest

-- `ORDER BY next_attempt_at ASC`
unfoldable pub sort_by_attempt : List OutboxEvent → List OutboxEvent
sort_by_attempt [] = []
sort_by_attempt (x ∷ xs) = insert_by_attempt x (sort_by_attempt xs)

-- `published_at IS NULL AND next_attempt_at <= NOW()`
unfoldable pub is_due_for_publish : ℕ → OutboxEvent → Bool
is_due_for_publish now e = elim e.published_at [
  | none ↦ leb e.next_attempt_at now
  | some at ↦ false
]

-- FetchPendingForPublish at the time `now`; a batch size that is not positive is 50.
unfoldable pub select_pending_events : ℕ → ℕ → Tables → List OutboxEvent
unfolding sort_by_attempt limit
select_pending_events now n t =
    limit (if n == 0 then 50 else n)
      (sort_by_attempt (filter_where (is_due_for_publish now) t.outbox_events))

-- OutboxRepository.MarkPublished
unfoldable pub set_published : ℕ → ℕ → Tables → Tables
set_published now id t = record t {
  outbox_events =
      update_where (event_has_id id) (λ e. record e { published_at = some now }) t.outbox_events;
}

-- OutboxRepository.RecordFailure; the delay is in seconds.
unfoldable pub set_failure : ℕ → ℕ → String → ℤ → Tables → Tables
set_failure now id last delay t = record t {
  outbox_events =
      update_where (event_has_id id)
        (λ e. record e {
          attempts = e.attempts +ℤ pos 1;
          last_error = some last;
          next_attempt_at = after_delay now (times delay second);
        })
        t.outbox_events;
}

-- inbox_messages_consumer_message_uniq
abbrev pub same_message : String → String → InboxMessage → Bool
same_message consumer message r = str_eq r.consumer_name consumer && str_eq r.message_id message

-- InboxRepository.CreateIfAbsent: whether a row was inserted. The id is a key too.
unfoldable pub insert_message : InboxMessage → Tables → Result (Bool × Tables)
insert_message m t =
    if any (same_message m.consumer_name m.message_id) t.inbox_messages
    then ok (false, t)
    else if any (λ r. r.id == m.id) t.inbox_messages
    then err (plain database)
    else ok (true, record t { inbox_messages = m ∷ t.inbox_messages })

-- InboxRepository.MarkProcessed
unfoldable pub set_processed : ℕ → String → String → Tables → Tables
set_processed now consumer message t = record t {
  inbox_messages =
      update_where (same_message consumer message) (λ m. record m { processed_at = some now })
        t.inbox_messages;
}
