-- ===== src/Worker/Outbox/Sent.antt =====
-- What a batch marks as published has been accepted by the queue.
use go_challenge_fc.Base.Int.{pos_part, ℤ}
use go_challenge_fc.Base.{
  sym, ℕ, ◌+◌, ◌≡◌, refl, ◌==◌, Bool, true, false, ◌||◌, List, [], ◌∷◌, Option, none, some, arith,
  Bool-cases, inl, inr, subst, String,
}
use go_challenge_fc.Errs.{Result, ok, err}
use go_challenge_fc.Messages.Outbox.{OutboxEvent, is_published}
use go_challenge_fc.Messages.Queue.{Action, published}
use go_challenge_fc.Store.Repos.{fetch_pending_events, mark_published, record_failure}
use go_challenge_fc.Store.Session.{
  continue, World, Env, pure, ◌>>=◌, statement, query, time_now, request, with_tx, next_fault,
  finish, begin, commit,
}
use go_challenge_fc.Store.Tables.Messages.{
  select_pending_events, set_published, set_failure, event_has_id,
}
use go_challenge_fc.Store.Tables.Rows.{Tables, update_where}
use go_challenge_fc.Worker.Outbox.{
  after_event, Producer, WorkerConfig, publication, deliver, send_message, ignore_error,
  settle_event, is_exhausted, process_event, process_events, process_fetched, batch_body, batch_tx,
  process_batch, delay_secs,
}

-- A message whose deduplication id is `id` has been accepted.
abbrev pub is_publication : ℕ → Action → Bool
is_publication id (published p) = p.deduplication_id == id
is_publication id _ = false

abbrev pub was_sent : ℕ → List Action → Bool
was_sent id [] = false
was_sent id (a ∷ rest) = is_publication id a || was_sent id rest

-- Each row that is marked as published has been sent.
abbrev pub AllSent : List Action → List OutboxEvent → Type 0
AllSent outside [] = Unit
AllSent outside (e ∷ es) =
    (is_published e ≡ true → was_sent e.id outside ≡ true) × AllSent outside es

abbrev pub IsSent : World → Type 0
IsSent w = AllSent w.outside w.tables.outbox_events

more-AllSent :
    (a : Action) (outside : List Action) (es : List OutboxEvent)
    → AllSent outside es
    → AllSent (a ∷ outside) es
more-AllSent a outside [] h = tt
more-AllSent a outside (e ∷ es) (h, hs) = (λ p. ground (arith, h p), more-AllSent a outside es hs)

set_published-AllSent :
    (now id : ℕ) (outside : List Action) (sent : was_sent id outside ≡ true) (es : List OutboxEvent)
    → AllSent outside es
    → AllSent outside
        (update_where (event_has_id id) (λ e. record e { published_at = some now }) es)
unfolding update_where
set_published-AllSent now id outside sent [] h = tt
set_published-AllSent now id outside sent (e ∷ es) (h, hs) = elim (Bool-cases (event_has_id id e)) [
  | inl same ↦ rw same ((λ _. ground arith), set_published-AllSent now id outside sent es hs)
  | inr other ↦ rw other (h, set_published-AllSent now id outside sent es hs)
]

set_failure-AllSent :
    (f : OutboxEvent → OutboxEvent) (same_id : (e : OutboxEvent) → (f e).id ≡ e.id)
    (same : (e : OutboxEvent) → (f e).published_at ≡ e.published_at) (id : ℕ)
    (outside : List Action) (es : List OutboxEvent)
    → AllSent outside es
    → AllSent outside (update_where (event_has_id id) f es)
unfolding update_where is_published
set_failure-AllSent f same_id same id outside [] h = tt
set_failure-AllSent f same_id same id outside (e ∷ es) (h, hs) =
    elim (Bool-cases (event_has_id id e)) [
      | inl is_it ↦
          rw (is_it, same_id e, same e) (h, set_failure-AllSent f same_id same id outside es hs)
      | inr other ↦ rw other (h, set_failure-AllSent f same_id same id outside es hs)
    ]

-- What a step does to the marks: those that were sent stay so, and those that it makes are sent.
record After (w v : World) : Type 0 where
  stays : (es : List OutboxEvent) → AllSent w.outside es → AllSent v.outside es
  sent : IsSent v

After-same : (w : World) → IsSent w → After w w
After-same w h = record { stays = λ es k. k; sent = h }

After-trans : {u v w : World} → After u v → After v w → After u w
After-trans a b = record { stays = λ es k. b.stays es (a.stays es k); sent = b.sent }

module _ (g : Tables → Tables) (w : World) (h : IsSent w)
    (k : AllSent w.outside (g w.tables).outbox_events) where
  request-After : (down : Bool) → After w (request down (λ t. ok (tt, g t)) w).1
  request-After true = record { stays = λ es k. k; sent = h }
  request-After false = record { stays = λ es k. k; sent = k }

then_pure : (n : ℕ) (r : Result (Unit {0}) × World) → (continue (λ _. pure n) r).1 ≡ r.1
unfolding pure
then_pure n (ok u, w) = refl
then_pure n (err e, w) = refl

module _ (env : Env) (e : OutboxEvent) (w : World) (h : IsSent w) where
  abbrev later : World
  later = record w { draws = w.draws + 1 }

  mark_published-After : was_sent e.id w.outside ≡ true → After w (mark_published env e.id w).1
  unfolding mark_published time_now ◌>>=◌ statement set_published
  mark_published-After k =
      let now = env.clock w.draws in
      let r =
        request-After (set_published now e.id) later h
          (set_published-AllSent now e.id w.outside k w.tables.outbox_events h)
          (next_fault w.faults || w.aborted) in
      record { stays = r.stays; sent = r.sent }

  record_failure-After :
      (failure : String) (delay : ℤ) → After w (record_failure env e.id failure delay w).1
  unfolding record_failure time_now ◌>>=◌ statement set_failure
  record_failure-After failure delay =
      let now = env.clock w.draws in
      let r =
        request-After (set_failure now e.id failure delay) later h
          (set_failure-AllSent _ (λ e. refl) (λ e. refl) e.id w.outside w.tables.outbox_events h)
          (next_fault w.faults || w.aborted) in
      record { stays = r.stays; sent = r.sent }

  settle_event-After :
      (failure : Option String)
      → (failure ≡ none → was_sent e.id w.outside ≡ true)
      → After w (settle_event env e failure w).1
  unfolding settle_event ignore_error ◌>>=◌ pure
  settle_event-After (some failure) k = record_failure-After failure (delay_secs e.attempts)
  settle_event-After none k =
      subst (After w) (sym (then_pure 1 (mark_published env e.id w)))
        (mark_published-After (k refl))

module _ (env : Env) (queue : Producer) (c : WorkerConfig) where
  deliver-After :
      (e : OutboxEvent) (answer : Option String) (w : World)
      → IsSent w
      → After w (continue (settle_event env e) (deliver (publication e) answer w)).1
  unfolding publication
  deliver-After e (some failure) w h = settle_event-After env e w h (some failure) (λ k. cc)
  deliver-After e none w h =
      let v : World = record w { outside = published (publication e) ∷ w.outside } in
      let put : After w v = record {
        stays = more-AllSent (published (publication e)) w.outside;
        sent = more-AllSent (published (publication e)) w.outside w.tables.outbox_events h;
      } in
      After-trans put (settle_event-After env e v put.sent none (λ _. ground arith))

  process_event-After :
      (e : OutboxEvent) (w : World) → IsSent w → After w (process_event env queue c e w).1
  unfolding process_event send_message ◌>>=◌ pure
  process_event-After e w h = elim (Bool-cases (is_exhausted c e)) [
    | inl yes_exhausted ↦ rw yes_exhausted (After-same w h)
    | inr left ↦ rw left (deliver-After e (queue w (publication e)) w h)
  ]

  next-After :
      (rest : ℕ → World → ℕ × Result (Unit {0}) × World) (n : ℕ) (w : World)
      → ((k : ℕ) (v : World) → IsSent v → After v (rest k v).2)
      → (r : Result ℕ × World) → After w r.1
      → After w (after_event n rest r).2
  next-After rest n w h (ok k, v) a = After-trans a (h (n + k) v a.sent)
  next-After rest n w h (err x, v) a = a

  process_events-After :
      (es : List OutboxEvent) (n : ℕ) (w : World)
      → IsSent w
      → After w (process_events env queue c es n w).2
  unfolding process_events
  process_events-After [] n w h = After-same w h
  process_events-After (e ∷ es) n w h =
      next-After (λ k v. process_events env queue c es k v) n w (λ k v. process_events-After es k v)
        (process_event env queue c e w) (process_event-After e w h)

  fetched-After :
      (r : Result (List OutboxEvent) × World) (w : World)
      → After w r.1
      → After w (process_fetched env queue c r).2
  fetched-After (ok es, v) w a = After-trans a (process_events-After es 0 v a.sent)
  fetched-After (err x, v) w a = a

  fetch-After : (n : ℕ) (w : World) → IsSent w → After w (fetch_pending_events env n w).1
  unfolding fetch_pending_events time_now ◌>>=◌ query statement
  fetch-After n w h = go (next_fault w.faults || w.aborted)
    where
      go :
          (down : Bool)
          → After w
              (request down
                (λ t. ok (select_pending_events (env.clock w.draws) n t, t))
                (record w { draws = w.draws + 1 })).1
      go true = record { stays = λ es k. k; sent = h }
      go false = record { stays = λ es k. k; sent = h }

  batch_body-After : (w : World) → IsSent w → After w (batch_body env queue c w).2
  unfolding batch_body
  batch_body-After w h = fetched-After _ w (fetch-After (pos_part c.batch_size) w h)

finish-IsSent :
    {A : Type 0} (w : World) (r : Result A × World)
    → IsSent w
    → After w r.1
    → IsSent (finish w.tables r).1
unfolding finish
finish-IsSent w (err e, v) h a = a.stays w.tables.outbox_events h
finish-IsSent w (ok x, v) h a = go (next_fault v.faults || v.aborted)
  where
    go : (down : Bool) → IsSent (commit down w.tables x v).1
    go true = a.stays w.tables.outbox_events h
    go false = a.sent

begin-IsSent :
    (env : Env) (queue : Producer) (c : WorkerConfig) (w : World)
    → IsSent w
    → (down : Bool) → IsSent (begin down (batch_tx env queue c) w).1
begin-IsSent env queue c w h true = h
begin-IsSent env queue c w h false =
    finish-IsSent w (batch_tx env queue c w) h (batch_body-After env queue c w h)

-- From a world where each event that is marked as published was accepted by the queue under its
-- identifier, a batch of the publisher leads to such a world, whatever the database fails, the
-- commit included, and whatever the queue answers.
pub process_batch-IsSent :
    (env : Env) (queue : Producer) (c : WorkerConfig) (w : World)
    → IsSent w
    → IsSent (process_batch env queue c w).1
unfolding process_batch with_tx
process_batch-IsSent env queue c w h = begin-IsSent env queue c _ h (next_fault w.faults)
