-- ===== src/Worker/Outbox/Writes.antt =====
-- What a batch of the publisher does to the tables: it marks events, and nothing else.
use go_challenge_fc.Base.{
  ◌∙◌, ℕ, ◌+◌, ◌≡◌, refl, Bool-cases, inl, inr, Option, none, some, String, List, [], ◌∷◌,
}
use go_challenge_fc.Base.Int.{ℤ, pos_part}
use go_challenge_fc.Errs.{Result, ok, err}
use go_challenge_fc.Messages.Outbox.{OutboxEvent}
use go_challenge_fc.Messages.Queue.{Publication}
use go_challenge_fc.Store.Relates.{statement-Relates, with_tx-Relates}
use go_challenge_fc.Store.Repos.{record_failure, mark_published, fetch_pending_events}
use go_challenge_fc.Store.Session.{World, M, Env, pure, ◌>>=◌, continue, time_now, statement, query}
use go_challenge_fc.Store.Tables.Messages.{select_pending_events, set_published, set_failure}
use go_challenge_fc.Store.Tables.Rows.{Tables}
use go_challenge_fc.Store.Writes.{
  Wrote, nothing, further, Wrote-trans, event_published, event_failed, same_tables,
}
use go_challenge_fc.Worker.Outbox.{
  Producer, WorkerConfig, deliver, send_message, ignore_error, settle_event, is_exhausted,
  process_event, publication, after_event, process_events, process_fetched, batch_body, batch_tx,
  process_batch, delay_secs,
}

-- A relation that the two updates of the outbox keep to.
pub record Marks (R : Tables → Tables → Type 0) : Type 0 where
  pub same : (t : Tables) → R t t
  pub chain : (t u v : Tables) → R t u → R u v → R t v
  pub published : (now id : ℕ) (t : Tables) → R t (set_published now id t)
  pub failed :
      (now id : ℕ) (last : String) (delay : ℤ) (t : Tables) → R t (set_failure now id last delay t)

module _ (R : Tables → Tables → Type 0) (laws : Marks R) where
  update-Relates :
      {A : Type 0} (a : A) (f : Tables → Tables) (w : World)
      → ((t : Tables) → R t (f t))
      → R w.tables (statement (λ t. ok (a, f t)) w).1.tables
  update-Relates a f w h =
      statement-Relates R laws.same _ w λ t b t' e. rw (same_tables a b (f t) t' e) (h t)

  continued-Relates :
      {A B : Type 0} (f : A → M B)
      → ((a : A) (v : World) → R v.tables (f a v).1.tables)
      → (t : Tables) (r : Result A × World) → R t r.1.tables
      → R t (continue f r).1.tables
  continued-Relates f h t (ok a, v) k = laws.chain t v.tables _ k (h a v)
  continued-Relates f h t (err e, v) k = k

  deliver-Relates :
      (p : Publication) (o : Option String) (w : World) → R w.tables (deliver p o w).1.tables
  deliver-Relates p none w = laws.same w.tables
  deliver-Relates p (some e) w = laws.same w.tables

  module _ (env : Env) (queue : Producer) (c : WorkerConfig) where
    settle_event-Relates :
        (e : OutboxEvent) (o : Option String) (w : World)
        → R w.tables (settle_event env e o w).1.tables
    unfolding settle_event ◌>>=◌ ignore_error record_failure mark_published time_now pure
    settle_event-Relates e (some failure) w =
        update-Relates tt (set_failure (env.clock w.draws) e.id failure (delay_secs e.attempts)) _
          (laws.failed _ _ _ _)
    settle_event-Relates e none w =
        continued-Relates (λ _. pure 1) (λ _ v. laws.same v.tables) w.tables _
          (update-Relates tt (set_published (env.clock w.draws) e.id) _ (laws.published _ _))

    process_event-Relates :
        (e : OutboxEvent) (w : World) → R w.tables (process_event env queue c e w).1.tables
    unfolding process_event send_message ◌>>=◌ pure
    process_event-Relates e w = elim (Bool-cases (is_exhausted c e)) [
      | inl exhausted ↦ rw exhausted (laws.same w.tables)
      | inr left ↦ rw left (
          continued-Relates (settle_event env e) (settle_event-Relates e) w.tables
            (send_message queue (publication e) w)
            (deliver-Relates (publication e) (queue w (publication e)) w))
    ]

    after_event-Relates :
        (rest : ℕ → World → ℕ × Result (Unit {0}) × World)
        → ((n : ℕ) (v : World) → R v.tables (rest n v).2.tables)
        → (count : ℕ) (w : World) (r : Result ℕ × World) → R w.tables r.1.tables
        → R w.tables (after_event count rest r).2.tables
    after_event-Relates rest h count w (ok n, v) k = laws.chain _ v.tables _ k (h (count + n) v)
    after_event-Relates rest h count w (err x, v) k = k

    process_events-Relates :
        (es : List OutboxEvent) (n : ℕ) (w : World)
        → R w.tables (process_events env queue c es n w).2.tables
    unfolding process_events
    process_events-Relates [] n w = laws.same w.tables
    process_events-Relates (e ∷ es) n w =
        after_event-Relates (λ k v. process_events env queue c es k v)
          (λ k v. process_events-Relates es k v) n w (process_event env queue c e w)
          (process_event-Relates e w)

    fetched-Relates :
        (w : World) (r : Result (List OutboxEvent) × World)
        → R w.tables r.1.tables
        → R w.tables (process_fetched env queue c r).2.tables
    fetched-Relates w (ok es, v) h = laws.chain _ v.tables _ h (process_events-Relates es 0 v)
    fetched-Relates w (err x, v) h = h

    fetch-Relates : (n : ℕ) (w : World) → R w.tables (fetch_pending_events env n w).1.tables
    unfolding fetch_pending_events time_now ◌>>=◌ query
    fetch-Relates n w =
        statement-Relates R laws.same _ (record w { draws = w.draws + 1 })
          λ t b t' e.
            rw (same_tables (select_pending_events (env.clock w.draws) n t) b t t' e) (laws.same t)

    pub process_batch-Relates : (w : World) → R w.tables (process_batch env queue c w).1.tables
    unfolding process_batch batch_body
    process_batch-Relates w =
        with_tx-Relates R laws.same (batch_tx env queue c) w
          λ v. fetched-Relates v _ (fetch-Relates (pos_part c.batch_size) v)

module _ (env : Env) (queue : Producer) (c : WorkerConfig) (w : World) where
  pub process_batch-Wrote : Wrote w.tables (process_batch env queue c w).1.tables
  process_batch-Wrote =
      process_batch-Relates Wrote
        (record {
          same = λ t. nothing;
          chain = λ t u v. Wrote-trans;
          published = λ now id t. further nothing (event_published now id refl);
          failed = λ now id last delay t. further nothing (event_failed now id last delay refl);
        })
        env queue c w

  -- The wallets, the transactions and the ledger stay as they are.
  pub process_batch_quiet :
      ((process_batch env queue c w).1.tables.wallets ≡ w.tables.wallets)
      × ((process_batch env queue c w).1.tables.wallet_ledger_entries
          ≡ w.tables.wallet_ledger_entries)
  unfolding set_published set_failure
  process_batch_quiet =
      process_batch-Relates
        (λ t u. (u.wallets ≡ t.wallets) × (u.wallet_ledger_entries ≡ t.wallet_ledger_entries))
        (record {
          same = λ t. (refl, refl);
          chain = λ t u v h k. (k.0 ∙ h.0, k.1 ∙ h.1);
          published = λ now id t. (refl, refl);
          failed = λ now id last delay t. (refl, refl);
        })
        env queue c w
