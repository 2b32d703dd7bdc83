-- ===== src/Usecase/RetryPending/Ends.antt =====
-- A transaction whose reference never comes is rejected after the maximum of retries.
use go_challenge_fc.Messages.Events.{new_rejected}
use go_challenge_fc.Messages.Outbox.{new_event}
use go_challenge_fc.Usecase.Emit.{emit}
use go_challenge_fc.Store.Repos.{create_event, save_transaction, get_by_external}
use go_challenge_fc.Base.Time.{after_delay}
use go_challenge_fc.Base.{
  ℕ, zero, suc, ◌+◌, ◌≤◌, ◌<◌, ◌≡◌, refl, true, false, List, [], ◌∷◌, Option, none, some, arith,
  String, if◌then◌else◌,
}
use go_challenge_fc.Base.Int.{ltb_ℤ, ℤ, pos, two_63, wrap64, ◌+ℤ◌}
use go_challenge_fc.Errs.{code_text}
use go_challenge_fc.Store.Session.{
  new_uuid, time_now, lift, pure, ◌>>=◌, statement, query, finish, with_tx, World, Env,
}
use go_challenge_fc.Store.Tables.Keys.{found_any}
use go_challenge_fc.Store.Tables.Laws.{find_passes}
use go_challenge_fc.Store.Tables.Messages.{insert_event, event_has_id}
use go_challenge_fc.Store.Tables.Rows.{find, any, update_where}
use go_challenge_fc.Store.Tables.Transactions.{
  update_transaction, select_transaction, select_by_external, transaction_has_id,
  transaction_has_external, set_transaction,
}
use go_challenge_fc.Transaction.Defs.{
  mark_rejected, increment_retry, WagerTransaction, pending_reference, rejected,
  is_pending_reference,
}
use go_challenge_fc.Usecase.RetryPending.Defs.{
  reject_pending, reject_resolved, resolve_with, put_off, next_delay, pending_tx,
  process_single_pending,
}

-- What a batch does with the row of one transaction, if it waits for its reference.
abbrev pub visit : Env → ℤ → Option WagerTransaction → World → World
visit env max none w = w
visit env max (some x) w =
    let after = (process_single_pending env max x w).1 in
    if is_pending_reference x.status then after else w

abbrev pub visits : Env → ℤ → ℕ → ℕ → World → World
visits env max id zero w = w
visits env max id (suc k) w = visits env max id k (visit env max (select_transaction id w.tables) w)

-- The transaction waits after `n` retries, its reference is not stored, and the database answers
-- and takes new identifiers.
pub record Waits (env : Env) (id : ℕ) (provider ref : String) (n : ℕ) (w : World) : Type 0 where
  pub row : WagerTransaction
  pub stored : select_transaction id w.tables ≡ some row
  pub counted : row.retry_count ≡ pos n
  pub waiting : row.status ≡ pending_reference
  pub provided : row.provider_id ≡ some provider
  pub referring : row.reference_external_transaction_id ≡ some ref
  pub correlation : ℕ
  pub correlated : row.correlation_id ≡ some correlation
  pub missing : select_by_external provider ref w.tables ≡ none
  pub fresh : (d : ℕ) → any (event_has_id (env.uuid d)) w.tables.outbox_events ≡ false
  pub up : w.faults ≡ []

-- The row is rejected because its reference is missing.
pub record IsRejected (id : ℕ) (w : World) : Type 0 where
  pub row : WagerTransaction
  pub stored : select_transaction id w.tables ≡ some row
  pub ended : row.status ≡ rejected
  pub reason : row.failure_code ≡ some "REFERENCE_NOT_FOUND"

update_self :
    (id : ℕ) (x r : WagerTransaction) (xs : List WagerTransaction)
    → find (transaction_has_id id) xs ≡ some r
    → find (transaction_has_id id) (update_where (transaction_has_id id) (set_transaction x) xs)
      ≡ some (set_transaction x r)
unfolding find update_where set_transaction
update_self id x r [] h = cc
update_self id x r (y ∷ ys) h = ground (arith, update_self id x r ys)

update_missing :
    (id : ℕ) (p e : String) (x : WagerTransaction) (xs : List WagerTransaction)
    → find (transaction_has_external p e) xs ≡ none
    → find
        (transaction_has_external p e)
        (update_where (transaction_has_id id) (set_transaction x) xs)
      ≡ none
unfolding find update_where set_transaction
update_missing id p e x [] h = refl
update_missing id p e x (y ∷ ys) h = ground (arith, update_missing id p e x ys)

next_count : (n : ℕ) → n + 1 < two_63 → wrap64 (pos n +ℤ pos 1) ≡ pos (n + 1)
unfolding wrap64 ◌+ℤ◌
next_count n h = ground arith

module _ (env : Env) (m id : ℕ) (provider ref : String) (n : ℕ) (w : World)
    (h : Waits env id provider ref n w) where
  has_id : h.row.id ≡ id
  unfolding select_transaction
  has_id =
      ground (arith, find_passes (transaction_has_id id) w.tables.wager_transactions h.row h.stored)

  exists : any (transaction_has_id id) w.tables.wager_transactions ≡ true
  unfolding select_transaction
  exists = found_any _ _ h.row h.stored

  -- The row after one more retry.
  abbrev retried : WagerTransaction
  retried = record h.row {
    status = pending_reference;
    retry_count = pos (n + 1);
    retry_after = some (after_delay (env.clock w.draws) (next_delay n));
    updated_at = env.clock (w.draws + 1);
  }

  abbrev put_off_world : World
  put_off_world = record w {
    tables = record w.tables {
      wager_transactions =
          update_where (transaction_has_id id) (set_transaction retried)
            w.tables.wager_transactions;
    };
    draws = w.draws + 1 + 1;
    faults = [];
    aborted = false;
  }

  put_off_runs :
      n < m → m < two_63 → visit env (pos m) (select_transaction id w.tables) w ≡ put_off_world
  unfolding process_single_pending pending_tx put_off resolve_with with_tx finish get_by_external
      query statement ◌>>=◌ pure lift time_now save_transaction update_transaction increment_retry
  put_off_runs below range =
      let left : ltb_ℤ (pos n) (pos m) ≡ true = ground arith in
      rw
        (
          h.stored,
          h.waiting,
          h.counted,
          left,
          h.provided,
          h.referring,
          h.up,
          h.missing,
          has_id,
          exists,
          next_count n (omega arith),
        )
        refl

  put_off_Waits : Waits env id provider ref (n + 1) put_off_world
  unfolding select_transaction select_by_external set_transaction
  put_off_Waits = record {
    row = set_transaction retried h.row;
    stored = update_self id retried h.row w.tables.wager_transactions h.stored;
    counted = refl;
    waiting = refl;
    provided = h.provided;
    referring = h.referring;
    correlation = h.correlation;
    correlated = h.correlated;
    missing = update_missing id provider ref retried w.tables.wager_transactions h.missing;
    fresh = h.fresh;
    up = refl;
  }

  -- One more retry, with retries left.
  visit-Waits :
      n < m
      → m < two_63
      → Waits env id provider ref (n + 1) (visit env (pos m) (select_transaction id w.tables) w)
  visit-Waits below range = rw (put_off_runs below range) put_off_Waits

  abbrev given_up : WagerTransaction
  given_up = record h.row {
    status = rejected;
    failure_code = some "REFERENCE_NOT_FOUND";
    retry_count = pos n;
    updated_at = env.clock w.draws;
  }

  -- The retries are used up.
  visit-IsRejected : m ≤ n → IsRejected id (visit env (pos m) (select_transaction id w.tables) w)
  unfolding select_transaction process_single_pending pending_tx reject_resolved reject_pending
      with_tx finish statement ◌>>=◌ pure lift time_now new_uuid save_transaction update_transaction
      mark_rejected emit create_event insert_event new_event new_rejected set_transaction code_text
  visit-IsRejected used =
      let left : ltb_ℤ (pos n) (pos m) ≡ false = ground arith in
      rw
        (
          h.stored,
          h.waiting,
          h.counted,
          left,
          h.correlated,
          h.up,
          has_id,
          exists,
          h.fresh (w.draws + 1),
        )
        (record {
          row = set_transaction given_up h.row;
          stored = update_self id given_up h.row w.tables.wager_transactions h.stored;
          ended = refl;
          reason = refl;
        })

module _ (env : Env) (m id : ℕ) (provider ref : String) (range : m < two_63) where
  -- A stored transaction with a correlation identifier that waits after `n` of at most `m` retries
  -- (`m` an int64), whose reference is not stored, in a database that answers and where no event
  -- has one of the identifiers still to be drawn, is rejected with REFERENCE_NOT_FOUND after it has
  -- been fetched `m - n + 1` more times, with nothing else in between.
  pub visits-IsRejected :
      (k n : ℕ) (w : World)
      → n + k ≡ m
      → Waits env id provider ref n w
      → IsRejected id (visits env (pos m) id (suc k) w)
  visits-IsRejected zero n w e h = visit-IsRejected env m id provider ref n w h (omega arith)
  visits-IsRejected (suc k) n w e h =
      visits-IsRejected k (n + 1) _ (omega arith)
        (visit-Waits env m id provider ref n w h (omega arith) range)
