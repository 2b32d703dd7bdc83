-- ===== src/Usecase/ProcessWager/Replays.antt =====
-- The checks that answer a repeated operation from what is stored, and the whole transaction.
use go_challenge_fc.Base.{
  List, inl, sym, ◌≡◌, refl, subst, ◌⊎◌, inr, Bool, true, false, String, Option, none, some, arith,
  not, ◌&&◌, str_eq,
}
use go_challenge_fc.Base.Int.{IsInt64}
use go_challenge_fc.Messages.Inbox.{InboxMessage}
use go_challenge_fc.Store.Tables.Wallets.{select_wallet}
use go_challenge_fc.Store.Ensures.{
  Ensures, Ensures-if, Ensures-weaken, Ensures-pure, Ensures-raise, Ensures-bind, Ensures-statement,
  Ensures-query, Ensures-uuid, Ensures-time, Ensures-attempt,
}
use go_challenge_fc.Store.Repos.{get_by_key, get_by_external, create_message_if_absent}
use go_challenge_fc.Store.Session.{M, World, Env}
use go_challenge_fc.Store.Tables.Laws.{insert_message_ok}
use go_challenge_fc.Store.Tables.Rows.{Tables}
use go_challenge_fc.Store.Tables.Transactions.{select_by_key, select_by_external}
use go_challenge_fc.Transaction.Defs.{WagerTransaction}
use go_challenge_fc.Usecase.ProcessWager.Defs.{Input, Output, build_replay_output, is_key}
use go_challenge_fc.Usecase.ProcessWager.Effect.{
  Movement, Stored, Quiet, Effect, replayed, recorded, idle, posted,
}
use go_challenge_fc.Usecase.ProcessWager.Execute.{
  replay_found, redelivery, register_message, replay_or_conflict, check_key, check_external,
  execute_tx,
}
use go_challenge_fc.Usecase.ProcessWager.Outcome.{SoundAt, raise_if-Effect, handle_new-Effect}
use go_challenge_fc.Usecase.ProcessWager.Steps.{handle_new, or_else}

-- The tables differ in the inbox at most.
abbrev pub ButInbox : Tables → Tables → Type 0
ButInbox t t' = t' ≡ record t { inbox_messages = t'.inbox_messages }

-- The stored transaction that the operation repeats.
abbrev pub Known : Input → Tables → WagerTransaction → Type 0
Known i t x =
    (select_by_key i.idempotency_key t ≡ some x)
    ⊎ (select_by_external i.provider_id i.external_transaction_id t ≡ some x)

-- An answer, if there is one, is the replay of such a transaction.
abbrev pub Answers : Input → Tables → Option Output → Type 0
Answers i t none = Unit
Answers i t (some o) = (x : WagerTransaction) × Known i t x × (o ≡ build_replay_output x)

module _ (hash : String) (i : Input) (t : Tables) where
  redelivered-Answers :
      (a : Option WagerTransaction)
      → (a ≡ none) ⊎ (a ≡ select_by_key i.idempotency_key t)
      → Answers i t (replay_found a)
  redelivered-Answers none e = tt
  redelivered-Answers (some x) (inl e) = cc
  redelivered-Answers (some x) (inr e) = (x, inl (sym e), refl)

  redelivery-Answers :
      (new : Bool) (v : World)
      → ButInbox t v.tables
      → Ensures (λ r t'. ButInbox t t' × Answers i t r) (redelivery i new v)
  unfolding redelivery get_by_key select_by_key
  redelivery-Answers true v same = Ensures-pure none v (same, tt)
  redelivery-Answers false v same =
      Ensures-attempt _ _ v
        λ a u from kept. Ensures-pure _ u (ground arith, redelivered-Answers a (ground arith))

  register_message-Answers :
      (env : Env) (v : World)
      → v.tables ≡ t
      → Ensures (λ r t'. ButInbox t t' × Answers i t r) (register_message env hash i v)
  unfolding register_message create_message_if_absent
  register_message-Answers env v same =
      Ensures-if (str_eq i.source "SQS" && not (str_eq i.message_id "")) _ _ v
        (λ _. Ensures-uuid env _ v (
          Ensures-time env _ _ (
            Ensures-statement _ _ _ λ new t1 ins.
              redelivery-Answers new _ (ground (arith, insert_message_ok _ v.tables new t1 ins)))))
        (λ _. Ensures-pure none v (ground arith, tt))

  replay_or_conflict-Answers :
      (x : WagerTransaction) (v : World)
      → Known i t x
      → Ensures (λ r t'. (t' ≡ v.tables) × Answers i t r) (replay_or_conflict hash x v)
  unfolding replay_or_conflict
  replay_or_conflict-Answers x v known =
      raise_if-Effect _ _ _ v (Ensures-pure _ v (refl, (x, known, refl)))

  check_key-Answers :
      (a : Option WagerTransaction) (v : World)
      → select_by_key i.idempotency_key t ≡ a
      → Ensures (λ r t'. (t' ≡ v.tables) × Answers i t r) (check_key hash a v)
  unfolding check_key
  check_key-Answers none v e = Ensures-pure none v (refl, tt)
  check_key-Answers (some x) v e = replay_or_conflict-Answers x v (inl e)

  check_external-Answers :
      (a : Option WagerTransaction) (v : World)
      → select_by_external i.provider_id i.external_transaction_id t ≡ a
      → Ensures (λ r t'. (t' ≡ v.tables) × Answers i t r) (check_external hash i a v)
  unfolding check_external
  check_external-Answers none v e = Ensures-pure none v (refl, tt)
  check_external-Answers (some x) v e =
      Ensures-if (is_key x.idempotency_key i.idempotency_key) _ _ v
        (λ _. replay_or_conflict-Answers x v (inr e)) (λ _. Ensures-raise _ v)

  or_else-Effect :
      (r : Option Output) (rest : M Output) (v : World)
      → Answers i t r
      → ButInbox t v.tables
      → Ensures (Effect hash i t) (rest v)
      → Ensures (Effect hash i t) (or_else r rest v)
  unfolding or_else
  or_else-Effect none rest v a same h = h
  or_else-Effect (some o) rest v (x, known, e) same h =
      Ensures-pure o v (replayed x known e (ground arith) (ground arith))

-- The inbox plays no part in an outcome.
module _ (hash : String) (i : Input) (t : Tables) (inbox : List InboxMessage) (o : Output)
    (t' : Tables) where
  Quiet-before : Quiet (record t { inbox_messages = inbox }) t' → Quiet t t'
  Quiet-before q = record { same_wallets = q.same_wallets; same_entries = q.same_entries }

  Stored-before : Stored hash i (record t { inbox_messages = inbox }) o t' → Stored hash i t o t'
  Stored-before s = record {
    row = s.row;
    stored = s.stored;
    row_id = s.row_id;
    row_status = s.row_status;
    row_money = s.row_money;
    row_key = s.row_key;
    row_hash = s.row_hash;
    is_new = s.is_new;
  }

  Movement-before : Movement i (record t { inbox_messages = inbox }) o t' → Movement i t o t'
  unfolding select_wallet select_by_external
  Movement-before m = record {
    ref = m.ref;
    before = m.before;
    after = m.after;
    entry = m.entry;
    found = m.found;
    justified = m.justified;
    moved = m.moved;
    wallets = m.wallets;
    entries = m.entries;
    entry_wallet = m.entry_wallet;
    entry_transaction = m.entry_transaction;
    entry_amount = m.entry_amount;
    balance = m.balance;
  }

  Effect-before : Effect hash i (record t { inbox_messages = inbox }) o t' → Effect hash i t o t'
  unfolding select_by_key select_by_external
  Effect-before (replayed x known e same q) = replayed x known e same (Quiet-before q)
  Effect-before (recorded s ne q) = recorded (Stored-before s) ne (Quiet-before q)
  Effect-before (idle s e ref j z q) = idle (Stored-before s) e ref j z (Quiet-before q)
  Effect-before (posted s e m) = posted (Stored-before s) e (Movement-before m)

module _ (env : Env) (hash : String) (i : Input) (range : IsInt64 i.money.amount) (v : World)
    (sound : SoundAt i.wallet_id v.tables) where
  new_operation-Effect :
      (u : World)
      → ButInbox v.tables u.tables
      → Ensures (Effect hash i v.tables) (handle_new env hash i u)
  unfolding select_wallet
  new_operation-Effect u same =
      Ensures-weaken _ _
        (handle_new-Effect env hash i range u (λ w found. sound w (rw same at found)))
        λ o t' e.
          Effect-before hash i v.tables u.tables.inbox_messages o t'
            (subst (λ (x : Tables). Effect hash i x o t') same e)

  -- The transaction of Execute, whatever was drawn and whichever statements fail.
  pub execute_tx-Effect : Ensures (Effect hash i v.tables) (execute_tx env hash i v)
  unfolding execute_tx get_by_key get_by_external select_by_key select_by_external
  execute_tx-Effect =
      Ensures-bind _ _ _ _ (register_message-Answers hash i v.tables env v refl) λ seen u (kept, a).
        or_else-Effect hash i v.tables seen _ u a kept (
          Ensures-query _ _ u (
            Ensures-bind _ _ _ _ (check_key-Answers hash i v.tables _ _ (ground arith))
              λ replay u' (kept', b). or_else-Effect hash i v.tables replay _ u' b (ground arith) (
                Ensures-query _ _ u' (
                  Ensures-bind _ _ _ _ (check_external-Answers hash i v.tables _ _ (ground arith))
                    λ answer u'' (kept'', c).
                      or_else-Effect hash i v.tables answer _ u'' c (ground arith)
                        (new_operation-Effect u'' (ground arith))))))
