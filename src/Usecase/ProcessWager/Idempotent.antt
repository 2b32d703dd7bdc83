-- ===== src/Usecase/ProcessWager/Idempotent.antt =====
-- A repeated request: what Execute answers from a stored transaction.
use go_challenge_fc.Money.Defs.{Money}
use go_challenge_fc.Base.{
  none, ◌⊎◌, Option, List, eq_iff, ◌≡◌, refl, inl, inr, true, false, [], ◌∷◌, some, arith, String,
  str_eq,
}
use go_challenge_fc.Base.Int.{IsInt64}
use go_challenge_fc.Errs.{ok, err, domain, payload_conflict, is_code, code_text}
use go_challenge_fc.Store.Repos.{get_by_key}
use go_challenge_fc.Store.Session.{
  World, Env, ◌>>=◌, pure, raise, query, statement, finish, with_tx,
}
use go_challenge_fc.Store.Tables.Rows.{Tables, find}
use go_challenge_fc.Store.Tables.Transactions.{select_by_key, transaction_has_key}
use go_challenge_fc.Transaction.Defs.{WagerTransaction, is_opening}
use go_challenge_fc.Usecase.ProcessWager.Correct.{execute-Done}
use go_challenge_fc.Usecase.ProcessWager.Defs.{
  replay_balance, Input, Output, payload_hash, differs_from, build_replay_output,
}
use go_challenge_fc.Usecase.ProcessWager.Effect.{Stored, Effect, replayed, recorded, idle, posted}
use go_challenge_fc.Usecase.ProcessWager.Execute.{
  register_message, replay_or_conflict, check_key, execute_tx, after_tx, execute,
}
use go_challenge_fc.Usecase.ProcessWager.Outcome.{SoundAt}
use go_challenge_fc.Usecase.ProcessWager.Steps.{raise_if, or_else}

-- What an answer tells of a stored transaction.
pub record Recalls (x : WagerTransaction) (o : Output) : Type 0 where
  pub transaction_id : o.transaction_id ≡ x.id
  pub status : o.status ≡ x.status
  pub failure_code : o.failure_code ≡ x.failure_code
  pub is_replay : o.idempotent_replay ≡ true
  pub balance :
      ((b : Money) × (x.result_balance ≡ some b) × (o.balance ≡ b))
      ⊎ ((x.result_balance ≡ none) × (o.balance ≡ x.money))

recalled_balance :
    (x : WagerTransaction) (r : Option Money)
    → ((b : Money) × (r ≡ some b) × (replay_balance x r ≡ b))
      ⊎ ((r ≡ none) × (replay_balance x r ≡ x.money))
recalled_balance x none = inr (refl, refl)
recalled_balance x (some b) = inl (b, refl, refl)

module _ (env : Env) (rival : Tables → Tables) (i : Input) (w : World) (up : w.faults ≡ [])
    (external : is_opening i.kind ≡ false) (no_message : str_eq i.source "SQS" ≡ false)
    (x : WagerTransaction) (keyed : select_by_key i.idempotency_key w.tables ≡ some x) where
  -- The first transaction answers.
  execute_replays :
      differs_from x.payload_hash (payload_hash env i) ≡ false
      → execute env rival i w ≡ (ok (build_replay_output x), record w { aborted = false })
  unfolding execute execute_tx register_message get_by_key check_key replay_or_conflict raise_if
      or_else ◌>>=◌ pure raise query statement finish with_tx after_tx
  execute_replays same = rw (external, up, no_message, keyed, same) refl

  -- With a database that answers, a request that is no queue message and whose key and payload are
  -- stored is answered, as a replay, with the identifier, the status and the failure code that are
  -- stored, and with the balance that was stored with them, or the amount of the operation if none
  -- was; and it changes no table.
  pub execute_replays-Recalls :
      differs_from x.payload_hash (payload_hash env i) ≡ false
      → (o : Output) × (execute env rival i w ≡ (ok o, record w { aborted = false })) × Recalls x o
  unfolding build_replay_output
  execute_replays-Recalls same = (
    build_replay_output x,
    execute_replays same,
    record {
      transaction_id = refl;
      status = refl;
      failure_code = refl;
      is_replay = refl;
      balance = recalled_balance x x.result_balance;
    },
  )

  -- With a database that answers, a request that is no queue message and whose key is stored with
  -- another payload gets the error PAYLOAD_CONFLICT, and changes no table.
  pub execute_conflicts :
      differs_from x.payload_hash (payload_hash env i) ≡ true
      → execute env rival i w ≡ (err (domain payload_conflict), record w { aborted = false })
  unfolding execute execute_tx register_message get_by_key check_key replay_or_conflict raise_if
      or_else ◌>>=◌ pure raise query statement finish with_tx after_tx is_code code_text
  execute_conflicts other = rw (external, up, no_message, keyed, other) refl

first_found :
    (key : String) (x : WagerTransaction) (xs : List WagerTransaction)
    → x.idempotency_key ≡ some key
    → find (transaction_has_key key) (x ∷ xs) ≡ some x
unfolding find
first_found key x xs h =
    let same : str_eq key key ≡ true = (eq_iff key key).1 refl in
    let has_key : transaction_has_key key x ≡ true = rw h same in rw has_key refl

-- A row that goes in under a key is found by it.
Stored-found :
    (hash : String) (i : Input) (t : Tables) (o : Output) (t' : Tables) (s : Stored hash i t o t')
    → (select_by_key i.idempotency_key t' ≡ some s.row)
      × (differs_from s.row.payload_hash hash ≡ false)
unfolding select_by_key find
Stored-found hash i t o t' s = (
  rw s.stored (first_found i.idempotency_key s.row t.wager_transactions s.row_key),
  rw (s.row_hash, (eq_iff hash hash).1 refl) refl,
)

-- A new outcome has stored its transaction.
new-Stored :
    (hash : String) (i : Input) (t : Tables) (o : Output) (t' : Tables)
    → Effect hash i t o t'
    → o.idempotent_replay ≡ false
    → Stored hash i t o t'
unfolding build_replay_output
new-Stored hash i t o t' (replayed x k e s q) new = ground (arith, e, new)
new-Stored hash i t o t' (recorded s ne q) new = s
new-Stored hash i t o t' (idle s e r j z q) new = s
new-Stored hash i t o t' (posted s e m) new = s

-- What the answer to a repeated request shares with the first answer.
pub record Repeats (o o' : Output) : Type 0 where
  pub same_transaction : o'.transaction_id ≡ o.transaction_id
  pub same_status : o'.status ≡ o.status
  pub is_replay : o'.idempotent_replay ≡ true

module _ (env : Env) (rival rival' : Tables → Tables) (i : Input) (w w' : World) (o : Output)
    (range : IsInt64 i.money.amount) (sound : SoundAt i.wallet_id w.tables)
    (external : is_opening i.kind ≡ false) (no_message : str_eq i.source "SQS" ≡ false)
    (first : execute env rival i w ≡ (ok o, w')) (new : o.idempotent_replay ≡ false)
    (up : w'.faults ≡ []) where
  -- A request for an int64 amount, on a wallet that is not in debt, that is no queue message and
  -- was processed as new, sent again to a database that answers, is answered with the same
  -- transaction and status, marked as a replay, and changes no table.
  pub execute_idempotent :
      (o' : Output) × (execute env rival' i w' ≡ (ok o', record w' { aborted = false }))
      × Repeats o o'
  unfolding build_replay_output
  execute_idempotent = elim (execute-Done env rival i w o w' range sound first) [
    | inl e ↦
        let s = new-Stored _ i w.tables o w'.tables e new in
        let (keyed, same) = Stored-found _ i w.tables o w'.tables s in
        (
          build_replay_output s.row,
          execute_replays env rival' i w' up external no_message s.row keyed same,
          record { same_transaction = s.row_id; same_status = s.row_status; is_replay = refl },
        )
    | inr (same, x, known, e) ↦ ground (arith, e, new)
  ]
