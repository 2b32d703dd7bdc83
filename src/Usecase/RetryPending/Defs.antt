-- ===== src/Usecase/RetryPending/Defs.antt =====
-- RetryPendingReferencesUseCase: the steps of processSinglePending, and the batch.
use go_challenge_fc.Store.Tables.Rows.{Tables}
use go_challenge_fc.Base.{
  ℕ, suc, ◌*◌, Bool, true, false, not, ◌||◌, String, Option, none, some, List, [], ◌∷◌,
  if◌then◌else◌,
}
use go_challenge_fc.Base.Int.{ℤ, pos, pos_part, ltb_ℤ, wrap64}
use go_challenge_fc.Base.Time.{second, times, shift_left, after_delay}
use go_challenge_fc.Errs
use go_challenge_fc.Errs.{
  Result, ok, err, plain, nil_pointer, code_text, code_or, Code, insufficient_funds,
  reference_not_found, reference_not_processable,
}
use go_challenge_fc.Ledger.{direction_credit, new_entry}
use go_challenge_fc.Messages.Events.{new_rejected, new_processed}
use go_challenge_fc.Money.Defs.{Money, zero_money}
use go_challenge_fc.Store.Repos.{
  get_wallet, save_wallet, save_transaction, get_by_external, create_entry, get_pending_references,
}
use go_challenge_fc.Store.Session.{
  World, M, Env, lift, pure, new_uuid, time_now, with_tx, ◌>>=◌, ◌>>◌,
}
use go_challenge_fc.Transaction.Defs.{
  Kind, refund, rollback, kind_text, WagerTransaction, is_terminal, is_processed, mark_processed,
  mark_rejected, increment_retry, resolve_reference, direction_for,
}
use go_challenge_fc.Usecase.Emit.{emit}
use go_challenge_fc.Usecase.ProcessWager.Defs.{deref}
use go_challenge_fc.Usecase.ProcessWager.Steps.{reverse}
use go_challenge_fc.Wallet.{Wallet, credit}

-- maxRetries of the constructor
unfoldable pub max_retries_of : ℤ → ℤ
max_retries_of n = if ltb_ℤ (pos 0) n then n else pos 10

-- `*txn.CorrelationID()`. The panic for a nil one ends the process, and the transaction with it;
-- here it is an error, which ends the transaction alone.
abbrev pub correlation_or_panic : Option ℕ → Result ℕ
correlation_or_panic none = err (plain nil_pointer)
correlation_or_panic (some c) = ok c

abbrev pub correlation : WagerTransaction → Result ℕ
correlation x = correlation_or_panic x.correlation_id

-- nextDelay, which wraps around as an int64.
unfoldable pub next_delay : ℕ → ℤ
unfolding shift_left
next_delay n =
    let delay = wrap64 (times (shift_left n) second) in
    if ltb_ℤ (pos (60 * second)) delay then pos (60 * second) else delay

-- MarkRejected, Update and the event, as at each rejection.
unfoldable pub reject_pending : Env → WagerTransaction → Code → M (Unit {0})
reject_pending env x code = do
  now ← time_now env
  x' ← lift (mark_rejected now (code_text code) x)
  save_transaction x'
  c ← lift (correlation x)
  id ← new_uuid env
  at ← time_now env
  emit env
      (new_rejected id at x.id x.wallet_id x.player_id x.provider_id x.external_transaction_id
        (kind_text x.kind) (code_text code) c none)
      x.id "WagerTransaction" x.correlation_id

-- The reference is still missing: the next attempt is put off.
unfoldable pub put_off : Env → WagerTransaction → M Bool
put_off env x = do
  base ← time_now env
  now ← time_now env
  x' ← lift (increment_retry now (after_delay base (next_delay (pos_part x.retry_count))) x)
  save_transaction x'
  pure false

-- The `switch txn.Kind()`: dirStr, the wallet after it, and the balance before or opErr.
unfoldable pub operate_pending :
    ℕ → Kind → Kind → Money → Wallet → Result (String × Wallet × Result Money)
operate_pending now refund r m w =
    let (w', before) = credit now m w in ok (direction_credit, w', before)
operate_pending now rollback r m w =
    Errs.◌>>=◌ (direction_for rollback (some r))
      λ direction. let (w', before) = reverse now direction m w in ok (direction, w', before)
operate_pending now _ r m w = ok ("", w, ok (zero_money ""))

-- From `txn.MarkProcessed` to the end.
unfoldable pub complete_pending : Env → WagerTransaction → String → Money → Wallet → M Bool
complete_pending env x direction before w = do
  now ← time_now env
  x' ← lift (mark_processed now w.balance x)
  save_wallet w
  save_transaction x'
  entry_id ← new_uuid env
  made ← time_now env
  entry ← lift (new_entry entry_id made x.wallet_id x.id direction x.money before w.balance)
  create_entry entry
  c ← lift (correlation x)
  id ← new_uuid env
  at ← time_now env
  emit env
      (new_processed id at x.id x.wallet_id x.player_id x.provider_id x.external_transaction_id
        (kind_text x.kind) x.money w.balance c none)
      x.id "WagerTransaction" x.correlation_id
  pure true

-- `if opErr != nil`; a rejection here leaves `resolved` false.
unfoldable pub settle_pending : Env → WagerTransaction → String → Wallet → Result Money → M Bool
settle_pending env x direction w (ok before) = complete_pending env x direction before w
settle_pending env x direction w (err e) =
    reject_pending env x (code_or e insufficient_funds) >> pure false

unfoldable pub reject_resolved : Env → WagerTransaction → Code → M Bool
reject_resolved env x code = reject_pending env x code >> pure true

-- The reference is processed.
unfoldable pub apply_pending : Env → WagerTransaction → WagerTransaction → Wallet → M Bool
apply_pending env x r w = do
  now ← time_now env
  done ← lift (operate_pending now x.kind r.kind x.money w)
  settle_pending env (resolve_reference r.id x) done.0 done.1 done.2

-- The reference is there; the wallet is locked.
unfoldable pub judge_reference : Env → WagerTransaction → WagerTransaction → Wallet → M Bool
judge_reference env x r w =
    if is_processed r.status
    then apply_pending env x r w
    else if is_terminal r.status
    then reject_resolved env x reference_not_processable
    else pure false

unfoldable pub resolve_with : Env → WagerTransaction → Option WagerTransaction → M Bool
resolve_with env x none = put_off env x
resolve_with env x (some r) = get_wallet x.wallet_id >>= λ w. judge_reference env x r w

abbrev pub is_nil : Option String → Bool
is_nil none = true
is_nil (some s) = false

-- The function that processSinglePending hands to WithTx. `resolved` is its result.
unfoldable pub pending_tx : Env → ℤ → WagerTransaction → M Bool
pending_tx env max x =
    if not (ltb_ℤ x.retry_count max)
    then reject_resolved env x reference_not_found
    else if is_nil x.reference_external_transaction_id || is_nil x.provider_id
    then pure false
    else (get_by_external (deref x.provider_id) (deref x.reference_external_transaction_id) >>= λ r.
        resolve_with env x r)

unfoldable pub process_single_pending : Env → ℤ → WagerTransaction → M Bool
process_single_pending env max x = with_tx (pending_tx env max x)

-- `if err == nil && resolved { resolvedCount++ }`
abbrev pub count_resolved : Result Bool × World → ℕ → ℕ × World
count_resolved (ok true, w) n = (suc n, w)
count_resolved (ok false, w) n = (n, w)
count_resolved (err e, w) n = (n, w)

-- What other sessions commit before the next transaction of a batch, and before those after it.
abbrev pub met : List (Tables → Tables) → World → World
met [] w = w
met (rival ∷ rivals) w = record w { tables = rival w.tables }

abbrev pub later : List (Tables → Tables) → List (Tables → Tables)
later [] = []
later (rival ∷ rivals) = rivals

-- The loop over the batch, each transaction as it was read.
unfoldable pub process_all :
    Env → List (Tables → Tables) → ℤ → List WagerTransaction → ℕ → World → ℕ × World
process_all env rivals max [] n w = (n, w)
process_all env rivals max (x ∷ xs) n w =
    let (n', w') = count_resolved (process_single_pending env max x (met rivals w)) n in
    process_all env (later rivals) max xs n' w'

abbrev pub run_batch :
    Env → List (Tables → Tables) → ℤ → Result (List WagerTransaction) × World → Result ℕ × World
run_batch env rivals max (ok xs, w) = let (n, w') = process_all env rivals max xs 0 w in (ok n, w')
run_batch env rivals max (err e, w) = (err e, w)

-- RetryPendingReferencesUseCase.ExecuteBatch
unfoldable pub execute_batch : Env → List (Tables → Tables) → ℤ → ℕ → M ℕ
execute_batch env rivals max size w =
    run_batch env rivals (max_retries_of max) (with_tx (get_pending_references env size) w)
