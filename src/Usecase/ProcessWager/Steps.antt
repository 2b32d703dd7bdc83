-- ===== src/Usecase/ProcessWager/Steps.antt =====
-- The steps of ProcessWagerUseCase.Execute that act inside the transaction, once the operation is
-- known to be new. A value that the source draws in one branch may be drawn before the branch.
use go_challenge_fc.Base.{
  ℕ, Bool, true, false, not, String, Option, none, some, str_eq, ◌==◌, if◌then◌else◌,
}
use go_challenge_fc.Errs.{
  Code, code_text, code_or, Error, Result, ok, err, domain, invalid_input, currency_mismatch,
  insufficient_funds,
}
use go_challenge_fc.Errs
use go_challenge_fc.Ledger.{direction_debit, direction_credit, new_entry}
use go_challenge_fc.Messages.Events.{
  new_processed, new_rejected, new_balance_changed, new_pending_reference,
}
use go_challenge_fc.Money.Defs.{Money, zero_money}
use go_challenge_fc.Store.Repos.{
  get_wallet, save_wallet, create_transaction, get_by_external, create_entry,
}
use go_challenge_fc.Store.Session.{M, Env, lift, pure, raise, new_uuid, time_now, ◌>>=◌, ◌>>◌}
use go_challenge_fc.Transaction.Defs.{
  Status, Kind, opening, bet, win, loss, refund, rollback, other, kind_text, requires_reference,
  WagerTransaction, new_external, mark_processed, mark_rejected, mark_pending_reference,
  resolve_reference, direction_for, processed, rejected, pending_reference,
}
use go_challenge_fc.Usecase.Emit.{emit}
use go_challenge_fc.Usecase.ProcessWager.Defs.{
  Input, Output, deref, validate_reference, external_of, moves_money,
}
use go_challenge_fc.Wallet.{Wallet, debit, debit_for_rollback, credit}

-- `if test { return err }` in a transaction
unfoldable pub raise_if : Bool → Error → M (Unit {0})
raise_if true e = raise e
raise_if false e = pure tt

-- An early `return nil` with its output, or what follows.
unfoldable pub or_else : Option Output → M Output → M Output
or_else (some o) rest = pure o
or_else none rest = rest

unfoldable pub when : Bool → M (Unit {0}) → M (Unit {0})
when true m = m
when false m = pure tt

-- uc.rejectTransaction
unfoldable pub reject_transaction : Env → WagerTransaction → Input → String → M (Unit {0})
reject_transaction env txn i code = do
  now ← time_now env
  txn' ← lift (mark_rejected now code txn)
  create_transaction txn'
  id ← new_uuid env
  at ← time_now env
  emit env
      (new_rejected id at txn.id i.wallet_id i.player_id (some i.provider_id)
        (some i.external_transaction_id) (kind_text i.kind) code i.correlation_id none)
      txn.id "WagerTransaction" (some i.correlation_id)

-- The output of a new operation.
abbrev pub new_output : ℕ → Status → Money → Option String → Output
new_output id status balance code = record {
  transaction_id = id;
  status = status;
  balance = balance;
  idempotent_replay = false;
  failure_code = code;
}

-- A rejection by a business rule: it is stored, and is no error.
unfoldable pub reject_with : Env → WagerTransaction → Wallet → Input → Code → M Output
reject_with env txn w i code = do
  reject_transaction env txn i (code_text code)
  pure (new_output txn.id rejected w.balance (some (code_text code)))

-- `if refTxn == nil`: the reversal waits for its reference.
unfoldable pub park : Env → WagerTransaction → Wallet → Input → M Output
park env txn w i = do
  after ← time_now env
  now ← time_now env
  txn' ← lift (mark_pending_reference now after txn)
  create_transaction txn'
  id ← new_uuid env
  at ← time_now env
  emit env
      (new_pending_reference id at txn.id i.wallet_id i.player_id i.provider_id
        i.external_transaction_id (kind_text i.kind) (deref i.reference_external_transaction_id)
        txn'.retry_count i.correlation_id none)
      txn.id "WagerTransaction" (some i.correlation_id)
  pure (new_output txn.id pending_reference w.balance none)

abbrev pub kind_of : Option WagerTransaction → Option Kind
kind_of none = none
kind_of (some r) = some r.kind

-- The `if dirStr == DEBIT` of a rollback.
unfoldable pub reverse : ℕ → String → Money → Wallet → Wallet × Result Money
reverse now direction m w =
    if str_eq direction direction_debit then debit_for_rollback now m w else credit now m w

-- The `switch input.Kind`: dirStr, the wallet after it, and the balance before or opErr.
unfoldable pub operate :
    ℕ → Kind → Option Kind → Money → Wallet → Result (String × Wallet × Result Money)
operate now bet r m w = let (w', before) = debit now m w in ok (direction_debit, w', before)
operate now win r m w = let (w', before) = credit now m w in ok (direction_credit, w', before)
operate now refund r m w = let (w', before) = credit now m w in ok (direction_credit, w', before)
operate now rollback r m w =
    Errs.◌>>=◌ (direction_for rollback r)
      λ direction. let (w', before) = reverse now direction m w in ok (direction, w', before)
operate now loss r m w = ok ("", w, ok (zero_money ""))
operate now opening r m w = ok ("", w, ok (zero_money ""))
operate now (other s) r m w = ok ("", w, ok (zero_money ""))

-- `if dirStr != ""`: the wallet, its ledger entry and the event about its balance.
unfoldable pub post_movement : Env → ℕ → Input → String → Money → Wallet → M (Unit {0})
post_movement env txn_id i direction before w = do
  save_wallet w
  entry_id ← new_uuid env
  now ← time_now env
  entry ← lift (new_entry entry_id now i.wallet_id txn_id direction i.money before w.balance)
  create_entry entry
  id ← new_uuid env
  at ← time_now env
  emit env
      (new_balance_changed id at i.wallet_id txn_id direction i.money before w.balance w.version
        i.correlation_id none)
      i.wallet_id "Wallet" (some i.correlation_id)

-- The event about a processed transaction, and the output.
unfoldable pub announce : Env → ℕ → Input → Wallet → M Output
announce env txn_id i w = do
  id ← new_uuid env
  at ← time_now env
  emit env
      (new_processed id at txn_id i.wallet_id i.player_id (some i.provider_id)
        (some i.external_transaction_id) (kind_text i.kind) i.money w.balance i.correlation_id none)
      txn_id "WagerTransaction" (some i.correlation_id)
  pure (new_output txn_id processed w.balance none)

-- From `txn.MarkProcessed` to the end.
unfoldable pub complete : Env → WagerTransaction → Input → String → Money → Wallet → M Output
complete env txn i direction before w = do
  now ← time_now env
  txn' ← lift (mark_processed now w.balance txn)
  create_transaction txn'
  when (moves_money direction) (post_movement env txn.id i direction before w)
  announce env txn.id i w

-- `if opErr != nil`
unfoldable pub settle_operation :
    Env → WagerTransaction → Input → String → Wallet → Result Money → M Output
settle_operation env txn i direction w (ok before) = complete env txn i direction before w
settle_operation env txn i direction w (err e) =
    reject_with env txn w i (code_or e insufficient_funds)

-- From the declaration of balanceBefore on.
unfoldable pub apply_operation :
    Env → WagerTransaction → Option WagerTransaction → Wallet → Input → M Output
apply_operation env txn r w i = do
  now ← time_now env
  done ← lift (operate now i.kind (kind_of r) i.money w)
  settle_operation env txn i done.0 done.1 done.2

-- The reference is there: it is checked and resolved.
unfoldable pub apply_reference :
    Env → WagerTransaction → WagerTransaction → Wallet → Input → Option Code → M Output
apply_reference env txn r w i (some code) = reject_with env txn w i code
apply_reference env txn r w i none = apply_operation env (resolve_reference r.id txn) (some r) w i

unfoldable pub with_reference :
    Env → WagerTransaction → Wallet → Input → Option WagerTransaction → M Output
with_reference env txn w i none = park env txn w i
with_reference env txn w i (some r) = apply_reference env txn r w i (validate_reference r i)

-- `if input.Kind.RequiresReference()`
unfoldable pub dispatch : Env → WagerTransaction → Wallet → Input → M Output
dispatch env txn w i =
    if requires_reference i.kind
    then (get_by_external i.provider_id (deref i.reference_external_transaction_id) >>= λ r.
        with_reference env txn w i r)
    else apply_operation env txn none w i

-- From the lock on the wallet on.
unfoldable pub handle_new : Env → String → Input → M Output
handle_new env hash i = do
  w ← get_wallet i.wallet_id
  raise_if (not (w.player_id == i.player_id)) (domain invalid_input)
  raise_if (not (str_eq w.currency i.money.currency)) (domain currency_mismatch)
  id ← new_uuid env
  now ← time_now env
  txn ← lift (new_external now (external_of id hash i))
  dispatch env txn w i
