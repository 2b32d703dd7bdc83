-- ===== src/Transaction/Lifecycle.antt =====
-- The state machine of a WagerTransaction: the calls that change it as steps.
use go_challenge_fc.Base.{Bool, ℕ, ◌≡◌, refl, String, true, false, arith}
use go_challenge_fc.Errs.{ok}
use go_challenge_fc.Money.Defs.{Money}
use go_challenge_fc.Transaction.Defs.{
  Status, pending, pending_reference, processed, rejected, failed, is_terminal, WagerTransaction,
  mark_processed, mark_rejected, mark_failed, mark_pending_reference, increment_retry,
  resolve_reference,
}

-- One successful call of a method that changes the transaction.
pub data Step : WagerTransaction → WagerTransaction → Type 0 where
  processing :
      {t t' : WagerTransaction} (now : ℕ) (b : Money) → mark_processed now b t ≡ ok t' → Step t t'
  rejecting :
      {t t' : WagerTransaction} (now : ℕ) (c : String) → mark_rejected now c t ≡ ok t' → Step t t'
  failing :
      {t t' : WagerTransaction} (now : ℕ) (c : String) → mark_failed now c t ≡ ok t' → Step t t'
  waiting :
      {t t' : WagerTransaction} (now after : ℕ)
      → mark_pending_reference now after t ≡ ok t'
      → Step t t'
  retrying :
      {t t' : WagerTransaction} (now after : ℕ) → increment_retry now after t ≡ ok t' → Step t t'
  resolving : {t : WagerTransaction} (ref : ℕ) → Step t (resolve_reference ref t)

-- Any number of calls.
pub data Steps : WagerTransaction → WagerTransaction → Type 0 where
  none : {t : WagerTransaction} → Steps t t
  more : {t t' t'' : WagerTransaction} → Step t t' → Steps t' t'' → Steps t t''

-- What a transaction was created with, and must keep.
abbrev pub SameOperation : WagerTransaction → WagerTransaction → Type 0
SameOperation t t' =
    (t'.id ≡ t.id)
    × (t'.wallet_id ≡ t.wallet_id)
    × (t'.kind ≡ t.kind)
    × (t'.money ≡ t.money)
    × (t'.idempotency_key ≡ t.idempotency_key)
    × (t'.payload_hash ≡ t.payload_hash)

-- How a status may change: PENDING to any, PENDING_REFERENCE to any but PENDING, and a terminal one
-- to none.
abbrev pub may_become : Status → Status → Bool
may_become pending s = true
may_become pending_reference pending = false
may_become pending_reference s = true
may_become processed processed = true
may_become processed s = false
may_become rejected rejected = true
may_become rejected s = false
may_become failed failed = true
may_become failed s = false

may_become_refl : (s : Status) → may_become s s ≡ true
may_become_refl pending = refl
may_become_refl pending_reference = refl
may_become_refl processed = refl
may_become_refl rejected = refl
may_become_refl failed = refl

may_become_trans :
    (a b c : Status) → may_become a b ≡ true → may_become b c ≡ true → may_become a c ≡ true
may_become_trans a b c h k = ground arith

-- One call moves a status along the lifecycle only, and keeps the operation.
pub step_lem :
    (t t' : WagerTransaction)
    → Step t t'
    → (may_become t.status t'.status ≡ true) × SameOperation t t'
unfolding mark_processed mark_rejected mark_failed mark_pending_reference increment_retry
    resolve_reference is_terminal
step_lem t t' (processing now b e) = ground arith
step_lem t t' (rejecting now b e) = ground arith
step_lem t t' (failing now b e) = ground arith
step_lem t t' (waiting now b e) = ground arith
step_lem t t' (retrying now b e) = ground arith
step_lem t _ (resolving r) = (may_become_refl t.status, (refl, refl, refl, refl, refl, refl))

-- The statuses that a transaction reaches in any number of calls: a terminal one is never left, and
-- nothing returns to PENDING. The operation that the transaction is about stays the same.
pub Steps-lifecycle :
    (t t' : WagerTransaction)
    → Steps t t'
    → (may_become t.status t'.status ≡ true) × SameOperation t t'
Steps-lifecycle t _ none = (may_become_refl t.status, (refl, refl, refl, refl, refl, refl))
Steps-lifecycle t t' (more {t' = u} s r) =
    ground
      (arith, may_become_trans t.status u.status t'.status, step_lem t u s, Steps-lifecycle u t' r)
