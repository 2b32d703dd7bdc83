-- ===== src/Usecase/ProcessWager/Refines.antt =====
-- The steps of Execute on a new operation have one of the outcomes of `Effect`.
use go_challenge_fc.Money.Defs.{Money}
use go_challenge_fc.Base.{◌∷◌, false, ℕ, ◌≡◌, refl, String, none, some, arith}
use go_challenge_fc.Errs.{Code, code_text, ok}
use go_challenge_fc.Store.Ensures.{
  Ensures-weaken, Ensures, Ensures-pure, Ensures-bind, Ensures-lift, Ensures-statement,
  Ensures-uuid, Ensures-time,
}
use go_challenge_fc.Store.Repos.{create_transaction}
use go_challenge_fc.Store.Session.{World, Env}
use go_challenge_fc.Store.Tables.Laws.{insert_transaction_ok}
use go_challenge_fc.Store.Tables.Rows.{Tables}
use go_challenge_fc.Transaction.Defs.{
  WagerTransaction, Status, processed, rejected, pending_reference, mark_rejected,
  mark_pending_reference, mark_processed,
}
use go_challenge_fc.Usecase.Emit.Laws.{emit-ButOutbox, ButOutbox}
use go_challenge_fc.Usecase.ProcessWager.Defs.{Input, Output}
use go_challenge_fc.Usecase.ProcessWager.Effect.{Quiet, Stored, Effect, recorded}
use go_challenge_fc.Usecase.ProcessWager.Steps.{new_output, reject_transaction, reject_with, park}
use go_challenge_fc.Wallet.{Wallet}

-- The transaction carries the data of the input.
pub record IsFor (hash : String) (i : Input) (x : WagerTransaction) : Type 0 where
  pub money : x.money ≡ i.money
  pub key : x.idempotency_key ≡ some i.idempotency_key
  pub payload : x.payload_hash ≡ some hash

-- `y` is `x` in the status `s`.
pub record Marked (x : WagerTransaction) (s : Status) (y : WagerTransaction) : Type 0 where
  pub same_id : y.id ≡ x.id
  pub status : y.status ≡ s
  pub same_money : y.money ≡ x.money
  pub same_key : y.idempotency_key ≡ x.idempotency_key
  pub same_payload : y.payload_hash ≡ x.payload_hash

mark_rejected-Marked :
    (now : ℕ) (code : String) (x y : WagerTransaction)
    → mark_rejected now code x ≡ ok y
    → Marked x rejected y
unfolding mark_rejected
mark_rejected-Marked now code x y h = ground arith

mark_pending_reference-Marked :
    (now after : ℕ) (x y : WagerTransaction)
    → mark_pending_reference now after x ≡ ok y
    → Marked x pending_reference y
unfolding mark_pending_reference
mark_pending_reference-Marked now after x y h = ground arith

pub mark_processed-Marked :
    (now : ℕ) (b : Money) (x y : WagerTransaction)
    → mark_processed now b x ≡ ok y
    → Marked x processed y
unfolding mark_processed
mark_processed-Marked now b x y h = ground arith

-- The output of a new operation in the status `s`.
abbrev pub OutputFor : WagerTransaction → Status → Output → Type 0
OutputFor x s o = (o.transaction_id ≡ x.id) × (o.status ≡ s) × (o.idempotent_replay ≡ false)

module _ (hash : String) (i : Input) (x y : WagerTransaction) (is_for : IsFor hash i x) (s : Status)
    (marked : Marked x s y) where
  pub Stored-new :
      (t t' : Tables) (o : Output)
      → OutputFor x s o
      → t'.wager_transactions ≡ y ∷ t.wager_transactions
      → Stored hash i t o t'
  Stored-new t t' o h e = record {
    row = y;
    stored = e;
    row_id = ground arith;
    row_status = ground arith;
    row_money = ground arith;
    row_key = ground arith;
    row_hash = ground arith;
    is_new = ground arith;
  }

  -- A row that is inserted, and an event.
  pub Stored-row :
      (t t' t'' : Tables) (o : Output)
      → OutputFor x s o
      → t' ≡ record t { wager_transactions = y ∷ t.wager_transactions }
      → ButOutbox t' t''
      → Stored hash i t o t'' × Quiet t t''
  Stored-row t t' t'' o h e f = (Stored-new t t'' o h (ground arith), ground arith)

module _ (env : Env) (hash : String) (i : Input) (x : WagerTransaction) (is_for : IsFor hash i x)
    (wallet : Wallet) where
  reject_transaction-Stored :
      (code : String) (o : Output) (v : World)
      → OutputFor x rejected o
      → Ensures
          (λ _ t'. Stored hash i v.tables o t' × Quiet v.tables t')
          (reject_transaction env x i code v)
  unfolding reject_transaction create_transaction
  reject_transaction-Stored code o v h = Ensures-time env _ _ (
      Ensures-lift _ _ _ λ y e. Ensures-statement _ _ _ λ _ t ins. Ensures-uuid env _ _ (
        Ensures-time env _ _ (
          Ensures-weaken _ _ (emit-ButOutbox env _ _ _ _ _) λ _ t' f.
            Stored-row hash i x y is_for rejected (mark_rejected-Marked _ _ x y e) v.tables t t' o h
              (insert_transaction_ok v.tables y t ins) f)))

  pub reject_with-Effect :
      (code : Code) (v : World)
      → Ensures (Effect hash i v.tables) (reject_with env x wallet i code v)
  unfolding reject_with
  reject_with-Effect code v =
      Ensures-bind _ _ _ _
        (reject_transaction-Stored (code_text code)
          (new_output x.id rejected wallet.balance (some (code_text code))) v (refl, refl, refl))
        λ _ u q. Ensures-pure _ _ (recorded q.0 (λ p. cc p) q.1)

  pub park-Effect : (v : World) → Ensures (Effect hash i v.tables) (park env x wallet i v)
  unfolding park create_transaction
  park-Effect v = Ensures-time env _ _ (
      Ensures-time env _ _ (
        Ensures-lift _ _ _ λ y e. Ensures-statement _ _ _ λ _ t ins. Ensures-uuid env _ _ (
          Ensures-time env _ _ (
            Ensures-bind _ _ _ _ (emit-ButOutbox env _ _ _ _ _) λ _ u f.
              let q =
                Stored-row hash i x y is_for pending_reference
                  (mark_pending_reference-Marked _ _ x y e) v.tables t u.tables
                  (new_output x.id pending_reference wallet.balance none) (refl, refl, refl)
                  (insert_transaction_ok v.tables y t ins) f in
              Ensures-pure _ _ (recorded q.0 (λ p. cc p) q.1)))))
