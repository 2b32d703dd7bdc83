-- ===== src/Usecase/RetryPending/Resolve.antt =====
-- What the steps of processSinglePending do to wallets and ledger.
use go_challenge_fc.Base.{ℕ, ◌≡◌, ◌⊎◌, inl, refl, Bool, true, String, some, ◌∷◌, arith}
use go_challenge_fc.Base.Int.{IsInt64}
use go_challenge_fc.Errs.{Code, Result, ok, err}
use go_challenge_fc.Ledger.{Entry}
use go_challenge_fc.Ledger.Laws.{signed}
use go_challenge_fc.Money.Defs.{Money}
use go_challenge_fc.Store.Ensures.{
  Ensures, Ensures-weaken, Ensures-pure, Ensures-bind, Ensures-lift, Ensures-statement,
  Ensures-uuid, Ensures-time,
}
use go_challenge_fc.Store.Repos.{save_transaction}
use go_challenge_fc.Store.Session.{World, Env, pure, ◌>>◌}
use go_challenge_fc.Store.Tables.Entries.{signed_amount}
use go_challenge_fc.Store.Tables.Laws.{update_transaction_ok}
use go_challenge_fc.Store.Tables.Rows.{Tables, update_where}
use go_challenge_fc.Store.Tables.Transactions.{select_by_external}
use go_challenge_fc.Store.Tables.Wallets.{select_wallet, wallet_has_id, set_wallet}
use go_challenge_fc.Transaction.Defs.{
  Kind, opening, bet, win, loss, refund, rollback, other, WagerTransaction, is_processed,
  direction_for, reversal_direction,
}
use go_challenge_fc.Usecase.Emit.Laws.{emit-ButOutbox}
use go_challenge_fc.Usecase.ProcessWager.Defs.{deref}
use go_challenge_fc.Usecase.ProcessWager.Effect.{Quiet}
use go_challenge_fc.Usecase.ProcessWager.Operate.{effect_of, IfOk}
use go_challenge_fc.Usecase.ProcessWager.Steps.{reverse}
use go_challenge_fc.Usecase.RetryPending.Defs.{reject_pending, put_off, operate_pending}
use go_challenge_fc.Wallet.{Wallet}
use go_challenge_fc.Wallet.Laws.{IsSound, Moved, credit-Moves, debit_for_rollback-Moves}

-- What the switch has done: no direction, or a movement in the direction that the kind means.
abbrev pub Undone : Kind → Kind → Money → Wallet → String × Wallet × Result Money → Type 0
Undone k r m w (direction, w', ok before) =
    (direction ≡ "")
    ⊎ ((signed direction m.amount ≡ effect_of k (some r) m.amount)
        × (before ≡ w.balance)
        × Moved w w' (effect_of k (some r) m.amount))
Undone k r m w (direction, w', err e) = Unit

module _ (now : ℕ) (m : Money) (w : Wallet) (sound : IsSound w) (range : IsInt64 m.amount) where
  pub operate_pending-Undone : (k r : Kind) → IfOk (Undone k r m w) (operate_pending now k r m w)
  unfolding operate_pending reverse direction_for reversal_direction
  operate_pending-Undone refund r = ground (arith, credit-Moves now m w sound range)
  operate_pending-Undone rollback bet = ground (arith, credit-Moves now m w sound range)
  operate_pending-Undone rollback win = ground (arith, debit_for_rollback-Moves now m w sound range)
  operate_pending-Undone rollback refund =
      ground (arith, debit_for_rollback-Moves now m w sound range)
  operate_pending-Undone rollback opening = tt
  operate_pending-Undone rollback loss = tt
  operate_pending-Undone rollback rollback = tt
  operate_pending-Undone rollback (other s) = tt
  operate_pending-Undone opening r = inl refl
  operate_pending-Undone bet r = inl refl
  operate_pending-Undone win r = inl refl
  operate_pending-Undone loss r = inl refl
  operate_pending-Undone (other s) r = inl refl

-- The reference is processed; the wallet has moved by what the operation means, and one entry says
-- so.
pub record Settlement (x : WagerTransaction) (t t' : Tables) : Type 0 where
  pub reference : WagerTransaction
  pub before : Wallet
  pub after : Wallet
  pub entry : Entry
  pub referenced :
      select_by_external (deref x.provider_id) (deref x.reference_external_transaction_id) t
      ≡ some reference
  pub reference_processed : is_processed reference.status ≡ true
  pub found : select_wallet x.wallet_id t ≡ some before
  pub moved : Moved before after (effect_of x.kind (some reference.kind) x.money.amount)
  pub wallets : t'.wallets ≡ update_where (wallet_has_id x.wallet_id) (set_wallet after) t.wallets
  pub entries : t'.wallet_ledger_entries ≡ entry ∷ t.wallet_ledger_entries
  pub entry_wallet : entry.wallet_id ≡ x.wallet_id
  pub entry_transaction : entry.transaction_id ≡ x.id
  pub entry_amount : signed_amount entry ≡ effect_of x.kind (some reference.kind) x.money.amount

-- The outcomes of a retry: no money moves, or the operation is settled and counts as resolved.
abbrev pub Retried : WagerTransaction → Tables → Bool → Tables → Type 0
Retried x t resolved t' = Quiet t t' ⊎ ((resolved ≡ true) × Settlement x t t')

reject_pending-Quiet :
    (env : Env) (x : WagerTransaction) (code : Code) (v : World)
    → Ensures (λ _ t'. Quiet v.tables t') (reject_pending env x code v)
unfolding reject_pending save_transaction
reject_pending-Quiet env x code v = Ensures-time env _ _ (
    Ensures-lift _ _ _ λ x' marked. Ensures-statement _ _ _ λ _ t1 upd.
      Ensures-lift _ _ _ λ c there. Ensures-uuid env _ _ (
        Ensures-time env _ _ (
          Ensures-weaken _ _ (emit-ButOutbox env _ _ _ _ _) λ _ t' f.
            let e1 = update_transaction_ok v.tables x' t1 upd in
            record { same_wallets = ground arith; same_entries = ground arith })))

pub put_off-Quiet :
    (env : Env) (x : WagerTransaction) (v : World)
    → Ensures (λ _ t'. Quiet v.tables t') (put_off env x v)
unfolding put_off save_transaction
put_off-Quiet env x v = Ensures-time env _ _ (
    Ensures-time env _ _ (
      Ensures-lift _ _ _ λ x' marked. Ensures-statement _ _ _ λ _ t1 upd. Ensures-pure _ _ (
        let e1 = update_transaction_ok v.tables x' t1 upd in
        record { same_wallets = ground arith; same_entries = ground arith })))

pub reject_then :
    (env : Env) (x y : WagerTransaction) (code : Code) (b : Bool) (t : Tables) (v : World)
    → v.tables ≡ t
    → Ensures (Retried x t) ((reject_pending env y code >> pure b) v)
reject_then env x y code b t v same =
    Ensures-bind _ _ _ _ (reject_pending-Quiet env y code v)
      λ _ u q. Ensures-pure b u (inl (rw (← same) q))
