-- ===== src/Usecase/RetryPending/Settle.antt =====
-- processSinglePending: its outcomes, and the accounting invariant.
use go_challenge_fc.Ledger.{new_entry, check_direction, rehydrate_entry, Entry}
use go_challenge_fc.Base.{
  if◌then◌else◌, ◌≢◌, ℕ, ◌≡◌, inl, inr, refl, Bool, true, false, not, ◌||◌, String, Option, none,
  some, arith, subst,
}
use go_challenge_fc.Usecase.RetryPending.Defs.{
  complete_pending, settle_pending, reject_resolved, apply_pending, judge_reference, resolve_with,
  is_nil, pending_tx, process_single_pending,
}
use go_challenge_fc.Base.Int.{ℤ, ltb_ℤ, IsInt64}
use go_challenge_fc.Errs.{
  Result, ok, err, code_or, insufficient_funds, reference_not_found, reference_not_processable,
}
use go_challenge_fc.Ledger.Laws.{new_entry_ok}
use go_challenge_fc.Money.Defs.{Money, new_from_int64}
use go_challenge_fc.Store.Atomic.{with_tx-keeps}
use go_challenge_fc.Store.Balance.{IsBalanced, movement-IsBalanced}
use go_challenge_fc.Store.Ensures.{
  Ensures, Ensures-if, Ensures-weaken, Ensures-pure, Ensures-bind, Ensures-lift, Ensures-statement,
  Ensures-query, Ensures-uuid, Ensures-time, Ensures-tx, Ensures-ok,
}
use go_challenge_fc.Store.Repos.{get_by_external, save_wallet, save_transaction, create_entry}
use go_challenge_fc.Store.Session.{World, Env, pure, ◌>>=◌}
use go_challenge_fc.Store.Tables.Entries.{scan_entry, signed_amount}
use go_challenge_fc.Store.Tables.Laws.{
  select_wallet-id, update_wallet_ok, update_transaction_ok, insert_entry_ok,
}
use go_challenge_fc.Store.Tables.Rows.{Tables}
use go_challenge_fc.Store.Tables.Transactions.{select_by_external}
use go_challenge_fc.Store.Tables.Wallets.{select_wallet}
use go_challenge_fc.Transaction.Defs.{
  WagerTransaction, is_processed, is_terminal, resolve_reference,
}
use go_challenge_fc.Usecase.Emit.Laws.{emit-ButOutbox}
use go_challenge_fc.Usecase.ProcessWager.Correct.{Quiet-IsBalanced}
use go_challenge_fc.Usecase.ProcessWager.Defs.{deref}
use go_challenge_fc.Usecase.ProcessWager.Operate.{IfOk}
use go_challenge_fc.Usecase.ProcessWager.Outcome.{SoundAt, get_wallet-Found}
use go_challenge_fc.Wallet.{Wallet}
use go_challenge_fc.Wallet.Laws.{IsSound}
use go_challenge_fc.Usecase.RetryPending.Resolve.{
  Undone, operate_pending-Undone, Retried, put_off-Quiet, reject_then,
}

-- ledger.New takes one of the two directions only.
no_direction_entry :
    (id now wallet txn : ℕ) (m before after : Money) (e : Entry)
    → new_entry id now wallet txn "" m before after ≢ ok e
unfolding new_entry check_direction
no_direction_entry id now wallet txn m before after e h = ground arith

module _ (env : Env) (x : WagerTransaction) (range : IsInt64 x.money.amount) (t : Tables) where
  complete_pending-Settled :
      (y r : WagerTransaction) (direction : String) (w w' : Wallet) (before : Money) (v : World)
      → (y.id ≡ x.id) × (y.wallet_id ≡ x.wallet_id) × (y.money ≡ x.money)
      → select_by_external (deref x.provider_id) (deref x.reference_external_transaction_id) t
        ≡ some r
      → is_processed r.status ≡ true
      → select_wallet x.wallet_id t ≡ some w
      → IsSound w
      → Undone x.kind r.kind x.money w (direction, w', ok before)
      → v.tables ≡ t
      → Ensures (Retried x t) (complete_pending env y direction before w' v)
  unfolding complete_pending save_wallet save_transaction create_entry scan_entry signed_amount
      rehydrate_entry new_from_int64
  complete_pending-Settled y r direction w w' before v (same_id, same_wallet, same_money) ref proc
        found sound op same =
      Ensures-time env _ _ (
        Ensures-lift _ _ _ λ y' marked. Ensures-statement _ _ _ λ _ t1 upd.
          Ensures-statement _ _ _ λ _ t2 upd2. Ensures-uuid env _ _ (
            Ensures-time env _ _ (
              Ensures-lift _ _ _ λ e built. Ensures-statement _ _ _ λ _ t3 ins.
                Ensures-lift _ _ _ λ c there. Ensures-uuid env _ _ (
                  Ensures-time env _ _ (
                    Ensures-bind _ _ _ _ (emit-ButOutbox env _ _ _ _ _) λ _ u f.
                      Ensures-pure true u (elim op [
                        | inl none_given ↦
                            ground
                              (arith, no_direction_entry _ _ _ _ _ _ _ e (rw none_given at built))
                        | inr (sign, from, moved) ↦
                            let e1 = update_wallet_ok v.tables w' t1 upd in
                            let e2 = update_transaction_ok t1 y' t2 upd2 in
                            let e3 = insert_entry_ok t2 e t3 ins in
                            let entry_ok =
                              new_entry_ok _ _ _ _ direction y.money before w'.balance
                                (rw same_money range) (rw from sound.in_range) e built in
                            inr (
                              refl,
                              record {
                                reference = r;
                                before = w;
                                after = w';
                                entry = scan_entry e;
                                referenced = ref;
                                reference_processed = proc;
                                found = found;
                                moved = moved;
                                wallets =
                                    ground (
                                      arith,
                                      select_wallet-id x.wallet_id t w found,
                                      moved.same_id,
                                    );
                                entries = ground arith;
                                entry_wallet = rw entry_ok.built same_wallet;
                                entry_transaction = rw entry_ok.built same_id;
                                entry_amount = rw entry_ok.built (rw same_money sign);
                              },
                            )
                      ]))))))

  settle_pending-Settled :
      (y r : WagerTransaction) (direction : String) (w w' : Wallet) (b : Result Money) (v : World)
      → (y.id ≡ x.id) × (y.wallet_id ≡ x.wallet_id) × (y.money ≡ x.money)
      → select_by_external (deref x.provider_id) (deref x.reference_external_transaction_id) t
        ≡ some r
      → is_processed r.status ≡ true
      → select_wallet x.wallet_id t ≡ some w
      → IsSound w
      → IfOk (Undone x.kind r.kind x.money w) (ok (direction, w', b))
      → v.tables ≡ t
      → Ensures (Retried x t) (settle_pending env y direction w' b v)
  unfolding settle_pending
  settle_pending-Settled y r direction w w' (ok before) v is_for ref proc found sound op same =
      complete_pending-Settled y r direction w w' before v is_for ref proc found sound op same
  settle_pending-Settled y r direction w w' (err e) v is_for ref proc found sound op same =
      reject_then env x y (code_or e insufficient_funds) false t v same

  judge_reference-Settled :
      (r : WagerTransaction) (w : Wallet) (v : World)
      → select_by_external (deref x.provider_id) (deref x.reference_external_transaction_id) t
        ≡ some r
      → select_wallet x.wallet_id t ≡ some w
      → IsSound w
      → v.tables ≡ t
      → Ensures (Retried x t) (judge_reference env x r w v)
  unfolding judge_reference apply_pending reject_resolved resolve_reference
  judge_reference-Settled r w v ref found sound same =
      Ensures-if _ _ _ v
        (λ proc. Ensures-time env _ _ (
          Ensures-lift _ _ _ λ done e.
            settle_pending-Settled (resolve_reference r.id x) r done.0 w done.1 done.2 _
              (refl, refl, refl) ref proc found sound
              (subst (IfOk (Undone x.kind r.kind x.money w)) e
                (operate_pending-Undone _ x.money w sound range x.kind r.kind))
              same))
        λ _.
          Ensures-if (is_terminal r.status) (reject_resolved env x reference_not_processable)
            (pure false) v (λ _. reject_then env x x reference_not_processable true t v same)
            λ _.
              Ensures-pure false v
                (inl (rw same (record { same_wallets = refl; same_entries = refl })))

  resolve_with-Settled :
      (r : Option WagerTransaction) (v : World)
      → select_by_external (deref x.provider_id) (deref x.reference_external_transaction_id) t ≡ r
      → SoundAt x.wallet_id t
      → v.tables ≡ t
      → Ensures (Retried x t) (resolve_with env x r v)
  unfolding resolve_with
  resolve_with-Settled none v ref sound same =
      Ensures-weaken _ _ (put_off-Quiet env x v) λ b t' q. inl (rw (← same) q)
  resolve_with-Settled (some r) v ref sound same =
      Ensures-bind _ _ _ _ (get_wallet-Found x.wallet_id v) λ w u (kept, found).
        let at_t : select_wallet x.wallet_id t ≡ some w = rw (← same) found in
        judge_reference-Settled r w u ref at_t (sound w at_t) (ground arith)

  pending_tx-Settled :
      (max : ℤ) (v : World)
      → SoundAt x.wallet_id t
      → v.tables ≡ t
      → Ensures (Retried x t) (pending_tx env max x v)
  unfolding pending_tx reject_resolved get_by_external
  pending_tx-Settled max v sound same =
      Ensures-if (not (ltb_ℤ x.retry_count max)) (reject_resolved env x reference_not_found)
        (if is_nil x.reference_external_transaction_id || is_nil x.provider_id
          then pure false
          else (get_by_external (deref x.provider_id) (deref x.reference_external_transaction_id)
              >>= λ r. resolve_with env x r))
        v (λ _. reject_then env x x reference_not_found true t v same)
        λ _.
          Ensures-if (is_nil x.reference_external_transaction_id || is_nil x.provider_id)
            (pure false)
            (get_by_external (deref x.provider_id) (deref x.reference_external_transaction_id)
              >>= λ r. resolve_with env x r)
            v
            (λ _.
              Ensures-pure false v
                (inl (rw same (record { same_wallets = refl; same_entries = refl }))))
            λ _. Ensures-query _ _ v (resolve_with-Settled _ _ (rw same refl) sound same)

settlement-IsBalanced :
    (x : WagerTransaction) (t : Tables) (b : Bool) (t' : Tables)
    → Retried x t b t'
    → IsBalanced t
    → IsBalanced t'
settlement-IsBalanced x t b t' (inl q) h = Quiet-IsBalanced t t' q h
settlement-IsBalanced x t b t' (inr (_, m)) h =
    movement-IsBalanced x.wallet_id t t' m.before m.after _ m.entry m.found m.moved m.wallets
      m.entries m.entry_wallet m.entry_amount h

module _ (env : Env) (max : ℤ) (x : WagerTransaction) (w : World) (range : IsInt64 x.money.amount)
    (h : IsBalanced w.tables) where
  retry-Ensures : Ensures (Retried x w.tables) (process_single_pending env max x w)
  unfolding process_single_pending
  retry-Ensures =
      Ensures-tx _ w
        λ v same. pending_tx-Settled env x range w.tables max v (h.sound x.wallet_id) same

  -- From tables where no wallet is in debt and every ledger adds up, for an int64 amount: if a
  -- retry of a waiting transaction returns no error, then either no balance and no ledger entry has
  -- changed, or it counts as resolved, its reference is stored as processed, and the wallet has
  -- moved by what the operation means, with one ledger entry that says so.
  pub retry-Retried :
      (resolved : Bool) (w' : World)
      → process_single_pending env max x w ≡ (ok resolved, w')
      → Retried x w.tables resolved w'.tables
  retry-Retried resolved w' e = Ensures-ok _ retry-Ensures e

  -- From tables where it is so, a retry of a transaction with an int64 amount keeps every ledger
  -- adding up to its wallet's balance and no wallet in debt, whatever its result and the requests
  -- that the database fails.
  pub retry-IsBalanced : IsBalanced (process_single_pending env max x w).1.tables
  unfolding process_single_pending
  retry-IsBalanced =
      with_tx-keeps IsBalanced (pending_tx env max x) w h
        (Ensures-weaken _ _ retry-Ensures λ b t' r. settlement-IsBalanced x w.tables b t' r h)
