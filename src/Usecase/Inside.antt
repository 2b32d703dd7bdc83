-- ===== src/Usecase/Inside.antt =====
-- The other use cases ask nothing of the queues, and change the tables by the writes of the
-- repositories alone.
use go_challenge_fc.Store.Tables.Keys.{All}
use go_challenge_fc.Store.Tables.Rows.{Tables}
use go_challenge_fc.Base.{ℕ, Bool, true, false, Option, none, some, List, [], ◌∷◌, String}
use go_challenge_fc.Base.Int.{ℤ}
use go_challenge_fc.Errs.{Result, ok, err, Code}
use go_challenge_fc.Money.Defs.{Money}
use go_challenge_fc.Store.Inside.{Inside, Inside-with_tx}
use go_challenge_fc.Store.Repos.{
  create_wallet, create_transaction, create_entry, get_wallet, save_wallet, save_transaction,
  get_by_external, get_pending_references, balance_of_entries,
}
use go_challenge_fc.Store.Session.{World, Env}
use go_challenge_fc.Store.Writes.{Wrote, nothing, Wrote-trans}
use go_challenge_fc.Transaction.Defs.{WagerTransaction}
use go_challenge_fc.Usecase.OpenWallet.{
  OpenInput, announce_opening, post_opening, open_tx, open_wallet,
}
use go_challenge_fc.Usecase.ProcessWager.Inside.{inside, emit-Inside}
use go_challenge_fc.Usecase.Reconcile.{reconcile, reconcile_tx}
use go_challenge_fc.Usecase.RetryPending.Defs.{
  met, later, reject_pending, put_off, complete_pending, settle_pending, reject_resolved,
  apply_pending, judge_reference, resolve_with, pending_tx, process_single_pending, count_resolved,
  process_all, run_batch, execute_batch, max_retries_of,
}
use go_challenge_fc.Wallet.{Wallet}

-- Other sessions only write.
abbrev pub Writes : (Tables → Tables) → Type 0
Writes rival = (t : Tables) → Wrote t (rival t)

pub All-later :
    (P : (Tables → Tables) → Type 0) (rivals : List (Tables → Tables))
    → All P rivals
    → All P (later rivals)
All-later P [] h = tt
All-later P (rival ∷ rivals) h = h.1

pub get_wallet-Inside : (id : ℕ) → Inside (get_wallet id)
unfolding get_wallet
get_wallet-Inside id = search inside depth 12

module _ (env : Env) where
  announce_opening-Inside :
      (i : OpenInput) (w : Wallet) (id : ℕ) → Inside (announce_opening env i w id)
  unfolding announce_opening
  announce_opening-Inside i w id = search (inside, emit-Inside) depth 20

  post_opening-Inside : (i : OpenInput) (w : Wallet) → Inside (post_opening env i w)
  unfolding post_opening create_transaction create_entry
  post_opening-Inside i w = search (inside, announce_opening-Inside) depth 24

  open_tx-Inside : (i : OpenInput) (w : Wallet) → Inside (open_tx env i w)
  unfolding open_tx create_wallet
  open_tx-Inside i w = search (inside, post_opening-Inside) depth 12

  -- OpenWalletUseCase.Execute
  pub open_wallet-Inside : (i : OpenInput) → Inside (open_wallet env i)
  unfolding open_wallet
  open_wallet-Inside i = search (inside, open_tx-Inside) depth 20

  reject_pending-Inside : (x : WagerTransaction) (c : Code) → Inside (reject_pending env x c)
  unfolding reject_pending save_transaction
  reject_pending-Inside x c = search (inside, emit-Inside) depth 20

  reject_resolved-Inside : (x : WagerTransaction) (c : Code) → Inside (reject_resolved env x c)
  unfolding reject_resolved
  reject_resolved-Inside x c = search (inside, reject_pending-Inside)

  put_off-Inside : (x : WagerTransaction) → Inside (put_off env x)
  unfolding put_off save_transaction
  put_off-Inside x = search inside depth 20

  complete_pending-Inside :
      (x : WagerTransaction) (direction : String) (before : Money) (w : Wallet)
      → Inside (complete_pending env x direction before w)
  unfolding complete_pending save_wallet save_transaction create_entry
  complete_pending-Inside x direction before w = search (inside, emit-Inside) depth 30

  settle_pending-Inside :
      (x : WagerTransaction) (direction : String) (w : Wallet) (r : Result Money)
      → Inside (settle_pending env x direction w r)
  unfolding settle_pending
  settle_pending-Inside x direction w (ok before) = complete_pending-Inside x direction before w
  settle_pending-Inside x direction w (err e) = search (inside, reject_pending-Inside)

  apply_pending-Inside : (x r : WagerTransaction) (w : Wallet) → Inside (apply_pending env x r w)
  unfolding apply_pending
  apply_pending-Inside x r w = search (inside, settle_pending-Inside) depth 12

  judge_reference-Inside :
      (x r : WagerTransaction) (w : Wallet) → Inside (judge_reference env x r w)
  unfolding judge_reference
  judge_reference-Inside x r w =
      search (inside, apply_pending-Inside, reject_resolved-Inside) depth 12

  resolve_with-Inside :
      (x : WagerTransaction) (r : Option WagerTransaction) → Inside (resolve_with env x r)
  unfolding resolve_with
  resolve_with-Inside x none = put_off-Inside x
  resolve_with-Inside x (some r) =
      search (inside, get_wallet-Inside, judge_reference-Inside) depth 12

  pending_tx-Inside : (max : ℤ) (x : WagerTransaction) → Inside (pending_tx env max x)
  unfolding pending_tx get_by_external
  pending_tx-Inside max x = search (inside, reject_resolved-Inside, resolve_with-Inside) depth 16

  pub process_single_pending-Inside :
      (max : ℤ) (x : WagerTransaction) → Inside (process_single_pending env max x)
  unfolding process_single_pending
  process_single_pending-Inside max x = Inside-with_tx _ (pending_tx-Inside max x)

  counted-Wrote :
      {t : Tables} (r : Result Bool × World) (n : ℕ)
      → Wrote t r.1.tables
      → Wrote t (count_resolved r n).1.tables
  counted-Wrote (ok true, w) n h = h
  counted-Wrote (ok false, w) n h = h
  counted-Wrote (err e, w) n h = h

  met-Wrote :
      (rivals : List (Tables → Tables)) (w : World)
      → All Writes rivals
      → Wrote w.tables (met rivals w).tables
  met-Wrote [] w others = nothing
  met-Wrote (rival ∷ rivals) w others = others.0 w.tables

  process_all-Wrote :
      (max : ℤ) (rivals : List (Tables → Tables)) (xs : List WagerTransaction) (n : ℕ) (w : World)
      → All Writes rivals
      → Wrote w.tables (process_all env rivals max xs n w).1.tables
  unfolding process_all
  process_all-Wrote max rivals [] n w others = nothing
  process_all-Wrote max rivals (x ∷ xs) n w others = Wrote-trans (met-Wrote rivals w others) (
      Wrote-trans
        (counted-Wrote (process_single_pending env max x (met rivals w)) n
          ((process_single_pending-Inside max x).wrote (met rivals w)))
        (process_all-Wrote max (later rivals) xs _ _ (All-later Writes rivals others)))

  run_batch-Wrote :
      (max : ℤ) (rivals : List (Tables → Tables)) {t : Tables}
      (r : Result (List WagerTransaction) × World)
      → All Writes rivals
      → Wrote t r.1.tables
      → Wrote t (run_batch env rivals max r).1.tables
  run_batch-Wrote max rivals (ok xs, w) others h =
      Wrote-trans h (process_all-Wrote max rivals xs 0 w others)
  run_batch-Wrote max rivals (err e, w) others h = h

  get_pending_references-Inside : (n : ℕ) → Inside (get_pending_references env n)
  unfolding get_pending_references
  get_pending_references-Inside n = search inside depth 12

  -- RetryPendingReferencesUseCase.ExecuteBatch
  pub execute_batch-Wrote :
      (rivals : List (Tables → Tables)) (max : ℤ) (n : ℕ) (w : World)
      → All Writes rivals
      → Wrote w.tables (execute_batch env rivals max n w).1.tables
  unfolding execute_batch
  execute_batch-Wrote rivals max n w others =
      run_batch-Wrote (max_retries_of max) rivals _ others
        ((Inside-with_tx _ (get_pending_references-Inside n)).wrote w)

balance_of_entries-Inside : (id : ℕ) → Inside (balance_of_entries id)
unfolding balance_of_entries
balance_of_entries-Inside id = search inside depth 12

-- ReconcileWalletUseCase.Execute
pub reconcile-Inside : (id : ℕ) → Inside (reconcile id)
unfolding reconcile reconcile_tx
reconcile-Inside id = search (inside, get_wallet-Inside, balance_of_entries-Inside) depth 20
