-- ===== src/System/Balanced.antt =====
-- The accounting, over any history of the program.
use go_challenge_fc.Usecase.Inside.{process_single_pending-Inside}
use go_challenge_fc.Store.Writes.{same_tables}
use go_challenge_fc.Worker.Outbox.Writes.{process_batch_quiet}
use go_challenge_fc.Base.{
  ◌+◌, ◌∙◌, ℕ, zero, suc, ◌≡◌, refl, Bool, List, [], ◌∷◌, Bool-cases, inl, inr, subst,
}
use go_challenge_fc.Base.Int.{ℤ, IsInt64}
use go_challenge_fc.Errs.{Result, ok, err}
use go_challenge_fc.Http.Router.Served.{serve-IsBalanced}
use go_challenge_fc.Store.Balance.{IsBalanced}
use go_challenge_fc.Store.Ensures.{Ensures, Ensures-tx, Ensures-time, Ensures-last}
use go_challenge_fc.Store.Atomic.{Unchanged, with_tx-Unchanged}
use go_challenge_fc.Usecase.ProcessWager.Correct.{Quiet-IsBalanced}
use go_challenge_fc.Store.Repos.{get_pending_references}
use go_challenge_fc.Store.Session.{World, Env, with_tx, query}
use go_challenge_fc.Store.Tables.Wallets.{select_wallet}
use go_challenge_fc.Store.Tables.Entries.{sum_entries}
use go_challenge_fc.Store.Tables.Rows.{find, Tables, filter_where}
use go_challenge_fc.Store.Tables.Keys.{All, All-mono}
use go_challenge_fc.Store.Tables.Transactions.{
  limit, sort_by_retry, insert_by_retry, retry_before, select_pending_references,
}
use go_challenge_fc.System.{
  together, in_turn, System, Act, Acts, request, message, publish, retry, done, first, act, acts,
  session, session_on, committed, empty, history,
}
use go_challenge_fc.System.Schema.{
  Wrote-IsChecked, IsChecked, IsOwned, empty-IsChecked, act-IsChecked,
}
use go_challenge_fc.Transaction.Defs.{WagerTransaction}
use go_challenge_fc.Usecase.RetryPending.Defs.{run_batch, execute_batch, max_retries_of}
use go_challenge_fc.Usecase.RetryPending.Batch.{AllInt64, process_all-IsBalanced}
use go_challenge_fc.Worker.Consumer.Outcome.{handle_message-IsBalanced}
use go_challenge_fc.Worker.PendingRef.{tick}

abbrev Amounts : List WagerTransaction → Type 0
Amounts = All (λ x. IsInt64 x.money.amount)

Amounts-filter :
    (p : WagerTransaction → Bool) (xs : List WagerTransaction)
    → Amounts xs
    → Amounts (filter_where p xs)
unfolding filter_where
Amounts-filter p [] h = tt
Amounts-filter p (x ∷ xs) (one, h) = elim (Bool-cases (p x)) [
  | inl taken ↦ rw taken (one, Amounts-filter p xs h)
  | inr left ↦ rw left (Amounts-filter p xs h)
]

Amounts-insert :
    (x : WagerTransaction) (xs : List WagerTransaction)
    → IsInt64 x.money.amount
    → Amounts xs
    → Amounts (insert_by_retry x xs)
unfolding insert_by_retry
Amounts-insert x [] one h = (one, tt)
Amounts-insert x (y ∷ ys) one (two, h) =
    elim (Bool-cases (retry_before x.retry_after y.retry_after)) [
      | inl before ↦ rw before (one, (two, h))
      | inr after ↦ rw after (two, Amounts-insert x ys one h)
    ]

Amounts-sort : (xs : List WagerTransaction) → Amounts xs → Amounts (sort_by_retry xs)
unfolding sort_by_retry
Amounts-sort [] h = tt
Amounts-sort (x ∷ xs) (one, h) = Amounts-insert x _ one (Amounts-sort xs h)

limit-AllInt64 : (n : ℕ) (xs : List WagerTransaction) → Amounts xs → AllInt64 (limit n xs)
unfolding limit
limit-AllInt64 zero xs h = tt
limit-AllInt64 (suc n) [] h = tt
limit-AllInt64 (suc n) (x ∷ xs) (one, h) = (one, limit-AllInt64 n xs h)

pending-AllInt64 :
    (now n : ℕ) (t : Tables) → IsChecked t → AllInt64 (select_pending_references now n t)
unfolding select_pending_references
pending-AllInt64 now n t h = limit-AllInt64 n _ (
    Amounts-sort _ (
      Amounts-filter _ t.wager_transactions
        (All-mono (IsOwned t) _ (λ x p. p.0) t.wager_transactions h.owned)))

same_rows :
    (xs ys : List WagerTransaction) (t u : Tables)
    → ◌≡◌ {A = Result (List WagerTransaction × Tables)} (ok (xs, t)) (ok (ys, u))
    → xs ≡ ys
same_rows xs ys t u e = cc

-- Other sessions keep the constraints and the accounting.
abbrev KeepsBoth : (Tables → Tables) → Type 0
KeepsBoth rival =
    (t : Tables) → IsChecked t → IsBalanced t → IsChecked (rival t) × IsBalanced (rival t)

module _ (env : Env) (max : ℤ) where
  fetch-Ensures :
      (n : ℕ) (w : World)
      → IsChecked w.tables
      → Ensures (λ xs t'. AllInt64 xs × (t' ≡ w.tables)) (with_tx (get_pending_references env n) w)
  unfolding get_pending_references query
  fetch-Ensures n w h = Ensures-tx _ w λ v same.
      let now = env.clock v.draws in
      let rows = select_pending_references now n v.tables in
      Ensures-time env _ v (
        Ensures-last (λ u. ok (select_pending_references now n u, u))
          (record v { draws = v.draws + 1 })
          λ xs t' e. (
            subst AllInt64 (same_rows rows xs v.tables t' e)
                (pending-AllInt64 now n v.tables (rw same h)),
            same_tables rows xs v.tables t' e ∙ same,
          ))

  run_batch-IsBalanced :
      (rivals : List (Tables → Tables)) (w : World) (r : Result (List WagerTransaction) × World)
      → All KeepsBoth rivals
      → IsChecked w.tables
      → IsBalanced w.tables
      → Ensures (λ xs t'. AllInt64 xs × (t' ≡ w.tables)) r
      → Unchanged w.tables r
      → IsBalanced (run_batch env rivals max r).1.tables
  run_batch-IsBalanced rivals w (ok xs, v) others c h e u =
      process_all-IsBalanced env max IsChecked
        (λ x k d. Wrote-IsChecked ((process_single_pending-Inside env max x).wrote k) d) rivals xs 0
        v others e.holds.0 (rw e.holds.1 c) (rw e.holds.1 h)
  run_batch-IsBalanced rivals w (err x, v) others c h e u = rw u h

tick-IsBalanced :
    (env : Env) (rivals : List (Tables → Tables)) (max : ℤ) (w : World)
    → All KeepsBoth rivals
    → IsChecked w.tables
    → IsBalanced w.tables
    → IsBalanced (tick env rivals max w).tables
unfolding tick execute_batch
tick-IsBalanced env rivals max w others c h =
    run_batch-IsBalanced env (max_retries_of max) rivals w _ others c h
      (fetch-Ensures env max 20 w c) (with_tx-Unchanged _ w)

quiet-IsBalanced :
    (t t' : Tables)
    → (t'.wallets ≡ t.wallets) × (t'.wallet_ledger_entries ≡ t.wallet_ledger_entries)
    → IsBalanced t
    → IsBalanced t'
quiet-IsBalanced t t' q h =
    Quiet-IsBalanced t t' (record { same_wallets = q.0; same_entries = q.1 }) h

module _ (s : System) where
  mutual
    unfolding act acts

    act-IsBalanced :
        (a : Act) (w : World)
        → IsChecked w.tables
        → IsBalanced w.tables
        → IsBalanced (act s a w).tables
    act-IsBalanced (request others route r) w c h =
        serve-IsBalanced s.server (committed s others) r route w
          (acts-IsBalanced others (session_on w.tables) c) h
    act-IsBalanced (message others m) w c h =
        handle_message-IsBalanced s.server.env (committed s others) s.consumer m w
          (acts-IsBalanced others (session_on w.tables) c) h
    act-IsBalanced publish w c h =
        quiet-IsBalanced w.tables _ (process_batch_quiet s.server.env s.queue s.publisher w) h
    act-IsBalanced (retry others) w c h =
        tick-IsBalanced s.server.env (in_turn s others) s.max_retries w (in_turn-KeepsBoth others) c
          h
    act-IsBalanced (together others) w c h = acts-IsBalanced others w c h

    in_turn-KeepsBoth : (a : Acts) → All KeepsBoth (in_turn s a)
    in_turn-KeepsBoth done = tt
    in_turn-KeepsBoth (first draws faults a rest) = (
      λ t c h.
          let w = session draws faults (session_on t) in
          (act-IsChecked s a w c, act-IsBalanced a w c h),
      in_turn-KeepsBoth rest,
    )

    acts-IsBalanced :
        (a : Acts) (w : World)
        → IsChecked w.tables
        → IsBalanced w.tables
        → IsBalanced (acts s a w).tables
    acts-IsBalanced done w c h = h
    acts-IsBalanced (first draws faults a rest) w c h =
        acts-IsBalanced rest _ (act-IsChecked s a (session draws faults w) c)
          (act-IsBalanced a (session draws faults w) c h)

empty-IsBalanced : IsBalanced empty
unfolding select_wallet find sum_entries
empty-IsBalanced = record { sound = λ id w e. cc; adds_up = λ id. refl }

-- After any acts of the program on an empty database, in any order, with any acts of other sessions
-- between the transactions of a wager and of a batch, whatever the requests, the tokens, the
-- messages and the answers of the queue are, and whatever the database fails: no wallet is in debt,
-- and the ledger of each wallet adds up to its balance.
pub history-IsBalanced : (s : System) (a : Acts) → IsBalanced (history s a)
history-IsBalanced s a = acts-IsBalanced s a (session_on empty) empty-IsChecked empty-IsBalanced
