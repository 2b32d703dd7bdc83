-- ===== src/Usecase/RetryPending/Batch.antt =====
-- The accounting over a batch of retries, between which other sessions act.
use go_challenge_fc.Store.Tables.Keys.{All}
use go_challenge_fc.Base.{sym, List, [], ℕ, ◌≡◌, refl, Bool, true, false, ◌∷◌, subst}
use go_challenge_fc.Usecase.RetryPending.Defs.{
  later, met, process_all, count_resolved, process_single_pending,
}
use go_challenge_fc.Base.Int.{ℤ, IsInt64}
use go_challenge_fc.Errs.{Result, ok, err}
use go_challenge_fc.Store.Balance.{IsBalanced}
use go_challenge_fc.Store.Session.{World, Env}
use go_challenge_fc.Store.Tables.Rows.{Tables}
use go_challenge_fc.Transaction.Defs.{WagerTransaction}
use go_challenge_fc.Usecase.RetryPending.Settle.{retry-IsBalanced}

-- The rows that a batch has read hold int64 amounts.
abbrev pub AllInt64 : List WagerTransaction → Type 0
AllInt64 [] = Unit
AllInt64 (x ∷ xs) = IsInt64 x.money.amount × AllInt64 xs

counted_world : (r : Result Bool × World) (n : ℕ) → (count_resolved r n).1 ≡ r.1
counted_world (ok true, w) n = refl
counted_world (ok false, w) n = refl
counted_world (err e, w) n = refl

-- From tables where it is so, a batch of retries of int64 amounts, each in its own transaction,
-- keeps every ledger adding up to its wallet's balance and no wallet in debt, whichever of them
-- fail, if the other sessions do so on the tables that both keep in order (`J`).
module _ (env : Env) (max : ℤ) (J : Tables → Type 0)
    (single : (x : WagerTransaction) (w : World)
      → J w.tables
      → J (process_single_pending env max x w).1.tables) where
  abbrev pub Keeps : (Tables → Tables) → Type 0
  Keeps rival = (t : Tables) → J t → IsBalanced t → J (rival t) × IsBalanced (rival t)

  met-Keeps :
      (rivals : List (Tables → Tables)) (w : World)
      → All Keeps rivals
      → J w.tables
      → IsBalanced w.tables
      → J (met rivals w).tables × IsBalanced (met rivals w).tables
  met-Keeps [] w others j h = (j, h)
  met-Keeps (rival ∷ rivals) w others j h = others.0 w.tables j h

  later-Keeps : (rivals : List (Tables → Tables)) → All Keeps rivals → All Keeps (later rivals)
  later-Keeps [] h = tt
  later-Keeps (rival ∷ rivals) h = h.1

  pub process_all-IsBalanced :
      (rivals : List (Tables → Tables)) (xs : List WagerTransaction) (n : ℕ) (w : World)
      → All Keeps rivals
      → AllInt64 xs
      → J w.tables
      → IsBalanced w.tables
      → IsBalanced (process_all env rivals max xs n w).1.tables
  unfolding process_all
  process_all-IsBalanced rivals [] n w others range j h = h
  process_all-IsBalanced rivals (x ∷ xs) n w others (one, rest) j h =
      let kept = met-Keeps rivals w others j h in
      let same = sym (counted_world (process_single_pending env max x (met rivals w)) n) in
      process_all-IsBalanced (later rivals) xs _ _ (later-Keeps rivals others) rest
        (subst (λ (u : World). J u.tables) same (single x (met rivals w) kept.0))
        (subst (λ (u : World). IsBalanced u.tables) same
          (retry-IsBalanced env max x (met rivals w) one kept.1))
