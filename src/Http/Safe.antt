-- ===== src/Http/Safe.antt =====
-- What a response says of the database.
use go_challenge_fc.Base.{◌∙◌, ◌≢◌, ◌≡◌, ◌⊎◌, inl, Bool, true, false, leb, subst, sym}
use go_challenge_fc.Errs.{Result, ok, err}
use go_challenge_fc.Http.Message.{Response}
use go_challenge_fc.Store.Atomic.{Unchanged}
use go_challenge_fc.Store.Balance.{IsBalanced}
use go_challenge_fc.Store.Session.{World}
use go_challenge_fc.Store.Tables.Rows.{Tables}
use go_challenge_fc.Usecase.ProcessWager.Correct.{Clean}

abbrev pub is_error : Response → Bool
is_error r = leb 400 r.status

-- From the tables `t`: an error response leaves them, or those that other sessions left, and no
-- response breaks the accounting.
pub record Safe (rival : Tables → Tables) (t : Tables) (r : Response × World) : Type 0 where
  pub clean : is_error r.0 ≡ true → (r.1.tables ≡ t) ⊎ (r.1.tables ≡ rival t)
  pub balanced : (IsBalanced t → IsBalanced (rival t)) → IsBalanced t → IsBalanced r.1.tables

true_ne_false : true ≢ false
true_ne_false h = cc

module _ (rival : Tables → Tables) (t : Tables) where
  pub same-Safe : (r : Response × World) → r.1.tables ≡ t → Safe rival t r
  same-Safe r same = record {
    clean = λ _. inl same;
    balanced = λ _ h. subst IsBalanced (sym same) h;
  }

  pub kept-Clean : {A : Type 0} (r : Result A × World) → Unchanged t r → Clean rival t r
  kept-Clean (ok a, v) h = tt
  kept-Clean (err e, v) h = inl h

  -- A handler that succeeds on an output.
  pub answer-Safe :
      {A : Type 0} (f : Result A → Response) (r : Result A × World)
      → ((a : A) → is_error (f (ok a)) ≡ false)
      → Clean rival t r
      → ((IsBalanced t → IsBalanced (rival t)) → IsBalanced t → IsBalanced r.1.tables)
      → Safe rival t (f r.0, r.1)
  answer-Safe f (ok a, v) fine h k = record {
    clean = λ bad. absurd (true_ne_false (sym bad ∙ fine a));
    balanced = k;
  }
  answer-Safe f (err e, v) fine h k = record { clean = λ _. h; balanced = k }
