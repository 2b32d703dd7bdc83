-- ===== src/Examples/Retry.antt =====
-- A refund that waits for a bet that never comes.
use go_challenge_fc.Base.{arith, refl, [], ◌∷◌}
use go_challenge_fc.Base.Int.{pos}
use go_challenge_fc.Examples.{env, tables, world, waiting_row, opening_row}
use go_challenge_fc.Store.Session.{World}
use go_challenge_fc.Store.Tables.Rows.{find, any}
use go_challenge_fc.Store.Tables.Transactions.{select_transaction, select_by_external}
use go_challenge_fc.Usecase.RetryPending.Ends.{visits, IsRejected, visits-IsRejected}

abbrev waiting_world : World
waiting_world = record world {
  tables = record tables { wager_transactions = waiting_row ∷ opening_row ∷ [] };
}

visits-IsRejected_example : IsRejected 6 (visits env (pos 2) 6 2 waiting_world)
unfolding select_transaction select_by_external find any
visits-IsRejected_example =
    visits-IsRejected env 2 6 "provider" "ext-1" (omega arith) 1 1 waiting_world refl (record {
      row = waiting_row;
      stored = refl;
      counted = refl;
      waiting = refl;
      provided = refl;
      correlation = 9;
      correlated = refl;
      referring = refl;
      missing = refl;
      fresh = λ d. refl;
      up = refl;
    })
