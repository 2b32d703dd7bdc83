-- ===== src/Worker/PendingRef.antt =====
-- internal/worker/pendingref/worker.go: the interval between the batches, and one of them.
use go_challenge_fc.Store.Tables.Rows.{Tables}
use go_challenge_fc.Worker.Lifecycle.{Life}
use go_challenge_fc.Base.{List, ◌+◌, false, if◌then◌else◌, true, ◌*◌}
use go_challenge_fc.Base.Int.{ℤ, pos, or_default}
use go_challenge_fc.Base.Time.{second}
use go_challenge_fc.Store.Session.{World, Env}
use go_challenge_fc.Usecase.RetryPending.Defs.{execute_batch}

-- The pollInterval of NewPendingReferenceWorker.
unfoldable pub new_interval : ℤ → ℤ
new_interval interval = or_default interval (pos (5 * second))

-- What a tick does: the count of the resolved transactions and an error are only logged.
unfoldable pub tick : Env → List (Tables → Tables) → ℤ → World → World
tick env rivals max w = (execute_batch env rivals max 20 w).1

-- Start and Stop, which have no flag of their own and do not wait for the loop: a second Start runs
-- a second loop, and a second Stop closes the closed channel.
unfoldable pub start_retries : Life → Life
start_retries l = record l { running = true; loops = l.loops + 1 }

unfoldable pub stop_retries : Life → Life
stop_retries l =
    if l.stop_closed
    then record l { panicked = true }
    else record l { running = false; stop_closed = true }
