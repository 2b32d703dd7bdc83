-- ===== src/Worker/Lifecycle.antt =====
-- Start and Stop of internal/worker/outbox/worker.go and internal/worker/sqs/consumer.go, which are
-- written alike, and the pollLoop and runLoop that they start.
use go_challenge_fc.Base.{
  arith, ◌-◌, ◌<◌, ◌≤◌, ℕ, ◌+◌, ◌≡◌, refl, Bool, true, false, not, if◌then◌else◌,
}

-- `running`, whether stopChan is closed, how many goroutines run the loop, whether a call has
-- panicked by closing a closed channel, and whether a loop has returned because its context ended.
pub record Life : Type 0 where
  pub running : Bool
  pub stop_closed : Bool
  pub loops : ℕ
  pub panicked : Bool
  pub cut_short : Bool

abbrev pub idle : Life
idle = record {
  running = false;
  stop_closed = false;
  loops = 0;
  panicked = false;
  cut_short = false;
}

-- Start: a goroutine more, unless the worker runs.
unfoldable pub start : Life → Life
start l = if l.running then l else record l { running = true; loops = l.loops + 1 }

-- Stop, until it waits for the loops: `running` is reset before the channel is closed.
unfoldable pub stop : Life → Life
stop l =
    if not l.running
    then l
    else if l.stop_closed
    then record l { running = false; panicked = true }
    else record l { running = false; stop_closed = true }

-- What may happen: a call of Start or of Stop, and the return of a loop: of one that looks at the
-- closed stopChan, of one whose context has ended (`<-ctx.Done()`, or context.Canceled from
-- ReceiveMessage), and of one of the consumer whose ReceiveMessage fails and that finds `running`
-- reset. No call returns after a panic, which leaves the mutex locked.
pub data Step : Life → Life → Type 0 where
  starts : (l : Life) → l.panicked ≡ false → Step l (start l)
  stops : (l : Life) → l.panicked ≡ false → Step l (stop l)
  ends : (l : Life) → l.stop_closed ≡ true → 0 < l.loops → Step l (record l { loops = l.loops - 1 })
  cancelled : (l : Life) → 0 < l.loops → Step l (record l { loops = l.loops - 1; cut_short = true })
  gives_up :
      (l : Life) → l.running ≡ false → 0 < l.loops → Step l (record l { loops = l.loops - 1 })

-- The states that a new worker reaches.
pub data Reach : Life → Type 0 where
  created : Reach idle
  further : {l l' : Life} → Reach l → Step l l' → Reach l'

-- What holds while stopChan is open, and once it is closed.
pub record IsOrderly (l : Life) : Type 0 where
  pub calm : l.stop_closed ≡ false → l.panicked ≡ false
  pub bounded : l.stop_closed ≡ false → l.loops ≤ (if l.running then 1 else 0)
  pub single : l.stop_closed ≡ false → l.cut_short ≡ false → l.loops ≡ (if l.running then 1 else 0)
  pub restart : l.stop_closed ≡ true → l.running ≡ false → (stop (start l)).panicked ≡ true

kept-IsOrderly : (l l' : Life) → Step l l' → IsOrderly l → IsOrderly l'
unfolding start stop
kept-IsOrderly _ _ (starts l p) h = record {
  calm = ground (arith, h.calm);
  bounded = ground (arith, h.bounded);
  single = ground (arith, h.single);
  restart = ground arith;
}
kept-IsOrderly _ _ (stops l p) h = record {
  calm = ground (arith, h.calm);
  bounded = ground (arith, h.bounded);
  single = ground (arith, h.single);
  restart = ground arith;
}
kept-IsOrderly _ _ (ends l c p) h = record {
  calm = ground (arith, h.calm);
  bounded = ground (arith, h.bounded);
  single = ground (arith, h.single);
  restart = ground arith;
}
kept-IsOrderly _ _ (cancelled l p) h = record {
  calm = ground (arith, h.calm);
  bounded = ground (arith, h.bounded);
  single = ground (arith, h.single);
  restart = ground arith;
}
kept-IsOrderly _ _ (gives_up l c p) h = record {
  calm = ground (arith, h.calm);
  bounded = ground (arith, h.bounded);
  single = ground (arith, h.single);
  restart = ground arith;
}

-- In every state that calls of Start and Stop and the returns of loops reach from a new worker:
-- while stopChan is open, no call has panicked, at most one loop runs, and none unless the worker
-- runs, and exactly one runs if the worker runs and no loop has returned because its context ended;
-- and once stopChan is closed, a worker that does not run panics if it is started and stopped
-- again.
pub Reach-IsOrderly : (l : Life) → Reach l → IsOrderly l
unfolding start stop
Reach-IsOrderly l created = record {
  calm = λ c. refl;
  bounded = λ c. omega arith;
  single = λ c s. refl;
  restart = λ c. cc;
}
Reach-IsOrderly l (further r s) = kept-IsOrderly _ l s (Reach-IsOrderly _ r)
