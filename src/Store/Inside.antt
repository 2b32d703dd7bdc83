-- ===== src/Store/Inside.antt =====
-- Computations that ask nothing of the queues and change the tables by the writes of the
-- repositories alone.
use go_challenge_fc.Base.{◌≡◌, refl, ◌∙◌, ◌||◌, Bool, true, false, Option, if◌then◌else◌}
use go_challenge_fc.Errs.{Result, ok, err, Error}
use go_challenge_fc.Store.Session.{
  World, M, Env, lift, pure, raise, ◌>>=◌, statement, query, finish, with_tx, new_uuid, time_now,
  next_fault, rest_faults, attempt, recover, continue, answer, request, begin, commit,
}
use go_challenge_fc.Store.Tables.Rows.{Tables}
use go_challenge_fc.Store.Relates.{statement-Relates, with_tx-Relates}
use go_challenge_fc.Store.Writes.{Wrote, nothing, Wrote-trans, IsWrite, same_tables}

-- `m` leaves the record of what has been asked of the queues, and its tables come from those that
-- it meets by writes.
pub record Inside {A : Type 0} (m : M A) : Type 0 where
  pub kept : (w : World) → (m w).1.outside ≡ w.outside
  pub wrote : (w : World) → Wrote w.tables (m w).1.tables

module _ {A : Type 0} where
  pub Inside-pure : (a : A) → Inside (pure a)
  unfolding pure
  Inside-pure a = record { kept = λ w. refl; wrote = λ w. nothing }

  pub Inside-raise : (e : Error) → Inside (raise {A = A} e)
  unfolding raise
  Inside-raise e = record { kept = λ w. refl; wrote = λ w. nothing }

  pub Inside-lift : (r : Result A) → Inside (lift r)
  unfolding lift
  Inside-lift r = record { kept = λ w. refl; wrote = λ w. nothing }

  pub Inside-if : (b : Bool) (m n : M A) → Inside m → Inside n → Inside (if b then m else n)
  Inside-if true m n h k = h
  Inside-if false m n h k = k

  answer_kept : (w : World) (r : Result (A × Tables)) → (answer w r).1.outside ≡ w.outside
  answer_kept w (ok (a, t)) = refl
  answer_kept w (err e) = refl

  request_kept :
      (down : Bool) (f : Tables → Result (A × Tables)) (w : World)
      → (request down f w).1.outside ≡ w.outside
  request_kept true f w = refl
  request_kept false f w = answer_kept (record w { faults = rest_faults w.faults }) (f w.tables)

  pub Inside-statement : (f : Tables → Result (A × Tables)) → IsWrite f → Inside (statement f)
  unfolding statement
  Inside-statement f h = record {
    kept = λ w. request_kept (next_fault w.faults || w.aborted) f w;
    wrote = λ w. statement-Relates Wrote (λ t. nothing) f w h.writes;
  }

  read_only : (f : Tables → A) → IsWrite (λ t. ok (f t, t))
  read_only f = record { writes = λ t a t' e. rw (same_tables (f t) a t t' e) nothing }

  pub Inside-query : (f : Tables → A) → Inside (query f)
  unfolding query
  Inside-query f = Inside-statement _ (read_only f)

  recover_kept : (r : Result (Option A) × World) → (recover r).1 ≡ r.1
  recover_kept (ok a, w) = refl
  recover_kept (err e, w) = refl

  pub Inside-attempt : (m : M (Option A)) → Inside m → Inside (attempt m)
  unfolding attempt
  Inside-attempt m h = record {
    kept = λ w. rw (recover_kept (m w)) (h.kept w);
    wrote = λ w. rw (recover_kept (m w)) (h.wrote w);
  }

  commit_kept :
      (down : Bool) (t : Tables) (a : A) (w : World) → (commit down t a w).1.outside ≡ w.outside
  commit_kept true t a w = refl
  commit_kept false t a w = refl

  finish_kept : (t : Tables) (r : Result A × World) → (finish t r).1.outside ≡ r.1.outside
  unfolding finish
  finish_kept t (ok a, w) = commit_kept (next_fault w.faults || w.aborted) t a w
  finish_kept t (err e, w) = refl

  begin_kept :
      (down : Bool) (m : M A) → Inside m → (w : World) → (begin down m w).1.outside ≡ w.outside
  begin_kept true m h w = refl
  begin_kept false m h w = finish_kept w.tables (m w) ∙ h.kept w

  pub Inside-with_tx : (m : M A) → Inside m → Inside (with_tx m)
  unfolding with_tx
  Inside-with_tx m h = record {
    kept = λ w. begin_kept (next_fault w.faults) m h _;
    wrote = λ w. with_tx-Relates Wrote (λ t. nothing) m w h.wrote;
  }

pub Inside-uuid : (env : Env) → Inside (new_uuid env)
unfolding new_uuid
Inside-uuid env = record { kept = λ w. refl; wrote = λ w. nothing }

pub Inside-time : (env : Env) → Inside (time_now env)
unfolding time_now
Inside-time env = record { kept = λ w. refl; wrote = λ w. nothing }

module _ {A B : Type 0} (f : A → M B) (h : (a : A) → Inside (f a)) where
  continue_kept : (r : Result A × World) → (continue f r).1.outside ≡ r.1.outside
  continue_kept (ok a, w) = (h a).kept w
  continue_kept (err e, w) = refl

  continue-Wrote :
      (t : Tables) (r : Result A × World) → Wrote t r.1.tables → Wrote t (continue f r).1.tables
  continue-Wrote t (ok a, w) k = Wrote-trans k ((h a).wrote w)
  continue-Wrote t (err e, w) k = k

  pub Inside-bind : (m : M A) → Inside m → Inside (m >>= f)
  unfolding ◌>>=◌
  Inside-bind m k = record {
    kept = λ w. continue_kept (m w) ∙ k.kept w;
    wrote = λ w. continue-Wrote w.tables (m w) (k.wrote w);
  }
