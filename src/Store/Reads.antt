-- ===== src/Store/Reads.antt =====
-- Computations that change no table.
use go_challenge_fc.Base.{◌≡◌, refl, ◌∙◌, ◌||◌, Bool, true, false, if◌then◌else◌}
use go_challenge_fc.Errs.{Result, ok, err, Error}
use go_challenge_fc.Store.Session.{
  World, M, lift, pure, raise, ◌>>=◌, query, statement, finish, with_tx, next_fault, continue,
  request, begin, commit,
}
use go_challenge_fc.Store.Tables.Rows.{Tables}

pub record Reads {A : Type 0} (m : M A) : Type 0 where
  pub kept : (w : World) → (m w).1.tables ≡ w.tables

module _ {A : Type 0} where
  pub Reads-pure : (a : A) → Reads (pure a)
  unfolding pure
  Reads-pure a = record { kept = λ w. refl }

  pub Reads-raise : (e : Error) → Reads (raise {A = A} e)
  unfolding raise
  Reads-raise e = record { kept = λ w. refl }

  pub Reads-lift : (r : Result A) → Reads (lift r)
  unfolding lift
  Reads-lift r = record { kept = λ w. refl }

  pub Reads-if : (b : Bool) (m n : M A) → Reads m → Reads n → Reads (if b then m else n)
  Reads-if true m n h k = h
  Reads-if false m n h k = k

  request_kept :
      (down : Bool) (f : Tables → A) (w : World)
      → (request down (λ t. ok (f t, t)) w).1.tables ≡ w.tables
  request_kept true f w = refl
  request_kept false f w = refl

  pub Reads-query : (f : Tables → A) → Reads (query f)
  unfolding query statement
  Reads-query f = record { kept = λ w. request_kept (next_fault w.faults || w.aborted) f w }

  commit_kept :
      (down : Bool) (t : Tables) (a : A) (w : World)
      → w.tables ≡ t
      → (commit down t a w).1.tables ≡ t
  commit_kept true t a w h = refl
  commit_kept false t a w h = h

  finish_kept : (t : Tables) (r : Result A × World) → r.1.tables ≡ t → (finish t r).1.tables ≡ t
  unfolding finish
  finish_kept t (ok a, w) h = commit_kept (next_fault w.faults || w.aborted) t a w h
  finish_kept t (err e, w) h = refl

  begin_kept :
      (down : Bool) (m : M A) → Reads m → (w : World) → (begin down m w).1.tables ≡ w.tables
  begin_kept true m h w = refl
  begin_kept false m h w = finish_kept w.tables (m w) (h.kept w)

  pub Reads-with_tx : (m : M A) → Reads m → Reads (with_tx m)
  unfolding with_tx
  Reads-with_tx m h = record { kept = λ w. begin_kept (next_fault w.faults) m h _ }

module _ {A B : Type 0} (f : A → M B) (h : (a : A) → Reads (f a)) where
  continue_kept : (r : Result A × World) → (continue f r).1.tables ≡ r.1.tables
  continue_kept (ok a, w) = (h a).kept w
  continue_kept (err e, w) = refl

  pub Reads-bind : (m : M A) → Reads m → Reads (m >>= f)
  unfolding ◌>>=◌
  Reads-bind m k = record { kept = λ w. continue_kept (m w) ∙ k.kept w }

pub ruleset reads =
    (Reads-pure, Reads-raise, Reads-lift, Reads-if, Reads-query, Reads-with_tx, Reads-bind)
