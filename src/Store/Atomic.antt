-- ===== src/Store/Atomic.antt =====
-- A transaction that returns an error has changed nothing: uow.go rolls it back.
use go_challenge_fc.Base.{◌≡◌, refl, ◌||◌, Bool, true, false}
use go_challenge_fc.Errs.{Result, ok, err}
use go_challenge_fc.Store.Ensures.{Ensures}
use go_challenge_fc.Store.Session.{World, M, finish, with_tx, next_fault, begin, commit}
use go_challenge_fc.Store.Tables.Rows.{Tables}

-- On an error the tables are `t`.
abbrev pub Unchanged : {A : Type 0} → Tables → Result A × World → Type 0
Unchanged t (ok a, w) = Unit
Unchanged t (err e, w) = w.tables ≡ t

commit-Unchanged :
    {A : Type 0} (down : Bool) (t : Tables) (a : A) (w : World) → Unchanged t (commit down t a w)
commit-Unchanged true t a w = refl
commit-Unchanged false t a w = tt

finish-Unchanged : {A : Type 0} (t : Tables) (r : Result A × World) → Unchanged t (finish t r)
unfolding finish
finish-Unchanged t (ok a, w) = commit-Unchanged (next_fault w.faults || w.aborted) t a w
finish-Unchanged t (err e, w) = refl

begin-Unchanged :
    {A : Type 0} (down : Bool) (body : M A) (w : World) → Unchanged w.tables (begin down body w)
begin-Unchanged true body w = refl
begin-Unchanged false body w = finish-Unchanged w.tables (body w)

-- If the begin, the body or the commit of a transaction fails, the tables are those before,
-- whatever the body has done.
pub with_tx-Unchanged : {A : Type 0} (body : M A) (w : World) → Unchanged w.tables (with_tx body w)
unfolding with_tx
with_tx-Unchanged body w = begin-Unchanged (next_fault w.faults) body _

-- What a body keeps when it returns no error, a transaction keeps in every case.
pub with_tx-keeps :
    {A : Type 0} (K : Tables → Type 0) (body : M A) (w : World)
    → K w.tables
    → Ensures (λ _ t. K t) (with_tx body w)
    → K (with_tx body w).1.tables
with_tx-keeps {A = A} K body w h e = go (with_tx body w) e (with_tx-Unchanged body w)
  where
    go : (r : Result A × World) → Ensures (λ _ t. K t) r → Unchanged w.tables r → K r.1.tables
    go (ok a, v) e u = e.holds
    go (err x, v) e u = rw u h
