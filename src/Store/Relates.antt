-- ===== src/Store/Relates.antt =====
-- What a session does to its tables, for any relation that holds of tables and themselves: a
-- statement that keeps to the relation, and a transaction whose body does.
use go_challenge_fc.Base.{◌≡◌, refl, ◌||◌, Bool, true, false}
use go_challenge_fc.Errs.{Result, ok, err}
use go_challenge_fc.Store.Session.{
  World, M, statement, finish, with_tx, next_fault, rest_faults, answer, request, begin, commit,
}
use go_challenge_fc.Store.Tables.Rows.{Tables}

module _ {A : Type 0} (R : Tables → Tables → Type 0) (same : (t : Tables) → R t t) where
  answer-Relates :
      (w : World) (r : Result (A × Tables))
      → ((a : A) (t : Tables) → r ≡ ok (a, t) → R w.tables t)
      → R w.tables (answer w r).1.tables
  answer-Relates w (ok (a, t)) h = h a t refl
  answer-Relates w (err e) h = same w.tables

  request-Relates :
      (down : Bool) (f : Tables → Result (A × Tables)) (w : World)
      → ((t : Tables) (a : A) (t' : Tables) → f t ≡ ok (a, t') → R t t')
      → R w.tables (request down f w).1.tables
  request-Relates true f w h = same w.tables
  request-Relates false f w h =
      answer-Relates (record w { faults = rest_faults w.faults }) (f w.tables) (h w.tables)

  pub statement-Relates :
      (f : Tables → Result (A × Tables)) (w : World)
      → ((t : Tables) (a : A) (t' : Tables) → f t ≡ ok (a, t') → R t t')
      → R w.tables (statement f w).1.tables
  unfolding statement
  statement-Relates f w h = request-Relates (next_fault w.faults || w.aborted) f w h

  commit-Relates :
      (down : Bool) (t : Tables) (a : A) (w : World)
      → R t w.tables
      → R t (commit down t a w).1.tables
  commit-Relates true t a w h = same t
  commit-Relates false t a w h = h

  finish-Relates : (t : Tables) (r : Result A × World) → R t r.1.tables → R t (finish t r).1.tables
  unfolding finish
  finish-Relates t (ok a, w) h = commit-Relates (next_fault w.faults || w.aborted) t a w h
  finish-Relates t (err e, w) h = same t

  begin-Relates :
      (down : Bool) (m : M A) (w : World)
      → R w.tables (m w).1.tables
      → R w.tables (begin down m w).1.tables
  begin-Relates true m w h = same w.tables
  begin-Relates false m w h = finish-Relates w.tables (m w) h

  pub with_tx-Relates :
      (m : M A) (w : World)
      → ((v : World) → R v.tables (m v).1.tables)
      → R w.tables (with_tx m w).1.tables
  unfolding with_tx
  with_tx-Relates m w h = begin-Relates (next_fault w.faults) m _ (h _)
