-- ===== src/Store/Ensures.antt =====
-- Rules for what holds after a computation that returns no error: one for each way to build one,
-- and for each kind of step that a block begins with.
use go_challenge_fc.Base.{
  inr, inl, ◌⊎◌, ℕ, ◌≡◌, refl, ◌||◌, Bool, true, false, Option, none, if◌then◌else◌, ◌+◌,
}
use mathlib.Core.Path.{subst}
use go_challenge_fc.Errs.{Result, ok, err, Error}
use go_challenge_fc.Store.Session.{
  World, M, Env, lift, pure, raise, ◌>>=◌, statement, query, finish, with_tx, new_uuid, time_now,
  next_fault, rest_faults, attempt, recover, continue, answer, request, begin, commit,
}
use go_challenge_fc.Store.Tables.Rows.{Tables}

abbrev pub Post : {A : Type 0} → (A → Tables → Type 0) → Result A × World → Type 0
Post P (ok a, w) = P a w.tables
Post P (err e, w) = Unit

-- `P` holds of the value and the tables of a run that returns no error.
pub record Ensures {A : Type 0} (P : A → Tables → Type 0) (r : Result A × World) : Type 0 where
  pub holds : Post P r

module _ {A : Type 0} {P : A → Tables → Type 0} where
  pub Ensures-ok :
      (r : Result A × World) {a : A} {w : World} → Ensures P r → r ≡ (ok a, w) → P a w.tables
  Ensures-ok (ok b, v) {a} {w} h e = subst (λ (x : Result A × World). Post P x) e h.holds
  Ensures-ok (err x, v) h e = cc

  -- A weaker claim.
  pub Ensures-weaken :
      (Q : A → Tables → Type 0) (r : Result A × World)
      → Ensures Q r
      → ((a : A) (t : Tables) → Q a t → P a t)
      → Ensures P r
  Ensures-weaken Q (ok a, w) h k = record { holds = k a w.tables h.holds }
  Ensures-weaken Q (err e, w) h k = record { holds = tt }

  pub Ensures-pure : (a : A) (w : World) → P a w.tables → Ensures P (pure a w)
  unfolding pure
  Ensures-pure a w h = record { holds = h }

  pub Ensures-raise : (e : Error) (w : World) → Ensures P (raise e w)
  unfolding raise
  Ensures-raise e w = record { holds = tt }

  pub Ensures-if :
      (b : Bool) (m n : M A) (w : World)
      → (b ≡ true → Ensures P (m w))
      → (b ≡ false → Ensures P (n w))
      → Ensures P ((if b then m else n) w)
  Ensures-if true m n w hm hn = hm refl
  Ensures-if false m n w hm hn = hn refl

module _ {A B : Type 0} {P : B → Tables → Type 0} where
  bind-Post :
      (Q : A → Tables → Type 0) (r : Result A × World) (f : A → M B)
      → Post Q r
      → ((a : A) (v : World) → Q a v.tables → Ensures P (f a v))
      → Ensures P (continue f r)
  bind-Post Q (ok a, v) f h k = k a v h
  bind-Post Q (err e, v) f h k = record { holds = tt }

  -- The rest of a block may use what the first step ensures.
  pub Ensures-bind :
      (Q : A → Tables → Type 0) (m : M A) (f : A → M B) (w : World)
      → Ensures Q (m w)
      → ((a : A) (v : World) → Q a v.tables → Ensures P (f a v))
      → Ensures P ((m >>= f) w)
  unfolding ◌>>=◌
  Ensures-bind Q m f w h k = bind-Post Q (m w) f h.holds k

  pub Ensures-lift :
      (r : Result A) (f : A → M B) (w : World)
      → ((a : A) → r ≡ ok a → Ensures P (f a w))
      → Ensures P ((lift r >>= f) w)
  unfolding ◌>>=◌ lift
  Ensures-lift (ok a) f w k = k a refl
  Ensures-lift (err e) f w k = record { holds = tt }

  pub Ensures-pure_bind :
      (a : A) (f : A → M B) (w : World) → Ensures P (f a w) → Ensures P ((pure a >>= f) w)
  unfolding ◌>>=◌ pure
  Ensures-pure_bind a f w h = h

  answered :
      (r : Result (A × Tables)) (f : A → M B) (w : World)
      → ((a : A) (t : Tables) → r ≡ ok (a, t) → Ensures P (f a (record w { tables = t })))
      → Ensures P (continue f (answer w r))
  answered (ok (a, t)) f w k = k a t refl
  answered (err e) f w k = record { holds = tt }

  requested :
      (down : Bool) (s : Tables → Result (A × Tables)) (f : A → M B) (w : World)
      → ((a : A) (t : Tables)
          → s w.tables ≡ ok (a, t)
          → Ensures P (f a (record w { tables = t; faults = rest_faults w.faults })))
      → Ensures P (continue f (request down s w))
  requested true s f w k = record { holds = tt }
  requested false s f w k = answered (s w.tables) f (record w { faults = rest_faults w.faults }) k

  -- A statement that goes through.
  pub Ensures-statement :
      (s : Tables → Result (A × Tables)) (f : A → M B) (w : World)
      → ((a : A) (t : Tables)
          → s w.tables ≡ ok (a, t)
          → Ensures P (f a (record w { tables = t; faults = rest_faults w.faults })))
      → Ensures P ((statement s >>= f) w)
  unfolding ◌>>=◌ statement
  Ensures-statement s f w k = requested (next_fault w.faults || w.aborted) s f w k

  queried :
      (down : Bool) (q : Tables → A) (f : A → M B) (w : World)
      → Ensures P (f (q w.tables) (record w { faults = rest_faults w.faults }))
      → Ensures P (continue f (request down (λ t. ok (q t, t)) w))
  queried true q f w h = record { holds = tt }
  queried false q f w h = h

  pub Ensures-query :
      (q : Tables → A) (f : A → M B) (w : World)
      → Ensures P (f (q w.tables) (record w { faults = rest_faults w.faults }))
      → Ensures P ((query q >>= f) w)
  unfolding ◌>>=◌ query
  Ensures-query q f w h = queried (next_fault w.faults || w.aborted) q f w h

module _ {B : Type 0} {P : B → Tables → Type 0} where
  pub Ensures-uuid :
      (env : Env) (f : ℕ → M B) (w : World)
      → Ensures P (f (env.uuid w.draws) (record w { draws = w.draws + 1 }))
      → Ensures P ((new_uuid env >>= f) w)
  unfolding ◌>>=◌ new_uuid
  Ensures-uuid env f w h = h

  pub Ensures-time :
      (env : Env) (f : ℕ → M B) (w : World)
      → Ensures P (f (env.clock w.draws) (record w { draws = w.draws + 1 }))
      → Ensures P ((time_now env >>= f) w)
  unfolding ◌>>=◌ time_now
  Ensures-time env f w h = h

  attempted :
      {A : Type 0} (down : Bool) (q : Tables → Option A) (f : Option A → M B) (w : World)
      → ((a : Option A) (v : World)
          → (a ≡ none) ⊎ (a ≡ q w.tables)
          → v.tables ≡ w.tables
          → Ensures P (f a v))
      → Ensures P (continue f (recover (request down (λ t. ok (q t, t)) w)))
  attempted true q f w k = k none _ (inl refl) refl
  attempted false q f w k = k (q w.tables) _ (inr refl) refl

  -- A read whose error is dropped.
  pub Ensures-attempt :
      {A : Type 0} (q : Tables → Option A) (f : Option A → M B) (w : World)
      → ((a : Option A) (v : World)
          → (a ≡ none) ⊎ (a ≡ q w.tables)
          → v.tables ≡ w.tables
          → Ensures P (f a v))
      → Ensures P ((attempt (query q) >>= f) w)
  unfolding ◌>>=◌ attempt query
  Ensures-attempt q f w k = attempted (next_fault w.faults || w.aborted) q f w k

module _ {A : Type 0} {P : A → Tables → Type 0} where
  -- A statement that ends a block.
  pub Ensures-last :
      (s : Tables → Result (A × Tables)) (w : World)
      → ((a : A) (t : Tables) → s w.tables ≡ ok (a, t) → P a t)
      → Ensures P (statement s w)
  unfolding statement
  Ensures-last s w k = go (next_fault w.faults || w.aborted) (s w.tables) refl
    where
      go : (down : Bool) (r : Result (A × Tables)) → s w.tables ≡ r → Ensures P (request down s w)
      go true r e = record { holds = tt }
      go false (ok (a, t)) e = rw e (record { holds = k a t e })
      go false (err x) e = rw e (record { holds = tt })

  pub Ensures-lift_last :
      (r : Result A) (w : World) → ((a : A) → r ≡ ok a → P a w.tables) → Ensures P (lift r w)
  unfolding lift
  Ensures-lift_last (ok a) w k = record { holds = k a refl }
  Ensures-lift_last (err e) w k = record { holds = tt }

  committed :
      (down : Bool) (before : Tables) (a : A) (w : World)
      → P a w.tables
      → Ensures P (commit down before a w)
  committed true before a w h = record { holds = tt }
  committed false before a w h = record { holds = h }

  finished : (before : Tables) (r : Result A × World) → Ensures P r → Ensures P (finish before r)
  unfolding finish
  finished before (ok a, w) h = committed (next_fault w.faults || w.aborted) before a w h.holds
  finished before (err e, w) h = record { holds = tt }

  -- What a body ensures from the tables that it starts on, a transaction ensures.
  pub Ensures-tx :
      (body : M A) (w : World)
      → ((v : World) → v.tables ≡ w.tables → Ensures P (body v))
      → Ensures P (with_tx body w)
  unfolding with_tx
  Ensures-tx body w k = go (next_fault w.faults)
    where
      go :
          (down : Bool)
          → Ensures P
              (begin down body (record w { faults = rest_faults w.faults; aborted = false }))
      go true = record { holds = tt }
      go false = finished w.tables _ (k _ refl)
