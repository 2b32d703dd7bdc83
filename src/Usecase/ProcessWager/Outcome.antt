-- ===== src/Usecase/ProcessWager/Outcome.antt =====
-- Every run of Execute's transaction that returns no error has one of the outcomes of `Effect`.
use go_challenge_fc.Base.{
  ℕ, ◌≡◌, refl, subst, inl, inr, Bool, true, false, String, Option, none, some, arith,
}
use go_challenge_fc.Base.Int.{IsInt64}
use go_challenge_fc.Errs.{Code, Result, ok, err, Error, code_or, insufficient_funds}
use go_challenge_fc.Money.Defs.{Money}
use go_challenge_fc.Store.Ensures.{
  Ensures-lift_last, Ensures, Ensures-if, Ensures-bind, Ensures-lift, Ensures-query, Ensures-uuid,
  Ensures-time,
}
use go_challenge_fc.Store.Repos.{get_wallet, get_by_external}
use go_challenge_fc.Store.Session.{◌>>=◌, pure, raise, M, World, Env}
use go_challenge_fc.Store.Tables.Rows.{Tables}
use go_challenge_fc.Store.Tables.Transactions.{select_by_external}
use go_challenge_fc.Store.Tables.Wallets.{select_wallet, wallet_or_not_found}
use go_challenge_fc.Transaction.Defs.{
  WagerTransaction, Kind, new_external, requires_reference, resolve_reference,
}
use go_challenge_fc.Usecase.ProcessWager.Complete.{complete-idle, complete-posted}
use go_challenge_fc.Usecase.ProcessWager.Defs.{Input, validate_reference, deref, external_of}
use go_challenge_fc.Usecase.ProcessWager.Effect.{Justified, Effect}
use go_challenge_fc.Usecase.ProcessWager.Operate.{Operated, operate-Operated, IfOk}
use go_challenge_fc.Usecase.ProcessWager.Refines.{IsFor, reject_with-Effect, park-Effect}
use go_challenge_fc.Usecase.ProcessWager.Steps.{
  settle_operation, apply_operation, kind_of, apply_reference, with_reference, dispatch, handle_new,
  raise_if,
}
use go_challenge_fc.Wallet.{Wallet}
use go_challenge_fc.Wallet.Laws.{IsSound}

module _ (env : Env) (hash : String) (i : Input) (range : IsInt64 i.money.amount) (t : Tables)
    (w : Wallet) (found : select_wallet i.wallet_id t ≡ some w) (sound : IsSound w) where
  settle_operation-Effect :
      (x : WagerTransaction) (ref : Option Kind) (direction : String) (w' : Wallet)
      (r : Result Money) (v : World)
      → IsFor hash i x
      → Justified i t ref
      → Operated i.kind ref i.money w (direction, w', r)
      → v.tables ≡ t
      → Ensures (Effect hash i t) (settle_operation env x i direction w' r v)
  unfolding settle_operation
  settle_operation-Effect x ref direction w' (ok before) v is_for just (inl (still, nothing, e))
        same =
      complete-idle env hash i x is_for range t ref just w found sound direction before w' v same
        still nothing
  settle_operation-Effect x ref direction w' (ok before) v is_for just (inr (moves, sign, e, moved))
        same =
      rw e (
        complete-posted env hash i x is_for range t ref just w found sound direction w' v same moves
          sign moved)
  settle_operation-Effect x ref direction w' (err e) v is_for just op same =
      rw (← same) (reject_with-Effect env hash i x is_for w' (code_or e insufficient_funds) v)

  apply_operation-Effect :
      (x : WagerTransaction) (r : Option WagerTransaction) (v : World)
      → IsFor hash i x
      → Justified i t (kind_of r)
      → v.tables ≡ t
      → Ensures (Effect hash i t) (apply_operation env x r w i v)
  unfolding apply_operation
  apply_operation-Effect x r v is_for just same = Ensures-time env _ _ (
      Ensures-lift _ _ _ λ done e.
        settle_operation-Effect x (kind_of r) done.0 done.1 done.2 _ is_for just
          (subst (IfOk (Operated i.kind (kind_of r) i.money w)) e
            (operate-Operated _ i.money w sound range i.kind (kind_of r)))
          same)

  with_reference-Effect :
      (x : WagerTransaction) (r : Option WagerTransaction) (v : World)
      → IsFor hash i x
      → select_by_external i.provider_id (deref i.reference_external_transaction_id) t ≡ r
      → v.tables ≡ t
      → Ensures (Effect hash i t) (with_reference env x w i r v)
  unfolding with_reference apply_reference resolve_reference
  with_reference-Effect x none v is_for e same = rw (← same) (park-Effect env hash i x is_for w v)
  with_reference-Effect x (some r) v is_for e same = go (validate_reference r i) refl
    where
      go :
          (c : Option Code)
          → validate_reference r i ≡ c
          → Ensures (Effect hash i t) (apply_reference env x r w i c v)
      go (some code) f = rw (← same) (reject_with-Effect env hash i x is_for w code v)
      go none f =
          apply_operation-Effect (resolve_reference r.id x) (some r) v
            (record { money = is_for.money; key = is_for.key; payload = is_for.payload })
            (inr (r, e, f, refl)) same

  dispatch-Effect :
      (x : WagerTransaction) (v : World)
      → IsFor hash i x
      → v.tables ≡ t
      → Ensures (Effect hash i t) (dispatch env x w i v)
  unfolding dispatch get_by_external
  dispatch-Effect x v is_for same =
      Ensures-if (requires_reference i.kind) _ _ v
        (λ _. Ensures-query _ _ v (with_reference-Effect x _ _ is_for (rw same refl) same))
        (λ plain. apply_operation-Effect x none v is_for (inl (plain, refl)) same)

-- A transaction that NewExternal builds carries the data of the input.
new_external-IsFor :
    (now id : ℕ) (hash : String) (i : Input) (x : WagerTransaction)
    → new_external now (external_of id hash i) ≡ ok x
    → IsFor hash i x
unfolding new_external
new_external-IsFor now id hash i x h = ground arith

-- The wallets that an operation may meet are sound.
abbrev pub SoundAt : ℕ → Tables → Type 0
SoundAt id t = (w : Wallet) → select_wallet id t ≡ some w → IsSound w

pub raise_if-Effect :
    {A : Type 0} {P : A → Tables → Type 0} (b : Bool) (e : Error) (f : Unit {0} → M A) (v : World)
    → Ensures P (f tt v)
    → Ensures P ((raise_if b e >>= f) v)
unfolding raise_if ◌>>=◌ raise pure
raise_if-Effect true e f v h = record { holds = tt }
raise_if-Effect false e f v h = h

found_wallet : (r : Option Wallet) (w : Wallet) → wallet_or_not_found r ≡ ok w → r ≡ some w
unfolding wallet_or_not_found
found_wallet r w h = ground arith

pub get_wallet-Found :
    (id : ℕ) (v : World)
    → Ensures (λ w t. (t ≡ v.tables) × (select_wallet id v.tables ≡ some w)) (get_wallet id v)
unfolding get_wallet
get_wallet-Found id v =
    Ensures-query _ _ v (Ensures-lift_last _ _ λ w e. (refl, found_wallet _ w e))

module _ (env : Env) (hash : String) (i : Input) (range : IsInt64 i.money.amount) where
  pub handle_new-Effect :
      (v : World)
      → SoundAt i.wallet_id v.tables
      → Ensures (Effect hash i v.tables) (handle_new env hash i v)
  unfolding handle_new
  handle_new-Effect v sound =
      Ensures-bind _ _ _ _ (get_wallet-Found i.wallet_id v) λ w u (same, found).
        raise_if-Effect _ _ _ u (
          raise_if-Effect _ _ _ u (
            Ensures-uuid env _ u (
              Ensures-time env _ _ (
                Ensures-lift _ _ _ λ x e.
                  dispatch-Effect env hash i range v.tables w found (sound w found) x _
                    (new_external-IsFor _ _ hash i x e) same))))
