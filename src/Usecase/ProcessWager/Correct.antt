-- ===== src/Usecase/ProcessWager/Correct.antt =====
-- ProcessWagerUseCase.Execute: its outcomes, its atomicity and the accounting invariant.
use go_challenge_fc.Base.{
  ◌≡◌, refl, sym, ap, ◌∙◌, subst, Bool-cases, ◌⊎◌, inl, inr, String, Option, none, some,
}
use go_challenge_fc.Base.Int.{IsInt64}
use go_challenge_fc.Errs.{Result, ok, err, Error, is_code, duplicate_operation}
use go_challenge_fc.Store.Atomic.{Unchanged, with_tx-Unchanged}
use go_challenge_fc.Store.Balance.{IsBalanced, movement-IsBalanced}
use go_challenge_fc.Store.Ensures.{
  Ensures-ok, Ensures, Ensures-pure, Ensures-raise, Ensures-bind, Ensures-query, Ensures-attempt,
  Ensures-tx,
}
use go_challenge_fc.Store.Session.{World, Env, with_tx}
use go_challenge_fc.Store.Tables.Rows.{Tables}
use go_challenge_fc.Store.Tables.Wallets.{select_wallet}
use go_challenge_fc.Transaction.Defs.{WagerTransaction, is_opening}
use go_challenge_fc.Store.Repos.{get_by_key, get_by_external}
use go_challenge_fc.Store.Tables.Transactions.{select_by_key, select_by_external}
use go_challenge_fc.Usecase.ProcessWager.Defs.{build_replay_output, Input, Output, payload_hash}
use go_challenge_fc.Usecase.ProcessWager.Effect.{Quiet, Effect, replayed, recorded, idle, posted}
use go_challenge_fc.Usecase.ProcessWager.Execute.{
  found_or, stored_or_error, execute_tx, reread_tx, after_tx, replay_or_error, execute,
}
use go_challenge_fc.Usecase.ProcessWager.Outcome.{SoundAt, raise_if-Effect}
use go_challenge_fc.Usecase.ProcessWager.Replays.{Known, execute_tx-Effect}

pub Quiet-IsBalanced : (t t' : Tables) → Quiet t t' → IsBalanced t → IsBalanced t'
unfolding select_wallet
Quiet-IsBalanced t t' q h = record {
  sound = λ id w e. h.sound id w (rw q.same_wallets at e);
  adds_up = λ id. rw (q.same_wallets, q.same_entries) (h.adds_up id);
}

-- An outcome keeps the accounting invariant.
pub Effect-IsBalanced :
    (hash : String) (i : Input) (t : Tables) (o : Output) (t' : Tables)
    → Effect hash i t o t'
    → IsBalanced t
    → IsBalanced t'
Effect-IsBalanced hash i t o t' (replayed x k e s q) h = Quiet-IsBalanced t t' q h
Effect-IsBalanced hash i t o t' (recorded s ne q) h = Quiet-IsBalanced t t' q h
Effect-IsBalanced hash i t o t' (idle s e ref j z q) h = Quiet-IsBalanced t t' q h
Effect-IsBalanced hash i t o t' (posted s e m) h =
    movement-IsBalanced i.wallet_id t t' m.before m.after _ m.entry m.found m.moved m.wallets
      m.entries m.entry_wallet m.entry_amount h

-- The second transaction answers from what is stored and changes nothing.
abbrev pub Reread : Input → Tables → Output → Tables → Type 0
Reread i t o t' = (t' ≡ t) × (x : WagerTransaction) × Known i t x × (o ≡ build_replay_output x)

stored_or_error-Known :
    (i : Input) (t : Tables) (r : Option WagerTransaction) (u : World)
    → u.tables ≡ t
    → select_by_external i.provider_id i.external_transaction_id t ≡ r
    → Ensures (λ x t'. (t' ≡ t) × Known i t x) (stored_or_error r u)
unfolding stored_or_error
stored_or_error-Known i t (some x) u same e = Ensures-pure x u (same, inr e)
stored_or_error-Known i t none u same e = Ensures-raise _ u

found_or-Known :
    (i : Input) (t : Tables) (a : Option WagerTransaction) (v : World)
    → v.tables ≡ t
    → (a ≡ none) ⊎ (a ≡ select_by_key i.idempotency_key t)
    → Ensures
        (λ x t'. (t' ≡ t) × Known i t x)
        (found_or a (get_by_external i.provider_id i.external_transaction_id) v)
unfolding found_or get_by_external
found_or-Known i t (some x) v same (inl e) = cc
found_or-Known i t (some x) v same (inr e) = Ensures-pure x v (same, inl (sym e))
found_or-Known i t none v same e =
    Ensures-query _ _ v (stored_or_error-Known i t _ _ same (rw same refl))

reread_tx-Reread :
    (hash : String) (i : Input) (v : World) → Ensures (Reread i v.tables) (reread_tx hash i v)
unfolding reread_tx get_by_key
reread_tx-Reread hash i v = Ensures-attempt _ _ v λ a u from kept.
    Ensures-bind _ _ _ _ (found_or-Known i v.tables a u kept from) λ x u' (same, known).
      raise_if-Effect _ _ _ u' (raise_if-Effect _ _ _ u' (Ensures-pure _ u' (same, x, known, refl)))

-- What Execute has done: an outcome on the tables that it met, or a replay from those that the
-- rival sessions left.
abbrev pub Done : (Tables → Tables) → String → Input → Tables → Output → Tables → Type 0
Done rival hash i t o t' = Effect hash i t o t' ⊎ Reread i (rival t) o t'

-- On an error nothing of this session stays.
abbrev pub Clean : {A : Type 0} → (Tables → Tables) → Tables → Result A × World → Type 0
Clean rival t (ok o, w) = Unit
Clean rival t (err e, w) = (w.tables ≡ t) ⊎ (w.tables ≡ rival t)

module _ (rival : Tables → Tables) (hash : String) (i : Input) (t : Tables) where
  again-Done :
      (e : Error) (r : Result Output × World)
      → Ensures (Reread i (rival t)) r
      → Ensures (Done rival hash i t) (replay_or_error e r)
  again-Done e (ok o, w) h = record { holds = inr h.holds }
  again-Done e (err x, w) h = record { holds = tt }

  after_tx-Done :
      (r : Result Output × World)
      → Ensures (Effect hash i t) r
      → Unchanged t r
      → Ensures (Done rival hash i t) (after_tx rival hash i r)
  unfolding after_tx
  after_tx-Done (ok o, w) h u = record { holds = inl h.holds }
  after_tx-Done (err e, w) h u = elim (Bool-cases (is_code e duplicate_operation)) [
    | inl twice ↦ rw twice (
        again-Done e _ (
          Ensures-tx _ _ λ v same.
            subst (λ x. Ensures (Reread i x) (reread_tx hash i v)) (same ∙ ap rival u)
              (reread_tx-Reread hash i v)))
    | inr once ↦ rw once (record { holds = tt })
  ]

  again-Clean :
      (e : Error) (r : Result Output × World)
      → Unchanged (rival t) r
      → Clean rival t (replay_or_error e r)
  again-Clean e (ok o, w) h = tt
  again-Clean e (err x, w) h = inr h

  after_tx-Clean :
      (r : Result Output × World) → Unchanged t r → Clean rival t (after_tx rival hash i r)
  unfolding after_tx
  after_tx-Clean (ok o, w) u = tt
  after_tx-Clean (err e, w) u = elim (Bool-cases (is_code e duplicate_operation)) [
    | inl twice ↦ rw twice (
        again-Clean e _ (
          subst
            (λ x.
              Unchanged (rival x)
                (with_tx (reread_tx hash i) (record w { tables = rival w.tables })))
            u (with_tx-Unchanged (reread_tx hash i) (record w { tables = rival w.tables }))))
    | inr once ↦ rw once (inl u)
  ]

module _ (env : Env) (rival : Tables → Tables) (i : Input) (w : World) where
  pub execute-Ensures :
      IsInt64 i.money.amount
      → SoundAt i.wallet_id w.tables
      → Ensures (Done rival (payload_hash env i) i w.tables) (execute env rival i w)
  unfolding execute
  execute-Ensures range sound = elim (Bool-cases (is_opening i.kind)) [
    | inl yes_opening ↦ rw yes_opening (record { holds = tt })
    | inr external ↦ rw external (
        after_tx-Done rival (payload_hash env i) i w.tables _
          (Ensures-tx _ _ λ v same.
            subst
              (λ x.
                Ensures (Effect (payload_hash env i) i x) (execute_tx env (payload_hash env i) i v))
              same
              (execute_tx-Effect env (payload_hash env i) i range v
                (λ b f. sound b (rw (← same) f))))
          (with_tx-Unchanged _ w))
  ]

  pub clean : Clean rival w.tables (execute env rival i w)
  unfolding execute
  clean = elim (Bool-cases (is_opening i.kind)) [
    | inl yes_opening ↦ rw yes_opening (inl refl)
    | inr external ↦
        rw external (after_tx-Clean rival (payload_hash env i) i w.tables _ (with_tx-Unchanged _ w))
  ]

  pub execute-Done :
      (o : Output) (w' : World)
      → IsInt64 i.money.amount
      → SoundAt i.wallet_id w.tables
      → execute env rival i w ≡ (ok o, w')
      → Done rival (payload_hash env i) i w.tables o w'.tables
  execute-Done o w' range sound e = Ensures-ok _ (execute-Ensures range sound) e

  -- If Execute returns an error, then nothing that it wrote stays: the tables are those that it
  -- met, or those that other sessions left.
  pub execute_atomic :
      (e : Error) (w' : World)
      → execute env rival i w ≡ (err e, w')
      → (w'.tables ≡ w.tables) ⊎ (w'.tables ≡ rival w.tables)
  execute_atomic e w' h = subst (Clean rival w.tables) h clean

  -- From tables where no wallet is in debt and every ledger adds up to its wallet's balance,
  -- Execute leaves such tables, for an int64 amount and whatever the rest of its input, its result
  -- and the requests that the database fails, if what other sessions commit in between keeps them
  -- so.
  pub execute-IsBalanced :
      IsInt64 i.money.amount
      → (IsBalanced w.tables → IsBalanced (rival w.tables))
      → IsBalanced w.tables
      → IsBalanced (execute env rival i w).1.tables
  execute-IsBalanced range keeps h =
      go (execute env rival i w) (execute-Ensures range (h.sound i.wallet_id)) clean
    where
      go :
          (r : Result Output × World)
          → Ensures (Done rival (payload_hash env i) i w.tables) r
          → Clean rival w.tables r
          → IsBalanced r.1.tables
      go (ok o, v) d c = elim d.holds [
        | inl e ↦ Effect-IsBalanced _ i w.tables o v.tables e h
        | inr (same, x, known, e) ↦ rw same (keeps h)
      ]
      go (err e, v) d (inl same) = rw same h
      go (err e, v) d (inr same) = rw same (keeps h)
