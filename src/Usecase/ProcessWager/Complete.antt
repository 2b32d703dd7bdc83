-- ===== src/Usecase/ProcessWager/Complete.antt =====
-- From the mutation of the wallet to the output, every run has one of the outcomes of `Effect`.
use go_challenge_fc.Base.{ℕ, ◌≡◌, refl, Bool, true, false, String, Option, none, some, arith}
use go_challenge_fc.Base.Int.{pos, IsInt64}
use go_challenge_fc.Ledger.Laws.{signed}
use go_challenge_fc.Money.Defs.{Money}
use go_challenge_fc.Store.Ensures.{
  Ensures, Ensures-weaken, Ensures-pure, Ensures-bind, Ensures-lift, Ensures-statement,
  Ensures-uuid, Ensures-time,
}
use go_challenge_fc.Store.Repos.{create_transaction}
use go_challenge_fc.Store.Session.{M, World, Env}
use go_challenge_fc.Store.Tables.Laws.{insert_transaction_ok, select_wallet-id}
use go_challenge_fc.Store.Tables.Rows.{Tables}
use go_challenge_fc.Store.Tables.Wallets.{select_wallet}
use go_challenge_fc.Transaction.Defs.{WagerTransaction, Kind, processed}
use go_challenge_fc.Usecase.Emit.Laws.{emit-ButOutbox, ButOutbox}
use go_challenge_fc.Usecase.ProcessWager.Defs.{Input, Output, moves_money}
use go_challenge_fc.Usecase.ProcessWager.Effect.{Movement, Justified, Effect, idle, posted}
use go_challenge_fc.Usecase.ProcessWager.Operate.{effect_of}
use go_challenge_fc.Usecase.ProcessWager.Posting.{Posting, post_movement-Posting}
use go_challenge_fc.Usecase.ProcessWager.Refines.{
  IsFor, mark_processed-Marked, Stored-row, Stored-new,
}
use go_challenge_fc.Usecase.ProcessWager.Steps.{new_output, when, announce, complete}
use go_challenge_fc.Wallet.{Wallet}
use go_challenge_fc.Wallet.Laws.{IsSound, Moved}

module _ {Q : Unit {0} → Tables → Type 0} where
  when-true :
      (b : Bool) (m : M (Unit {0})) (v : World)
      → b ≡ true
      → Ensures Q (m v)
      → Ensures Q (when b m v)
  unfolding when
  when-true true m v e h = h
  when-true false m v e h = cc

when-false :
    (b : Bool) (m : M (Unit {0})) (v : World)
    → b ≡ false
    → Ensures (λ _ t. t ≡ v.tables) (when b m v)
unfolding when
when-false true m v e = cc
when-false false m v e = Ensures-pure tt v refl

-- The last event touches the outbox alone.
announce-ButOutbox :
    (env : Env) (txn : ℕ) (i : Input) (w : Wallet) (v : World)
    → Ensures
        (λ o t'. ButOutbox v.tables t' × (o ≡ new_output txn processed w.balance none))
        (announce env txn i w v)
unfolding announce
announce-ButOutbox env txn i w v = Ensures-uuid env _ _ (
    Ensures-time env _ _
      (Ensures-bind _ _ _ _ (emit-ButOutbox env _ _ _ _ _) λ _ u f. Ensures-pure _ _ (f, refl)))

module _ (env : Env) (hash : String) (i : Input) (x : WagerTransaction) (is_for : IsFor hash i x)
    (range : IsInt64 i.money.amount) (t : Tables) (ref : Option Kind)
    (justified : Justified i t ref) (w : Wallet) (found : select_wallet i.wallet_id t ≡ some w)
    (sound : IsSound w) where
  -- The movement that a posting makes of an operation.
  Posting-Movement :
      (direction : String) (w' : Wallet) (t' : Tables) (o : Output)
      → signed direction i.money.amount ≡ effect_of i.kind ref i.money.amount
      → Moved w w' (effect_of i.kind ref i.money.amount)
      → Posting x.id i direction w' t t'
      → o.transaction_id ≡ x.id
      → o.balance ≡ w'.balance
      → Movement i t o t'
  Posting-Movement direction w' t' o sign moved p id balance = record {
    ref = ref;
    before = w;
    after = w';
    entry = p.entry;
    found = found;
    justified = justified;
    moved = moved;
    wallets = ground (arith, select_wallet-id i.wallet_id t w found, moved.same_id, p.wallets);
    entries = p.entries;
    entry_wallet = p.entry_wallet;
    entry_transaction = ground arith;
    entry_amount = ground arith;
    balance = balance;
  }

  -- What the tables are once the transaction is stored and the last event is out.
  pub complete-idle :
      (direction : String) (before : Money) (w' : Wallet) (v : World)
      → v.tables ≡ t
      → moves_money direction ≡ false
      → effect_of i.kind ref i.money.amount ≡ pos 0
      → Ensures (Effect hash i t) (complete env x i direction before w' v)
  unfolding complete create_transaction
  complete-idle direction before w' v same still nothing = Ensures-time env _ _ (
      Ensures-lift _ _ _ λ y e. Ensures-statement _ _ _ λ _ t1 ins.
        Ensures-bind _ _ _ _ (when-false _ _ _ still) λ _ u unmoved.
          Ensures-weaken _ _ (announce-ButOutbox env _ _ _ _) λ o t' f.
            let q =
              Stored-row hash i x y is_for processed (mark_processed-Marked _ _ x y e) t t1 t' o
                (ground arith) (ground (arith, insert_transaction_ok v.tables y t1 ins))
                (ground arith) in
            idle q.0 (ground arith) ref justified nothing q.1)

  pub complete-posted :
      (direction : String) (w' : Wallet) (v : World)
      → v.tables ≡ t
      → moves_money direction ≡ true
      → signed direction i.money.amount ≡ effect_of i.kind ref i.money.amount
      → Moved w w' (effect_of i.kind ref i.money.amount)
      → Ensures (Effect hash i t) (complete env x i direction w.balance w' v)
  unfolding complete create_transaction
  complete-posted direction w' v same moves sign moved = Ensures-time env _ _ (
      Ensures-lift _ _ _ λ y e. Ensures-statement _ _ _ λ _ t1 ins.
        Ensures-bind _ _ _ _
          (when-true _ _ _ moves
            (post_movement-Posting env x.id i direction w.balance w' _ range sound.in_range))
          λ _ u (p, kept). Ensures-weaken _ _ (announce-ButOutbox env _ _ _ _) λ o t' f.
            let row = insert_transaction_ok v.tables y t1 ins in
            let post : Posting x.id i direction w' t t' = record {
              entry = p.entry;
              wallets = ground arith;
              entries = ground arith;
              entry_wallet = p.entry_wallet;
              entry_transaction = p.entry_transaction;
              entry_amount = p.entry_amount;
            } in
            posted
              (Stored-new hash i x y is_for processed (mark_processed-Marked _ _ x y e) t t' o
                (ground arith) (ground arith))
              (ground arith)
              (Posting-Movement direction w' t' o sign moved post (ground arith) (ground arith)))
