-- ===== src/Usecase/ProcessWager/Posting.antt =====
-- The wallet, the ledger entry and the events of an operation that is processed.
use go_challenge_fc.Base.{ℕ, ◌≡◌, ◌∷◌, String, arith}
use go_challenge_fc.Base.Int.{IsInt64}
use go_challenge_fc.Ledger.{Entry}
use go_challenge_fc.Ledger.Laws.{signed, new_entry_ok}
use go_challenge_fc.Money.Defs.{Money}
use go_challenge_fc.Store.Ensures.{
  Ensures, Ensures-weaken, Ensures-lift, Ensures-statement, Ensures-uuid, Ensures-time,
}
use go_challenge_fc.Store.Repos.{save_wallet, create_entry}
use go_challenge_fc.Store.Session.{World, Env}
use go_challenge_fc.Store.Tables.Entries.{scan_entry, signed_amount}
use go_challenge_fc.Store.Tables.Laws.{update_wallet_ok, insert_entry_ok}
use go_challenge_fc.Store.Tables.Rows.{Tables, update_where}
use go_challenge_fc.Store.Tables.Wallets.{wallet_has_id, set_wallet}
use go_challenge_fc.Usecase.Emit.Laws.{emit-ButOutbox}
use go_challenge_fc.Usecase.ProcessWager.Defs.{Input}
use go_challenge_fc.Usecase.ProcessWager.Steps.{post_movement}
use go_challenge_fc.Wallet.{Wallet}

-- The wallet is saved and one entry about it is added.
pub record Posting (txn : ℕ) (i : Input) (direction : String) (w : Wallet) (t t' : Tables)
    : Type 0 where
  pub entry : Entry
  pub wallets : t'.wallets ≡ update_where (wallet_has_id w.id) (set_wallet w) t.wallets
  pub entries : t'.wallet_ledger_entries ≡ entry ∷ t.wallet_ledger_entries
  pub entry_wallet : entry.wallet_id ≡ i.wallet_id
  pub entry_transaction : entry.transaction_id ≡ txn
  pub entry_amount : signed_amount entry ≡ signed direction i.money.amount

pub post_movement-Posting :
    (env : Env) (txn : ℕ) (i : Input) (direction : String) (before : Money) (w : Wallet) (v : World)
    → IsInt64 i.money.amount
    → IsInt64 before.amount
    → Ensures
        (λ _ t'.
          Posting txn i direction w v.tables t'
          × (t'.wager_transactions ≡ v.tables.wager_transactions))
        (post_movement env txn i direction before w v)
unfolding post_movement save_wallet create_entry scan_entry signed_amount
post_movement-Posting env txn i direction before w v hm hb = Ensures-statement _ _ _ λ _ t1 upd.
    Ensures-uuid env _ _ (
      Ensures-time env _ _ (
        Ensures-lift _ _ _ λ e built. Ensures-statement _ _ _ λ _ t2 ins. Ensures-uuid env _ _ (
          Ensures-time env _ _ (
            Ensures-weaken _ _ (emit-ButOutbox env _ _ _ _ _) λ _ t3 f.
              let e1 = update_wallet_ok v.tables w t1 upd in
              let e2 = insert_entry_ok t1 e t2 ins in
              let ok_entry =
                new_entry_ok _ _ _ _ direction i.money before w.balance hm hb e built in
              (
                record {
                  entry = scan_entry e;
                  wallets = ground arith;
                  entries = ground arith;
                  entry_wallet = rw ok_entry.built;
                  entry_transaction = rw ok_entry.built;
                  entry_amount = rw ok_entry.built;
                },
                ground arith,
              )))))
