-- ===== src/Usecase/OpenWallet/Opened.antt =====
-- OpenWalletUseCase.Execute keeps the accounting invariant.
use go_challenge_fc.Base.{
  Bool, ◌⊎◌, List, [], false, ℕ, ◌≡◌, refl, true, ◌∷◌, none, arith, ◌==◌, Bool-cases, inl, inr, ◌+◌,
  sym, subst,
}
use go_challenge_fc.Usecase.ProcessWager.Steps.{when}
use go_challenge_fc.Errs.{Result, err, Result-cases, ok}
use go_challenge_fc.Wallet.{check_currency, new_wallet, rehydrate_wallet, Wallet}
use go_challenge_fc.Store.Session.{
  continue, pure, lift, ◌>>=◌, new_uuid, time_now, with_tx, World, Env,
}
use go_challenge_fc.Store.Atomic.{with_tx-keeps}
use go_challenge_fc.Store.Repos.{create_wallet, create_transaction, create_entry}
use go_challenge_fc.Money.Defs.{Money, is_negative, new_from_int64, zero_money, is_positive}
use go_challenge_fc.Ledger.{rehydrate_entry, Entry, direction_credit}
use go_challenge_fc.Base.Int.{pos, IsInt64, ltb_ℤ, ◌+ℤ◌}
use go_challenge_fc.Ledger.Laws.{new_entry_ok}
use go_challenge_fc.Store.Balance.{IsBalanced}
use go_challenge_fc.Store.Ensures.{
  Ensures, Ensures-weaken, Ensures-bind, Ensures-lift, Ensures-statement, Ensures-uuid,
  Ensures-time, Ensures-pure, Ensures-tx,
}
use go_challenge_fc.Store.Tables.Entries.{scan_entry, signed_amount, sum_entries}
use go_challenge_fc.Store.Tables.Laws.{insert_wallet_ok, insert_transaction_ok, insert_entry_ok}
use go_challenge_fc.Store.Tables.Rows.{Tables, any, find}
use go_challenge_fc.Store.Tables.Wallets.{
  wallet_collides, select_wallet, insert_wallet, scan_wallet, wallet_has_id,
}
use go_challenge_fc.Usecase.Emit.Laws.{emit-ButOutbox}
use go_challenge_fc.Usecase.OpenWallet.{
  create_entry, create_transaction, OpenInput, open_tx, post_opening, announce_opening, open_wallet,
}
use go_challenge_fc.Wallet.Laws.{IsSound}

any_collides-none :
    (w : Wallet) (rs : List Wallet)
    → any (wallet_collides w) rs ≡ false
    → find (wallet_has_id w.id) rs ≡ none
unfolding any find wallet_collides
any_collides-none w [] h = refl
any_collides-none w (r ∷ rs) h = ground (arith, any_collides-none w rs)

-- A wallet that goes in is new.
insert_wallet_fresh :
    (w : Wallet) (t t' : Tables) → insert_wallet w t ≡ ok (tt, t') → select_wallet w.id t ≡ none
unfolding insert_wallet select_wallet
insert_wallet_fresh w t t' h = ground (arith, any_collides-none w t.wallets)

-- The entries of an opening: none for an empty wallet, otherwise one over the initial balance.
abbrev pub Posted : Wallet → List Entry → List Entry → Type 0
Posted w es es' =
    ((ltb_ℤ (pos 0) w.balance.amount ≡ false) × (es' ≡ es))
    ⊎ ((e : Entry) × (es' ≡ e ∷ es) × (e.wallet_id ≡ w.id) × (signed_amount e ≡ w.balance.amount))

-- What an opening does to wallets and ledger.
pub record Opened (w : Wallet) (t t' : Tables) : Type 0 where
  pub fresh : select_wallet w.id t ≡ none
  pub wallets : t'.wallets ≡ scan_wallet w ∷ t.wallets
  pub posted : Posted w t.wallet_ledger_entries t'.wallet_ledger_entries

Opened-IsBalanced :
    (w : Wallet) (t t' : Tables) → IsSound w → Opened w t t' → IsBalanced t → IsBalanced t'
unfolding select_wallet find scan_wallet sum_entries rehydrate_wallet new_from_int64 ◌+ℤ◌
Opened-IsBalanced w t t' sound o h = record {
  sound = λ j x e. elim (Bool-cases (w.id == j)) [
    | inl same ↦ ground (arith, o.wallets, sound.in_range, sound.not_negative, sound.one_currency)
    | inr other ↦ h.sound j x (ground (arith, o.wallets))
  ];
  adds_up = λ j. elim (Bool-cases (w.id == j)) [
    | inl same ↦ elim o.posted [
      | inl p ↦ ground (arith, o.wallets, o.fresh, h.adds_up w.id, sound.not_negative)
      | inr p ↦ ground (arith, o.wallets, o.fresh, h.adds_up w.id)
    ]
    | inr other ↦ elim o.posted [
      | inl p ↦ ground (arith, o.wallets, h.adds_up j)
      | inr p ↦ ground (arith, o.wallets, h.adds_up j)
    ]
  ];
}

post_opening-Posted :
    (env : Env) (i : OpenInput) (w : Wallet) (v : World)
    → IsInt64 i.initial_balance.amount
    → w.balance ≡ i.initial_balance
    → Ensures
        (λ _ t'.
          (t'.wallets ≡ v.tables.wallets)
          × Posted w v.tables.wallet_ledger_entries t'.wallet_ledger_entries)
        (post_opening env i w v)
unfolding post_opening announce_opening create_transaction create_entry scan_entry signed_amount
    rehydrate_entry new_from_int64 zero_money
post_opening-Posted env i w v hm same = Ensures-uuid env _ _ (
    Ensures-time env _ _ (
      Ensures-lift _ _ _ λ x made. Ensures-time env _ _ (
        Ensures-lift _ _ _ λ x' marked. Ensures-statement _ _ _ λ _ t1 ins. Ensures-uuid env _ _ (
          Ensures-time env _ _ (
            Ensures-lift _ _ _ λ e built. Ensures-statement _ _ _ λ _ t2 ins2.
              Ensures-uuid env _ _ (
                Ensures-time env _ _ (
                  Ensures-bind _ _ _ _ (emit-ButOutbox env _ _ _ _ _) λ _ v3 f3.
                    Ensures-uuid env _ _ (
                      Ensures-time env _ _ (
                        Ensures-weaken _ _ (emit-ButOutbox env _ _ _ _ _) λ _ t4 f4.
                          let e1 = insert_transaction_ok v.tables x' t1 ins in
                          let e2 = insert_entry_ok t1 e t2 ins2 in
                          let ok_entry =
                            new_entry_ok _ _ _ _ direction_credit i.initial_balance _ _ hm
                              (ground arith) e built in
                          (
                            ground arith,
                            inr (
                              scan_entry e,
                              ground arith,
                              rw ok_entry.built refl,
                              rw ok_entry.built (ground arith),
                            ),
                          ))))))))))

-- wallet.New gives a sound wallet with the initial balance.
new_wallet_ok :
    (now id player : ℕ) (initial : Money) (w : Wallet)
    → IsInt64 initial.amount
    → new_wallet now id player initial.currency initial ≡ ok w
    → IsSound w × (w.balance ≡ initial)
unfolding new_wallet check_currency is_negative
new_wallet_ok now id player initial w h e = (
  record { in_range = ground arith; not_negative = ground arith; one_currency = ground arith },
  ground arith,
)

Posted-or_not :
    (env : Env) (i : OpenInput) (w : Wallet) (b : Bool) (v : World)
    → b ≡ ltb_ℤ (pos 0) w.balance.amount
    → IsInt64 i.initial_balance.amount
    → w.balance ≡ i.initial_balance
    → Ensures
        (λ _ t'.
          (t'.wallets ≡ v.tables.wallets)
          × Posted w v.tables.wallet_ledger_entries t'.wallet_ledger_entries)
        (when b (post_opening env i w) v)
unfolding when
Posted-or_not env i w true v e hm same = post_opening-Posted env i w v hm same
Posted-or_not env i w false v e hm same = Ensures-pure tt v (refl, inl (sym e, refl))

open_tx-Opened :
    (env : Env) (i : OpenInput) (w : Wallet) (v : World)
    → IsInt64 i.initial_balance.amount
    → w.balance ≡ i.initial_balance
    → Ensures (λ _ t'. Opened w v.tables t') (open_tx env i w v)
unfolding open_tx create_wallet is_positive
open_tx-Opened env i w v hm same = Ensures-statement _ _ _ λ _ t1 ins.
    Ensures-weaken _ _ (Posted-or_not env i w _ _ (rw same refl) hm same) λ _ t' (ws, p).
      let e1 = insert_wallet_ok v.tables w t1 ins in
      record {
        fresh = insert_wallet_fresh w v.tables t1 ins;
        wallets = ground arith;
        posted = subst (λ es. Posted w es t'.wallet_ledger_entries) (ground arith) p;
      }

-- What follows the transaction leaves its tables.
same_world : {A B : Type 0} (b : B) (r : Result A × World) → (continue (λ _. pure b) r).1 ≡ r.1
unfolding pure
same_world b (ok a, w) = refl
same_world b (err e, w) = refl

module _ (env : Env) (i : OpenInput) (w : World) where
  -- From tables where no wallet is in debt and every ledger adds up to its wallet's balance,
  -- opening a wallet with an int64 amount leaves such tables, whatever its result and the requests
  -- that the database fails.
  pub open_wallet-IsBalanced :
      IsInt64 i.initial_balance.amount
      → IsBalanced w.tables
      → IsBalanced (open_wallet env i w).1.tables
  unfolding open_wallet ◌>>=◌ lift new_uuid time_now
  open_wallet-IsBalanced range h =
      elim (Result-cases (
        new_wallet (env.clock (w.draws + 1)) (env.uuid w.draws) i.player_id
          i.initial_balance.currency i.initial_balance)) [
            | inl (x, made) ↦
                let (sound, same) = new_wallet_ok _ _ _ _ _ range made in
                rw made (
                  subst (λ (u : World). IsBalanced u.tables)
                    (sym (same_world _ (with_tx (open_tx env i x) _)))
                    (with_tx-keeps IsBalanced (open_tx env i x) _ h (
                      Ensures-tx _ _ λ v e.
                        Ensures-weaken _ _ (open_tx-Opened env i x v range same)
                          λ _ t' o. Opened-IsBalanced x v.tables t' sound o (rw e h))))
            | inr (x, failed) ↦ rw failed h
          ]
