-- ===== src/Store/Balance.antt =====
-- The accounting invariant of the database: no wallet is in debt, and the ledger of each wallet
-- adds up to its balance.
use go_challenge_fc.Base.{
  ℕ, ◌≡◌, ◌≢◌, refl, List, [], ◌∷◌, Option, none, some, arith, ◌==◌, Bool-cases, inl, inr,
}
use go_challenge_fc.Base.Int.{ℤ, pos, ◌+ℤ◌}
use go_challenge_fc.Ledger.{Entry}
use go_challenge_fc.Store.Tables.Entries.{signed_amount, sum_entries}
use go_challenge_fc.Store.Tables.Rows.{Tables, find, update_where}
use go_challenge_fc.Store.Tables.Wallets.{select_wallet, set_wallet, wallet_has_id}
use go_challenge_fc.Wallet.{Wallet}
use go_challenge_fc.Wallet.Laws.{IsSound, Moved}

-- The balance of a wallet, 0 if there is no such wallet.
abbrev pub amount_of : Option Wallet → ℤ
amount_of none = pos 0
amount_of (some w) = w.balance.amount

pub record IsBalanced (t : Tables) : Type 0 where
  pub sound : (id : ℕ) (w : Wallet) → select_wallet id t ≡ some w → IsSound w
  pub adds_up : (id : ℕ) → sum_entries id t.wallet_ledger_entries ≡ amount_of (select_wallet id t)

-- An UPDATE by id changes the row that has it.
find-update_self :
    (id : ℕ) (w r : Wallet) (xs : List Wallet)
    → find (wallet_has_id id) xs ≡ some r
    → find (wallet_has_id id) (update_where (wallet_has_id id) (set_wallet w) xs)
      ≡ some (set_wallet w r)
unfolding find update_where set_wallet
find-update_self id w r [] h = cc
find-update_self id w r (x ∷ xs) h = ground (arith, find-update_self id w r xs)

find-update_ne :
    (id j : ℕ) (w : Wallet) (xs : List Wallet)
    → id ≢ j
    → find (wallet_has_id id) (update_where (wallet_has_id j) (set_wallet w) xs)
      ≡ find (wallet_has_id id) xs
unfolding find update_where set_wallet
find-update_ne id j w [] h = refl
find-update_ne id j w (x ∷ xs) h = ground (arith, find-update_ne id j w xs h)

module _ (id : ℕ) (t t' : Tables) (before after : Wallet) (delta : ℤ) (entry : Entry)
    (found : select_wallet id t ≡ some before) (moved : Moved before after delta)
    (wallets : t'.wallets ≡ update_where (wallet_has_id id) (set_wallet after) t.wallets)
    (entries : t'.wallet_ledger_entries ≡ entry ∷ t.wallet_ledger_entries)
    (entry_wallet : entry.wallet_id ≡ id) (entry_amount : signed_amount entry ≡ delta) where
  updated_self : select_wallet id t' ≡ some (set_wallet after before)
  unfolding select_wallet
  updated_self = rw wallets (find-update_self id after before t.wallets found)

  updated_ne : (j : ℕ) → j ≢ id → select_wallet j t' ≡ select_wallet j t
  unfolding select_wallet
  updated_ne j h = rw wallets (find-update_ne j id after t.wallets h)

  set_wallet-IsSound : IsSound (set_wallet after before)
  unfolding set_wallet
  set_wallet-IsSound = record {
    in_range = moved.sound.in_range;
    not_negative = moved.sound.not_negative;
    one_currency = refl;
  }

  -- A movement that the ledger records keeps the invariant.
  pub movement-IsBalanced : IsBalanced t → IsBalanced t'
  unfolding sum_entries set_wallet ◌+ℤ◌
  movement-IsBalanced h = record {
    sound = λ j w e. elim (Bool-cases (j == id)) [
      | inl same ↦ ground (arith, updated_self, set_wallet-IsSound)
      | inr other ↦ h.sound j w (ground (arith, updated_ne j))
    ];
    adds_up = λ j. elim (Bool-cases (j == id)) [
      | inl same ↦ ground (arith, updated_self, h.adds_up id, moved.amount)
      | inr other ↦ rw (entries) (ground (arith, updated_ne j, h.adds_up j))
    ];
  }
