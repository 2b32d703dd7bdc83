-- ===== src/System/Grows.antt =====
-- What the program never takes back: rows stay, the ledger is only appended to, and a transaction
-- keeps its operation.
use go_challenge_fc.Store.Tables.Messages.{insert_message, set_failure, set_published}
use go_challenge_fc.Base.{
  sym, subst, inr, inl, Option-cases, Bool-cases, ℕ, ◌≡◌, refl, Bool, false, List, [], ◌∷◌, Option,
  none, some, arith,
}
use go_challenge_fc.Errs.{ok}
use go_challenge_fc.Store.Session.{World}
use go_challenge_fc.Store.Tables.Laws.{
  find_passes, insert_wallet_ok, update_wallet_ok, insert_transaction_ok, update_transaction_ok,
  insert_entry_ok, insert_event_ok, insert_message_ok,
}
use go_challenge_fc.Store.Tables.Rows.{Tables, find, any, update_where}
use go_challenge_fc.Store.Tables.Transactions.{
  insert_transaction, update_transaction, select_transaction, transaction_collides,
  transaction_has_id, set_transaction,
}
use go_challenge_fc.Store.Tables.Wallets.{
  insert_wallet, update_wallet, select_wallet, wallet_collides, wallet_has_id, set_wallet,
  scan_wallet,
}
use go_challenge_fc.Store.Writes.{
  Write, Wrote, nothing, further, wallet_inserted, wallet_updated, transaction_inserted,
  transaction_updated, entry_inserted, message_inserted, event_inserted, event_published,
  event_failed,
}
use go_challenge_fc.System.{System, Acts, acts}
use go_challenge_fc.System.Recorded.{acts-Wrote}
use go_challenge_fc.System.Schema.{wallet_fresh, transaction_fresh}
use go_challenge_fc.Transaction.Defs.{WagerTransaction}
use go_challenge_fc.Transaction.Lifecycle.{SameOperation}
use go_challenge_fc.Wallet.{Wallet}

-- The second list is the first one with rows in front.
pub data Extends {A : Type 0} (xs : List A) : List A → Type 0 where
  same : Extends xs xs
  longer : {ys : List A} (y : A) → Extends xs ys → Extends xs (y ∷ ys)

Extends-trans : {A : Type 0} {xs ys zs : List A} → Extends xs ys → Extends ys zs → Extends xs zs
Extends-trans h same = h
Extends-trans h (longer y k) = longer y (Extends-trans h k)

-- The row of a key is there, and is related to the one before.
abbrev pub Remains : {A : Type 0} → (A → A → Type 0) → Option A → Option A → Type 0
Remains R none new = Unit
Remains R (some x) none = ⊥
Remains R (some x) (some y) = R x y

abbrev pub SameOwner : Wallet → Wallet → Type 0
SameOwner w w' = (w'.player_id ≡ w.player_id) × (w'.currency ≡ w.currency)

pub record Grows (t t' : Tables) : Type 0 where
  pub ledger : Extends t.wallet_ledger_entries t'.wallet_ledger_entries
  pub transactions :
      (id : ℕ) → Remains SameOperation (select_transaction id t) (select_transaction id t')
  pub wallets : (id : ℕ) → Remains SameOwner (select_wallet id t) (select_wallet id t')

Remains-refl :
    {A : Type 0} (R : A → A → Type 0) → ((x : A) → R x x) → (r : Option A) → Remains R r r
Remains-refl R h none = tt
Remains-refl R h (some x) = h x

Remains-trans :
    {A : Type 0} (R : A → A → Type 0)
    → ((x y z : A) → R x y → R y z → R x z)
    → (r s t : Option A) → Remains R r s
    → Remains R s t
    → Remains R r t
Remains-trans R h none s t p q = tt
Remains-trans R h (some x) none t p q = elim p [ ]
Remains-trans R h (some x) (some y) none p q = elim q [ ]
Remains-trans R h (some x) (some y) (some z) p q = h x y z p q

same_operation : (x : WagerTransaction) → SameOperation x x
same_operation x = (refl, refl, refl, refl, refl, refl)

SameOperation-trans :
    (x y z : WagerTransaction) → SameOperation x y → SameOperation y z → SameOperation x z
SameOperation-trans x y z p q = ground arith

SameOwner-trans : (x y z : Wallet) → SameOwner x y → SameOwner y z → SameOwner x z
SameOwner-trans x y z p q = ground arith

Grows-refl : (t : Tables) → Grows t t
Grows-refl t = record {
  ledger = same;
  transactions = λ id. Remains-refl SameOperation same_operation _;
  wallets = λ id. Remains-refl SameOwner (λ w. (refl, refl)) _;
}

Grows-trans : {t u v : Tables} → Grows t u → Grows u v → Grows t v
Grows-trans {t} {u} {v} h k = record {
  ledger = Extends-trans h.ledger k.ledger;
  transactions = λ id.
      Remains-trans SameOperation SameOperation-trans _ (select_transaction id u) _
        (h.transactions id) (k.transactions id);
  wallets = λ id.
      Remains-trans SameOwner SameOwner-trans _ (select_wallet id u) _ (h.wallets id)
        (k.wallets id);
}

module _ {A : Type 0} (R : A → A → Type 0) (same_row : (x : A) → R x x) where
  -- An UPDATE whose new row is found by the same key.
  find-update :
      (p q : A → Bool) (f : A → A)
      → ((x : A) → p (f x) ≡ p x)
      → ((x : A) → R x (f x))
      → (xs : List A) → Remains R (find p xs) (find p (update_where q f xs))
  unfolding find update_where
  find-update p q f keeps rel [] = tt
  find-update p q f keeps rel (x ∷ xs) = elim (Bool-cases (q x)) [
    | inl hit ↦ elim (Bool-cases (p x)) [
      | inl found ↦ rw (hit, keeps x, found) (rel x)
      | inr other ↦ rw (hit, keeps x, other) (find-update p q f keeps rel xs)
    ]
    | inr miss ↦ elim (Bool-cases (p x)) [
      | inl found ↦ rw (miss, found) (same_row x)
      | inr other ↦ rw (miss, other) (find-update p q f keeps rel xs)
    ]
  ]

  -- An INSERT of a row that has another key than those that are there.
  find-insert :
      (p : A → Bool) (x : A) (xs : List A)
      → ((y : A) → find p xs ≡ some y → p x ≡ false)
      → Remains R (find p xs) (find p (x ∷ xs))
  unfolding find
  find-insert p x xs h = elim (Option-cases (find p xs)) [
    | inl absent ↦ rw absent tt
    | inr (y, found) ↦ rw (found, h y found) (same_row y)
  ]

-- A row that is found does not collide where no row does.
not_any-find :
    {A : Type 0} (p q : A → Bool) (xs : List A) (y : A)
    → any q xs ≡ false
    → find p xs ≡ some y
    → q y ≡ false
unfolding any find
not_any-find p q [] y h e = cc
not_any-find p q (x ∷ xs) y h e = ground (arith, not_any-find p q xs y)

-- A row of another table changes neither wallets nor transactions.
others-Grow :
    (t t' : Tables)
    → Extends t.wallet_ledger_entries t'.wallet_ledger_entries
    → t'.wager_transactions ≡ t.wager_transactions
    → t'.wallets ≡ t.wallets
    → Grows t t'
unfolding select_transaction select_wallet
others-Grow t t' appended e f = record {
  ledger = appended;
  transactions = λ id. rw e (Remains-refl SameOperation same_operation _);
  wallets = λ id. rw f (Remains-refl SameOwner (λ w. (refl, refl)) _);
}

module _ (t t' : Tables) where
  wallet_inserted-Grows : (w : Wallet) → insert_wallet w t ≡ ok (tt, t') → Grows t t'
  unfolding select_transaction select_wallet scan_wallet wallet_collides
  wallet_inserted-Grows w e = rw (insert_wallet_ok t w t' e) (record {
    ledger = same;
    transactions = λ id. Remains-refl SameOperation same_operation _;
    wallets = λ id.
        find-insert SameOwner (λ x. (refl, refl)) (wallet_has_id id) (scan_wallet w) t.wallets
          λ y found. ground (
            arith,
            find_passes (wallet_has_id id) t.wallets y found,
            not_any-find (wallet_has_id id) (wallet_collides w) t.wallets y (wallet_fresh w t t' e)
                found,
          );
  })

  wallet_updated-Grows : (w : Wallet) → update_wallet w t ≡ ok (tt, t') → Grows t t'
  unfolding select_transaction select_wallet set_wallet
  wallet_updated-Grows w e = rw (update_wallet_ok t w t' e) (record {
    ledger = same;
    transactions = λ id. Remains-refl SameOperation same_operation _;
    wallets = λ id.
        find-update SameOwner (λ x. (refl, refl)) (wallet_has_id id) _ _ (λ x. refl)
          (λ x. (refl, refl)) t.wallets;
  })

  transaction_inserted-Grows :
      (x : WagerTransaction) → insert_transaction x t ≡ ok (tt, t') → Grows t t'
  unfolding select_transaction select_wallet transaction_collides
  transaction_inserted-Grows x e = rw (insert_transaction_ok t x t' e) (record {
    ledger = same;
    transactions = λ id.
        find-insert SameOperation same_operation (transaction_has_id id) x t.wager_transactions
          λ y found. ground (
            arith,
            find_passes (transaction_has_id id) t.wager_transactions y found,
            not_any-find (transaction_has_id id) (transaction_collides x) t.wager_transactions y
                (transaction_fresh x t t' e).0 found,
          );
    wallets = λ id. Remains-refl SameOwner (λ w. (refl, refl)) _;
  })

  transaction_updated-Grows :
      (x : WagerTransaction) → update_transaction x t ≡ ok (tt, t') → Grows t t'
  unfolding select_transaction select_wallet set_transaction
  transaction_updated-Grows x e = rw (update_transaction_ok t x t' e) (record {
    ledger = same;
    transactions = λ id.
        find-update SameOperation same_operation (transaction_has_id id) _ _ (λ y. refl)
          same_operation t.wager_transactions;
    wallets = λ id. Remains-refl SameOwner (λ w. (refl, refl)) _;
  })

  Write-Grows : Write t t' → Grows t t'
  unfolding set_published set_failure insert_message
  Write-Grows (wallet_inserted w e) = wallet_inserted-Grows w e
  Write-Grows (wallet_updated w e) = wallet_updated-Grows w e
  Write-Grows (transaction_inserted x e) = transaction_inserted-Grows x e
  Write-Grows (transaction_updated x e) = transaction_updated-Grows x e
  Write-Grows (entry_inserted x e) =
      rw (insert_entry_ok t x t' e) (others-Grow t _ (longer _ same) refl refl)
  Write-Grows (message_inserted m new e) =
      subst (Grows t) (sym (insert_message_ok m t new t' e)) (others-Grow t _ same refl refl)
  Write-Grows (event_inserted x e) = rw (insert_event_ok t x t' e) (others-Grow t _ same refl refl)
  Write-Grows (event_published now id e) = rw e (others-Grow t _ same refl refl)
  Write-Grows (event_failed now id last delay e) = rw e (others-Grow t _ same refl refl)

Wrote-Grows : {t t' : Tables} → Wrote t t' → Grows t t'
Wrote-Grows {t} nothing = Grows-refl t
Wrote-Grows {t' = t'} (further {u = u} k w) = Grows-trans (Wrote-Grows k) (Write-Grows u t' w)

-- Whatever acts the program carries out, in any order, with any acts of other sessions in between,
-- and whatever the database fails: the ledger is the one before with entries in front of it, none
-- changed or removed; each transaction that was stored is stored under its identifier with the same
-- wallet, kind, amount, key and payload; and each wallet is stored with the same player and
-- currency.
pub acts-Grows : (s : System) (a : Acts) (w : World) → Grows w.tables (acts s a w).tables
acts-Grows s a w = Wrote-Grows (acts-Wrote s a w)
