-- ===== src/Usecase/ProcessWager/Covered.antt =====
-- Bets and wins that a wallet covers.
use go_challenge_fc.Base.{
  ℕ, ◌≡◌, ◌≢◌, ◌⊎◌, inl, inr, refl, Bool, true, false, none, String, str_eq, ◌==◌, arith, eq_iff,
}
use go_challenge_fc.Base.Int.{ℤ, pos, ◌+ℤ◌, ◌-ℤ◌, ◌≤ℤ◌, ltb_ℤ, IsInt64}
use go_challenge_fc.Errs.{ok}
use go_challenge_fc.Ledger.{Entry, direction_debit, direction_credit}
use go_challenge_fc.Ledger.Laws.{signed}
use go_challenge_fc.Money.Defs.{is_positive, Money}
use go_challenge_fc.Store.Session.{Env}
use go_challenge_fc.Store.Tables.Messages.{event_has_id}
use go_challenge_fc.Store.Tables.Rows.{Tables, any, in_currency_code}
use go_challenge_fc.Store.Tables.Transactions.{transaction_has_id}
use go_challenge_fc.Transaction.Defs.{
  validate_external_money, is_known, bet, win, is_opening, requires_reference, Kind,
}
use go_challenge_fc.Usecase.ProcessWager.Defs.{Input, moves_money}
use go_challenge_fc.Usecase.ProcessWager.Operate.{effect_of}
use go_challenge_fc.Usecase.ProcessWager.Steps.{operate}
use go_challenge_fc.Wallet.{Wallet}
use go_challenge_fc.Wallet.Laws.{IsSound, with_amount, debit-eq-meaning, credit-eq-meaning}

-- An operation that moves money and refers to no other.
abbrev pub is_simple : Kind → Bool
is_simple bet = true
is_simple win = true
is_simple _ = false

abbrev pub direction_of : Kind → String
direction_of bet = direction_debit
direction_of _ = direction_credit

-- The balance after an operation of `amount`.
abbrev pub after : Kind → Wallet → ℤ → Money
after k u amount = record {
  amount = u.balance.amount +ℤ effect_of k none amount;
  currency = u.balance.currency;
}

module _ (now : ℕ) (m : Money) (u : Wallet) (sound : IsSound u) (range : IsInt64 m.amount)
    (positive : ltb_ℤ (pos 0) m.amount ≡ true) (currency : m.currency ≡ u.currency) where
  pub operate_simple :
      (k : Kind)
      → is_simple k ≡ true
      → pos 0 ≤ℤ (after k u m.amount).amount
      → IsInt64 (after k u m.amount).amount
      → operate now k none m u
        ≡ ok (direction_of k, with_amount now (after k u m.amount).amount u, ok u.balance)
  unfolding operate ◌+ℤ◌ ◌-ℤ◌
  operate_simple bet s low fits =
      rw (debit-eq-meaning now m u sound range)
        (ground (arith, eq_iff m.currency u.currency, sound.in_range))
  operate_simple win s low fits =
      rw (credit-eq-meaning now m u sound range)
        (ground (arith, eq_iff m.currency u.currency, sound.in_range))
  operate_simple _ s low fits = cc

-- A valid bet or win for the wallet `u`, which covers it.
pub record IsCovered (i : Input) (u : Wallet) : Type 0 where
  pub simple : is_simple i.kind ≡ true
  pub wallet : (i.wallet_id == 0) ≡ false
  pub player : (i.player_id == 0) ≡ false
  pub provider : str_eq i.provider_id "" ≡ false
  pub operation : str_eq i.external_transaction_id "" ≡ false
  pub key : str_eq i.idempotency_key "" ≡ false
  pub range : IsInt64 i.money.amount
  pub positive : ltb_ℤ (pos 0) i.money.amount ≡ true
  pub known_currency : in_currency_code i.money.currency ≡ true
  pub owner : u.player_id ≡ i.player_id
  pub currency : u.currency ≡ i.money.currency
  pub low : pos 0 ≤ℤ (after i.kind u i.money.amount).amount
  pub fits : IsInt64 (after i.kind u i.money.amount).amount
  pub version : ltb_ℤ (pos 0) u.version ≡ true
  pub next_version : IsInt64 (u.version +ℤ pos 1)

-- The identifiers that a session will draw are not used in the tables, and are all different.
pub record Unused (env : Env) (t : Tables) : Type 0 where
  pub transaction : (d : ℕ) → any (transaction_has_id (env.uuid d)) t.wager_transactions ≡ false
  pub entry : (d : ℕ) → any (λ (e : Entry). e.id == env.uuid d) t.wallet_ledger_entries ≡ false
  pub posting :
      (d : ℕ) → any (λ (e : Entry). e.transaction_id == env.uuid d) t.wallet_ledger_entries ≡ false
  pub event : (d : ℕ) → any (event_has_id (env.uuid d)) t.outbox_events ≡ false
  pub not_nil : (d : ℕ) → (env.uuid d == 0) ≡ false
  pub apart : (c d : ℕ) → c ≢ d → (env.uuid c == env.uuid d) ≡ false

-- What the code asks of the kind of such an operation.
pub kind_facts :
    (k : Kind)
    → is_simple k ≡ true
    → (is_opening k ≡ false)
      × (requires_reference k ≡ false)
      × (is_known k ≡ true)
      × (moves_money (direction_of k) ≡ true)
      × ((direction_of k ≡ direction_debit) ⊎ (direction_of k ≡ direction_credit))
      × ((a : ℤ) → signed (direction_of k) a ≡ effect_of k none a)
      × ((m : Money) → ltb_ℤ (pos 0) m.amount ≡ true → validate_external_money k m ≡ ok tt)
unfolding requires_reference is_known validate_external_money is_positive
kind_facts bet s = (refl, refl, refl, refl, inl refl, (λ a. refl), λ m p. rw p refl)
kind_facts win s = (refl, refl, refl, refl, inr refl, (λ a. refl), λ m p. rw p refl)
kind_facts _ s = cc
