-- ===== src/Ledger/Laws.antt =====
-- What ledger.New accepts and builds.
use go_challenge_fc.Base.{
  false, inr, inl, Bool-cases, true, ℕ, ◌≡◌, ◌⊎◌, String, arith, eq_iff, str_eq, if◌then◌else◌,
}
use go_challenge_fc.Base.Int.{ℤ, pos, ◌+ℤ◌, ◌-ℤ◌, ltb_ℤ, IsInt64}
use go_challenge_fc.Errs.{Result-cases, ok}
use go_challenge_fc.Ledger.{
  equal, check_direction, Entry, new_entry, direction_debit, direction_credit,
}
use go_challenge_fc.Money.Arithmetic.{add_ok, sub_ok, add_fits, sub_fits}
use go_challenge_fc.Money.Defs.{Money, add, sub, equal, is_positive}

-- The amount with the sign of its direction.
abbrev pub signed : String → ℤ → ℤ
signed direction a = if str_eq direction direction_credit then a else pos 0 -ℤ a

-- What an accepted entry is: the arguments, with an amount above 0, one of the two directions, and
-- a balance after it that is the balance before moved by the amount.
pub record IsEntry (id now wallet txn : ℕ) (direction : String) (m before after : Money) (e : Entry)
    : Type 0 where
  pub built : e ≡ record {
    id = id;
    wallet_id = wallet;
    transaction_id = txn;
    direction = direction;
    money = m;
    balance_before = before;
    balance_after = after;
    created_at = now;
  }
  pub is_positive : ltb_ℤ (pos 0) m.amount ≡ true
  pub one_direction : (direction ≡ direction_debit) ⊎ (direction ≡ direction_credit)
  pub adds_up : after.amount ≡ before.amount +ℤ signed direction m.amount

debit-ne-credit : (d : String) → str_eq d direction_debit ≡ true → str_eq d direction_credit ≡ false
debit-ne-credit d h = rw ((eq_iff d direction_debit).0 h)

module _ (direction : String) (m before after : Money) (hm : IsInt64 m.amount)
    (hb : IsInt64 before.amount) where
  check_direction_ok :
      check_direction direction m before after ≡ ok tt
      → ((direction ≡ direction_debit) ⊎ (direction ≡ direction_credit))
        × (after.amount ≡ before.amount +ℤ signed direction m.amount)
  unfolding check_direction ◌-ℤ◌ ◌+ℤ◌
  check_direction_ok h = elim (Bool-cases (str_eq direction direction_debit)) [
    | inl is_debit ↦ elim (Result-cases (sub before m)) [
      | inl (x, e) ↦ ground (
        arith,
        eq_iff direction direction_debit,
        debit-ne-credit direction is_debit,
        sub_ok before m {r = x} hb hm e,
      )
      | inr (x, e) ↦ ground arith
    ]
    | inr not_debit ↦ elim (Bool-cases (str_eq direction direction_credit)) [
      | inl is_credit ↦ elim (Result-cases (add before m)) [
        | inl (x, e) ↦
            ground (arith, eq_iff direction direction_credit, add_ok before m {r = x} hb hm e)
        | inr (x, e) ↦ ground arith
      ]
      | inr neither ↦ ground arith
    ]
  ]

module _ (direction : String) (m before after : Money) (hm : IsInt64 m.amount)
    (hb : IsInt64 before.amount) where
  add_side :
      m.currency ≡ before.currency
      → after.currency ≡ before.currency
      → IsInt64 after.amount
      → after.amount ≡ before.amount +ℤ m.amount
      → check_direction direction_credit m before after ≡ ok tt
  unfolding check_direction equal
  add_side cm ca fits e = ground (arith, add_fits before m, eq_iff before.currency after.currency)

  sub_side :
      m.currency ≡ before.currency
      → after.currency ≡ before.currency
      → ltb_ℤ (pos 0) m.amount ≡ true
      → IsInt64 after.amount
      → after.amount ≡ before.amount -ℤ m.amount
      → check_direction direction_debit m before after ≡ ok tt
  unfolding check_direction equal
  sub_side cm ca p fits e = ground (arith, sub_fits before m, eq_iff before.currency after.currency)

  checks :
      m.currency ≡ before.currency
      → after.currency ≡ before.currency
      → ltb_ℤ (pos 0) m.amount ≡ true
      → IsInt64 after.amount
      → (direction ≡ direction_debit) ⊎ (direction ≡ direction_credit)
      → after.amount ≡ before.amount +ℤ signed direction m.amount
      → check_direction direction m before after ≡ ok tt
  unfolding ◌-ℤ◌ ◌+ℤ◌
  checks cm ca p fits (inl d) e = rw d (
      sub_side cm ca p fits
        (ground (arith, debit-ne-credit direction ((eq_iff direction direction_debit).1 d))))
  checks cm ca p fits (inr d) e =
      rw d (add_side cm ca fits (ground (arith, (eq_iff direction direction_credit).1 d)))

module _ (id now wallet txn : ℕ) (direction : String) (m before after : Money)
    (hm : IsInt64 m.amount) (hb : IsInt64 before.amount) where
  -- For int64 amounts, an entry that ledger.New accepts has its arguments, an amount above 0, one
  -- of the two directions, and a balance after it that is the balance before moved by the amount.
  pub new_entry_ok :
      (e : Entry)
      → new_entry id now wallet txn direction m before after ≡ ok e
      → IsEntry id now wallet txn direction m before after e
  unfolding new_entry
  new_entry_ok e h = elim (Result-cases (check_direction direction m before after)) [
    | inl (x, c) ↦ ground (arith, check_direction_ok direction m before after hm hb c)
    | inr (x, c) ↦ ground arith
  ]

  -- ledger.New accepts an entry over an amount above 0, in one currency, in one of the two
  -- directions, whose balance after it is an int64 value and the balance before moved by the
  -- amount.
  pub new_entry_accepts :
      m.currency ≡ before.currency
      → after.currency ≡ before.currency
      → ltb_ℤ (pos 0) m.amount ≡ true
      → IsInt64 after.amount
      → (direction ≡ direction_debit) ⊎ (direction ≡ direction_credit)
      → after.amount ≡ before.amount +ℤ signed direction m.amount
      → new_entry id now wallet txn direction m before after
        ≡ ok (record {
          id = id;
          wallet_id = wallet;
          transaction_id = txn;
          direction = direction;
          money = m;
          balance_before = before;
          balance_after = after;
          created_at = now;
        })
  unfolding new_entry is_positive ◌-ℤ◌ ◌+ℤ◌
  new_entry_accepts cm ca p fits one e =
      let checked : check_direction direction m before after ≡ ok tt =
        checks direction m before after hm hb cm ca p fits one e in
      ground
        (arith, checked, p, eq_iff m.currency before.currency, eq_iff m.currency after.currency)
