-- ===== src/Usecase/ProcessWager/Operate.antt =====
-- The money that an operation moves: the `switch input.Kind` against what each kind means.
use go_challenge_fc.Base.{ℕ, ◌≡◌, refl, ◌⊎◌, inl, true, false, Option, none, some, String, arith}
use go_challenge_fc.Base.Int.{ℤ, pos, ◌-ℤ◌, IsInt64}
use go_challenge_fc.Errs.{Result, ok, err}
use go_challenge_fc.Ledger.Laws.{signed}
use go_challenge_fc.Money.Defs.{Money}
use go_challenge_fc.Transaction.Defs.{
  Kind, opening, bet, win, loss, refund, rollback, other, direction_for,
}
use go_challenge_fc.Usecase.ProcessWager.Defs.{moves_money}
use go_challenge_fc.Usecase.ProcessWager.Steps.{operate, reverse}
use go_challenge_fc.Wallet.{Wallet}
use go_challenge_fc.Wallet.Laws.{
  IsSound, Moved, debit-Moves, debit_for_rollback-Moves, credit-Moves,
}

-- What an operation of `amount` does to the balance: a bet takes it, a win or a refund gives it, a
-- rollback undoes a bet, a win or a refund, and the rest leave the balance alone.
abbrev pub effect_of : Kind → Option Kind → ℤ → ℤ
effect_of bet r a = pos 0 -ℤ a
effect_of win r a = a
effect_of refund r a = a
effect_of rollback (some bet) a = a
effect_of rollback (some win) a = pos 0 -ℤ a
effect_of rollback (some refund) a = pos 0 -ℤ a
effect_of _ r a = pos 0

-- What the switch has done: nothing and no direction, or a movement in a direction.
abbrev pub Operated : Kind → Option Kind → Money → Wallet → String × Wallet × Result Money → Type 0
Operated k r m w (direction, w', ok before) =
    ((moves_money direction ≡ false) × (effect_of k r m.amount ≡ pos 0) × (w' ≡ w))
    ⊎ ((moves_money direction ≡ true)
        × (signed direction m.amount ≡ effect_of k r m.amount)
        × (before ≡ w.balance)
        × Moved w w' (effect_of k r m.amount))
Operated k r m w (direction, w', err e) = w' ≡ w

-- A claim about what a computation returns, if it returns no error.
abbrev pub IfOk : {A : Type 0} → (A → Type 0) → Result A → Type 0
IfOk P (ok a) = P a
IfOk P (err e) = Unit

module _ (now : ℕ) (m : Money) (w : Wallet) (sound : IsSound w) (range : IsInt64 m.amount) where
  -- For a sound wallet and an int64 amount, and for every kind: if the switch returns no error, it
  -- has moved the balance by what the kind means, with that balance before, or it has left the
  -- wallet alone, because the kind moves nothing or the wallet refused.
  pub operate-Operated :
      (k : Kind) (r : Option Kind) → IfOk (Operated k r m w) (operate now k r m w)
  unfolding operate reverse direction_for
  operate-Operated bet r = ground (arith, debit-Moves now m w sound range)
  operate-Operated win r = ground (arith, credit-Moves now m w sound range)
  operate-Operated refund r = ground (arith, credit-Moves now m w sound range)
  operate-Operated rollback none = tt
  operate-Operated rollback (some bet) = ground (arith, credit-Moves now m w sound range)
  operate-Operated rollback (some win) =
      ground (arith, debit_for_rollback-Moves now m w sound range)
  operate-Operated rollback (some refund) =
      ground (arith, debit_for_rollback-Moves now m w sound range)
  operate-Operated rollback (some opening) = tt
  operate-Operated rollback (some loss) = tt
  operate-Operated rollback (some rollback) = tt
  operate-Operated rollback (some (other s)) = tt
  operate-Operated loss r = inl (refl, refl, refl)
  operate-Operated opening r = inl (refl, refl, refl)
  operate-Operated (other s) r = inl (refl, refl, refl)
