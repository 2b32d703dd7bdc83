-- ===== src/Examples/Amounts.antt =====
-- Amounts of money, wallets, entries and transactions.
use mathlib.Core.Logic.{◌↔◌}
use go_challenge_fc.Money.Text.ForeignDigit.{parse-foreign_digit}
use go_challenge_fc.Money.Text.{parse_decimal_string, digits, print, new_from_external_string}
use go_challenge_fc.Base.{◌%◌, ◌-◌, ℕ, false, ◌∷◌, [], ◌++◌, ◌*◌, ◌≡◌, ◌≢◌, refl, arith, true, some}
use go_challenge_fc.Base.Int.{IsInt64, min_int64, wrap64, pos, ◌+ℤ◌, ◌-ℤ◌}
use go_challenge_fc.Errs.{ok, insufficient_funds}
use go_challenge_fc.Store.Tables.Transactions.{transaction_row_ok, set_transaction}
use go_challenge_fc.Store.Tables.Transactions.Columns.{
  create_row, update_row, with_times, scan_transaction, scan-create,
}
use go_challenge_fc.Examples.{waiting_row, processed, unicode, reais, alice, bet_row}
use go_challenge_fc.Money.Arithmetic.{add_exact, sub_exact}
use go_challenge_fc.Money.Defs.{brl, add, sub, valid_currency}
use go_challenge_fc.Money.Text.RoundTrip.{parse-print}
use go_challenge_fc.Transaction.Defs.{
  WagerTransaction, mark_processed, increment_retry, is_terminal,
}
use go_challenge_fc.Transaction.Lifecycle.{
  Steps, none, more, processing, retrying, may_become, SameOperation, Steps-lifecycle,
}
use go_challenge_fc.Usecase.RetryPending.Backoff.{backoff, next_delay-eq-backoff}
use go_challenge_fc.Usecase.RetryPending.Defs.{next_delay}
use go_challenge_fc.Wallet.{debit, credit}
use go_challenge_fc.Wallet.Laws.{
  IsSound, debit_meaning, credit_meaning, debit-eq-meaning, credit-eq-meaning,
}

alice-IsSound : IsSound alice
alice-IsSound = record { in_range = ground arith; not_negative = ground arith; one_currency = refl }

parse-print_example : new_from_external_string unicode (print (reais 1050)) "BRL" ≡ ok (reais 1050)
unfolding valid_currency
parse-print_example = parse-print unicode 1050 "BRL" refl (ground arith)

add_exact_example : (add (reais 10) (reais 20) ≡ ok (reais 30)) ↔ (
    (brl ≡ brl)
    × IsInt64 (pos 10 +ℤ pos 20)
    × (reais 30 ≡ record { amount = pos 10 +ℤ pos 20; currency = "BRL" }))
add_exact_example = add_exact (reais 10) (reais 20) (ground arith) (ground arith) (reais 30)

sub_exact_example : (sub (reais 30) (reais 20) ≡ ok (reais 10)) ↔ (
    (brl ≡ brl)
    × (pos 20 ≢ min_int64)
    × IsInt64 (pos 30 -ℤ pos 20)
    × (reais 10 ≡ record { amount = pos 30 -ℤ pos 20; currency = "BRL" }))
sub_exact_example = sub_exact (reais 30) (reais 20) (ground arith) (ground arith) (reais 10)

debit-eq-meaning_example :
    debit 5 (reais 3000) alice ≡ debit_meaning insufficient_funds 5 (reais 3000) alice
debit-eq-meaning_example = debit-eq-meaning 5 (reais 3000) alice alice-IsSound (ground arith)

credit-eq-meaning_example : credit 5 (reais 3000) alice ≡ credit_meaning 5 (reais 3000) alice
credit-eq-meaning_example = credit-eq-meaning 5 (reais 3000) alice alice-IsSound (ground arith)

abbrev retried_row : WagerTransaction
retried_row = record waiting_row { retry_count = pos 2; retry_after = some 9; updated_at = 8 }

abbrev settled_row : WagerTransaction
unfolding mark_processed
settled_row = record retried_row {
  status = processed;
  result_balance = some (reais 10000);
  updated_at = 10;
}

waiting-Steps : Steps waiting_row settled_row
unfolding mark_processed increment_retry is_terminal wrap64 ◌+ℤ◌
waiting-Steps = more (retrying 8 9 refl) (more (processing 10 (reais 10000) refl) none)

Steps-lifecycle_example :
    (may_become waiting_row.status settled_row.status ≡ true)
    × SameOperation waiting_row settled_row
Steps-lifecycle_example = Steps-lifecycle waiting_row settled_row waiting-Steps

next_delay-eq-backoff_example : next_delay 7 ≡ pos (backoff 7)
next_delay-eq-backoff_example = next_delay-eq-backoff 7 (ground arith)

-- 10 and the digit three of Arabic
parse-foreign_digit_example :
    parse_decimal_string unicode (digits 10 ++ (b'.' ∷ 1635 ∷ [])) false ≡ ok (pos (10 * 100))
parse-foreign_digit_example =
    parse-foreign_digit unicode 1635 (ground arith) (ground arith) refl 10 (ground arith)

-- Times are kept to a thousand of their units.
abbrev micros : ℕ → ℕ
micros t = t - t % 1000

scan-create_example :
    (scan_transaction (create_row micros waiting_row) ≡ some (with_times micros waiting_row))
    × (scan_transaction (update_row micros bet_row (create_row micros waiting_row))
        ≡ some (with_times micros (set_transaction bet_row waiting_row)))
unfolding transaction_row_ok
scan-create_example = scan-create micros waiting_row bet_row refl
