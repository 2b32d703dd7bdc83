-- ===== src/Examples/Others.antt =====
-- The other use cases.
use go_challenge_fc.Money.Defs.{
  valid_currency, new_from_int64, zero_money, is_zero, is_positive, is_negative, equal, add, neg,
  sub, greater_than, less_than, greater_than_or_equal, validate_currency,
}
use go_challenge_fc.Wallet.{
  check_currency, new_wallet, rehydrate_wallet, validate_operation, move_balance, debit,
  debit_for_rollback, credit,
}
use go_challenge_fc.Ledger.{check_direction, new_entry, rehydrate_entry}
use go_challenge_fc.Transaction.Defs.{
  kind_of_text, kind_text, is_external, is_known, requires_reference, is_terminal,
  validate_external_money, external_transaction, new_external, opening_transaction, new_opening,
  mark_processed, mark_rejected, mark_failed, mark_pending_reference, increment_retry,
  resolve_reference, reversal_direction, direction_for,
}
use go_challenge_fc.Messages.Events.{
  new_processed, new_rejected, new_balance_changed, new_pending_reference,
}
use go_challenge_fc.Messages.Outbox.{new_event, is_published}
use go_challenge_fc.Messages.Inbox.{new_message}
use go_challenge_fc.Store.Session.{
  ◌>>=◌, lift, pure, raise, new_uuid, time_now, attempt, statement, query, finish, with_tx,
}
use go_challenge_fc.Store.Repos.{
  create_wallet, get_wallet, save_wallet, create_transaction, save_transaction, get_by_key,
  get_by_external, get_pending_references, create_entry, balance_of_entries,
  create_message_if_absent, create_event, fetch_pending_events, mark_published, record_failure,
}
use go_challenge_fc.Store.Tables.Rows.{in_currency_code, find, any, update_where, filter_where}
use go_challenge_fc.Store.Tables.Wallets.{
  scan_wallet, wallet_row_ok, wallet_collides, insert_wallet, select_wallet,
  select_wallet_of_player, wallet_or_not_found, set_wallet, update_wallet,
}
use go_challenge_fc.Store.Tables.Transactions.{
  transaction_row_ok, transaction_collides, insert_transaction, select_transaction, select_by_key,
  select_by_external, set_transaction, update_transaction, insert_by_retry, sort_by_retry, limit,
  select_pending_references,
}
use go_challenge_fc.Store.Tables.Entries.{
  scan_entry, entry_row_ok, entry_collides, insert_entry, signed_amount, sum_entries, count_entries,
  currency_rank, max_currency, ledger_currency, calculate_balance,
}
use go_challenge_fc.Store.Tables.Messages.{
  insert_event, sort_by_attempt, is_due_for_publish, select_pending_events, set_published,
  set_failure, insert_message, set_processed,
}
use go_challenge_fc.Usecase.Emit.{emit}
use go_challenge_fc.Usecase.Hash.{
  key_le, insert_key, sort_keys, join_members, canonical_payload_hash,
}
use go_challenge_fc.Usecase.ProcessWager.Defs.{
  reference_field, payload, payload_hash, build_replay_output, validate_reference,
}
use go_challenge_fc.Usecase.ProcessWager.Steps.{
  raise_if, or_else, when, reject_transaction, reject_with, park, reverse, operate, post_movement,
  announce, complete, settle_operation, apply_operation, apply_reference, with_reference, dispatch,
  handle_new,
}
use go_challenge_fc.Usecase.ProcessWager.Execute.{
  redelivery, register_message, replay_or_conflict, check_key, check_external, execute_tx,
  stored_or_error, found_or, reread_tx, after_tx, execute,
}
use go_challenge_fc.Money.Text.{
  digits_from, digits, two_digits, print, rune_len, byte_len, is_digit, is_all_digits, lower,
  is_special, count_dots, before_dot, after_dot, scan, parse_int, parse_parts, skip_first,
  parse_decimal_string, new_from_external_string,
}
use go_challenge_fc.Base.Time.{shift_left}
use go_challenge_fc.Base.Int.{pos, ◌+ℤ◌, ◌-ℤ◌, wrap64}
use go_challenge_fc.Errs.{ok, code_text, is_code, code_or}
use go_challenge_fc.Usecase.RetryPending.Defs.{
  max_retries_of, next_delay, reject_pending, put_off, operate_pending, complete_pending,
  settle_pending, reject_resolved, apply_pending, judge_reference, resolve_with, pending_tx,
  process_single_pending, process_all, execute_batch,
}
use go_challenge_fc.Base.{◌≡◌, refl, true, false, some, arith}
use go_challenge_fc.Examples.{
  World, env, reais, alice, tables, world, played, played_world, waiting_row,
}
use go_challenge_fc.Examples.Wager.{tables-IsBalanced}
use go_challenge_fc.Store.Balance.{IsBalanced}
use go_challenge_fc.Usecase.OpenWallet.{OpenInput}
use go_challenge_fc.Usecase.Reconcile.{reconcile}
use go_challenge_fc.Usecase.Reconcile.Sound.{report, reconcile_exact, reconcile_balanced}
use go_challenge_fc.Usecase.RetryPending.Resolve.{Retried}
use go_challenge_fc.Usecase.RetryPending.Settle.{retry-Retried}

played-IsBalanced : IsBalanced played
unfolding select_wallet find sum_entries signed_amount ◌+ℤ◌ ◌-ℤ◌
played-IsBalanced = record {
  sound = λ id w e. record {
    in_range = ground arith;
    not_negative = ground arith;
    one_currency = ground arith;
  };
  adds_up = λ id. ground arith;
}

abbrev retried_world : World
unfolding process_single_pending
retried_world = (process_single_pending env (pos 10) waiting_row played_world).1

-- The waiting refund is settled.
retry_runs : process_single_pending env (pos 10) waiting_row played_world ≡ (ok true, retried_world)
unfolding max_retries_of shift_left next_delay reject_pending put_off operate_pending
    complete_pending settle_pending reject_resolved apply_pending judge_reference resolve_with
    pending_tx process_single_pending process_all execute_batch valid_currency new_from_int64
    zero_money is_zero is_positive is_negative equal add neg sub greater_than less_than
    greater_than_or_equal validate_currency check_currency new_wallet rehydrate_wallet
    validate_operation move_balance debit debit_for_rollback credit check_direction new_entry
    rehydrate_entry kind_of_text kind_text is_external is_known requires_reference is_terminal
    validate_external_money external_transaction new_external opening_transaction new_opening
    mark_processed mark_rejected mark_failed mark_pending_reference increment_retry
    resolve_reference reversal_direction direction_for new_processed new_rejected
    new_balance_changed new_pending_reference new_event is_published new_message ◌>>=◌ lift pure
    raise new_uuid time_now attempt statement query finish with_tx create_wallet get_wallet
    save_wallet create_transaction save_transaction get_by_key get_by_external
    get_pending_references create_entry balance_of_entries create_message_if_absent create_event
    fetch_pending_events mark_published record_failure in_currency_code find any update_where
    filter_where scan_wallet wallet_row_ok wallet_collides insert_wallet select_wallet
    select_wallet_of_player wallet_or_not_found set_wallet update_wallet transaction_row_ok
    transaction_collides insert_transaction select_transaction select_by_key select_by_external
    set_transaction update_transaction insert_by_retry sort_by_retry limit select_pending_references
    scan_entry entry_row_ok entry_collides insert_entry signed_amount sum_entries count_entries
    currency_rank max_currency ledger_currency calculate_balance insert_event sort_by_attempt
    is_due_for_publish select_pending_events set_published set_failure insert_message set_processed
    emit key_le insert_key sort_keys join_members canonical_payload_hash reference_field payload
    payload_hash build_replay_output validate_reference raise_if or_else when reject_transaction
    reject_with park reverse operate post_movement announce complete settle_operation
    apply_operation apply_reference with_reference dispatch handle_new redelivery register_message
    replay_or_conflict check_key check_external execute_tx stored_or_error found_or reread_tx
    after_tx execute digits_from digits two_digits print rune_len byte_len is_digit is_all_digits
    lower is_special count_dots before_dot after_dot scan parse_int parse_parts skip_first
    parse_decimal_string new_from_external_string ◌+ℤ◌ ◌-ℤ◌ wrap64 code_text is_code code_or
retry_runs = refl

retry-Retried_example : Retried waiting_row played true retried_world.tables
retry-Retried_example =
    retry-Retried env (pos 10) waiting_row played_world (ground arith) played-IsBalanced true
      retried_world retry_runs

abbrev open_input : OpenInput
open_input = record { player_id = 5; initial_balance = reais 500; correlation_id = 9 }

currency_found : (ledger_currency 1 tables ≡ ok "BRL") × (select_wallet 1 tables ≡ some alice)
unfolding ledger_currency max_currency currency_rank select_wallet find
currency_found = (refl, refl)

reconcile_exact_example :
    reconcile 1 world ≡ (ok (report 1 world alice), record world { aborted = false })
unfolding sum_entries signed_amount ◌+ℤ◌ ◌-ℤ◌
reconcile_exact_example =
    reconcile_exact 1 world alice refl currency_found.1 (ground arith) currency_found.0
      (ground arith) (ground arith) (ground arith)

reconcile_balanced_example :
    (reconcile 1 world ≡ (ok (report 1 world alice), record world { aborted = false }))
    × ((report 1 world alice).consistent ≡ true)
reconcile_balanced_example =
    reconcile_balanced 1 world alice refl currency_found.1 (ground arith) currency_found.0
      tables-IsBalanced
