-- ===== src/Examples/Wager.antt =====
-- Requests to ProcessWagerUseCase.
use go_challenge_fc.Usecase.ProcessWager.Guards.{execute_refuses}
use go_challenge_fc.Errs.{
  invalid_input, plain, database, ok, err, domain, payload_conflict, code_text, is_code, code_or,
}
use go_challenge_fc.Usecase.ProcessWager.Idempotent.{
  execute_idempotent, Recalls, execute_replays-Recalls, execute_conflicts, Repeats,
}
use go_challenge_fc.Base.{◌≡◌, refl, ◌⊎◌, false, none, [], arith}
use go_challenge_fc.Base.Int.{◌+ℤ◌, ◌-ℤ◌, wrap64}
use go_challenge_fc.Store.Balance.{IsBalanced}
use go_challenge_fc.Store.Session.{
  World, ◌>>=◌, lift, pure, raise, new_uuid, time_now, attempt, statement, query, finish, with_tx,
}
use go_challenge_fc.Store.Tables.Rows.{find, in_currency_code, any, update_where, filter_where}
use go_challenge_fc.Store.Tables.Wallets.{
  select_wallet, scan_wallet, wallet_row_ok, wallet_collides, insert_wallet,
  select_wallet_of_player, wallet_or_not_found, set_wallet, update_wallet,
}
use go_challenge_fc.Store.Tables.Entries.{
  sum_entries, signed_amount, scan_entry, entry_row_ok, entry_collides, insert_entry, count_entries,
  currency_rank, max_currency, ledger_currency, calculate_balance,
}
use go_challenge_fc.Transaction.Defs.{
  processed, kind_of_text, kind_text, is_external, is_known, requires_reference, is_terminal,
  validate_external_money, external_transaction, new_external, opening_transaction, new_opening,
  mark_processed, mark_rejected, mark_failed, mark_pending_reference, increment_retry,
  resolve_reference, reversal_direction, direction_for,
}
use go_challenge_fc.Usecase.ProcessWager.Correct.{execute_atomic, execute-IsBalanced}
use go_challenge_fc.Usecase.ProcessWager.Defs.{
  Output, payload_hash, build_replay_output, reference_field, payload, validate_reference,
}
use go_challenge_fc.Usecase.ProcessWager.Execute.{
  execute, redelivery, register_message, replay_or_conflict, check_key, check_external, execute_tx,
  stored_or_error, found_or, reread_tx, after_tx,
}
use go_challenge_fc.Usecase.ProcessWager.Covered.{IsCovered, Unused, after}
use go_challenge_fc.Usecase.ProcessWager.Accepts.{execute_accepts}
use go_challenge_fc.Examples.{
  alice, Input, env, reais, tables, world, bet_input, alone, played_world, conflict_world,
  failing_world, bet_row, conflict_row,
}
use go_challenge_fc.Money.Defs.{
  valid_currency, new_from_int64, zero_money, is_zero, is_positive, is_negative, equal, add, neg,
  sub, greater_than, less_than, greater_than_or_equal, validate_currency,
}
use go_challenge_fc.Wallet.{
  check_currency, new_wallet, rehydrate_wallet, validate_operation, move_balance, debit,
  debit_for_rollback, credit,
}
use go_challenge_fc.Ledger.{check_direction, new_entry, rehydrate_entry}
use go_challenge_fc.Messages.Events.{
  new_processed, new_rejected, new_balance_changed, new_pending_reference,
}
use go_challenge_fc.Messages.Outbox.{new_event, is_published}
use go_challenge_fc.Messages.Inbox.{new_message}
use go_challenge_fc.Store.Repos.{
  create_wallet, get_wallet, save_wallet, create_transaction, save_transaction, get_by_key,
  get_by_external, get_pending_references, create_entry, balance_of_entries,
  create_message_if_absent, create_event, fetch_pending_events, mark_published, record_failure,
}
use go_challenge_fc.Store.Tables.Transactions.{
  transaction_row_ok, transaction_collides, insert_transaction, select_transaction, select_by_key,
  select_by_external, set_transaction, update_transaction, insert_by_retry, sort_by_retry, limit,
  select_pending_references,
}
use go_challenge_fc.Store.Tables.Messages.{
  insert_event, sort_by_attempt, is_due_for_publish, select_pending_events, set_published,
  set_failure, insert_message, set_processed,
}
use go_challenge_fc.Usecase.Emit.{emit}
use go_challenge_fc.Usecase.Hash.{
  key_le, insert_key, sort_keys, join_members, canonical_payload_hash,
}
use go_challenge_fc.Usecase.ProcessWager.Steps.{
  new_output, raise_if, or_else, when, reject_transaction, reject_with, park, reverse, operate,
  post_movement, announce, complete, settle_operation, apply_operation, apply_reference,
  with_reference, dispatch, handle_new,
}
use go_challenge_fc.Money.Text.{
  digits_from, digits, two_digits, print, rune_len, byte_len, is_digit, is_all_digits, lower,
  is_special, count_dots, before_dot, after_dot, scan, parse_int, parse_parts, skip_first,
  parse_decimal_string, new_from_external_string,
}

pub tables-IsBalanced : IsBalanced tables
unfolding select_wallet find sum_entries signed_amount ◌+ℤ◌
tables-IsBalanced = record {
  sound = λ id w e. record {
    in_range = ground arith;
    not_negative = ground arith;
    one_currency = ground arith;
  };
  adds_up = λ id. ground arith;
}

abbrev bet_output : Output
bet_output = record {
  transaction_id = 100;
  status = processed;
  balance = reais 7000;
  idempotent_replay = false;
  failure_code = none;
}

abbrev bet_world : World
unfolding execute
bet_world = (execute env alone bet_input world).1

abbrev failing_after : World
unfolding execute
failing_after = (execute env alone bet_input failing_world).1

-- The bet goes through, and fails where the database fails.
bet_runs :
    (execute env alone bet_input world ≡ (ok bet_output, bet_world))
    × (bet_world.faults ≡ [])
    × (execute env alone bet_input failing_world ≡ (err (plain database), failing_after))
unfolding valid_currency new_from_int64 zero_money is_zero is_positive is_negative equal add neg sub
    greater_than less_than greater_than_or_equal validate_currency check_currency new_wallet
    rehydrate_wallet validate_operation move_balance debit debit_for_rollback credit check_direction
    new_entry rehydrate_entry kind_of_text kind_text is_external is_known requires_reference
    is_terminal validate_external_money external_transaction new_external opening_transaction
    new_opening mark_processed mark_rejected mark_failed mark_pending_reference increment_retry
    resolve_reference reversal_direction direction_for new_processed new_rejected
    new_balance_changed new_pending_reference new_event is_published new_message ◌>>=◌ lift pure
    raise new_uuid time_now attempt statement query finish with_tx create_wallet get_wallet
    save_wallet create_transaction save_transaction get_by_key get_by_external
    get_pending_references create_entry balance_of_entries create_message_if_absent create_event
    fetch_pending_events mark_published record_failure in_currency_code find any update_where
    filter_where scan_wallet wallet_row_ok wallet_collides insert_wallet select_wallet
    select_wallet_of_player wallet_or_not_found set_wallet update_wallet transaction_row_ok
    transaction_collides insert_transaction select_transaction select_by_key select_by_external
    set_transaction update_transaction insert_by_retry sort_by_retry limit select_pending_references
    scan_entry entry_row_ok entry_collides insert_entry signed_amount sum_entries count_entries
    currency_rank max_currency ledger_currency calculate_balance insert_event sort_by_attempt
    is_due_for_publish select_pending_events set_published set_failure insert_message set_processed
    emit key_le insert_key sort_keys join_members canonical_payload_hash reference_field payload
    payload_hash build_replay_output validate_reference raise_if or_else when reject_transaction
    reject_with park reverse operate post_movement announce complete settle_operation
    apply_operation apply_reference with_reference dispatch handle_new redelivery register_message
    replay_or_conflict check_key check_external execute_tx stored_or_error found_or reread_tx
    after_tx execute digits_from digits two_digits print rune_len byte_len is_digit is_all_digits
    lower is_special count_dots before_dot after_dot scan parse_int parse_parts skip_first
    parse_decimal_string new_from_external_string ◌+ℤ◌ ◌-ℤ◌ wrap64 code_text is_code code_or
bet_runs = (refl, refl, refl)

execute-IsBalanced_example : IsBalanced (execute env alone bet_input world).1.tables
execute-IsBalanced_example =
    execute-IsBalanced env alone bet_input world (ground arith) (λ h. h) tables-IsBalanced

execute_atomic_example : (failing_after.tables ≡ tables) ⊎ (failing_after.tables ≡ tables)
execute_atomic_example =
    execute_atomic env alone bet_input failing_world (plain database) failing_after (bet_runs.2)

execute_idempotent_example :
    (o' : Output) × (execute env alone bet_input bet_world
      ≡ (ok o', record bet_world { aborted = false }))
    × Repeats bet_output o'
execute_idempotent_example =
    execute_idempotent env alone alone bet_input world bet_world bet_output (ground arith)
      (tables-IsBalanced.sound 1) refl refl (bet_runs.0) refl (bet_runs.1)

execute_replays-Recalls_example :
    (o : Output) × (execute env alone bet_input played_world
      ≡ (ok o, record played_world { aborted = false }))
    × Recalls bet_row o
unfolding select_by_key find payload_hash canonical_payload_hash
execute_replays-Recalls_example =
    execute_replays-Recalls env alone bet_input played_world refl refl refl bet_row refl refl

execute_conflicts_example :
    execute env alone bet_input conflict_world
    ≡ (err (domain payload_conflict), record conflict_world { aborted = false })
unfolding select_by_key find payload_hash canonical_payload_hash
execute_conflicts_example =
    execute_conflicts env alone bet_input conflict_world refl refl refl conflict_row refl refl

-- The bet of a player who does not own the wallet
abbrev stranger_input : Input
stranger_input = record bet_input { player_id = 8 }

execute_refuses_example :
    execute env alone stranger_input world
    ≡ (err (domain invalid_input), record world { aborted = false })
unfolding select_by_key select_by_external select_wallet find
execute_refuses_example =
    execute_refuses env alone stranger_input world refl refl refl refl refl (domain invalid_input)
      refl

bet-IsCovered : IsCovered bet_input alice
unfolding in_currency_code ◌+ℤ◌ ◌-ℤ◌
bet-IsCovered = record {
  simple = refl;
  wallet = refl;
  player = refl;
  provider = refl;
  operation = refl;
  key = refl;
  range = ground arith;
  positive = refl;
  known_currency = refl;
  owner = refl;
  currency = refl;
  low = ground arith;
  fits = ground arith;
  version = refl;
  next_version = ground arith;
}

tables-Unused : Unused env tables
unfolding any
tables-Unused = record {
  transaction = λ d. ground arith;
  entry = λ d. ground arith;
  posting = λ d. ground arith;
  event = λ d. refl;
  not_nil = λ d. ground arith;
  apart = λ c d h. ground arith;
}

execute_accepts_example :
    (execute env alone bet_input world).0
    ≡ ok (new_output 100 processed (after bet_input.kind alice bet_input.money.amount) none)
unfolding select_by_key select_by_external select_wallet find
execute_accepts_example =
    execute_accepts env alone bet_input world alice refl refl refl refl refl
      (tables-IsBalanced.sound 1 alice refl) bet-IsCovered tables-Unused
