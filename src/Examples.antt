-- ===== src/Examples.antt =====
-- A small database and requests on which the theorems are tried out.
pub mod Amounts
pub mod Wager
pub mod Others
pub mod Queue
pub mod Retry
pub mod Http
pub mod System
pub mod Main
use go_challenge_fc.Base.{◌==◌, ℕ, ◌+◌, Option, none, some, List, [], ◌∷◌, String, true, false}
use go_challenge_fc.Base.Int.{pos}
use go_challenge_fc.Ledger.{Entry, direction_credit}
use go_challenge_fc.Money.Defs.{Money, brl, zero_money}
use go_challenge_fc.Money.Text.{Unicode}
use go_challenge_fc.Store.Session.{World, Env}
use go_challenge_fc.Store.Tables.Rows.{Tables}
use go_challenge_fc.Transaction.Defs.{
  WagerTransaction, bet, refund, processed, pending, pending_reference, Kind,
}
use go_challenge_fc.Usecase.ProcessWager.Defs.{Input}
use go_challenge_fc.Wallet.{Wallet}

-- Identifiers and times count up.
abbrev pub env : Env
env = record {
  uuid = λ n. n + 100;
  clock = λ n. n;
  uuid_text = λ n. n ∷ [];
  quote = λ s. s;
  digest = λ s. "digest";
}

abbrev pub unicode : Unicode
unicode = record { is_nd = λ c. c == 1635; to_lower = λ c. c }

abbrev pub reais : ℕ → Money
reais n = record { amount = pos n; currency = "BRL" }

abbrev pub alice : Wallet
alice = record {
  id = 1;
  player_id = 2;
  currency = "BRL";
  balance = reais 10000;
  version = pos 1;
  created_at = 0;
  updated_at = 0;
}

-- The transaction that opened the wallet, and its entry.
abbrev pub opening_row : WagerTransaction
opening_row = record {
  id = 3;
  wallet_id = 1;
  player_id = 2;
  provider_id = none;
  external_transaction_id = none;
  idempotency_key = none;
  payload_hash = none;
  round_id = none;
  game_id = none;
  kind = Kind.opening;
  status = processed;
  money = reais 10000;
  reference_external_transaction_id = none;
  reference_transaction_id = none;
  result_balance = some (reais 10000);
  failure_code = none;
  retry_count = pos 0;
  retry_after = none;
  correlation_id = none;
  created_at = 0;
  updated_at = 0;
}

abbrev pub opening_entry : Entry
opening_entry = record {
  id = 4;
  wallet_id = 1;
  transaction_id = 3;
  direction = "CREDIT";
  money = reais 10000;
  balance_before = reais 0;
  balance_after = reais 10000;
  created_at = 0;
}

abbrev pub tables : Tables
tables = record {
  wallets = alice ∷ [];
  wager_transactions = opening_row ∷ [];
  wallet_ledger_entries = opening_entry ∷ [];
  inbox_messages = [];
  outbox_events = [];
}

abbrev pub world : World
world = record { tables = tables; draws = 0; faults = []; aborted = false; outside = [] }

-- A bet of 30.00.
abbrev pub bet_input : Input
bet_input = record {
  source = "HTTP";
  consumer_name = "";
  message_id = "";
  idempotency_key = "key-1";
  correlation_id = 9;
  provider_id = "provider";
  external_transaction_id = "ext-1";
  player_id = 2;
  wallet_id = 1;
  round_id = "round";
  game_id = "game";
  kind = bet;
  money = reais 3000;
  reference_external_transaction_id = none;
}

-- No other session commits anything.
abbrev pub alone : Tables → Tables
alone t = t

-- A refund of the bet.
abbrev pub refund_input : Input
refund_input = record bet_input {
  idempotency_key = "key-2";
  external_transaction_id = "ext-2";
  kind = refund;
  reference_external_transaction_id = some "ext-1";
}

-- The bet as it is stored, under the digest of its payload.
abbrev pub bet_row : WagerTransaction
bet_row = record opening_row {
  id = 5;
  provider_id = some "provider";
  external_transaction_id = some "ext-1";
  idempotency_key = some "key-1";
  payload_hash = some "digest";
  round_id = some "round";
  game_id = some "game";
  kind = bet;
  money = reais 3000;
  result_balance = some (reais 7000);
  correlation_id = some 9;
}

-- The refund of the bet, which waits for it.
abbrev pub waiting_row : WagerTransaction
waiting_row = record bet_row {
  id = 6;
  external_transaction_id = some "ext-2";
  idempotency_key = some "key-2";
  kind = refund;
  status = pending_reference;
  reference_external_transaction_id = some "ext-1";
  result_balance = none;
  retry_count = pos 1;
  retry_after = some 0;
}

abbrev pub bet_entry : Entry
bet_entry = record {
  id = 7;
  wallet_id = 1;
  transaction_id = 5;
  direction = "DEBIT";
  money = reais 3000;
  balance_before = reais 10000;
  balance_after = reais 7000;
  created_at = 1;
}

-- After the bet, with the refund waiting.
abbrev pub played : Tables
played = record {
  wallets = record alice { balance = reais 7000; version = pos 2 } ∷ [];
  wager_transactions = waiting_row ∷ bet_row ∷ opening_row ∷ [];
  wallet_ledger_entries = bet_entry ∷ opening_entry ∷ [];
  inbox_messages = [];
  outbox_events = [];
}

abbrev pub played_world : World
played_world = record world { tables = played }

-- The same, but the bet was stored with another payload.
abbrev pub conflict_row : WagerTransaction
conflict_row = record bet_row { payload_hash = some "another" }

abbrev pub conflict_world : World
conflict_world = record world {
  tables = record played { wager_transactions = conflict_row ∷ opening_row ∷ [] };
}

-- The database fails its sixth request.
abbrev pub failing_world : World
failing_world = record world { faults = false ∷ false ∷ false ∷ false ∷ false ∷ true ∷ [] }
