-- ===== src/Messages/Events.antt =====
-- internal/domain/events/events.go. Each constructor takes the values of its uuid.New() and
-- time.Now(). Amounts are texts, printed by Money.String.
use go_challenge_fc.Base.{ℕ, String, Option, List}
use go_challenge_fc.Base.Int.{ℤ}
use go_challenge_fc.Money.Defs.{Money}
use go_challenge_fc.Money.Text.{print}

abbrev pub type_processed : String
type_processed = "WagerTransactionProcessed"

abbrev pub type_rejected : String
type_rejected = "WagerTransactionRejected"

abbrev pub type_balance_changed : String
type_balance_changed = "WalletBalanceChanged"

abbrev pub type_pending_reference : String
type_pending_reference = "WagerTransactionPendingReference"

abbrev pub schema_version : ℕ
schema_version = 1

pub record Envelope : Type 0 where
  pub event_id : ℕ
  pub event_type : String
  pub aggregate_id : ℕ
  pub aggregate_type : String
  pub correlation_id : ℕ
  pub causation_id : Option ℕ
  pub occurred_at : ℕ
  pub version : ℕ

pub record ProcessedData : Type 0 where
  pub transaction_id : ℕ
  pub wallet_id : ℕ
  pub player_id : ℕ
  pub provider_id : Option String
  pub external_transaction_id : Option String
  pub kind : String
  pub money_amount : List ℕ
  pub money_currency : String
  pub result_balance_amount : List ℕ
  pub result_balance_currency : String

pub record RejectedData : Type 0 where
  pub transaction_id : ℕ
  pub wallet_id : ℕ
  pub player_id : ℕ
  pub provider_id : Option String
  pub external_transaction_id : Option String
  pub kind : String
  pub failure_code : String

pub record BalanceChangedData : Type 0 where
  pub wallet_id : ℕ
  pub transaction_id : ℕ
  pub direction : String
  pub money_amount : List ℕ
  pub money_currency : String
  pub balance_before_amount : List ℕ
  pub balance_before_currency : String
  pub balance_after_amount : List ℕ
  pub balance_after_currency : String
  pub wallet_version : ℤ

pub record PendingReferenceData : Type 0 where
  pub transaction_id : ℕ
  pub wallet_id : ℕ
  pub player_id : ℕ
  pub provider_id : String
  pub external_transaction_id : String
  pub kind : String
  pub reference_external_transaction_id : String
  pub retry_count : ℤ

-- The four event structs behind their envelope.
pub data Payload : Type 0 where
  processed : Envelope → ProcessedData → Payload
  rejected : Envelope → RejectedData → Payload
  balance_changed : Envelope → BalanceChangedData → Payload
  pending_reference : Envelope → PendingReferenceData → Payload

abbrev pub envelope_of : Payload → Envelope
envelope_of (processed e d) = e
envelope_of (rejected e d) = e
envelope_of (balance_changed e d) = e
envelope_of (pending_reference e d) = e

abbrev envelope : ℕ → ℕ → String → ℕ → String → ℕ → Option ℕ → Envelope
envelope id now type aggregate aggregate_type correlation causation = record {
  event_id = id;
  event_type = type;
  aggregate_id = aggregate;
  aggregate_type = aggregate_type;
  correlation_id = correlation;
  causation_id = causation;
  occurred_at = now;
  version = schema_version;
}

module _ (id now : ℕ) where
  unfoldable pub new_processed :
      ℕ → ℕ → ℕ → Option String → Option String → String → Money → Money → ℕ → Option ℕ → Payload
  new_processed txn wallet player provider external kind m balance correlation causation =
      processed (envelope id now type_processed txn "WagerTransaction" correlation causation)
        (record {
          transaction_id = txn;
          wallet_id = wallet;
          player_id = player;
          provider_id = provider;
          external_transaction_id = external;
          kind = kind;
          money_amount = print m;
          money_currency = m.currency;
          result_balance_amount = print balance;
          result_balance_currency = balance.currency;
        })

  unfoldable pub new_rejected :
      ℕ → ℕ → ℕ → Option String → Option String → String → String → ℕ → Option ℕ → Payload
  new_rejected txn wallet player provider external kind code correlation causation =
      rejected (envelope id now type_rejected txn "WagerTransaction" correlation causation)
        (record {
          transaction_id = txn;
          wallet_id = wallet;
          player_id = player;
          provider_id = provider;
          external_transaction_id = external;
          kind = kind;
          failure_code = code;
        })

  unfoldable pub new_balance_changed :
      ℕ → ℕ → String → Money → Money → Money → ℤ → ℕ → Option ℕ → Payload
  new_balance_changed wallet txn direction m before after version correlation causation =
      balance_changed (envelope id now type_balance_changed wallet "Wallet" correlation causation)
        (record {
          wallet_id = wallet;
          transaction_id = txn;
          direction = direction;
          money_amount = print m;
          money_currency = m.currency;
          balance_before_amount = print before;
          balance_before_currency = before.currency;
          balance_after_amount = print after;
          balance_after_currency = after.currency;
          wallet_version = version;
        })

  unfoldable pub new_pending_reference :
      ℕ → ℕ → ℕ → String → String → String → String → ℤ → ℕ → Option ℕ → Payload
  new_pending_reference txn wallet player provider external kind reference retries correlation
        causation =
      pending_reference
        (envelope id now type_pending_reference txn "WagerTransaction" correlation causation)
        (record {
          transaction_id = txn;
          wallet_id = wallet;
          player_id = player;
          provider_id = provider;
          external_transaction_id = external;
          kind = kind;
          reference_external_transaction_id = reference;
          retry_count = retries;
        })
