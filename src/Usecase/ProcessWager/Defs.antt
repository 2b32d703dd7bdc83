-- ===== src/Usecase/ProcessWager/Defs.antt =====
-- The input and output of ProcessWagerUseCase, its payload, and its pure checks.
use go_challenge_fc.Base.{
  ℕ, Bool, true, false, not, ◌&&◌, ◌||◌, String, Option, none, some, str_eq, ◌==◌, if◌then◌else◌,
}
use go_challenge_fc.Base.Text.{codes}
use go_challenge_fc.Errs.{Code, reference_not_processable, invalid_input, currency_mismatch}
use go_challenge_fc.Money.Defs.{Money, equal}
use go_challenge_fc.Money.Text.{print}
use go_challenge_fc.Store.Session.{Env}
use go_challenge_fc.Transaction.Defs.{
  Kind, refund, is_bet, kind_text, Status, is_processed, WagerTransaction, External,
}
use go_challenge_fc.Usecase.Hash.{text, obj, Fields, end, field, canonical_payload_hash}

-- ProcessWagerInput
pub record Input : Type 0 where
  pub source : String
  pub consumer_name : String
  pub message_id : String
  pub idempotency_key : String
  pub correlation_id : ℕ
  pub provider_id : String
  pub external_transaction_id : String
  pub player_id : ℕ
  pub wallet_id : ℕ
  pub round_id : String
  pub game_id : String
  pub kind : Kind
  pub money : Money
  pub reference_external_transaction_id : Option String

-- ProcessWagerOutput
pub record Output : Type 0 where
  pub transaction_id : ℕ
  pub status : Status
  pub balance : Money
  pub idempotent_replay : Bool
  pub failure_code : Option String

-- `*p` where the code has made sure that `p` is not nil
abbrev pub deref : Option String → String
deref none = ""
deref (some s) = s

-- The entry that the payload has only if the reference is there and not empty.
unfoldable pub reference_field : Option String → Fields
reference_field none = end
reference_field (some s) =
    if str_eq s "" then end else field (codes "referenceExternalTransactionId") (text (codes s)) end

-- payloadMap
unfoldable pub payload : Env → Input → Fields
unfolding reference_field print kind_text
payload env i = field (codes "providerId") (text (codes i.provider_id)) (
    field (codes "externalTransactionId") (text (codes i.external_transaction_id)) (
      field (codes "playerId") (text (env.uuid_text i.player_id)) (
        field (codes "walletId") (text (env.uuid_text i.wallet_id)) (
          field (codes "roundId") (text (codes i.round_id)) (
            field (codes "gameId") (text (codes i.game_id)) (
              field (codes "kind") (text (codes (kind_text i.kind))) (
                field (codes "money")
                  (obj (
                    field (codes "amount") (text (print i.money))
                      (field (codes "currency") (text (codes i.money.currency)) end)))
                  (reference_field i.reference_external_transaction_id))))))))

-- currentHash
unfoldable pub payload_hash : Env → Input → String
unfolding canonical_payload_hash payload
payload_hash env i = canonical_payload_hash env (payload env i)

-- `existing.PayloadHash() != nil && *existing.PayloadHash() != currentHash`
abbrev pub differs_from : Option String → String → Bool
differs_from none hash = false
differs_from (some h) hash = not (str_eq h hash)

-- `existing.IdempotencyKey() != nil && *existing.IdempotencyKey() == input.IdempotencyKey`
abbrev pub is_key : Option String → String → Bool
is_key none key = false
is_key (some k) key = str_eq k key

-- resBal of buildReplayOutput
abbrev pub replay_balance : WagerTransaction → Option Money → Money
replay_balance t none = t.money
replay_balance t (some m) = m

unfoldable pub build_replay_output : WagerTransaction → Output
build_replay_output t = record {
  transaction_id = t.id;
  status = t.status;
  balance = replay_balance t t.result_balance;
  idempotent_replay = true;
  failure_code = t.failure_code;
}

abbrev pub is_refund : Kind → Bool
is_refund refund = true
is_refund _ = false

-- validateReference: the code of its error, each of which is a DomainError.
unfoldable pub validate_reference : WagerTransaction → Input → Option Code
unfolding equal
validate_reference r i =
    if not (is_processed r.status)
    then some reference_not_processable
    else if not (r.player_id == i.player_id) || not (r.wallet_id == i.wallet_id)
    then some invalid_input
    else if not (str_eq r.money.currency i.money.currency)
    then some currency_mismatch
    else if not (is_key r.round_id i.round_id)
    then some invalid_input
    else if not (equal r.money i.money)
    then some invalid_input
    else if is_refund i.kind && not (is_bet r.kind)
    then some invalid_input
    else none

-- The arguments of transaction.NewExternal.
abbrev pub external_of : ℕ → String → Input → External
external_of id hash i = record {
  id = id;
  wallet_id = i.wallet_id;
  player_id = i.player_id;
  provider_id = i.provider_id;
  external_transaction_id = i.external_transaction_id;
  idempotency_key = i.idempotency_key;
  payload_hash = hash;
  round_id = i.round_id;
  game_id = i.game_id;
  kind = i.kind;
  money = i.money;
  reference_external_transaction_id = i.reference_external_transaction_id;
  correlation_id = some i.correlation_id;
}

-- `!= "" `, by which the code decides whether money has moved
abbrev pub moves_money : String → Bool
moves_money direction = not (str_eq direction "")
