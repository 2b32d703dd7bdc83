-- ===== src/Transaction/Defs.antt =====
-- The type of transaction.go, its constructors and its transitions. A method takes the time that
-- its time.Now() returns, and gives back the transaction after the call with its error.
use go_challenge_fc.Base.{
  ℕ, Bool, true, false, not, ◌&&◌, String, Option, none, some, str_eq, ◌==◌, if◌then◌else◌,
}
use go_challenge_fc.Base.Int.{ℤ, pos, ◌+ℤ◌, wrap64}
use go_challenge_fc.Errs.{
  Result, ok, err, domain, plain, ◌>>◌, reject_if, opening_forbidden, invalid_input, invalid_money,
  invalid_amount, transaction_terminal, invalid_transition, no_direction, unsupported_rollback,
}
use go_challenge_fc.Ledger.{direction_debit, direction_credit}
use go_challenge_fc.Money.Defs.{Money, is_zero, is_positive}

-- `Kind` is a string: its constants, and any other text.
pub data Kind : Type 0 where
  opening bet win loss refund rollback : Kind
  other : String → Kind

-- The conversion transaction.Kind(text).
unfoldable pub kind_of_text : String → Kind
kind_of_text s =
    if str_eq s "OPENING"
    then opening
    else if str_eq s "BET"
    then bet
    else if str_eq s "WIN"
    then win
    else if str_eq s "LOSS"
    then loss
    else if str_eq s "REFUND"
    then refund
    else if str_eq s "ROLLBACK"
    then rollback
    else other s

-- The conversion string(kind).
unfoldable pub kind_text : Kind → String
kind_text opening = "OPENING"
kind_text bet = "BET"
kind_text win = "WIN"
kind_text loss = "LOSS"
kind_text refund = "REFUND"
kind_text rollback = "ROLLBACK"
kind_text (other s) = s

-- k == KindOpening, as IsExternal tests it
abbrev pub is_opening : Kind → Bool
is_opening opening = true
is_opening _ = false

abbrev pub is_bet : Kind → Bool
is_bet bet = true
is_bet _ = false

unfoldable pub is_external : Kind → Bool
is_external k = not (is_opening k)

-- k.IsValid()
unfoldable pub is_known : Kind → Bool
is_known (other s) = false
is_known _ = true

unfoldable pub requires_reference : Kind → Bool
requires_reference refund = true
requires_reference rollback = true
requires_reference _ = false

pub data Status : Type 0 where
  pending pending_reference processed rejected failed : Status

unfoldable pub is_terminal : Status → Bool
is_terminal processed = true
is_terminal rejected = true
is_terminal failed = true
is_terminal _ = false

abbrev pub is_pending : Status → Bool
is_pending pending = true
is_pending _ = false

abbrev pub is_pending_reference : Status → Bool
is_pending_reference pending_reference = true
is_pending_reference _ = false

abbrev pub is_processed : Status → Bool
is_processed processed = true
is_processed _ = false

pub record WagerTransaction : Type 0 where
  pub id : ℕ
  pub wallet_id : ℕ
  pub player_id : ℕ
  pub provider_id : Option String
  pub external_transaction_id : Option String
  pub idempotency_key : Option String
  pub payload_hash : Option String
  pub round_id : Option String
  pub game_id : Option String
  pub kind : Kind
  pub status : Status
  pub money : Money
  pub reference_external_transaction_id : Option String
  pub reference_transaction_id : Option ℕ
  pub result_balance : Option Money
  pub failure_code : Option String
  pub retry_count : ℤ
  pub retry_after : Option ℕ
  pub correlation_id : Option ℕ
  pub created_at : ℕ
  pub updated_at : ℕ

unfoldable pub validate_external_money : Kind → Money → Result (Unit {0})
unfolding is_zero is_positive
validate_external_money loss m = reject_if (not (is_zero m)) (domain invalid_money)
validate_external_money bet m = reject_if (not (is_positive m)) (domain invalid_amount)
validate_external_money win m = reject_if (not (is_positive m)) (domain invalid_amount)
validate_external_money refund m = reject_if (not (is_positive m)) (domain invalid_amount)
validate_external_money rollback m = reject_if (not (is_positive m)) (domain invalid_amount)
validate_external_money _ m = ok tt

-- `p == nil || *p == ""`
abbrev pub is_blank : Option String → Bool
is_blank none = true
is_blank (some s) = str_eq s ""

-- The parameters of NewExternal.
pub record External : Type 0 where
  pub id : ℕ
  pub wallet_id : ℕ
  pub player_id : ℕ
  pub provider_id : String
  pub external_transaction_id : String
  pub idempotency_key : String
  pub payload_hash : String
  pub round_id : String
  pub game_id : String
  pub kind : Kind
  pub money : Money
  pub reference_external_transaction_id : Option String
  pub correlation_id : Option ℕ

-- The struct literal at the end of NewExternal.
unfoldable pub external_transaction : ℕ → External → WagerTransaction
external_transaction now p = record {
  id = p.id;
  wallet_id = p.wallet_id;
  player_id = p.player_id;
  provider_id = some p.provider_id;
  external_transaction_id = some p.external_transaction_id;
  idempotency_key = some p.idempotency_key;
  payload_hash = some p.payload_hash;
  round_id = some p.round_id;
  game_id = some p.game_id;
  kind = p.kind;
  status = pending;
  money = p.money;
  reference_external_transaction_id = p.reference_external_transaction_id;
  reference_transaction_id = none;
  result_balance = none;
  failure_code = none;
  retry_count = pos 0;
  retry_after = none;
  correlation_id = p.correlation_id;
  created_at = now;
  updated_at = now;
}

unfoldable pub new_external : ℕ → External → Result WagerTransaction
unfolding is_known validate_external_money requires_reference external_transaction
new_external now p = do
  reject_if (is_opening p.kind) (domain opening_forbidden)
  reject_if (not (is_known p.kind)) (domain invalid_input)
  reject_if (p.id == 0) (domain invalid_input)
  reject_if (p.wallet_id == 0) (domain invalid_input)
  reject_if (p.player_id == 0) (domain invalid_input)
  reject_if (str_eq p.provider_id "") (domain invalid_input)
  reject_if (str_eq p.external_transaction_id "") (domain invalid_input)
  reject_if (str_eq p.idempotency_key "") (domain invalid_input)
  validate_external_money p.kind p.money
  reject_if (requires_reference p.kind && is_blank p.reference_external_transaction_id)
      (domain invalid_input)
  ok (external_transaction now p)

-- The struct literal at the end of NewOpening.
unfoldable pub opening_transaction : ℕ → ℕ → ℕ → ℕ → Money → WagerTransaction
opening_transaction now id wallet player m = record {
  id = id;
  wallet_id = wallet;
  player_id = player;
  provider_id = none;
  external_transaction_id = none;
  idempotency_key = none;
  payload_hash = none;
  round_id = none;
  game_id = none;
  kind = opening;
  status = pending;
  money = m;
  reference_external_transaction_id = none;
  reference_transaction_id = none;
  result_balance = none;
  failure_code = none;
  retry_count = pos 0;
  retry_after = none;
  correlation_id = none;
  created_at = now;
  updated_at = now;
}

unfoldable pub new_opening : ℕ → ℕ → ℕ → ℕ → Money → Result WagerTransaction
unfolding is_positive opening_transaction
new_opening now id wallet player m = do
  reject_if (id == 0) (domain invalid_input)
  reject_if (wallet == 0) (domain invalid_input)
  reject_if (player == 0) (domain invalid_input)
  reject_if (not (is_positive m)) (domain invalid_input)
  ok (opening_transaction now id wallet player m)

unfoldable pub mark_processed : ℕ → Money → WagerTransaction → Result WagerTransaction
unfolding is_terminal
mark_processed now balance t = do
  reject_if (is_terminal t.status) (domain transaction_terminal)
  reject_if (not (is_pending t.status) && not (is_pending_reference t.status))
      (domain invalid_transition)
  ok (record t { status = processed; result_balance = some balance; updated_at = now })

unfoldable pub mark_rejected : ℕ → String → WagerTransaction → Result WagerTransaction
unfolding is_terminal
mark_rejected now code t = do
  reject_if (is_terminal t.status) (domain transaction_terminal)
  reject_if (not (is_pending t.status) && not (is_pending_reference t.status))
      (domain invalid_transition)
  ok (record t { status = rejected; failure_code = some code; updated_at = now })

unfoldable pub mark_failed : ℕ → String → WagerTransaction → Result WagerTransaction
unfolding is_terminal
mark_failed now code t = do
  reject_if (is_terminal t.status) (domain transaction_terminal)
  ok (record t { status = failed; failure_code = some code; updated_at = now })

unfoldable pub mark_pending_reference : ℕ → ℕ → WagerTransaction → Result WagerTransaction
unfolding is_terminal
mark_pending_reference now after t = do
  reject_if (is_terminal t.status) (domain transaction_terminal)
  reject_if (not (is_pending t.status)) (domain invalid_transition)
  ok (record t {
    status = pending_reference;
    retry_count = wrap64 (t.retry_count +ℤ pos 1);
    retry_after = some after;
    updated_at = now;
  })

unfoldable pub increment_retry : ℕ → ℕ → WagerTransaction → Result WagerTransaction
increment_retry now after t = do
  reject_if (not (is_pending_reference t.status)) (domain invalid_transition)
  ok (record t {
    retry_count = wrap64 (t.retry_count +ℤ pos 1);
    retry_after = some after;
    updated_at = now;
  })

unfoldable pub resolve_reference : ℕ → WagerTransaction → WagerTransaction
resolve_reference ref t = record t { reference_transaction_id = some ref }

-- The inner `switch *referencedKind` of DirectionFor.
unfoldable pub reversal_direction : Kind → Result String
reversal_direction bet = ok direction_credit
reversal_direction win = ok direction_debit
reversal_direction refund = ok direction_debit
reversal_direction _ = err (plain unsupported_rollback)

unfoldable pub direction_for : Kind → Option Kind → Result String
unfolding reversal_direction
direction_for bet r = ok direction_debit
direction_for win r = ok direction_credit
direction_for refund r = ok direction_credit
direction_for loss r = err (plain no_direction)
direction_for rollback none = err (plain no_direction)
direction_for rollback (some k) = reversal_direction k
direction_for opening r = ok direction_credit
direction_for (other s) r = err (plain no_direction)
