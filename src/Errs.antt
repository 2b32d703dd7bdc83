-- ===== src/Errs.antt =====
-- internal/domain/errs/errors.go, and the errors that the other packages build with fmt.Errorf.
-- Messages are not modelled: errors.Is and errors.As look at the code of a DomainError alone.
use go_challenge_fc.Base.{Bool, true, false, String, ◌≡◌, ◌⊎◌, inl, inr, refl, str_eq}

-- The Code... constants.
pub data Code : Type 0 where
  insufficient_funds rollback_insufficient_funds currency_mismatch invalid_money : Code
  invalid_amount negative_balance transaction_terminal invalid_transition : Code
  wallet_already_exists wallet_not_found reference_already_reversed reference_not_found : Code
  reference_not_processable opening_forbidden duplicate_operation payload_conflict : Code
  invalid_input transaction_not_found inbox_duplicate : Code

-- The text of a code, which is stored as a failure code.
unfoldable pub code_text : Code → String
code_text insufficient_funds = "INSUFFICIENT_FUNDS"
code_text rollback_insufficient_funds = "ROLLBACK_INSUFFICIENT_FUNDS"
code_text currency_mismatch = "CURRENCY_MISMATCH"
code_text invalid_money = "INVALID_MONEY"
code_text invalid_amount = "INVALID_AMOUNT"
code_text negative_balance = "NEGATIVE_BALANCE"
code_text transaction_terminal = "TRANSACTION_TERMINAL"
code_text invalid_transition = "INVALID_TRANSITION"
code_text wallet_already_exists = "WALLET_ALREADY_EXISTS"
code_text wallet_not_found = "WALLET_NOT_FOUND"
code_text reference_already_reversed = "REFERENCE_ALREADY_REVERSED"
code_text reference_not_found = "REFERENCE_NOT_FOUND"
code_text reference_not_processable = "REFERENCE_NOT_PROCESSABLE"
code_text opening_forbidden = "OPENING_FORBIDDEN"
code_text duplicate_operation = "DUPLICATE_OPERATION"
code_text payload_conflict = "PAYLOAD_CONFLICT"
code_text invalid_input = "INVALID_INPUT"
code_text transaction_not_found = "TRANSACTION_NOT_FOUND"
code_text inbox_duplicate = "INBOX_DUPLICATE"

-- What fmt.Errorf makes: errors that are no DomainError.
pub data Plain : Type 0 where
  -- money.go
  operand_currency add_overflow add_underflow neg_overflow unsupported_currency : Plain
  empty_amount not_a_number scientific_notation negative_amount explicit_sign : Plain
  decimal_point decimal_part integer_part integer_overflow amount_overflow : Plain
  -- ledger.go
  entry_amount entry_currency debit_violated credit_violated bad_direction : Plain
  -- transaction.go, DirectionFor
  no_direction unsupported_rollback : Plain
  -- handler/wager.go, a DomainError with a code of its own
  provider_access : Plain
  -- retry_pending_ref.go, the panic of a nil pointer
  nil_pointer : Plain
  -- a statement, a commit or a begin that the database fails
  database : Plain

-- An error value: a DomainError by its code, or another.
pub data Error : Type 0 where
  domain : Code → Error
  plain : Plain → Error

-- errors.Is(err, target) for a DomainError target, by DomainError.Is.
unfoldable pub is_code : Error → Code → Bool
unfolding code_text
is_code (domain c) d = str_eq (code_text c) (code_text d)
is_code (plain _) d = false

-- errors.As(err, &domErr) with a default for what is no DomainError.
unfoldable pub code_or : Error → Code → Code
code_or (domain c) d = c
code_or (plain _) d = d

-- A Go result pair (value, error): the error, or else the value.
pub data Result {ℓ} (A : Type ℓ) : Type ℓ where
  err : Error → Result A
  ok : A → Result A

-- `if test { return err }`
abbrev pub reject_if : Bool → Error → Result (Unit {0})
reject_if true e = err e
reject_if false e = ok tt

-- `if err != nil { return err }` between two steps.
infixl 5 ◌>>=◌ ◌>>◌
abbrev pub ◌>>=◌ {ℓ κ} : {T : Type ℓ} {R : Type κ} → Result T → (T → Result R) → Result R
err e >>= next = err e
ok value >>= next = next value

abbrev pub ◌>>◌ {ℓ} : {R : Type ℓ} → Result (Unit {0}) → Result R → Result R
test >> next = test >>= λ _. next

pub Result-cases {ℓ} :
    {A : Type ℓ} (r : Result A) → ((a : A) × (r ≡ ok a)) ⊎ ((e : Error) × (r ≡ err e))
Result-cases (ok a) = inl (a, refl)
Result-cases (err e) = inr (e, refl)
