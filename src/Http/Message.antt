-- ===== src/Http/Message.antt =====
-- Requests and responses. Identifiers stand for their texts by uuid.UUID.String.
use go_challenge_fc.Base.{ℕ, Bool, List, Option, String}
use go_challenge_fc.Base.Int.{ℤ}
use go_challenge_fc.Errs.{Result, Error}
use go_challenge_fc.Http.Auth.{Claims}
use go_challenge_fc.Messages.Dto.{MoneyDto, Readers}
use go_challenge_fc.Money.Defs.{Money}
use go_challenge_fc.Money.Text.{print}
use go_challenge_fc.Store.Session.{M, World, Env}
use go_challenge_fc.Transaction.Defs.{Status}

-- The headers, the body and the query of a request; "" where there is none.
pub record Request : Type 0 where
  pub authorization : String
  pub idempotency_key : String
  pub correlation_id : String
  pub body : String
  pub limit : String
  pub cursor : String

-- A MoneyDTO of a response.
pub record MoneyText : Type 0 where
  pub amount : List ℕ
  pub currency : String

abbrev pub money_text : Money → MoneyText
money_text m = record { amount = print m; currency = m.currency }

pub record WagerResponse : Type 0 where
  pub transaction_id : ℕ
  pub status : Status
  pub balance : MoneyText
  pub idempotent_replay : Bool
  pub failure_code : Option String

pub record WalletResponse : Type 0 where
  pub id : ℕ
  pub player_id : ℕ
  pub balance : MoneyText
  pub version : ℤ

pub record LedgerEntryDto : Type 0 where
  pub id : ℕ
  pub wallet_id : ℕ
  pub transaction_id : ℕ
  pub direction : String
  pub money : MoneyText
  pub balance_before : MoneyText
  pub balance_after : MoneyText
  pub created_at : ℕ

pub record LedgerListResponse : Type 0 where
  pub entries : List LedgerEntryDto
  pub next_cursor : Option ℕ

pub record ReconciliationResponse : Type 0 where
  pub wallet_id : ℕ
  pub stored_balance : MoneyText
  pub calculated_balance : MoneyText
  pub difference : MoneyText
  pub consistent : Bool
  pub checked_entries : ℕ

-- The "message" of an error: none, a text, the text of an error, or that of the JSON decoder.
pub data Detail : Type 0 where
  no_detail : Detail
  text : String → Detail
  error_text : Error → Detail

pub data Body : Type 0 where
  failure : String → Detail → Body
  wager_body : WagerResponse → Body
  wallet_body : WalletResponse → Body
  ledger_body : LedgerListResponse → Body
  reconciliation_body : ReconciliationResponse → Body

pub record Response : Type 0 where
  pub status : ℕ
  pub body : Body

-- What a handler does.
abbrev pub Handler : Type 0
Handler = World → Response × World

-- writeJSON of an error, and a handler that does nothing else.
abbrev pub failed : ℕ → String → Detail → Response
failed status error detail = record { status = status; body = failure error detail }

abbrev pub refuse : ℕ → String → Detail → Handler
refuse status error detail w = (failed status error detail, w)

-- A handler that answers by the result of a computation.
abbrev pub answer_with : {A : Type 0} → (Result A → Response) → M A → Handler
answer_with f m w = let (r, v) = m w in (f r, v)

-- A JSON value, or the text of the decoder's error.
pub data Decoded (A : Type 0) : Type 0 where
  malformed : String → Decoded A
  decoded : A → Decoded A

pub record OpenWalletRequest : Type 0 where
  pub player_id : String
  pub initial_balance : MoneyDto

pub record WagerRequest : Type 0 where
  pub provider_id : String
  pub external_transaction_id : String
  pub player_id : String
  pub wallet_id : String
  pub round_id : String
  pub game_id : String
  pub kind : String
  pub money : MoneyDto
  pub reference_external_transaction_id : Option String

-- What the server uses: the libraries' values, auth.TokenValidator (none where it fails),
-- json.Decoder, and the readers of identifiers and amounts.
pub record Server : Type 0 where
  pub env : Env
  pub validate_token : World → List ℕ → Option Claims
  pub decode_wager : String → Decoded WagerRequest
  pub decode_open : String → Decoded OpenWalletRequest
  pub readers : Readers
