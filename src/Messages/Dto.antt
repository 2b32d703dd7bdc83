-- ===== src/Messages/Dto.antt =====
-- The amounts of requests and messages, and what reads their texts. MoneyDTO is declared alike in
-- internal/worker/sqs/consumer.go and internal/http/handler/wallet.go.
use go_challenge_fc.Base.{ℕ, Option, String}
use go_challenge_fc.Base.Text.{codes}
use go_challenge_fc.Errs.{Result}
use go_challenge_fc.Money.Defs.{Money}
use go_challenge_fc.Money.Text.{Unicode, new_from_external_string}

pub record MoneyDto : Type 0 where
  pub amount : String
  pub currency : String

-- uuid.Parse, none where it fails, and the tables of Unicode.
pub record Readers : Type 0 where
  pub parse_uuid : String → Option ℕ
  pub unicode : Unicode

-- money.NewFromExternalString(dto.Amount, money.Currency(dto.Currency))
unfoldable pub read_money : Readers → MoneyDto → Result Money
read_money r m = new_from_external_string r.unicode (codes m.amount) m.currency
