-- ===== src/Http/Wallets.antt =====
-- internal/http/handler/wallet.go
use go_challenge_fc.Strconv.{atoi}
use go_challenge_fc.Base.{
  ℕ, not, ◌&&◌, List, [], ◌∷◌, Option, none, some, String, str_eq, ◌==◌, if◌then◌else◌,
}
use go_challenge_fc.Base.Int.{ℤ, pos, pos_part, ltb_ℤ}
use go_challenge_fc.Base.Text.{codes, length}
use go_challenge_fc.Errs.{Result, ok, err, is_code, wallet_already_exists, wallet_not_found}
use go_challenge_fc.Http.Message.{
  Server, Request, Response, Handler, refuse, failed, answer_with, no_detail, text, error_text,
  Decoded, malformed, decoded, OpenWalletRequest, WalletResponse, wallet_body, LedgerEntryDto,
  LedgerListResponse, ledger_body, reconciliation_body, money_text,
}
use go_challenge_fc.Http.Wager.{get_correlation}
use go_challenge_fc.Ledger.{Entry}
use go_challenge_fc.Messages.Dto.{read_money}
use go_challenge_fc.Money.Defs.{Money}
use go_challenge_fc.Store.Repos.{get_wallet, get_page}
use go_challenge_fc.Store.Session.{pure, with_tx, ◌>>=◌}
use go_challenge_fc.Usecase.OpenWallet.{OpenOutput, open_wallet}
use go_challenge_fc.Usecase.Reconcile.{Reconciliation, reconcile}
use go_challenge_fc.Wallet.{Wallet}

unfoldable pub open_answer : Result OpenOutput → Response
open_answer (ok o) = record {
  status = 201;
  body = wallet_body (record {
    id = o.id;
    player_id = o.player_id;
    balance = money_text o.balance;
    version = o.version;
  });
}
open_answer (err e) =
    if is_code e wallet_already_exists
    then failed 409 "wallet_already_exists" (error_text e)
    else failed 400 "open_wallet_failed" (error_text e)

unfoldable pub open_with_money : Server → ℕ → ℕ → Result Money → Handler
unfolding get_correlation open_answer
open_with_money s id player (err e) = refuse 400 "invalid_money" (error_text e)
open_with_money s id player (ok money) = answer_with open_answer (
    get_correlation s.env id >>= λ correlation.
    open_wallet s.env
      (record { player_id = player; initial_balance = money; correlation_id = correlation }))

unfoldable pub open_with_player : Server → ℕ → OpenWalletRequest → Option ℕ → Handler
unfolding open_with_money
open_with_player s id q none = refuse 400 "invalid_input" (text "invalid playerId")
open_with_player s id q (some player) =
    open_with_money s id player (read_money s.readers q.initial_balance)

unfoldable pub open_decoded : Server → ℕ → Decoded OpenWalletRequest → Handler
unfolding open_with_player
open_decoded s id (malformed e) = refuse 400 "invalid_json" (text e)
open_decoded s id (decoded q) = open_with_player s id q (s.readers.parse_uuid q.player_id)

-- WalletHandler.OpenWallet; `id` is the correlation id in the context.
unfoldable pub handle_open_wallet : Server → Request → ℕ → Handler
unfolding open_decoded
handle_open_wallet s r id = open_decoded s id (s.decode_open r.body)

abbrev pub wallet_response : Wallet → WalletResponse
wallet_response w = record {
  id = w.id;
  player_id = w.player_id;
  balance = money_text w.balance;
  version = w.version;
}

unfoldable pub wallet_answer : Result Wallet → Response
wallet_answer (ok w) = record { status = 200; body = wallet_body (wallet_response w) }
wallet_answer (err e) =
    if is_code e wallet_not_found
    then failed 404 "wallet_not_found" no_detail
    else failed 500 "internal_error" (error_text e)

abbrev pub bad_wallet_id : Handler
bad_wallet_id = refuse 400 "invalid_wallet_id" no_detail

unfoldable pub get_parsed_wallet : Option ℕ → Handler
unfolding wallet_answer
get_parsed_wallet none = bad_wallet_id
get_parsed_wallet (some id) = answer_with wallet_answer (with_tx (get_wallet id))

-- WalletHandler.GetWallet
unfoldable pub handle_get_wallet : Server → String → Handler
unfolding get_parsed_wallet
handle_get_wallet s id = get_parsed_wallet (s.readers.parse_uuid id)

-- `err == nil && l > 0 && l <= 100`, or else 50
abbrev pub limit_of : Option ℤ → ℕ
limit_of none = 50
limit_of (some l) = if ltb_ℤ (pos 0) l && not (ltb_ℤ (pos 100) l) then pos_part l else 50

unfoldable pub page_limit : String → ℕ
unfolding atoi
page_limit q = if str_eq q "" then 50 else limit_of (atoi (codes q))

unfoldable pub page_cursor : Server → String → Option ℕ
page_cursor s q = if str_eq q "" then none else s.readers.parse_uuid q

abbrev pub entry_dto : Entry → LedgerEntryDto
entry_dto e = record {
  id = e.id;
  wallet_id = e.wallet_id;
  transaction_id = e.transaction_id;
  direction = e.direction;
  money = money_text e.money;
  balance_before = money_text e.balance_before;
  balance_after = money_text e.balance_after;
  created_at = e.created_at;
}

abbrev pub entry_dtos : List Entry → List LedgerEntryDto
entry_dtos [] = []
entry_dtos (e ∷ es) = entry_dto e ∷ entry_dtos es

-- entries[len(entries)-1].ID(), if there is one
abbrev pub last_id : List Entry → Option ℕ
last_id [] = none
last_id (e ∷ []) = some e.id
last_id (e ∷ f ∷ es) = last_id (f ∷ es)

-- The cursor of the next page, if this one is full.
unfoldable pub ledger_page : ℕ → List Entry → LedgerListResponse
ledger_page limit es = record {
  entries = entry_dtos es;
  next_cursor = if length es == limit then last_id es else none;
}

unfoldable pub ledger_answer : Result LedgerListResponse → Response
ledger_answer (ok l) = record { status = 200; body = ledger_body l }
ledger_answer (err e) = failed 500 "internal_error" (error_text e)

unfoldable pub get_parsed_ledger : Option ℕ → Option ℕ → ℕ → Handler
unfolding ledger_answer ledger_page
get_parsed_ledger none cursor limit = bad_wallet_id
get_parsed_ledger (some id) cursor limit =
    answer_with ledger_answer
      (with_tx (get_page id cursor limit >>= λ es. pure (ledger_page limit es)))

-- WalletHandler.GetLedger
unfoldable pub handle_get_ledger : Server → Request → String → Handler
unfolding get_parsed_ledger page_limit page_cursor
handle_get_ledger s r id =
    get_parsed_ledger (s.readers.parse_uuid id) (page_cursor s r.cursor) (page_limit r.limit)

unfoldable pub reconcile_answer : Result Reconciliation → Response
reconcile_answer (ok o) = record {
  status = 200;
  body = reconciliation_body (record {
    wallet_id = o.wallet_id;
    stored_balance = money_text o.stored_balance;
    calculated_balance = money_text o.calculated_balance;
    difference = money_text o.difference;
    consistent = o.consistent;
    checked_entries = o.checked_entries;
  });
}
reconcile_answer (err e) =
    if is_code e wallet_not_found
    then failed 404 "wallet_not_found" no_detail
    else failed 500 "reconciliation_failed" (error_text e)

unfoldable pub reconcile_parsed : Option ℕ → Handler
unfolding reconcile_answer
reconcile_parsed none = bad_wallet_id
reconcile_parsed (some id) = answer_with reconcile_answer (reconcile id)

-- WalletHandler.Reconcile
unfoldable pub handle_reconcile : Server → String → Handler
unfolding reconcile_parsed
handle_reconcile s id = reconcile_parsed (s.readers.parse_uuid id)
