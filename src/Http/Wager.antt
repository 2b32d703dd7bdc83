-- ===== src/Http/Wager.antt =====
-- internal/http/handler/wager.go
use go_challenge_fc.Base.{
  ℕ, Bool, false, not, ◌&&◌, Option, none, some, String, str_eq, ◌==◌, if◌then◌else◌,
}
use go_challenge_fc.Errs.{
  Result, ok, err, is_code, payload_conflict, opening_forbidden, wallet_not_found,
  transaction_not_found, domain, plain, provider_access,
}
use go_challenge_fc.Http.Auth.{Claims, has_role}
use go_challenge_fc.Http.Message.{
  Server, Request, Response, Handler, refuse, failed, answer_with, no_detail, text, error_text,
  Decoded, malformed, decoded, WagerRequest, WagerResponse, wager_body, money_text,
}
use go_challenge_fc.Messages.Dto.{read_money}
use go_challenge_fc.Money.Defs.{Money}
use go_challenge_fc.Store.Repos.{get_transaction, get_by_external}
use go_challenge_fc.Store.Session.{M, Env, pure, raise, new_uuid, with_tx, ◌>>=◌}
use go_challenge_fc.Store.Tables.Rows.{Tables}
use go_challenge_fc.Transaction.Defs.{WagerTransaction, is_pending_reference, kind_of_text}
use go_challenge_fc.Usecase.ProcessWager.Defs.{Input, Output, replay_balance}
use go_challenge_fc.Usecase.ProcessWager.Execute.{execute}

-- middleware.GetCorrelationID; 0 is uuid.Nil.
unfoldable pub get_correlation : Env → ℕ → M ℕ
get_correlation env id = if id == 0 then new_uuid env else pure id

-- `claims.ClientID != "" && claims.ClientID != providerId && !claims.HasRole("internal")`
unfoldable pub is_foreign : Claims → String → Bool
unfolding has_role
is_foreign c provider =
    not (str_eq c.client_id "") && not (str_eq c.client_id provider) && not (has_role c "internal")

-- The ProcessWagerInput of a request.
abbrev pub request_input : Request → WagerRequest → ℕ → ℕ → Money → ℕ → Input
request_input r q player wallet money correlation = record {
  source = "HTTP";
  consumer_name = "";
  message_id = "";
  idempotency_key = r.idempotency_key;
  correlation_id = correlation;
  provider_id = q.provider_id;
  external_transaction_id = q.external_transaction_id;
  player_id = player;
  wallet_id = wallet;
  round_id = q.round_id;
  game_id = q.game_id;
  kind = kind_of_text q.kind;
  money = money;
  reference_external_transaction_id = q.reference_external_transaction_id;
}

-- The answer to what Execute returns.
unfoldable pub wager_answer : Result Output → Response
wager_answer (ok o) = record {
  status = if is_pending_reference o.status then 202 else 200;
  body = wager_body (record {
    transaction_id = o.transaction_id;
    status = o.status;
    balance = money_text o.balance;
    idempotent_replay = o.idempotent_replay;
    failure_code = o.failure_code;
  });
}
wager_answer (err e) =
    if is_code e payload_conflict
    then failed 409 "payload_conflict" (error_text e)
    else if is_code e opening_forbidden
    then failed 403 "opening_forbidden" (error_text e)
    else if is_code e wallet_not_found
    then failed 404 "wallet_not_found" (error_text e)
    else failed 400 "invalid_request" (error_text e)

unfoldable pub wager_with_money :
    Server → (Tables → Tables) → Request → ℕ → WagerRequest → ℕ → ℕ → Result Money → Handler
unfolding get_correlation wager_answer
wager_with_money s rival r id q player wallet (err e) = refuse 400 "invalid_money" (error_text e)
wager_with_money s rival r id q player wallet (ok money) = answer_with wager_answer (
    get_correlation s.env id >>= λ correlation.
    execute s.env rival (request_input r q player wallet money correlation))

unfoldable pub wager_with_wallet :
    Server → (Tables → Tables) → Request → ℕ → WagerRequest → ℕ → Option ℕ → Handler
unfolding wager_with_money
wager_with_wallet s rival r id q player none = refuse 400 "invalid_input" (text "invalid walletId")
wager_with_wallet s rival r id q player (some wallet) =
    wager_with_money s rival r id q player wallet (read_money s.readers q.money)

unfoldable pub wager_with_player :
    Server → (Tables → Tables) → Request → ℕ → WagerRequest → Option ℕ → Handler
unfolding wager_with_wallet
wager_with_player s rival r id q none = refuse 400 "invalid_input" (text "invalid playerId")
wager_with_player s rival r id q (some player) =
    wager_with_wallet s rival r id q player (s.readers.parse_uuid q.wallet_id)

-- From the decoded body on: the tenant of the token first.
unfoldable pub wager_decoded :
    Server → (Tables → Tables) → Request → ℕ → Claims → Decoded WagerRequest → Handler
unfolding wager_with_player is_foreign
wager_decoded s rival r id c (malformed e) = refuse 400 "invalid_json" (text e)
wager_decoded s rival r id c (decoded q) =
    if is_foreign c q.provider_id
    then refuse 403 "forbidden" (text "authenticated identity does not match requested providerId")
    else wager_with_player s rival r id q (s.readers.parse_uuid q.player_id)

-- The claims in the request's context; none if the middleware has left none.
unfoldable pub wager_claimed : Server → (Tables → Tables) → Request → ℕ → Option Claims → Handler
unfolding wager_decoded
wager_claimed s rival r id none = refuse 401 "unauthorized" no_detail
wager_claimed s rival r id (some c) = wager_decoded s rival r id c (s.decode_wager r.body)

-- WagerHandler.ProcessWager. `id` is the correlation id in the context, `rival` what other sessions
-- commit during Execute.
unfoldable pub process_wager : Server → (Tables → Tables) → Request → ℕ → Option Claims → Handler
unfolding wager_claimed
process_wager s rival r id c =
    if str_eq r.idempotency_key ""
    then refuse 400 "missing_header" (text "Idempotency-Key header is required")
    else wager_claimed s rival r id c

-- toWagerResponse
unfoldable pub to_wager_response : WagerTransaction → WagerResponse
to_wager_response t = record {
  transaction_id = t.id;
  status = t.status;
  balance = money_text (replay_balance t t.result_balance);
  idempotent_replay = false;
  failure_code = t.failure_code;
}

-- `claims != nil && …` for a provider that may be nil.
abbrev pub is_foreign_to : Option Claims → Option String → Bool
is_foreign_to (some c) (some provider) = is_foreign c provider
is_foreign_to _ _ = false

-- The function that GetTransactionByID hands to WithTx.
unfoldable pub view_transaction : Option Claims → Option WagerTransaction → M WagerResponse
unfolding to_wager_response is_foreign
view_transaction c none = raise (domain transaction_not_found)
view_transaction c (some t) =
    if is_foreign_to c t.provider_id
    then raise (plain provider_access)
    else pure (to_wager_response t)

abbrev pub shown : WagerResponse → Response
shown r = record { status = 200; body = wager_body r }

unfoldable pub by_id_answer : Result WagerResponse → Response
by_id_answer (ok r) = shown r
by_id_answer (err e) =
    if is_code e transaction_not_found
    then failed 404 "transaction_not_found" no_detail
    else failed 403 "forbidden" (error_text e)

unfoldable pub get_by_parsed_id : Option Claims → Option ℕ → Handler
unfolding view_transaction by_id_answer
get_by_parsed_id c none = refuse 400 "invalid_transaction_id" no_detail
get_by_parsed_id c (some id) =
    answer_with by_id_answer (with_tx (get_transaction id >>= view_transaction c))

-- WagerHandler.GetTransactionByID
unfoldable pub get_transaction_by_id : Server → String → Option Claims → Handler
unfolding get_by_parsed_id
get_transaction_by_id s id c = get_by_parsed_id c (s.readers.parse_uuid id)

unfoldable pub show_transaction : Option WagerTransaction → M WagerResponse
unfolding to_wager_response
show_transaction none = raise (domain transaction_not_found)
show_transaction (some t) = pure (to_wager_response t)

unfoldable pub by_external_answer : Result WagerResponse → Response
by_external_answer (ok r) = shown r
by_external_answer (err e) =
    if is_code e transaction_not_found
    then failed 404 "transaction_not_found" no_detail
    else failed 500 "internal_error" (error_text e)

-- WagerHandler.GetTransactionByProviderAndExternalID
unfoldable pub get_transaction_by_external : String → String → Option Claims → Handler
unfolding show_transaction by_external_answer is_foreign
get_transaction_by_external provider external c =
    if is_foreign_to c (some provider)
    then refuse 403 "forbidden" (text "cannot view transactions of another provider")
    else answer_with by_external_answer
        (with_tx (get_by_external provider external >>= show_transaction))
