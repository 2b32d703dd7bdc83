-- ===== src/Examples/Http.antt =====
-- Requests to the HTTP interface, and a page of a ledger.
use go_challenge_fc.Base.Time.{second}
use go_challenge_fc.Store.Tables.Transactions.{limit}
use go_challenge_fc.Http.Wager.{process_wager}
use go_challenge_fc.Base.{◌*◌, true, ◌≡◌, refl, ◌⊎◌, none, some, str_eq, if◌then◌else◌, [], ◌∷◌}
use go_challenge_fc.Examples.{env, unicode, alone, tables, world, played, bet_entry, opening_entry}
use go_challenge_fc.Http.Auth.{Claims, bearer_token}
use go_challenge_fc.Http.Auth.Validator.{
  Jwk, Jwt, key_set, new_validator, validate_token, keys_of, parse_rsa_public_key,
}
use go_challenge_fc.Http.Auth.Validator.Trusted.{Trusted, validate_token-Trusted}
use go_challenge_fc.Http.Health.{up, ready, new_health_handler}
use go_challenge_fc.Http.Health.Honest.{Visit, readies, Honest, ready-Honest}
use go_challenge_fc.Http.Message.{Server, Request, decoded, WagerRequest}
use go_challenge_fc.Http.Router.{post_transaction, open_wallet, serve}
use go_challenge_fc.Http.Router.Authorised.{Refused, Admitted, serve_authorised}
use go_challenge_fc.Http.Router.Served.{serve_atomic}
use go_challenge_fc.Store.Tables.Paging.{select_page, scan_entries, sort_by_time}
use go_challenge_fc.Store.Tables.Paging.Follows.{page_follows}
use go_challenge_fc.Store.Tables.Rows.{find, filter_where}

abbrev wager_request : WagerRequest
wager_request = record {
  provider_id = "provider-a";
  external_transaction_id = "ext-1";
  player_id = "two";
  wallet_id = "one";
  round_id = "round";
  game_id = "game";
  kind = "BET";
  money = record { amount = "30.00"; currency = "BRL" };
  reference_external_transaction_id = none;
}

-- Every token is one of the provider.
abbrev pub server : Server
server = record {
  env = env;
  validate_token = λ w token. some (record { client_id = "provider-a"; roles = [] });
  decode_wager = λ body. decoded wager_request;
  decode_open = λ body. decoded (record {
    player_id = "two";
    initial_balance = record { amount = "30.00"; currency = "BRL" };
  });
  readers = record {
    parse_uuid = λ s. if str_eq s "one" then some 1 else if str_eq s "two" then some 2 else none;
    unicode = unicode;
  };
}

abbrev pub post : Request
post = record {
  authorization = "Bearer token";
  idempotency_key = "key-1";
  correlation_id = "";
  body = "body";
  limit = "";
  cursor = "";
}

abbrev keyless : Request
keyless = record post { idempotency_key = "" }

serve_atomic_example :
    ((serve server alone post_transaction keyless world).1.tables ≡ tables)
    ⊎ ((serve server alone post_transaction keyless world).1.tables ≡ tables)
unfolding serve bearer_token process_wager
serve_atomic_example = serve_atomic server alone keyless post_transaction world refl

serve_authorised_example :
    Refused tables (serve server alone open_wallet post world) ⊎ Admitted server post open_wallet
serve_authorised_example = serve_authorised server alone post open_wallet world

page_follows_example : select_page 1 (some 7) 1 played ≡ scan_entries (opening_entry ∷ [])
unfolding find sort_by_time filter_where limit
page_follows_example =
    page_follows 1 bet_entry played (refl, (refl, tt)) refl [] (opening_entry ∷ []) refl 1

-- A provider with one key, and a token that it has signed.
abbrev key : Jwk
key = record { kty = "RSA"; kid = "key-1"; n = "n"; e = "e" }

abbrev provider_claims : Claims
provider_claims = record { client_id = "provider-a"; roles = [] }

abbrev jwt : Jwt
jwt = record {
  read = λ text. some (record {
    is_rsa = true;
    kid = "key-1";
    issuer = "issuer";
    expires_at = some 100;
    claims = provider_claims;
  });
  accepts = λ key text. true;
  base64 = λ s. some (1 ∷ 1 ∷ []);
  equal_fold = λ s t. str_eq s t;
}

validate_token-Trusted_example :
    Trusted jwt 50 (key_set (key ∷ [])) [] (new_validator "issuer") provider_claims
unfolding validate_token keys_of parse_rsa_public_key new_validator
validate_token-Trusted_example =
    validate_token-Trusted jwt 50 (key_set (key ∷ [])) [] (new_validator "issuer") provider_claims
      refl

-- The queue answered at 5 seconds and has failed since.
abbrev earlier : Visit
earlier = record { now = 5 * second; ended = 6 * second; database = none; ping = none }

cached :
    (ready
      (19 * second)
      (20 * second)
      none
      (some "down")
      (readies (earlier ∷ []) (new_health_handler true))).0
    ≡ up true
unfolding ready readies new_health_handler
cached = refl

ready-Honest_example :
    Honest
      (earlier ∷ [])
      (19 * second)
      none
      (some "down")
      (ready
        (19 * second)
        (20 * second)
        none
        (some "down")
        (readies (earlier ∷ []) (new_health_handler true))).0
ready-Honest_example = ready-Honest (earlier ∷ []) (19 * second) (20 * second) none (some "down")
