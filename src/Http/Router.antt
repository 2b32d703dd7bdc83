-- ===== src/Http/Router.antt =====
-- internal/http/router.go, with the guards of internal/http/middleware/auth.go and the correlation
-- id of internal/http/middleware/logging.go, for the routes behind AuthMiddleware.
pub mod Writes
pub mod Stored
pub mod Served
pub mod Authorised
use go_challenge_fc.Base.{
  ℕ, ◌+◌, Bool, true, false, not, List, Option, none, some, String, str_eq, ◌==◌, if◌then◌else◌,
}
use go_challenge_fc.Http.Auth.{Claims, has_role, bearer_token}
use go_challenge_fc.Http.Message.{Server, Request, Response, Handler, refuse, no_detail, text}
use go_challenge_fc.Http.Wager.{process_wager, get_transaction_by_id, get_transaction_by_external}
use go_challenge_fc.Http.Wallets.{
  handle_open_wallet, handle_get_wallet, handle_get_ledger, handle_reconcile,
}
use go_challenge_fc.Store.Session.{World, Env}
use go_challenge_fc.Store.Tables.Rows.{Tables}

-- The routes, with the parameters of their paths.
pub data Route : Type 0 where
  open_wallet : Route
  get_wallet : String → Route
  get_ledger : String → Route
  reconcile_wallet : String → Route
  post_transaction : Route
  get_transaction : String → Route
  get_provider_transaction : String → String → Route

-- RequireRole
unfoldable pub require_role : String → Option Claims → Handler → Handler
require_role role none next = refuse 401 "unauthorized" (text "no claims found")
require_role role (some c) next =
    if has_role c role then next else refuse 403 "forbidden" (text "insufficient permissions")

-- What NewRouter registers behind AuthMiddleware.
unfoldable pub dispatch : Server → (Tables → Tables) → Request → ℕ → Option Claims → Route → Handler
unfolding require_role
dispatch s rival r id c open_wallet = require_role "internal" c (handle_open_wallet s r id)
dispatch s rival r id c (get_wallet w) = require_role "internal" c (handle_get_wallet s w)
dispatch s rival r id c (get_ledger w) = require_role "internal" c (handle_get_ledger s r w)
dispatch s rival r id c (reconcile_wallet w) = require_role "internal" c (handle_reconcile s w)
dispatch s rival r id c post_transaction = process_wager s rival r id c
dispatch s rival r id c (get_transaction t) = get_transaction_by_id s t c
dispatch s rival r id c (get_provider_transaction p e) = get_transaction_by_external p e c

-- AuthMiddleware, from the validated token on.
unfoldable pub with_claims :
    Server → (Tables → Tables) → Request → ℕ → Route → Option Claims → Handler
unfolding dispatch
with_claims s rival r id route none = refuse 401 "unauthorized" (text "invalid or expired token")
with_claims s rival r id route (some c) = dispatch s rival r id (some c) route

unfoldable pub with_token :
    Server → (Tables → Tables) → Request → ℕ → Route → Option (List ℕ) → Handler
unfolding with_claims
with_token s rival r id route none w =
    refuse 401 "unauthorized" (text "invalid authorization format") w
with_token s rival r id route (some token) w =
    with_claims s rival r id route (s.validate_token w token) w

-- AuthMiddleware
unfoldable pub authenticate : Server → (Tables → Tables) → Request → Route → ℕ → Handler
unfolding with_token
authenticate s rival r route id =
    if str_eq r.authorization ""
    then refuse 401 "unauthorized" (text "missing authorization header")
    else with_token s rival r id route (bearer_token r.authorization)

-- CorrelationMiddleware: the id of the header, or a new one.
abbrev pub correlate : Env → Option ℕ → (ℕ → Handler) → Handler
correlate env none next w = next (env.uuid w.draws) (record w { draws = w.draws + 1 })
correlate env (some id) next w =
    if id == 0 then next (env.uuid w.draws) (record w { draws = w.draws + 1 }) else next id w

-- A request, from CorrelationMiddleware on.
unfoldable pub serve : Server → (Tables → Tables) → Route → Request → Handler
unfolding authenticate
serve s rival route r =
    correlate s.env (s.readers.parse_uuid r.correlation_id) (authenticate s rival r route)
