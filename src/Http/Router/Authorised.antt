-- ===== src/Http/Router/Authorised.antt =====
-- Who may do what: internal/http/middleware/auth.go and the isolation of providers in
-- internal/http/handler/wager.go.
use go_challenge_fc.Base.{
  ◌+◌, ℕ, ◌≡◌, refl, ◌==◌, ◌⊎◌, inl, inr, true, false, Bool-cases, Option, none, some, String,
  str_eq, List,
}
use go_challenge_fc.Http.Auth.{Claims, has_role, bearer_token}
use go_challenge_fc.Http.Message.{
  Server, Request, Response, Decoded, malformed, decoded, WagerRequest,
}
use go_challenge_fc.Http.Router.{
  Route, open_wallet, get_wallet, get_ledger, reconcile_wallet, post_transaction, get_transaction,
  get_provider_transaction, require_role, dispatch, with_claims, with_token, authenticate,
  correlate, serve,
}
use go_challenge_fc.Http.Safe.{is_error}
use go_challenge_fc.Http.Wager.{
  process_wager, wager_claimed, wager_decoded, get_transaction_by_external, is_foreign,
}
use go_challenge_fc.Store.Session.{World, Env}
use go_challenge_fc.Store.Tables.Rows.{Tables}

-- What the claims of a token allow: the routes of wallets for the role "internal" alone, and the
-- operations of a provider for the client of that name, or for that role. A token without a client
-- is let through.
abbrev pub Permitted : Server → Request → Claims → Route → Type 0
Permitted s r c post_transaction =
    (q : WagerRequest) × (s.decode_wager r.body ≡ decoded q) × (is_foreign c q.provider_id ≡ false)
Permitted s r c (get_transaction t) = Unit
Permitted s r c (get_provider_transaction p e) = is_foreign c p ≡ false
Permitted s r c _ = has_role c "internal" ≡ true

-- The token of the request is valid, and its claims allow the route.
abbrev pub Admitted : Server → Request → Route → Type 0
Admitted s r route =
    (token : List ℕ) × (v : World) × (c : Claims) × (bearer_token r.authorization ≡ some token)
    × (s.validate_token v token ≡ some c)
    × Permitted s r c route

-- An error, and no table has changed.
abbrev pub Refused : Tables → Response × World → Type 0
Refused t r = (is_error r.0 ≡ true) × (r.1.tables ≡ t)

Decoded-cases :
    {A : Type 0} (d : Decoded A) → ((e : String) × (d ≡ malformed e)) ⊎ ((a : A) × (d ≡ decoded a))
Decoded-cases (malformed e) = inl (e, refl)
Decoded-cases (decoded a) = inr (a, refl)

module _ (s : Server) (rival : Tables → Tables) (r : Request) where
  post_check :
      (id : ℕ) (c : Claims) (w : World)
      → Refused w.tables (process_wager s rival r id (some c) w) ⊎ Permitted s r c post_transaction
  unfolding process_wager wager_claimed wager_decoded
  post_check id c w = elim (Bool-cases (str_eq r.idempotency_key "")) [
    | inl missing ↦ rw missing (inl (refl, refl))
    | inr given ↦ rw given (elim (Decoded-cases (s.decode_wager r.body)) [
      | inl (e, bad) ↦ rw bad (inl (refl, refl))
      | inr (q, good) ↦ rw good (elim (Bool-cases (is_foreign c q.provider_id)) [
        | inl foreign ↦ rw foreign (inl (refl, refl))
        | inr own ↦ inr (q, refl, own)
      ])
    ])
  ]

  role_check :
      (c : Claims) (next : World → Response × World) (w : World)
      → Refused w.tables (require_role "internal" (some c) next w) ⊎ (has_role c "internal" ≡ true)
  unfolding require_role
  role_check c next w = elim (Bool-cases (has_role c "internal")) [
    | inl holds ↦ inr holds
    | inr lacks ↦ rw lacks (inl (refl, refl))
  ]

  external_check :
      (c : Claims) (p e : String) (w : World)
      → Refused w.tables (get_transaction_by_external p e (some c) w) ⊎ (is_foreign c p ≡ false)
  unfolding get_transaction_by_external
  external_check c p e w = elim (Bool-cases (is_foreign c p)) [
    | inl foreign ↦ rw foreign (inl (refl, refl))
    | inr own ↦ inr own
  ]

  dispatch_check :
      (id : ℕ) (c : Claims) (w : World) (route : Route)
      → Refused w.tables (dispatch s rival r id (some c) route w) ⊎ Permitted s r c route
  unfolding dispatch
  dispatch_check id c w open_wallet = role_check c _ w
  dispatch_check id c w (get_wallet x) = role_check c _ w
  dispatch_check id c w (get_ledger x) = role_check c _ w
  dispatch_check id c w (reconcile_wallet x) = role_check c _ w
  dispatch_check id c w post_transaction = post_check id c w
  dispatch_check id c w (get_transaction x) = inr tt
  dispatch_check id c w (get_provider_transaction p e) = external_check c p e w

  validated :
      (id : ℕ) (route : Route) (w : World) (token : List ℕ) (c : Option Claims)
      → bearer_token r.authorization ≡ some token
      → s.validate_token w token ≡ c
      → Refused w.tables (with_claims s rival r id route c w) ⊎ Admitted s r route
  unfolding with_claims
  validated id route w token none has valid = inl (refl, refl)
  validated id route w token (some c) has valid = elim (dispatch_check id c w route) [
    | inl refused ↦ inl refused
    | inr permitted ↦ inr (token, w, c, has, valid, permitted)
  ]

  tokened :
      (id : ℕ) (route : Route) (w : World) (token : Option (List ℕ))
      → bearer_token r.authorization ≡ token
      → Refused w.tables (with_token s rival r id route token w) ⊎ Admitted s r route
  unfolding with_token
  tokened id route w none has = inl (refl, refl)
  tokened id route w (some token) has = validated id route w token _ has refl

  authenticated :
      (id : ℕ) (route : Route) (w : World)
      → Refused w.tables (authenticate s rival r route id w) ⊎ Admitted s r route
  unfolding authenticate
  authenticated id route w = elim (Bool-cases (str_eq r.authorization "")) [
    | inl absent ↦ rw absent (inl (refl, refl))
    | inr given ↦ rw given (tokened id route w _ refl)
  ]

  correlated :
      (env : Env) (id : Option ℕ) (route : Route) (w : World)
      → Refused w.tables (correlate env id (authenticate s rival r route) w) ⊎ Admitted s r route
  correlated env none route w = authenticated _ route (record w { draws = w.draws + 1 })
  correlated env (some id) route w = elim (Bool-cases (id == 0)) [
    | inl absent ↦ rw absent (authenticated _ route (record w { draws = w.draws + 1 }))
    | inr given ↦ rw given (authenticated id route w)
  ]

  -- A request behind the authentication either is answered by an error and changes no table, or
  -- comes with a bearer token that the validator accepts and whose claims allow the route: the role
  -- "internal" for the wallets, and for the operations of a provider that role, no client, or the
  -- provider as the client (for a transaction by its identifier, any claims).
  pub serve_authorised :
      (route : Route) (w : World) → Refused w.tables (serve s rival route r w) ⊎ Admitted s r route
  unfolding serve
  serve_authorised route w = correlated s.env (s.readers.parse_uuid r.correlation_id) route w
