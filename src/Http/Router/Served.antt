-- ===== src/Http/Router/Served.antt =====
-- What the HTTP interface does to the database, over all of its routes.
use go_challenge_fc.Store.Balance.{IsBalanced}
use go_challenge_fc.Base.{
  ◌+◌, ℕ, ◌≡◌, refl, ◌==◌, ◌⊎◌, inl, inr, true, Bool-cases, Option, none, some, String, str_eq,
  List,
}
use go_challenge_fc.Errs.{Result}
use go_challenge_fc.Http.Auth.{Claims, has_role}
use go_challenge_fc.Http.Message.{Server, Request, Response, Handler, answer_with}
use go_challenge_fc.Http.Router.{
  Route, open_wallet, get_wallet, get_ledger, reconcile_wallet, post_transaction, get_transaction,
  get_provider_transaction, require_role, dispatch, with_claims, with_token, authenticate,
  correlate, serve,
}
use go_challenge_fc.Http.Router.Writes.{process_wager-Safe, open_decoded-Safe}
use go_challenge_fc.Http.Safe.{is_error, Safe, same-Safe}
use go_challenge_fc.Http.Wager.{
  view_transaction, get_by_parsed_id, get_transaction_by_id, show_transaction,
  get_transaction_by_external, is_foreign_to, by_id_answer, by_external_answer,
}
use go_challenge_fc.Http.Wallets.{
  handle_open_wallet, get_parsed_wallet, handle_get_wallet, get_parsed_ledger, handle_get_ledger,
  reconcile_parsed, handle_reconcile, wallet_answer, ledger_answer, ledger_page, reconcile_answer,
}
use go_challenge_fc.Store.Reads.{Reads, reads}
use go_challenge_fc.Store.Session.{with_tx, pure, ◌>>=◌, World, M, Env}
use go_challenge_fc.Store.Repos
use go_challenge_fc.Store.Repos.{get_page, balance_of_entries, get_by_external}
use go_challenge_fc.Store.Tables.Rows.{Tables}
use go_challenge_fc.Transaction.Defs.{WagerTransaction}
use go_challenge_fc.Usecase.Reconcile.{reconcile, reconcile_tx}

view_transaction-Reads :
    (c : Option Claims) (t : Option WagerTransaction) → Reads (view_transaction c t)
unfolding view_transaction
view_transaction-Reads c none = search reads
view_transaction-Reads c (some t) = search reads

show_transaction-Reads : (t : Option WagerTransaction) → Reads (show_transaction t)
unfolding show_transaction
show_transaction-Reads none = search reads
show_transaction-Reads (some t) = search reads

reconcile-Reads : (id : ℕ) → Reads (reconcile id)
unfolding reconcile reconcile_tx Repos.get_wallet balance_of_entries
reconcile-Reads id = search reads depth 20

module _ (rival : Tables → Tables) (w : World) where
  unchanged-Safe :
      {A : Type 0} (f : Result A → Response) (m : M A)
      → Reads m
      → Safe rival w.tables (answer_with f m w)
  unchanged-Safe f m h = same-Safe rival w.tables _ (h.kept w)

  get_by_parsed_id-Safe :
      (c : Option Claims) (id : Option ℕ) → Safe rival w.tables (get_by_parsed_id c id w)
  unfolding get_by_parsed_id Repos.get_transaction
  get_by_parsed_id-Safe c none = same-Safe rival w.tables _ refl
  get_by_parsed_id-Safe c (some id) =
      unchanged-Safe by_id_answer (with_tx (Repos.get_transaction id >>= view_transaction c))
        (search (reads, view_transaction-Reads) depth 10)

  by_external-Safe :
      (c : Option Claims) (p e : String) → Safe rival w.tables (get_transaction_by_external p e c w)
  unfolding get_transaction_by_external get_by_external
  by_external-Safe c p e = elim (Bool-cases (is_foreign_to c (some p))) [
    | inl foreign ↦ rw foreign (same-Safe rival w.tables _ refl)
    | inr own ↦ rw own (
        unchanged-Safe by_external_answer (with_tx (get_by_external p e >>= show_transaction))
          (search (reads, show_transaction-Reads) depth 10))
  ]

  get_parsed_wallet-Safe : (id : Option ℕ) → Safe rival w.tables (get_parsed_wallet id w)
  unfolding get_parsed_wallet Repos.get_wallet
  get_parsed_wallet-Safe none = same-Safe rival w.tables _ refl
  get_parsed_wallet-Safe (some id) =
      unchanged-Safe wallet_answer (with_tx (Repos.get_wallet id)) (search reads depth 10)

  get_parsed_ledger-Safe :
      (id cursor : Option ℕ) (n : ℕ) → Safe rival w.tables (get_parsed_ledger id cursor n w)
  unfolding get_parsed_ledger get_page
  get_parsed_ledger-Safe none cursor n = same-Safe rival w.tables _ refl
  get_parsed_ledger-Safe (some id) cursor n =
      unchanged-Safe ledger_answer
        (with_tx (get_page id cursor n >>= λ es. pure (ledger_page n es))) (search reads depth 10)

  reconcile_parsed-Safe : (id : Option ℕ) → Safe rival w.tables (reconcile_parsed id w)
  unfolding reconcile_parsed
  reconcile_parsed-Safe none = same-Safe rival w.tables _ refl
  reconcile_parsed-Safe (some id) = unchanged-Safe reconcile_answer _ (reconcile-Reads id)

  require_role-Safe :
      (role : String) (c : Option Claims) (next : Handler)
      → Safe rival w.tables (next w)
      → Safe rival w.tables (require_role role c next w)
  unfolding require_role
  require_role-Safe role none next h = same-Safe rival w.tables _ refl
  require_role-Safe role (some c) next h = elim (Bool-cases (has_role c role)) [
    | inl has ↦ rw has h
    | inr lacks ↦ rw lacks (same-Safe rival w.tables _ refl)
  ]

module _ (s : Server) (rival : Tables → Tables) (r : Request) where
  dispatch-Safe :
      (id : ℕ) (c : Option Claims) (w : World) (route : Route)
      → Safe rival w.tables (dispatch s rival r id c route w)
  unfolding dispatch handle_open_wallet handle_get_wallet handle_get_ledger handle_reconcile
      get_transaction_by_id
  dispatch-Safe id c w open_wallet =
      require_role-Safe rival w "internal" c _ (open_decoded-Safe s rival r id w _)
  dispatch-Safe id c w (get_wallet x) =
      require_role-Safe rival w "internal" c _ (get_parsed_wallet-Safe rival w _)
  dispatch-Safe id c w (get_ledger x) =
      require_role-Safe rival w "internal" c _ (get_parsed_ledger-Safe rival w _ _ _)
  dispatch-Safe id c w (reconcile_wallet x) =
      require_role-Safe rival w "internal" c _ (reconcile_parsed-Safe rival w _)
  dispatch-Safe id c w post_transaction = process_wager-Safe s rival r id w c
  dispatch-Safe id c w (get_transaction x) = get_by_parsed_id-Safe rival w c _
  dispatch-Safe id c w (get_provider_transaction p e) = by_external-Safe rival w c p e

  with_claims-Safe :
      (id : ℕ) (route : Route) (w : World) (c : Option Claims)
      → Safe rival w.tables (with_claims s rival r id route c w)
  unfolding with_claims
  with_claims-Safe id route w none = same-Safe rival w.tables _ refl
  with_claims-Safe id route w (some c) = dispatch-Safe id (some c) w route

  with_token-Safe :
      (id : ℕ) (route : Route) (w : World) (token : Option (List ℕ))
      → Safe rival w.tables (with_token s rival r id route token w)
  unfolding with_token
  with_token-Safe id route w none = same-Safe rival w.tables _ refl
  with_token-Safe id route w (some token) = with_claims-Safe id route w _

  authenticate-Safe :
      (id : ℕ) (route : Route) (w : World) → Safe rival w.tables (authenticate s rival r route id w)
  unfolding authenticate
  authenticate-Safe id route w = elim (Bool-cases (str_eq r.authorization "")) [
    | inl absent ↦ rw absent (same-Safe rival w.tables _ refl)
    | inr given ↦ rw given (with_token-Safe id route w _)
  ]

  correlate-Safe :
      (env : Env) (id : Option ℕ) (route : Route) (w : World)
      → Safe rival w.tables (correlate env id (authenticate s rival r route) w)
  correlate-Safe env none route w = authenticate-Safe _ route (record w { draws = w.draws + 1 })
  correlate-Safe env (some id) route w = elim (Bool-cases (id == 0)) [
    | inl absent ↦ rw absent (authenticate-Safe _ route (record w { draws = w.draws + 1 }))
    | inr given ↦ rw given (authenticate-Safe id route w)
  ]

  pub serve-Safe : (route : Route) (w : World) → Safe rival w.tables (serve s rival route r w)
  unfolding serve
  serve-Safe route w = correlate-Safe s.env (s.readers.parse_uuid r.correlation_id) route w

  -- Whatever the route, the headers, the body, the token and the requests that the database fails:
  -- an error response (from 400 on) means that nothing of the request stays, so that the tables are
  -- those that it met, or those that other sessions left during Execute.
  pub serve_atomic :
      (route : Route) (w : World)
      → is_error (serve s rival route r w).0 ≡ true
      → ((serve s rival route r w).1.tables ≡ w.tables)
        ⊎ ((serve s rival route r w).1.tables ≡ rival w.tables)
  serve_atomic route w = (serve-Safe route w).clean

  -- From tables where no wallet is in debt and every ledger adds up to its wallet's balance, every
  -- request leaves such tables, whatever its route, headers, body and token and the requests that
  -- the database fails, if what other sessions commit during Execute keeps them so.
  pub serve-IsBalanced :
      (route : Route) (w : World)
      → (IsBalanced w.tables → IsBalanced (rival w.tables))
      → IsBalanced w.tables
      → IsBalanced (serve s rival route r w).1.tables
  serve-IsBalanced route w = (serve-Safe route w).balanced
