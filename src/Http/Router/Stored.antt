-- ===== src/Http/Router/Stored.antt =====
-- The requests change the tables by the writes of the repositories alone.
use go_challenge_fc.Base.{
  inr, inl, Bool-cases, List, ℕ, Bool, true, false, ◌==◌, Option, none, some, String, if◌then◌else◌,
}
use go_challenge_fc.Errs.{Result, ok, err}
use go_challenge_fc.Http.Auth.{Claims}
use go_challenge_fc.Http.Message.{
  Server, Request, Response, Handler, Detail, refuse, answer_with, Decoded, malformed, decoded,
  WagerRequest, OpenWalletRequest,
}
use go_challenge_fc.Http.Router.{
  Route, open_wallet, get_wallet, get_ledger, reconcile_wallet, post_transaction, get_transaction,
  get_provider_transaction, require_role, dispatch, with_claims, with_token, authenticate,
  correlate, serve,
}
use go_challenge_fc.Http.Wager.{
  get_correlation, wager_with_money, wager_with_wallet, wager_with_player, wager_decoded,
  wager_claimed, process_wager, view_transaction, get_by_parsed_id, get_transaction_by_id,
  show_transaction, get_transaction_by_external,
}
use go_challenge_fc.Http.Wallets.{
  open_with_money, open_with_player, open_decoded, handle_open_wallet, get_parsed_wallet,
  handle_get_wallet, get_parsed_ledger, handle_get_ledger, reconcile_answer, reconcile_parsed,
  handle_reconcile,
}
use go_challenge_fc.Money.Defs.{Money}
use go_challenge_fc.Store.Inside.{Inside, Inside-pure, Inside-raise}
use go_challenge_fc.Store.Repos.{get_transaction as stored_transaction, get_by_external, get_page}
use go_challenge_fc.Store.Session.{World, M, ◌>>=◌, pure, new_uuid}
use go_challenge_fc.Store.Tables.Rows.{Tables}
use go_challenge_fc.Store.Writes.{Wrote, nothing}
use go_challenge_fc.Transaction.Defs.{WagerTransaction}
use go_challenge_fc.Usecase.Inside.{open_wallet-Inside, reconcile-Inside, get_wallet-Inside}
use go_challenge_fc.Usecase.ProcessWager.Inside.{inside, execute-Wrote}

record Stored (h : Handler) : Type 0 where
  wrote : (w : World) → Wrote w.tables (h w).1.tables

refuse-Stored : (n : ℕ) (e : String) (d : Detail) → Stored (refuse n e d)
refuse-Stored n e d = record { wrote = λ w. nothing }

answer-Stored :
    {A : Type 0} (f : Result A → Response) (m : M A) → Inside m → Stored (answer_with f m)
answer-Stored f m h = record { wrote = λ w. h.wrote w }

if-Stored : (b : Bool) (h k : Handler) → Stored h → Stored k → Stored (if b then h else k)
if-Stored true h k s t = s
if-Stored false h k s t = t

get_correlation-Inside : (s : Server) (id : ℕ) → Inside (get_correlation s.env id)
unfolding get_correlation
get_correlation-Inside s id = search inside depth 8

ruleset stored = (refuse-Stored, answer-Stored, if-Stored)

-- The handlers that only read.
view-Inside : (c : Option Claims) (x : Option WagerTransaction) → Inside (view_transaction c x)
unfolding view_transaction
view-Inside c none = Inside-raise _
view-Inside c (some x) = search inside depth 8

show-Inside : (x : Option WagerTransaction) → Inside (show_transaction x)
unfolding show_transaction
show-Inside none = Inside-raise _
show-Inside (some x) = Inside-pure _

by_id-Stored : (c : Option Claims) (id : Option ℕ) → Stored (get_by_parsed_id c id)
unfolding get_by_parsed_id stored_transaction
by_id-Stored c none = refuse-Stored _ _ _
by_id-Stored c (some id) = search (stored, inside, view-Inside) depth 12

by_external-Stored : (p e : String) (c : Option Claims) → Stored (get_transaction_by_external p e c)
unfolding get_transaction_by_external get_by_external
by_external-Stored p e c = search (stored, inside, show-Inside) depth 12

wallet-Stored : (id : Option ℕ) → Stored (get_parsed_wallet id)
unfolding get_parsed_wallet
wallet-Stored none = refuse-Stored _ _ _
wallet-Stored (some id) = search (stored, inside, get_wallet-Inside) depth 12

ledger-Stored : (id cursor : Option ℕ) (n : ℕ) → Stored (get_parsed_ledger id cursor n)
unfolding get_parsed_ledger get_page
ledger-Stored none cursor n = refuse-Stored _ _ _
ledger-Stored (some id) cursor n = search (stored, inside) depth 12

reconcile-Stored : (id : Option ℕ) → Stored (reconcile_parsed id)
unfolding reconcile_parsed
reconcile-Stored none = refuse-Stored _ _ _
reconcile-Stored (some id) = answer-Stored reconcile_answer _ (reconcile-Inside id)

module _ (s : Server) (id : ℕ) where
  open_money-Stored : (player : ℕ) (m : Result Money) → Stored (open_with_money s id player m)
  unfolding open_with_money
  open_money-Stored player (err e) = refuse-Stored _ _ _
  open_money-Stored player (ok money) =
      search (stored, inside, get_correlation-Inside, open_wallet-Inside) depth 12

  open_player-Stored : (q : OpenWalletRequest) (p : Option ℕ) → Stored (open_with_player s id q p)
  unfolding open_with_player
  open_player-Stored q none = refuse-Stored _ _ _
  open_player-Stored q (some p) = open_money-Stored p _

  open_decoded-Stored : (d : Decoded OpenWalletRequest) → Stored (open_decoded s id d)
  unfolding open_decoded
  open_decoded-Stored (malformed e) = refuse-Stored _ _ _
  open_decoded-Stored (decoded q) = open_player-Stored q _

module _ (s : Server) (rival : Tables → Tables) (others : (t : Tables) → Wrote t (rival t))
    (r : Request) where
  module _ (id : ℕ) where
    with_money-Stored :
        (q : WagerRequest) (player wallet : ℕ) (m : Result Money)
        → Stored (wager_with_money s rival r id q player wallet m)
    unfolding wager_with_money get_correlation ◌>>=◌ new_uuid pure
    with_money-Stored q player wallet (err e) = refuse-Stored _ _ _
    with_money-Stored q player wallet (ok money) = record {
      wrote = λ w. elim (Bool-cases (id == 0)) [
        | inl absent ↦ rw absent (execute-Wrote s.env _ rival others _)
        | inr given ↦ rw given (execute-Wrote s.env _ rival others w)
      ];
    }

    with_wallet-Stored :
        (q : WagerRequest) (player : ℕ) (wallet : Option ℕ)
        → Stored (wager_with_wallet s rival r id q player wallet)
    unfolding wager_with_wallet
    with_wallet-Stored q player none = refuse-Stored _ _ _
    with_wallet-Stored q player (some wallet) = with_money-Stored q player wallet _

    with_player-Stored :
        (q : WagerRequest) (player : Option ℕ) → Stored (wager_with_player s rival r id q player)
    unfolding wager_with_player
    with_player-Stored q none = refuse-Stored _ _ _
    with_player-Stored q (some player) = with_wallet-Stored q player _

    decoded-Stored :
        (c : Claims) (d : Decoded WagerRequest) → Stored (wager_decoded s rival r id c d)
    unfolding wager_decoded
    decoded-Stored c (malformed e) = refuse-Stored _ _ _
    decoded-Stored c (decoded q) = search (stored, with_player-Stored) depth 6

    claimed-Stored : (c : Option Claims) → Stored (wager_claimed s rival r id c)
    unfolding wager_claimed
    claimed-Stored none = refuse-Stored _ _ _
    claimed-Stored (some c) = decoded-Stored c _

    process_wager-Stored : (c : Option Claims) → Stored (process_wager s rival r id c)
    unfolding process_wager
    process_wager-Stored c = search (stored, claimed-Stored) depth 6

    role-Stored :
        (role : String) (c : Option Claims) (h : Handler)
        → Stored h
        → Stored (require_role role c h)
    unfolding require_role
    role-Stored role none h k = refuse-Stored _ _ _
    role-Stored role (some c) h k = search stored

    dispatch-Stored : (c : Option Claims) (route : Route) → Stored (dispatch s rival r id c route)
    unfolding dispatch handle_open_wallet handle_get_wallet handle_get_ledger handle_reconcile
        get_transaction_by_id
    dispatch-Stored c open_wallet = role-Stored _ c _ (open_decoded-Stored s id _)
    dispatch-Stored c (get_wallet w) = role-Stored _ c _ (wallet-Stored _)
    dispatch-Stored c (get_ledger w) = role-Stored _ c _ (ledger-Stored _ _ _)
    dispatch-Stored c (reconcile_wallet w) = role-Stored _ c _ (reconcile-Stored _)
    dispatch-Stored c post_transaction = process_wager-Stored c
    dispatch-Stored c (get_transaction t) = by_id-Stored c _
    dispatch-Stored c (get_provider_transaction p e) = by_external-Stored p e c

    with_claims-Stored :
        (route : Route) (c : Option Claims) → Stored (with_claims s rival r id route c)
    unfolding with_claims
    with_claims-Stored route none = refuse-Stored _ _ _
    with_claims-Stored route (some c) = dispatch-Stored (some c) route

    with_token-Stored :
        (route : Route) (token : Option (List ℕ)) → Stored (with_token s rival r id route token)
    unfolding with_token
    with_token-Stored route none = record { wrote = λ w. nothing }
    with_token-Stored route (some token) = record {
      wrote = λ w. (with_claims-Stored route (s.validate_token w token)).wrote w;
    }

    authenticate-Stored : (route : Route) → Stored (authenticate s rival r route id)
    unfolding authenticate
    authenticate-Stored route = search (stored, with_token-Stored) depth 6

  correlate-Stored :
      (route : Route) (id : Option ℕ) (w : World)
      → Wrote w.tables (correlate s.env id (authenticate s rival r route) w).1.tables
  correlate-Stored route none w = (authenticate-Stored _ route).wrote _
  correlate-Stored route (some id) w = elim (Bool-cases (id == 0)) [
    | inl absent ↦ rw absent ((authenticate-Stored _ route).wrote _)
    | inr given ↦ rw given ((authenticate-Stored id route).wrote w)
  ]

  -- If the other sessions write by these statements alone, so does every request.
  pub serve-Wrote : (route : Route) (w : World) → Wrote w.tables (serve s rival route r w).1.tables
  unfolding serve
  serve-Wrote route w = correlate-Stored route (s.readers.parse_uuid r.correlation_id) w
