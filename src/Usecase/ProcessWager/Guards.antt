-- ===== src/Usecase/ProcessWager/Guards.antt =====
-- The checks of Execute between the replays and the new transaction.
use go_challenge_fc.Base.{
  ◌≡◌, refl, false, not, str_eq, [], Option, some, none, ◌==◌, if◌then◌else◌, Bool-cases, inl, inr,
  arith,
}
use go_challenge_fc.Errs.{
  Error, err, domain, wallet_not_found, invalid_input, currency_mismatch, is_code, code_text,
}
use go_challenge_fc.Store.Repos.{get_by_key, get_by_external, get_wallet}
use go_challenge_fc.Store.Session.{
  World, Env, ◌>>=◌, lift, pure, raise, query, statement, finish, with_tx,
}
use go_challenge_fc.Store.Tables.Rows.{Tables}
use go_challenge_fc.Store.Tables.Transactions.{select_by_key, select_by_external}
use go_challenge_fc.Store.Tables.Wallets.{select_wallet, wallet_or_not_found}
use go_challenge_fc.Transaction.Defs.{is_opening}
use go_challenge_fc.Usecase.ProcessWager.Defs.{Input}
use go_challenge_fc.Usecase.ProcessWager.Execute.{
  register_message, check_key, check_external, execute_tx, after_tx, execute,
}
use go_challenge_fc.Usecase.ProcessWager.Steps.{raise_if, or_else, handle_new}
use go_challenge_fc.Wallet.{Wallet}

-- Why a new operation is refused for the wallet that is found for it.
abbrev pub refusal : Option Wallet → Input → Option Error
refusal none i = some (domain wallet_not_found)
refusal (some x) i =
    if not (x.player_id == i.player_id)
    then some (domain invalid_input)
    else if not (str_eq x.currency i.money.currency)
    then some (domain currency_mismatch)
    else none

module _ (env : Env) (rival : Tables → Tables) (i : Input) (w : World) (up : w.faults ≡ [])
    (external : is_opening i.kind ≡ false) (no_message : str_eq i.source "SQS" ≡ false)
    (no_key : select_by_key i.idempotency_key w.tables ≡ none)
    (no_operation : select_by_external i.provider_id i.external_transaction_id w.tables
      ≡ none) where
  refused_row :
      (row : Option Wallet) (e : Error)
      → select_wallet i.wallet_id w.tables ≡ row
      → refusal row i ≡ some e
      → execute env rival i w ≡ (err e, record w { aborted = false })
  unfolding execute execute_tx register_message get_by_key get_by_external get_wallet check_key
      check_external raise_if or_else handle_new ◌>>=◌ lift pure raise query statement finish
      with_tx after_tx is_code code_text wallet_or_not_found
  refused_row none e found h =
      rw (external, up, no_message, no_key, no_operation, found) (ground arith)
  refused_row (some x) e found h = elim (Bool-cases (not (x.player_id == i.player_id))) [
    | inl stranger ↦
        rw (external, up, no_message, no_key, no_operation, found, stranger) (ground arith)
    | inr owner ↦ elim (Bool-cases (not (str_eq x.currency i.money.currency))) [
      | inl other ↦
          rw (external, up, no_message, no_key, no_operation, found, owner, other) (ground arith)
      | inr same ↦ ground arith
    ]
  ]

  -- With a database that answers, a new operation that is no queue message is refused if its wallet
  -- is missing, belongs to another player or is in another currency, with the error of the first of
  -- these that holds, and changes no table.
  pub execute_refuses :
      (e : Error)
      → refusal (select_wallet i.wallet_id w.tables) i ≡ some e
      → execute env rival i w ≡ (err e, record w { aborted = false })
  execute_refuses e h = refused_row (select_wallet i.wallet_id w.tables) e refl h
