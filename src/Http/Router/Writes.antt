-- ===== src/Http/Router/Writes.antt =====
-- The handlers that write: what they leave in the database.
use go_challenge_fc.Usecase.ProcessWager.Execute.{execute}
use go_challenge_fc.Base.{
  str_eq, ℕ, ◌≡◌, refl, ◌==◌, inl, inr, false, Bool-cases, Option, none, some,
}
use go_challenge_fc.Base.Int.{IsInt64}
use go_challenge_fc.Errs.{Result, ok, err}
use go_challenge_fc.Http.Auth.{Claims}
use go_challenge_fc.Http.Message.{
  Server, Request, Response, answer_with, Decoded, malformed, decoded, WagerRequest,
  OpenWalletRequest,
}
use go_challenge_fc.Http.Safe.{kept-Clean, Safe, same-Safe, answer-Safe, is_error}
use go_challenge_fc.Http.Wager.{
  request_input, get_correlation, wager_answer, wager_with_money, wager_with_wallet,
  wager_with_player, wager_decoded, wager_claimed, process_wager, is_foreign,
}
use go_challenge_fc.Http.Wallets.{open_answer, open_with_money, open_with_player, open_decoded}
use go_challenge_fc.Messages.Dto.{read_money}
use go_challenge_fc.Money.Defs.{Money}
use go_challenge_fc.Money.Text.Range.{new_from_external_string-IsInt64}
use go_challenge_fc.Store.Session.{World, M, pure, new_uuid, ◌>>=◌}
use go_challenge_fc.Store.Tables.Rows.{Tables}
use go_challenge_fc.Transaction.Defs.{is_pending_reference}
use go_challenge_fc.Usecase.OpenWallet.{OpenInput, open_wallet as open_wallet_usecase}
use go_challenge_fc.Usecase.OpenWallet.Opened.{open_wallet-IsBalanced}
use go_challenge_fc.Usecase.OpenWallet.Rollback.{open_wallet-Unchanged}
use go_challenge_fc.Usecase.ProcessWager.Correct.{clean, execute-IsBalanced}
use go_challenge_fc.Usecase.ProcessWager.Defs.{Output}

wager_answer_fine : (o : Output) → is_error (wager_answer (ok o)) ≡ false
unfolding wager_answer
wager_answer_fine o = elim (Bool-cases (is_pending_reference o.status)) [
  | inl accepted ↦ rw accepted refl
  | inr processed ↦ rw processed refl
]

module _ (s : Server) (rival : Tables → Tables) where
  -- The correlation id of the context, or another: the tables are the same.
  correlated-Safe :
      {A : Type 0} (f : Result A → Response) (g : ℕ → M A) (id : ℕ) (w : World)
      → ((c : ℕ) (v : World) → Safe rival v.tables (answer_with f (g c) v))
      → Safe rival w.tables (answer_with f (get_correlation s.env id >>= g) w)
  unfolding get_correlation ◌>>=◌ new_uuid pure
  correlated-Safe f g id w h = elim (Bool-cases (id == 0)) [
    | inl absent ↦ rw absent (h _ _)
    | inr given ↦ rw given (h _ _)
  ]

  module _ (r : Request) (id : ℕ) (w : World) where
    with_money-Safe :
        (q : WagerRequest) (player wallet : ℕ) (m : Result Money)
        → ((money : Money) → m ≡ ok money → IsInt64 money.amount)
        → Safe rival w.tables (wager_with_money s rival r id q player wallet m w)
    unfolding wager_with_money
    with_money-Safe q player wallet (err e) range = same-Safe rival w.tables _ refl
    with_money-Safe q player wallet (ok money) range = correlated-Safe wager_answer _ id w λ c v.
        let i = request_input r q player wallet money c in
        answer-Safe rival v.tables wager_answer (execute s.env rival i v) wager_answer_fine
          (clean s.env rival i v)
          (λ keeps h. execute-IsBalanced s.env rival i v (range money refl) keeps h)

    with_wallet-Safe :
        (q : WagerRequest) (player : ℕ) (wallet : Option ℕ)
        → Safe rival w.tables (wager_with_wallet s rival r id q player wallet w)
    unfolding wager_with_wallet read_money
    with_wallet-Safe q player none = same-Safe rival w.tables _ refl
    with_wallet-Safe q player (some wallet) =
        with_money-Safe q player wallet (read_money s.readers q.money)
          (λ money read. new_from_external_string-IsInt64 _ _ _ read)

    with_player-Safe :
        (q : WagerRequest) (player : Option ℕ)
        → Safe rival w.tables (wager_with_player s rival r id q player w)
    unfolding wager_with_player
    with_player-Safe q none = same-Safe rival w.tables _ refl
    with_player-Safe q (some player) = with_wallet-Safe q player _

    decoded-Safe :
        (c : Claims) (d : Decoded WagerRequest)
        → Safe rival w.tables (wager_decoded s rival r id c d w)
    unfolding wager_decoded
    decoded-Safe c (malformed e) = same-Safe rival w.tables _ refl
    decoded-Safe c (decoded q) = elim (Bool-cases (is_foreign c q.provider_id)) [
      | inl foreign ↦ rw foreign (same-Safe rival w.tables _ refl)
      | inr own ↦ rw own (with_player-Safe q _)
    ]

    claimed-Safe : (c : Option Claims) → Safe rival w.tables (wager_claimed s rival r id c w)
    unfolding wager_claimed
    claimed-Safe none = same-Safe rival w.tables _ refl
    claimed-Safe (some c) = decoded-Safe c _

    pub process_wager-Safe :
        (c : Option Claims) → Safe rival w.tables (process_wager s rival r id c w)
    unfolding process_wager
    process_wager-Safe c = elim (Bool-cases (str_eq r.idempotency_key "")) [
      | inl missing ↦ rw missing (same-Safe rival w.tables _ refl)
      | inr given ↦ rw given (claimed-Safe c)
    ]

    open_money-Safe :
        (player : ℕ) (m : Result Money)
        → ((money : Money) → m ≡ ok money → IsInt64 money.amount)
        → Safe rival w.tables (open_with_money s id player m w)
    unfolding open_with_money open_answer
    open_money-Safe player (err e) range = same-Safe rival w.tables _ refl
    open_money-Safe player (ok money) range = correlated-Safe open_answer _ id w λ c v.
        let i : OpenInput = record {
          player_id = player;
          initial_balance = money;
          correlation_id = c;
        } in
        answer-Safe rival v.tables open_answer (open_wallet_usecase s.env i v) (λ o. refl)
          (kept-Clean rival v.tables _ (open_wallet-Unchanged s.env i v))
          (λ keeps h. open_wallet-IsBalanced s.env i v (range money refl) h)

    open_player-Safe :
        (q : OpenWalletRequest) (player : Option ℕ)
        → Safe rival w.tables (open_with_player s id q player w)
    unfolding open_with_player read_money
    open_player-Safe q none = same-Safe rival w.tables _ refl
    open_player-Safe q (some player) =
        open_money-Safe player (read_money s.readers q.initial_balance)
          (λ money read. new_from_external_string-IsInt64 _ _ _ read)

    pub open_decoded-Safe :
        (d : Decoded OpenWalletRequest) → Safe rival w.tables (open_decoded s id d w)
    unfolding open_decoded
    open_decoded-Safe (malformed e) = same-Safe rival w.tables _ refl
    open_decoded-Safe (decoded q) = open_player-Safe q _
