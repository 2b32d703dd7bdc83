-- ===== src/Worker/Consumer/Outcome.antt =====
-- What handling a message does: to the queue, and to the database.
use go_challenge_fc.Base.{
  ◌+◌, ℕ, ◌≡◌, refl, sym, ◌⊎◌, inl, inr, List, [], ◌∷◌, Option, none, some, subst, Bool-cases,
  String,
}
use go_challenge_fc.Base.Int.{IsInt64}
use go_challenge_fc.Errs.{Result, ok, err, Result-cases}
use go_challenge_fc.Messages.Queue.{deleted, released}
use go_challenge_fc.Money.Defs.{Money}
use go_challenge_fc.Store.Balance.{IsBalanced}
use go_challenge_fc.Store.Session.{World, Env, new_uuid, ◌>>=◌}
use go_challenge_fc.Store.Tables.Rows.{Tables}
use go_challenge_fc.Usecase.ProcessWager.Correct.{Clean, clean, execute-IsBalanced}
use go_challenge_fc.Usecase.ProcessWager.Inside.{execute_kept}
use go_challenge_fc.Usecase.ProcessWager.Defs.{Output}
use go_challenge_fc.Usecase.ProcessWager.Execute.{execute}
use go_challenge_fc.Messages.Dto.{read_money}
use go_challenge_fc.Money.Text.Range.{new_from_external_string-IsInt64}
use go_challenge_fc.Worker.Consumer.{
  handle_messages, read_wallet, read_player, read_envelope, read_money_of, is_wager_request,
  read_money, Consumer, EnvelopeMessage, QueueMessage, Reading, unreadable, request, message_input,
  is_irreversible, finish_message, read_message, handle_reading, handle_message,
}

-- What is said of a message in the queue: that it is deleted, or that it is made visible again, and
-- then nothing that this session wrote to the database stays.
abbrev pub Settled : (Tables → Tables) → QueueMessage → World → World → Type 0
Settled rival m w w' =
    (w'.outside ≡ deleted m.receipt_handle ∷ w.outside)
    ⊎ ((w'.outside ≡ released m.receipt_handle ∷ w.outside)
        × ((w'.tables ≡ w.tables) ⊎ (w'.tables ≡ rival w.tables)))

-- The result of Execute on a message that can be read.
abbrev pub run :
    Env
    → (Tables → Tables)
    → Consumer
    → EnvelopeMessage
    → ℕ
    → ℕ
    → Money
    → World
    → Result Output × World
run env rival c e player wallet money w =
    execute env rival (message_input c e player wallet money (env.uuid w.draws))
      (record w { draws = w.draws + 1 })

module _ (env : Env) (rival : Tables → Tables) (c : Consumer) (m : QueueMessage) (w : World) where
  finished-Settled :
      (r : Result Output × World)
      → r.1.outside ≡ w.outside
      → Clean rival w.tables r
      → Settled rival m w (finish_message m r)
  unfolding finish_message
  finished-Settled (ok o, v) kept h = inl (rw kept refl)
  finished-Settled (err e, v) kept h = elim (Bool-cases (is_irreversible e)) [
    | inl final ↦ rw final (inl (rw kept refl))
    | inr transient ↦ rw transient (inr (rw kept refl, h))
  ]

  reading-Settled : (r : Reading) → Settled rival m w (handle_reading env rival c m r w)
  unfolding handle_reading ◌>>=◌ new_uuid
  reading-Settled unreadable = inl refl
  reading-Settled (request e player wallet money) =
      finished-Settled (run env rival c e player wallet money w) (execute_kept env _ rival _)
        (clean env rival _ _)

  -- Handling a message asks the queue for one thing about it, whatever the database fails and other
  -- sessions commit: to delete it, or to make it visible again; and if it is made visible again,
  -- then nothing that this session wrote stays: the tables are those that it met, or those that the
  -- other sessions left.
  pub handle_message-Settled : Settled rival m w (handle_message env rival c m w)
  unfolding handle_message handle_reading
  handle_message-Settled = reading-Settled (read_message c m.body)

-- A request that is read has an int64 amount.
abbrev pub Fits : Reading → Type 0
Fits unreadable = Unit
Fits (request e player wallet money) = IsInt64 money.amount

module _ (c : Consumer) where
  read_wallet-Fits : (e : EnvelopeMessage) (p : ℕ) (w : Option ℕ) → Fits (read_wallet c e p w)
  unfolding read_wallet read_money_of read_money
  read_wallet-Fits e p none = tt
  read_wallet-Fits e p (some w) = elim (Result-cases (read_money c.readers e.message_data.money)) [
    | inl (money, read) ↦ rw read (new_from_external_string-IsInt64 _ _ _ read)
    | inr (x, failed) ↦ rw failed tt
  ]

  read_player-Fits : (e : EnvelopeMessage) (p : Option ℕ) → Fits (read_player c e p)
  unfolding read_player
  read_player-Fits e none = tt
  read_player-Fits e (some p) = read_wallet-Fits e p _

  read_envelope-Fits : (e : Option EnvelopeMessage) → Fits (read_envelope c e)
  unfolding read_envelope
  read_envelope-Fits none = tt
  read_envelope-Fits (some e) = elim (Bool-cases (is_wager_request e)) [
    | inl wager ↦ rw wager (read_player-Fits e _)
    | inr other ↦ rw other tt
  ]

  pub read_message-Fits : (b : Option String) → Fits (read_message c b)
  unfolding read_message
  read_message-Fits none = tt
  read_message-Fits (some b) = read_envelope-Fits (c.unmarshal b)

pub finish_message_kept :
    (m : QueueMessage) (r : Result Output × World) → (finish_message m r).tables ≡ r.1.tables
unfolding finish_message
finish_message_kept m (ok o, w) = refl
finish_message_kept m (err e, w) = elim (Bool-cases (is_irreversible e)) [
  | inl final ↦ rw final refl
  | inr transient ↦ rw transient refl
]

-- The other sessions keep what the accounting needs.
abbrev pub KeepsBalance : (Tables → Tables) → Type 0
KeepsBalance rival = (t : Tables) → IsBalanced t → IsBalanced (rival t)

module _ (env : Env) (rival : Tables → Tables) (c : Consumer) (m : QueueMessage) (w : World)
    (keeps : IsBalanced w.tables → IsBalanced (rival w.tables)) (h : IsBalanced w.tables) where
  reading-IsBalanced : (r : Reading) → Fits r → IsBalanced (handle_reading env rival c m r w).tables
  unfolding handle_reading ◌>>=◌ new_uuid
  reading-IsBalanced unreadable fits = h
  reading-IsBalanced (request e player wallet money) fits =
      subst IsBalanced (sym (finish_message_kept m (run env rival c e player wallet money w)))
        (execute-IsBalanced env rival _ _ fits keeps h)

  pub handle_message-IsBalanced : IsBalanced (handle_message env rival c m w).tables
  unfolding handle_message
  handle_message-IsBalanced = reading-IsBalanced _ (read_message-Fits c m.body)

-- What the other sessions do during each message keeps the accounting.
abbrev pub AllKeep : List ((Tables → Tables) × QueueMessage) → Type 0
AllKeep [] = Unit
AllKeep ((rival, m) ∷ ms) = KeepsBalance rival × AllKeep ms

-- From tables where no wallet is in debt and every ledger adds up to its wallet's balance, handling
-- the messages of a batch one after the other, whatever their bodies are and whatever the database
-- fails, leaves such tables, if what other sessions commit during each keeps them so.
pub handle_messages-IsBalanced :
    (env : Env) (c : Consumer) (ms : List ((Tables → Tables) × QueueMessage)) (w : World)
    → AllKeep ms
    → IsBalanced w.tables
    → IsBalanced (handle_messages env ms c w).tables
unfolding handle_messages
handle_messages-IsBalanced env c [] w keep h = h
handle_messages-IsBalanced env c ((rival, m) ∷ ms) w (keeps, keep) h =
    handle_messages-IsBalanced env c ms _ keep
      (handle_message-IsBalanced env rival c m w (keeps w.tables) h)
