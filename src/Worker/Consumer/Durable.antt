-- ===== src/Worker/Consumer/Durable.antt =====
-- A message that can be read is deleted only once its request is settled.
use go_challenge_fc.Usecase.ProcessWager.Execute.{execute}
use go_challenge_fc.Usecase.ProcessWager.Inside.{execute_kept}
use go_challenge_fc.Store.Ensures.{Ensures}
use go_challenge_fc.Base.Int.{IsInt64}
use go_challenge_fc.Errs.{
  err, ok, Result, Error, domain, plain, payload_conflict, opening_forbidden, wallet_not_found,
  invalid_input, is_code, code_text,
}
use go_challenge_fc.Money.Defs.{Money}
use go_challenge_fc.Base.{
  ◌≢◌, List, String, inr, Bool-cases, inl, ◌∷◌, subst, true, ◌≡◌, ◌⊎◌, ℕ, refl, ◌+◌,
}
use go_challenge_fc.Usecase.ProcessWager.Correct.{clean, execute-Ensures, Clean, Done}
use go_challenge_fc.Usecase.ProcessWager.Defs.{payload_hash, Output, Input}
use go_challenge_fc.Messages.Queue.{Action, deleted, released}
use go_challenge_fc.Worker.Consumer.{
  delete_message, release_visibility, request, handle_reading, message_input, handle_message,
  finish_message, read_message, is_irreversible, EnvelopeMessage, QueueMessage, Consumer,
}
use go_challenge_fc.Store.Tables.Rows.{Tables}
use go_challenge_fc.Store.Session.{◌>>=◌, new_uuid, World, Env}
use go_challenge_fc.Worker.Consumer.Outcome.{read_message-Fits, Fits, run}
use go_challenge_fc.Usecase.ProcessWager.Outcome.{SoundAt}

-- The errors that no later delivery can mend.
abbrev pub IsFinal : Error → Type 0
IsFinal x =
    (x ≡ domain payload_conflict)
    ⊎ (x ≡ domain opening_forbidden)
    ⊎ (x ≡ domain wallet_not_found)
    ⊎ (x ≡ domain invalid_input)

-- How a request that is read ends, by what Execute returned for it: an output and an outcome of the
-- specification, or an error that is final and no change.
abbrev pub Resolved :
    Env → (Tables → Tables) → Input → Tables → Result Output × World → Tables → Type 0
Resolved env rival i t r t' =
    ((o : Output) × (r.0 ≡ ok o) × Done rival (payload_hash env i) i t o t')
    ⊎ ((x : Error) × (r.0 ≡ err x) × IsFinal x × ((t' ≡ t) ⊎ (t' ≡ rival t)))

-- Only these are irreversible.
irreversible-IsFinal : (x : Error) → is_irreversible x ≡ true → IsFinal x
unfolding is_irreversible is_code code_text
irreversible-IsFinal (plain p) h = cc
irreversible-IsFinal (domain payload_conflict) h = inl refl
irreversible-IsFinal (domain opening_forbidden) h = inr (inl refl)
irreversible-IsFinal (domain wallet_not_found) h = inr (inr (inl refl))
irreversible-IsFinal (domain invalid_input) h = inr (inr (inr refl))
irreversible-IsFinal (domain _) h = cc

other_action : {s : String} {xs ys : List Action} → released s ∷ xs ≢ deleted s ∷ ys
other_action h = cc

module _ (env : Env) (rival : Tables → Tables) (c : Consumer) (m : QueueMessage) (w : World)
    (e : EnvelopeMessage) (player wallet : ℕ) (money : Money)
    (read : read_message c m.body ≡ request e player wallet money)
    (sound : SoundAt wallet w.tables) where
  abbrev asked : Input
  asked = message_input c e player wallet money (env.uuid w.draws)

  fits : IsInt64 money.amount
  fits = subst Fits read (read_message-Fits c m.body)

  finished-Resolved :
      (r : Result Output × World)
      → r.1.outside ≡ w.outside
      → Ensures (Done rival (payload_hash env asked) asked w.tables) r
      → Clean rival w.tables r
      → (finish_message m r).outside ≡ deleted m.receipt_handle ∷ w.outside
      → Resolved env rival asked w.tables r (finish_message m r).tables
  unfolding finish_message release_visibility delete_message
  finished-Resolved (ok o, v) kept d h gone = inl (o, refl, d.holds)
  finished-Resolved (err x, v) kept d h gone = elim (Bool-cases (is_irreversible x)) [
    | inl final ↦ rw final (inr (x, refl, irreversible-IsFinal x final, h))
    | inr transient ↦ absurd (other_action (rw transient at gone))
  ]

  -- A message that can be read, about a wallet that is not in debt, is deleted only if Execute
  -- returned an output for it and has committed an outcome of its specification, or returned one of
  -- four errors for it (a conflict of payloads, an opening, a missing wallet, an invalid input) and
  -- nothing that it wrote stays.
  pub deleted-Resolved :
      (handle_message env rival c m w).outside ≡ deleted m.receipt_handle ∷ w.outside
      → Resolved env rival asked w.tables
          (execute env rival asked (record w { draws = w.draws + 1 }))
          (handle_message env rival c m w).tables
  unfolding handle_message handle_reading ◌>>=◌ new_uuid
  deleted-Resolved = rw read (
      finished-Resolved (run env rival c e player wallet money w) (execute_kept env _ rival _)
        (execute-Ensures env rival asked _ fits sound) (clean env rival asked _))
