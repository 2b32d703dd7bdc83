-- ===== src/Usecase/Emit/Laws.antt =====
-- An event that is emitted touches the outbox alone.
use go_challenge_fc.Base.{ℕ, ◌≡◌, Option, String, arith}
use go_challenge_fc.Messages.Events.{Payload}
use go_challenge_fc.Store.Ensures.{Ensures, Ensures-time, Ensures-last}
use go_challenge_fc.Store.Repos.{create_event}
use go_challenge_fc.Store.Session.{World, Env}
use go_challenge_fc.Store.Tables.Laws.{insert_event_ok}
use go_challenge_fc.Store.Tables.Rows.{Tables}
use go_challenge_fc.Usecase.Emit.{emit}

-- The tables differ in the outbox at most.
abbrev pub ButOutbox : Tables → Tables → Type 0
ButOutbox t t' = t' ≡ record t { outbox_events = t'.outbox_events }

pub emit-ButOutbox :
    (env : Env) (p : Payload) (aggregate : ℕ) (type : String) (correlation : Option ℕ) (v : World)
    → Ensures (λ _ t'. ButOutbox v.tables t') (emit env p aggregate type correlation v)
unfolding emit create_event
emit-ButOutbox env p aggregate type correlation v = Ensures-time env _ _ (
    Ensures-time env _ _ (Ensures-last _ _ λ a t e. ground (arith, insert_event_ok v.tables _ t e)))
