-- ===== src/Store/Session.antt =====
-- The session with the database: internal/infra/db/postgres/uow.go, and the values that a use case
-- draws from uuid.New() and time.Now(). A world holds the tables as the running transaction sees
-- them, how many values have been drawn, and which of the coming requests the database fails: the
-- head of `faults` is for the next begin, statement or commit, and an empty list fails none. After
-- a failed statement PostgreSQL refuses the rest of the transaction, which `aborted` records.
-- `outside` is what has been asked of the queues, the last request first; no rollback takes it
-- back.
use go_challenge_fc.Base.{ℕ, ◌+◌, Bool, true, false, ◌||◌, List, [], ◌∷◌, Option, none, String}
use go_challenge_fc.Errs.{Result, ok, err, Error, plain, database}
use go_challenge_fc.Messages.Queue.{Action}
use go_challenge_fc.Store.Tables.Rows.{Tables}

pub record World : Type 0 where
  pub tables : Tables
  pub draws : ℕ
  pub faults : List Bool
  pub aborted : Bool
  pub outside : List Action

abbrev pub M : Type 0 → Type 0
M A = World → Result A × World

-- What the libraries return: google/uuid and the clock at each draw, uuid.UUID.String, json.Marshal
-- of a text, and the hexadecimal SHA-256 of some bytes.
pub record Env : Type 0 where
  pub uuid : ℕ → ℕ
  pub clock : ℕ → ℕ
  pub uuid_text : ℕ → List ℕ
  pub quote : List ℕ → List ℕ
  pub digest : List ℕ → String

abbrev pub next_fault : List Bool → Bool
next_fault [] = false
next_fault (f ∷ fs) = f

abbrev pub rest_faults : List Bool → List Bool
rest_faults [] = []
rest_faults (f ∷ fs) = fs

abbrev pub continue : {A B : Type 0} → (A → M B) → Result A × World → Result B × World
continue f (ok a, w) = f a w
continue f (err e, w) = (err e, w)

infixl 5 ◌>>=◌ ◌>>◌
unfoldable pub ◌>>=◌ : {A B : Type 0} → M A → (A → M B) → M B
◌>>=◌ m f w = continue f (m w)

abbrev pub ◌>>◌ : {B : Type 0} → M (Unit {0}) → M B → M B
m >> k = m >>= λ _. k

unfoldable pub lift : {A : Type 0} → Result A → M A
lift r w = (r, w)

unfoldable pub pure : {A : Type 0} → A → M A
pure a w = (ok a, w)

unfoldable pub raise : {A : Type 0} → Error → M A
raise e w = (err e, w)

-- uuid.New()
unfoldable pub new_uuid : Env → M ℕ
new_uuid env w = (ok (env.uuid w.draws), record w { draws = w.draws + 1 })

-- time.Now()
unfoldable pub time_now : Env → M ℕ
time_now env w = (ok (env.clock w.draws), record w { draws = w.draws + 1 })

-- `x, err := m` where the error is only tested for nil.
abbrev pub recover : {A : Type 0} → Result (Option A) × World → Result (Option A) × World
recover (ok a, w) = (ok a, w)
recover (err e, w) = (ok none, w)

unfoldable pub attempt : {A : Type 0} → M (Option A) → M (Option A)
attempt m w = recover (m w)

abbrev pub answer : {A : Type 0} → World → Result (A × Tables) → Result A × World
answer w (ok (a, t)) = (ok a, record w { tables = t })
answer w (err e) = (err e, record w { aborted = true })

abbrev pub request : {A : Type 0} → Bool → (Tables → Result (A × Tables)) → M A
request true f w =
    (err (plain database), record w { faults = rest_faults w.faults; aborted = true })
request false f w = answer (record w { faults = rest_faults w.faults }) (f w.tables)

-- tx.Exec, tx.Query and tx.QueryRow: one request of the running transaction.
unfoldable pub statement : {A : Type 0} → (Tables → Result (A × Tables)) → M A
statement f w = request (next_fault w.faults || w.aborted) f w

-- A SELECT changes nothing.
unfoldable pub query : {A : Type 0} → (Tables → A) → M A
unfolding statement
query f = statement (λ t. ok (f t, t))

-- tx.Commit, which fails if the transaction is aborted; then the deferred tx.Rollback undoes it. A
-- commit that is carried out though its answer is lost is not modelled.
abbrev pub commit : {A : Type 0} → Bool → Tables → A → World → Result A × World
commit true before a w =
    (err (plain database), record w { tables = before; faults = rest_faults w.faults })
commit false before a w = (ok a, record w { faults = rest_faults w.faults })

-- What WithTx does after `fn(tx)`.
unfoldable pub finish : {A : Type 0} → Tables → Result A × World → Result A × World
finish before (err e, w) = (err e, record w { tables = before })
finish before (ok a, w) = commit (next_fault w.faults || w.aborted) before a w

abbrev pub begin : {A : Type 0} → Bool → M A → M A
begin true body w = (err (plain database), w)
begin false body w = finish w.tables (body w)

-- UnitOfWork.WithTx
unfoldable pub with_tx : {A : Type 0} → M A → M A
unfolding finish
with_tx body w =
    begin (next_fault w.faults) body (record w { faults = rest_faults w.faults; aborted = false })
