-- ===== src/Lib.antt =====
-- A model of a wallet service for wagers: wallets in three currencies, an append-only ledger, the
-- operations of game providers (bets, wins, losses, refunds, rollbacks), and the exchange of
-- events.
--
-- Parts and files, with the paths of the code from the repository's root:
-- - Errs: internal/domain/errs/errors.go, and the errors made by fmt.Errorf.
-- - Money/Defs: the arithmetic of internal/domain/money/money.go in int64; Money/Text: its printer
--   and its parser over code points. Money/Arithmetic, Money/Text/RoundTrip and
--   Money/Text/ForeignDigit hold the proofs.
-- - Wallet: internal/domain/wallet/wallet.go (New, Debit, DebitForRollback, Credit); Wallet/Laws
--   compares it with the integers.
-- - Ledger: internal/domain/ledger/ledger.go; Ledger/Laws says what New accepts.
-- - Transaction/Defs: internal/domain/transaction/transaction.go; Transaction/Lifecycle is its
--   state machine as a step relation.
-- - Messages/Events, Messages/Outbox, Messages/Inbox: internal/domain/events, outbox and inbox.
-- - Store/Tables: the tables of internal/infra/db/migrations/000001_initial_schema.up.sql and the
--   SQL of internal/infra/db/postgres/*_repo.go on them, one file per table. Store/Session: the
--   session and internal/infra/db/postgres/uow.go. Store/Repos: the methods of the repositories on
--   a session. Store/Ensures: rules for what holds after a run; Store/Atomic: rollback;
--   Store/Balance: the accounting invariant; Store/Inside and Store/Reads: what leaves the queues
--   and the tables alone. Store/Writes: the nine writing statements, and Store/Relates what their
--   sequences keep. Store/Tables/Paging: the pages of a ledger. The rows of the tables are the
--   values of the domain; Store/Tables/Transactions/Columns has the columns of a transaction and
--   what is read back from them.
-- - Usecase/Hash, Usecase/OpenWallet, Usecase/ProcessWager, Usecase/RetryPending,
--   Usecase/Reconcile: the files of internal/application/usecase. Below ProcessWager, Defs, Steps
--   and Execute are the code, Effect is its specification, and the others prove that the code
--   refines it.
-- - Messages/Queue: the requests to the SQS queues; Messages/Dto: the amounts of requests and
--   messages.
-- - Worker/Consumer: internal/worker/sqs/consumer.go, below it what handling a message does
--   (Outcome), when it is deleted (Durable) and what a second delivery does (Redelivery).
--   Worker/Outbox: internal/worker/outbox/worker.go, with the proofs in Sent and Progress.
--   Worker/Lifecycle: Start and Stop of both. Worker/PendingRef:
--   internal/worker/pendingref/worker.go.
-- - Http/Auth, Http/Message, Http/Wager, Http/Wallets, Http/Router:
--   internal/infra/auth/validator.go (the validation of tokens in Http/Auth/Validator), and
--   internal/http (router.go, middleware/auth.go, middleware/logging.go, handler/wager.go,
--   handler/wallet.go; Http/Health is handler/health.go). Http/Safe and the modules below
--   Http/Router hold the proofs.
-- - Config and Config/DotEnv: internal/infra/config/config.go, with the files of variables, and
--   below it what a variable is after them (Found); Strconv: strconv.Atoi. Main:
--   cmd/server/main.go, from the configuration to the parts, and Main/Started when and how it
--   comes up.
-- - System: the running program of cmd/server/main.go, as histories of requests, messages and
--   batches, with other sessions between the transactions of a wager and of a batch of retries.
--   Below it, Recorded breaks every act down into the writes of Store/Writes, and Balanced,
--   Consistent (by Schema) and Grows say what every history keeps.
-- - Base: shared names, integers, texts and tests. Examples: small databases and requests.
--
-- How the parts interact: a use case runs a body inside WithTx; the body reads and writes the
-- tables through the repositories, calls the domain types, and puts events in the outbox table.
-- The model passes the state explicitly: a computation takes a world and gives a result and the
-- world after it. A world holds the tables, a counter of the values drawn from uuid.New and
-- time.Now, what has been asked of the queues so far, and a list that says which of the coming
-- requests the database fails, so that a statement about all worlds is one about every place where
-- the database can fail. The consumer of the queue and the HTTP handlers read a request, call a
-- use case and turn its result into a deletion, a redelivery or a response; the outbox worker
-- sends the events of the outbox table and marks them. A transaction that returns an error
-- restores the tables. Other sessions act between the two transactions of
-- ProcessWagerUseCase.Execute, and before each transaction of a batch of retries, as functions on
-- tables.
--
-- UUIDs and times are numbers (uuid.Nil is 0), int64 values are integers that every operation
-- wraps to 64 bits, and strings are texts. JSON decoding, uuid.Parse, the validator of a request's
-- token, the answers of the queue and the matching of a path (by chi) are parameters, too. The
-- values of google/uuid, the clock, SHA-256, json.Marshal of a text and the Unicode tables beyond
-- Latin-1 are parameters. The printer of digits runs on a fuel one above the number, which has
-- fewer digits than that. The other recursions are structural.
--
-- Not modelled: metrics, traces, logs and constant headers; what the loops of the workers wait for
-- between two calls of what is modelled; golang-jwt, a parameter; migrations and the connection
-- pool; the precision that a TIMESTAMPTZ keeps of a time, but in the columns of a transaction; the
-- range of the columns that an UPDATE sets; a commit that succeeds though its answer is lost; row
-- locks and statements of other sessions inside a transaction, which here runs alone; the JSON
-- texts of events and responses; the load generator. The two SELECT statements of CalculateBalance
-- are one request.
--
-- Balanced tables are those where no wallet is in debt and every ledger adds up to its wallet's
-- balance (Store/Balance).
pub mod Base
pub mod Errs
pub mod Money
pub mod Wallet
pub mod Ledger
pub mod Transaction
pub mod Messages
pub mod Store
pub mod Usecase
pub mod Worker
pub mod Strconv
pub mod Http
pub mod Config
pub mod System
pub mod Main
pub mod Examples
