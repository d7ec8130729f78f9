-- ===== src/Lib.antt =====
-- The verification library of ledgerops, a double-entry ledger service in Go: tenants hold accounts,
-- movements between two accounts of one tenant are posted as two balanced entries, and a saga moves
-- value between the accounts of two tenants in three legs.
--
-- The parts and how they interact. The pure core (internal/domain) decides: `Post` accepts or
-- refuses a movement on snapshots of two accounts, `AuthorizeTenantPair` and
-- `ResolveCounterparty` decide on links and aliases. The shell (internal/app/usecases.go) reads
-- snapshots from the store, asks the core, and writes what it decided, in one unit of work of
-- internal/app/ports. The store (internal/adapters/postgres) is a set of statements over tables.
-- The coordinator (internal/app/transfer_coordinator.go) posts the legs of a transfer through the
-- shell, claims transfers by leases, retries with a delay, and reverses what it has posted.
--
-- The driving adapter (internal/adapters/http) identifies the caller, decodes a request, runs a use
-- case and answers.
--
-- The files.
--   Prelude: the libraries' names, Boolean tests, integers, `int64` with its wrap-around
--     (Prelude.Int64), Go's `(value, error)` pairs (Prelude.Fallible), texts and decimal numbers.
--   Domain: internal/domain/*.go, one module per file, and post.go in Domain.Posting (its types)
--     and Domain.Post (its decisions). Children hold what is proved of them.
--   Ports.Vocabulary: the types of internal/app/ports/ports.go and the errors that callers tell
--     apart. Ports.Shell: an effect is a function of a world, which holds the committed tables, the
--     tables that the open unit of work sees, the outcomes of the coming calls of the store (done,
--     failed, or failed with the commit done), what rival sessions commit while a claim of an
--     idempotency key waits, the clock, and the identifiers to come. `with_unit_of_work` is
--     `withUnitOfWork` of internal/app/usecases.go.
--   Postgres: internal/adapters/postgres/*.go over tables that are lists of rows
--     (Postgres.Tables), one function per repository method. A statement's SQL is written as what
--     it does to the rows, with the unique keys, the references and the ranges of migrations
--     0001 to 0006 that it can meet.
--   App: internal/app/usecases.go (App.Transfer is `PostTransfer` and `CreateAccount`,
--     App.Provisioning, App.Links, App.Reading the other use cases). App.Coordinator is
--     internal/app/transfer_coordinator.go and transfer_coordinator_testonly.go: its state and the
--     sleeping goroutines (Process), pure decisions (Movements), reversals, attempts, `SendTransfer`
--     (Sending), `GetTransfer` (Viewing), and the ticker.
--     App.Keeping and App.Coordinator.Steady: what use cases and sagas keep of an invariant.
--   Http: internal/adapters/http/*.go: amounts on the wire (Amount), requests, answers and what they
--     run on (Wire), statuses (Status), the middleware (Auth), the handlers (Accounts, Tenants,
--     Transfers, Books, Testonly), the observers (Metrics) and the routes (Router). A body is its
--     members as the decoder finds them, names folded; an answer is its members before they are
--     encoded, or a page: what the Prometheus client and the file server of the console answer is a
--     parameter. A handler is a function of the request and of a site, which holds the coordinator's
--     process, the log, the metrics and the fields of the request that is answered. Http.Server is
--     the step relation of a running server; the pieces under Http.Steady lead to its invariant.
--   Books: sound books, that movements, new accounts and other records keep them sound, and what the
--     verification reports of them.
--   Tests: a small ledger, and the theorems applied to it.
--
-- Choices. Amounts are integers with Go's wrap-around written out; that an amount is in the range of
-- `int64` is a hypothesis where it is needed. Instants and durations are numbers of nanoseconds.
-- Texts are native texts, ordered by code points as Go orders them by bytes. The collation by which
-- the database sorts is a field of the tables, and any order will do.
-- `PostTransfer` calls itself when another session has claimed the key first: `post_transfer` has
-- fuel for that: a rival that took the key leaves a claim, which the next round finds, so one round
-- more than the rivals of the world is enough. Row locks order sessions, so a unit of work runs alone
-- between its locks and its commit, but for the claim of an idempotency key, where what a rival
-- commits is seen. A timeout of a context is a call of the store that fails. The bytes of an error's
-- message are not modelled, nor are the elapsed milliseconds of a report. The delays between attempts
-- are computed with the rounding of `float64` after each operation, without fused ones. An instant
-- is stored in whole microseconds, as the driver and `timestamptz` keep it. `sha256` hashing of
-- credentials is a parameter of the definitions that use it.
--
-- Not modelled: the configuration and the composition of the service, the
-- migration planner and its execution, the store's connection pools, roles and passwords, the
-- registry of the metrics, the web console and the scripts. Of a request, its id and the elapsed
-- times are left out.
pub mod Prelude
pub mod Domain
pub mod Ports
pub mod Postgres
pub mod App
pub mod Http
pub mod Books
pub mod Tests
