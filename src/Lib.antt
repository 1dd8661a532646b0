-- ===== src/Lib.antt =====
-- A verification library of the payment ledger platform: a double-entry ledger of payments, payouts
-- and disputes with an outbox of events, behind an HTTP edge (internal/domain, internal/store,
-- internal/service, internal/httpapi).
--
-- The parts, and the files that model them:
--   Base, Base/Dict, Base/Lists, Base/Int, Base/Tests: shared names; maps as association lists
--     (`insert` replaces in place, so a key stands in a map once), and integers for examples.
--   Amount, Amount/Laws: the decimal library github.com/shopspring/decimal, which is not part of the
--     repository. Its operations are the record `Decimal`, and the record `Meaning` states what it
--     documents: a decimal has a value in an ordered group, Add and Sub are exact, and the
--     comparisons compare values. Examples/Cents fills both records with integers.
--   Text: the functions of the Go packages strings and unicode that the code calls; the table of
--     upper case letters beyond ASCII is a parameter.
--   Error: one constructor for each error message; `Result` for a pure function that can fail, and
--     `Exec` for a method of an object that is mutated, which keeps what was written before an error.
--   Json: the text that json.Marshal writes for a payment, a payout and a dispute.
--   Domain/Payment, Domain/Ledger, Domain/Outbox, Domain/Payout, Domain/Dispute:
--     internal/domain/payment.go. A status is an enumeration, with `unset` for the empty string of
--     a zero value; a status string that the program never writes is not modelled.
--   Store/State and Store/Memory: `MemoryStore` of internal/store/store.go and all its methods, as
--     functions from a store to a result and the next store. Store/Interface is the interface `Store`
--     and the store in memory as an instance of it.
--   Store/Steps: the calls that can change a store, as data. Every method holds the mutex from its
--     first line to its last, so any use of a store by any number of goroutines is a list of calls.
--   Store/Sql: `PostgresStore` of internal/store/postgres.go, over the tables of migrations/*.sql
--     (Tables, Rows). Inserts and Updates are the statements with the constraints that they meet;
--     Payments, Outbox, Payouts and Disputes are the methods, as sequences of statements in the code's
--     order; Instance is the interface `Store` filled by them. A statement or a COMMIT can fail at any
--     point (`outage`), and a failed COMMIT is taken to be rolled back. Abstract says which store in
--     memory the tables stand for, Refines relates the methods of the two stores, Atomic is about
--     calls that fail, Accepts about commands that succeed, Leases, Claims and Complete about the
--     events that a worker claims, Refines/ReadBack about reading what was changed, Replay about
--     keys that are known. Store/Answers holds the calls and answers of any implementation of `Store`.
--   Service/Journal, Service/Payments, Service/Payouts, Service/Disputes: the services of
--     internal/service (payment_service.go, payout.go, dispute.go), over any store.
--   Service/Outbox, Service/Reconciliation, Service/Metrics: the worker that delivers the outbox, the
--     comparison with a provider's settlement report, and the counters (outbox.go,
--     reconciliation.go, metrics.go). Service/Outbox/MerchantWebhook posts an event to a merchant,
--     with the HTTP client and the signature as parameters. Service/Fakes: the provider and the
--     risk check of the demo (fakes.go). Store/Claims describes the batch that a worker claims.
--   Http/Security, Http/Guard: merchant keys, the rate limiter in memory and the guard of a request
--     (internal/httpapi/security.go). Instants are numbers of nanoseconds. Http/Security/Redis is the
--     limiter over a Redis client, whose documented behaviour is the record `RedisKeys`.
--   Http/Handler, Http/Payments, Http/Transfers, Http/Admin: the handlers of
--     internal/httpapi/server.go, from what encoding/json decodes to a response; what a handler
--     changes is a `World`, the state behind the store and the counters. Http/Webhooks: the two
--     handlers of internal/httpapi/webhook.go; HMAC, hex and JSON decoding are parameters.
--   Cmd/Migrate: the program of cmd/migrate/main.go. Cmd/Migrate/Rerun says what a run applies, and what
--     a second one does.
--   Examples: a run from creation to a failed payout, test data, and an instance of each theorem.
--
-- How they interact: a service reads from the store, asks the provider and the risk check, builds a
-- journal of two entries and an event, and hands them to the store in one call, which checks the
-- transition, the amount and the journal again and writes all of it or nothing. Theorems on a
-- service are stated for the store in memory, against states that are written out independently
-- (Service/Payments/Outcome, Service/Payouts/Outcome, Service/Disputes/Outcome, and
-- Service/Reconciliation/Report for the report).
--
-- Parameters: identifiers that the program draws with uuid.NewString are arguments; the provider, the
-- risk engine and the metrics sink are records of functions, as in the code's interfaces; the order
-- in which Go visits a map is a function (`Visits`), and so is sort.Slice. PostgreSQL is the record
-- `Postgres`: what a column of the types uuid, char(3), numeric(20, 6) and jsonb stores, the clock, the
-- failures, and the orders of rows; the records `Columns`, `Orders` and `Complete` state what it
-- documents of them. The amounts of the theorems that use `Columns` have at most six digits after
-- the point; a text column takes any text. What is needed of a range over the map of payments is
-- the record `VisitsPayments` of Service/Reconciliation/Report. No loop needs fuel: all
-- are over lists, but the one that posts to a merchant, which is over the attempts that are left.
--
-- Not modelled: timestamps (no rule but the lease of an event reads them), contexts and
-- cancellation, SQL transactions whose statements interleave, the publishers that write to NATS and
-- to a log (internal/service/outbox.go), request tracing, the routes and the health and metrics
-- pages (internal/httpapi), the commands that wire the parts (cmd/api, cmd/worker), the load
-- script (scripts), and of the migrations all but the tables and constraints that they lead to.
pub mod Base
pub mod Amount
pub mod Text
pub mod Error
pub mod Domain
pub mod Json
pub mod Store
pub mod Service
pub mod Http
pub mod Cmd
pub mod Examples
