-- ===== src/Lib.antt =====
-- jungle-gaming-wallet: the wallet service of a gaming backend, in Go.
--
-- A provider sends wagering operations (BET, WIN, LOSS, REFUND, ROLLBACK) for a player's wallet. The
-- service checks an operation, decides it by the rules of its kind, moves the balance, and writes the
-- transaction, a ledger entry, the wallet and its events in one database transaction. An operation is
-- identified by the provider and an idempotency key, so that a repetition is answered from the row.
--
-- Common: helpers. Results for a Go call with an error, integers and int64 with its wrap-around,
--   strings as bytes, instants as nanoseconds since the zero time.
-- Money: internal/domain/money/money.go. `Money.new`, `add`, `subtract`, `negate`, `compare_money`;
--   Money.Decimal has `parse` and `decimal`. What is amount and currency there is a record here.
-- Wallet: internal/domain/wallet/wallet.go. `move` is `Wallet.move`; a mutating method returns the
--   new wallet, and an error leaves the receiver as it was.
-- Transaction: internal/domain/wallet/wager_transaction.go. Transitions, validation, construction.
-- Events: internal/domain/wallet/events.go.
-- Operation: internal/domain/operation. Codes is errors.go, Rules is rules.go, Attempts is
--   idempotency.go.
-- Store: internal/walletpg on the tables of migrations, and the unit of work of internal/pg. A table
--   is a list of rows, the newest first; a unique index is a test on the rows; NULL is `none`.
-- App: internal/walletapp. Prepare, Process and Resume are process_operation.go (Prepare has hash.go,
--   too), Open is open_wallet.go and get_wallet.go, Read is get_transaction.go, Audit is
--   ledger_audit.go. App.Steps has the calls of the use cases that write, one after another, each with
--   a world of its own. A theorem about all of a use case's statements goes through
--   Store.Preservation and Store.Stability, which say what a statement has to keep, and the modules
--   named Preservation below App. The balances are followed in Store.Books: `Books` compares the
--   wallets with the ledger, `Sound` adds the int64 columns, Store.Balances has the abstract account
--   that the use cases refine, and the modules named Books below App use triples (Store.Hoare) for
--   what holds between the statements.
-- Backoff: internal/backoff/backoff.go.
-- Outbox: internal/outbox/publisher.go; Outbox.Table is internal/outboxpg/store.go on the columns of
--   the table outbox_events that it reads and writes. Its state has the rows and the messages that
--   the queue has taken, and `Plant` is what the code does not decide: failing calls, also a Send
--   that fails after the queue took the message, the database's clock, rows that others hold locked,
--   the order of the rows of an UPDATE, and a cancelled context. An interval is exact to the
--   nanosecond, and a claim whose commit fails is taken to have leased nothing.
-- ReferenceWorker: internal/referenceworker/worker.go and internal/referenceworkerpg/store.go, on the
--   tables of Store and the retries of App.Resume. `Worker` has what the code does not decide.
--   Recovery, Progress and Unreadable follow a record whose retry failed (Calls and Recovering have
--   the lemmas of Progress), Leases the claims.
-- Tests: concrete inputs for the theorems.
--
-- A use case is a computation on a session: the tables, and the number of calls made so far. What the
-- code does not decide is the world, asked by that number: which statement, begin or commit fails,
-- the ids of the uuid library, the clock of the process and that of the database. A failing statement
-- also stands for a broken CHECK or foreign key and for an id that is no UUID; ids are taken to be in
-- the canonical text that a UUID column gives back, as the uuid library prints them. A transaction
-- whose body ends in an error restores the tables that it began with; one whose commit fails leaves
-- either these or the new ones, as the answer to a commit can be lost. A stored time is cut to the
-- microsecond of its column. The digest of a request (SHA-256 of its JSON) is a parameter.
--
-- No definition needs fuel: each loop follows a list or a number down, and `Process` makes at most
-- two attempts.
--
-- Not modelled: transactions of others between the statements of one, which the locks on the wallet
-- row keep out for one wallet; the JSON of money and of events; the queue consumer, the HTTP API,
-- authentication and configuration, which are mostly calls of libraries; the goroutines that call the
-- batches by a ticker; metrics of the use cases, logging, fault points and the wiring.
pub mod Common
pub mod Money
pub mod Wallet
pub mod Transaction
pub mod Operation
pub mod Events
pub mod Store
pub mod Backoff
pub mod App
pub mod Outbox
pub mod ReferenceWorker
pub mod Tests
