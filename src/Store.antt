-- ===== src/Store.antt =====
-- internal/walletpg: the Postgres adapter, as operations on an in-memory database, and the unit of
-- work of internal/pg. The rows are the columns of the migrations' tables. What the code under src/
-- does not decide is the world: which statement or commit fails, the ids that the uuid library mints,
-- and the clocks of the process and of the database; each is asked by the number of calls so far.
pub mod Base
pub mod Wallets
pub mod Rows
pub mod Transactions
pub mod Lookups
pub mod Pending
pub mod Ledger
pub mod Audit
pub mod Logic
pub mod Preservation
pub mod Hoare
pub mod Uniqueness
pub mod Stability
pub mod Inserted
pub mod RoundTrip
pub mod Balances
pub mod Books
