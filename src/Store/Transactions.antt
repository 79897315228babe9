-- ===== src/Store/Transactions.antt =====
-- internal/walletpg/transaction_repository.go, over the table of migrations/0004: the three INSERTs.
-- A CHECK or a foreign key that a row breaks is one of the statements that the world lets fail.
use gaming_go_backend.Common.{
  ◌+◌, Bool, true, false, ◌&&◌, ◌||◌, Option, none, some, ◌∷◌, any, if◌then◌else◌, Result, ok, err,
}
use gaming_go_backend.Common.Int.{ℤ}
use gaming_go_backend.Common.Text.{Text, text_eq}
use gaming_go_backend.Common.Time.{Time, stored_time}
use gaming_go_backend.Transaction.{Status, processed, WagerTransaction, is_reversal, is_opening}
use gaming_go_backend.Store.Base.{
  AppError, infrastructure, TransactionRow, Db, World, Tx, lift, statement, pure, ◌>>=◌,
}
use gaming_go_backend.Store.Rows.{row_of}

-- `=` of two columns: NULL equals nothing.
abbrev pub same_value : Option Text → Option Text → Bool
same_value (some a) (some b) = text_eq a b
same_value _ _ = false

abbrev pub is_processed : Status → Bool
is_processed processed = true
is_processed _ = false

-- The partial index of the reversals: one PROCESSED reversal of each reference.
abbrev pub both_reverse : TransactionRow → TransactionRow → Bool
both_reverse a b =
    is_reversal a.kind
    && is_processed a.status
    && is_reversal b.kind
    && is_processed b.status
    && same_value a.reference_transaction_id b.reference_transaction_id

-- The partial index of the openings: one PROCESSED opening of each wallet.
abbrev both_open : TransactionRow → TransactionRow → Bool
both_open a b =
    is_opening a.kind
    && is_processed a.status
    && is_opening b.kind
    && is_processed b.status
    && text_eq a.wallet_id b.wallet_id

abbrev pub same_key : TransactionRow → TransactionRow → Bool
same_key a b =
    same_value a.provider_id b.provider_id && same_value a.idempotency_key b.idempotency_key

abbrev pub same_external : TransactionRow → TransactionRow → Bool
same_external a b =
    same_value a.provider_id b.provider_id
    && same_value a.external_transaction_id b.external_transaction_id

-- A row that a unique index of the table keeps apart from another.
unfoldable pub conflicts : TransactionRow → TransactionRow → Bool
conflicts a b =
    text_eq a.id b.id || same_key a b || same_external a b || both_open a b || both_reverse a b

abbrev pub with_row : TransactionRow → Db → Db
with_row row db = record db { transactions = row ∷ db.transactions }

abbrev pub insert_row : TransactionRow → Db → Result AppError (Unit {0} × Db)
insert_row row db =
    if any (conflicts row) db.transactions then err infrastructure else ok (tt, with_row row db)

-- The INSERT with ON CONFLICT DO NOTHING, and whether it affected a row.
unfoldable pub insert_row_or_nothing : TransactionRow → Db → Result AppError (Bool × Db)
insert_row_or_nothing row db =
    if any (conflicts row) db.transactions then ok (false, db) else ok (true, with_row row db)

-- `Insert`
unfoldable pub insert_transaction : World → WagerTransaction → Option ℤ → Tx (Unit {0})
insert_transaction world t resulting_balance = do
  row ← lift (row_of t resulting_balance)
  statement world (insert_row row)

-- `InsertNew`
unfoldable pub insert_new : World → WagerTransaction → Option ℤ → Tx Bool
insert_new world t resulting_balance = do
  row ← lift (row_of t resulting_balance)
  statement world (insert_row_or_nothing row)

abbrev pub waiting_row : TransactionRow → Time → Time → TransactionRow
waiting_row row next_attempt_at expires_at = record row {
  next_attempt_at = some (stored_time next_attempt_at);
  pending_expires_at = some expires_at;
}

abbrev pub expiry_if : Time → Bool → Option Time
expiry_if expires_at inserted = if inserted then some expires_at else none

-- The INSERT of a row that waits, with RETURNING.
unfoldable pub insert_waiting : World → TransactionRow → Time → Time → Tx (Option Time)
insert_waiting world row next_attempt_at expires_at = do
  inserted ← statement world (insert_row_or_nothing (waiting_row row next_attempt_at expires_at))
  pure (expiry_if expires_at inserted)

-- `InsertPending`: the expiry that the database computes, or `none` where the row was not inserted.
unfoldable pub insert_pending : World → WagerTransaction → Time → Time → Tx (Option Time)
insert_pending world t next_attempt_at ttl = do
  row ← lift (row_of t none)
  λ s. insert_waiting world row next_attempt_at (world.db_clock s.calls + ttl) s
