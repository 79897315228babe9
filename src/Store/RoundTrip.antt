-- ===== src/Store/RoundTrip.antt =====
-- A transaction of internal/walletpg/transaction_repository.go written as a row and read back.
use gaming_go_backend.Common.{◌≡◌, refl, false, Option, ok, err, arith}
use gaming_go_backend.Common.Int.{ℤ}
use gaming_go_backend.Common.Time.{Time, is_zero, stored_time}
use gaming_go_backend.Money.{IsMoney, new, currency_of, minor_units_of, validate}
use gaming_go_backend.Transaction
use gaming_go_backend.Transaction.{
  external, WagerTransaction, rehydrate_transaction, checked, wrong_metadata,
}
use gaming_go_backend.Store.Base.{infrastructure, TransactionRow}
use gaming_go_backend.Store.Rows.{row_of, transaction_of_row, scan_text}
use gaming_go_backend.Store.Pending.{pending_of_row, completed_row}
use gaming_go_backend.Store.Inserted.{text_or_empty-null_if_empty}

money_read :
    (t : WagerTransaction) (resulting : Option ℤ) (row : TransactionRow)
    → IsMoney t.money
    → row_of t resulting ≡ ok row
    → new row.amount row.currency ≡ ok t.money
unfolding row_of new minor_units_of currency_of validate
money_read t resulting row m h = ground (arith, m.supported, m.above_min, m.below_max)

-- What the columns keep of a transaction: its times to the microsecond.
abbrev pub as_stored : WagerTransaction → WagerTransaction
as_stored t = record t {
  created_at = stored_time t.created_at;
  updated_at = stored_time t.updated_at;
}

stored-valid :
    (t : WagerTransaction)
    → is_zero (stored_time t.created_at) ≡ false
    → is_zero (stored_time t.updated_at) ≡ false
    → rehydrate_transaction t ≡ ok t
    → rehydrate_transaction (as_stored t) ≡ ok (as_stored t)
unfolding rehydrate_transaction checked Transaction.validate wrong_metadata
stored-valid t created updated valid = ground (arith, created, updated, valid)

-- A valid external transaction with a well-formed amount, with ids that are UUIDs in canonical text and
-- with times after the first microsecond, that is written as a row is read back as it was, but for
-- its times, which are cut to the microsecond, whatever its resulting balance.
pub transaction_of_row-row_of :
    (t : WagerTransaction) (resulting : Option ℤ) (row : TransactionRow)
    → t.origin ≡ external
    → IsMoney t.money
    → is_zero (stored_time t.created_at) ≡ false
    → is_zero (stored_time t.updated_at) ≡ false
    → rehydrate_transaction t ≡ ok t
    → row_of t resulting ≡ ok row
    → transaction_of_row row ≡ ok (as_stored t)
unfolding row_of transaction_of_row scan_text
transaction_of_row-row_of t resulting row o m created updated valid h = ground (
  arith,
  o,
  stored-valid t created updated valid,
  h,
  money_read t resulting row m h,
  text_or_empty-null_if_empty t.reference_external_transaction_id,
  text_or_empty-null_if_empty t.reference_transaction_id,
  text_or_empty-null_if_empty t.failure_code,
)

-- A pending transaction that is completed, by whatever outcome, cannot be locked by its id again: the
-- scan of its row fails, since its expiry is NULL.
pub completed_row-unreadable :
    (t : WagerTransaction) (resulting : Option ℤ) (row : TransactionRow) (now : Time)
    → pending_of_row now (completed_row t resulting row) ≡ err infrastructure
unfolding pending_of_row completed_row
completed_row-unreadable t resulting row now = refl
