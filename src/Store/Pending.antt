-- ===== src/Store/Pending.antt =====
-- internal/walletpg/transaction_repository.go: the statements of the worker of pending references.
use gaming_go_backend.Common.{
  ℕ, ◌+◌, Bool, not, ◌&&◌, Option, none, some, any, update_where, leb, if◌then◌else◌, Result, ok,
  err, and_then,
}
use gaming_go_backend.Common.Int.{ℤ}
use gaming_go_backend.Common.Text.{Text, text_eq}
use gaming_go_backend.Common.Time.{Time, stored_time}
use gaming_go_backend.Transaction.{WagerTransaction, is_pending_reference}
use gaming_go_backend.Store.Base.{
  AppError, not_found, infrastructure, TransactionRow, Db, World, Tx, query, statement,
}
use gaming_go_backend.Store.Rows.{null_if_empty, transaction_of_row}
use gaming_go_backend.Store.Transactions.{both_reverse}
use gaming_go_backend.Store.Lookups.{select_row}

-- `PendingReferenceTransaction`
pub record PendingReferenceTransaction : Type 0 where
  pub transaction : WagerTransaction
  pub attempts : ℕ
  pub pending_expires_at : Time
  pub expired : Bool

abbrev pub has_id : Text → TransactionRow → Bool
has_id id row = text_eq row.id id

-- The scan: a NULL expiry fits neither the time nor the test of it.
unfoldable pub pending_of_row : Time → TransactionRow → Result AppError PendingReferenceTransaction
pending_of_row now row = elim row.pending_expires_at [
  | none ↦ err infrastructure
  | some expires_at ↦ and_then (transaction_of_row row) λ transaction. ok (record {
    transaction = transaction;
    attempts = row.attempts;
    pending_expires_at = expires_at;
    expired = leb expires_at now;
  })
]

-- `FindPendingForUpdate`
unfoldable pub find_pending : World → Text → Tx PendingReferenceTransaction
find_pending world id s =
    query world
      (λ db. and_then (select_row (has_id id) db) (pending_of_row (world.db_clock s.calls))) s

abbrev pub is_waiting : Text → TransactionRow → Bool
is_waiting id row = text_eq row.id id && is_pending_reference row.status

abbrev pub update_row :
    Text → (TransactionRow → TransactionRow) → Db → Result AppError (Unit {0} × Db)
update_row id change db =
    if not (any (is_waiting id) db.transactions)
    then err not_found
    else ok (tt, record db { transactions = update_where (is_waiting id) change db.transactions })

abbrev pub rescheduled : ℕ → Time → Time → TransactionRow → TransactionRow
rescheduled attempts next now row = record row {
  attempts = attempts;
  next_attempt_at = some next;
  updated_at = now;
}

-- `ReschedulePending`
unfoldable pub reschedule_pending : World → Text → ℕ → Time → Tx (Unit {0})
reschedule_pending world id attempts delay s =
    let now = world.db_clock s.calls in
    statement world (update_row id (rescheduled attempts (now + delay) now)) s

unfoldable pub completed_row : WagerTransaction → Option ℤ → TransactionRow → TransactionRow
completed_row t resulting_balance row = record row {
  reference_transaction_id = null_if_empty t.reference_transaction_id;
  status = t.status;
  failure_code = null_if_empty t.failure_code;
  resulting_balance = resulting_balance;
  next_attempt_at = none;
  pending_expires_at = none;
  updated_at = stored_time t.updated_at;
}

-- Whether the UPDATE would make a second PROCESSED reversal of a reference.
abbrev pub clashes : WagerTransaction → Option ℤ → Db → Bool
clashes t resulting_balance db =
    any
      (λ row.
        is_waiting t.id row
        && any (both_reverse (completed_row t resulting_balance row)) db.transactions)
      db.transactions

-- `CompletePending`
unfoldable pub complete_pending : World → WagerTransaction → Option ℤ → Tx (Unit {0})
complete_pending world t resulting_balance = statement world (λ db.
    if clashes t resulting_balance db
    then err infrastructure
    else update_row t.id (completed_row t resulting_balance) db)
