-- ===== src/Store/Lookups.antt =====
-- internal/walletpg/transaction_repository.go: the lookups of a transaction that an operation makes.
use gaming_go_backend.Common.{Bool, ◌&&◌, Option, none, some, find?, any, Result, ok, err, and_then}
use gaming_go_backend.Common.Int.{ℤ}
use gaming_go_backend.Common.Text.{Text}
use gaming_go_backend.Common.Time.{Time}
use gaming_go_backend.Money.{Currency}
use gaming_go_backend.Transaction.{Status, WagerTransaction, is_reversal}
use gaming_go_backend.Store.Base.{AppError, not_found, TransactionRow, Db, World, Tx, query}
use gaming_go_backend.Store.Rows.{scan_text, text_or_empty, transaction_of_row}
use gaming_go_backend.Store.Transactions.{same_value, is_processed}

-- `ExistingTransaction`
pub record ExistingTransaction : Type 0 where
  pub transaction_id : Text
  pub idempotency_key : Text
  pub payload_hash : Text
  pub external_transaction_id : Text
  pub status : Status
  pub failure_code : Text
  pub resulting_balance : Option ℤ
  pub currency : Currency
  pub pending_expires_at : Option Time

abbrev pub has_key : Text → Text → TransactionRow → Bool
has_key provider_id key row =
    same_value row.provider_id (some provider_id) && same_value row.idempotency_key (some key)

abbrev pub has_external : Text → Text → TransactionRow → Bool
has_external provider_id external_id row =
    same_value row.provider_id (some provider_id)
    && same_value row.external_transaction_id (some external_id)

-- The row that a test picks, or `ErrNotFound`.
unfoldable pub select_row : (TransactionRow → Bool) → Db → Result AppError TransactionRow
select_row p db = elim (find? p db.transactions) [ none ↦ err not_found | some row ↦ ok row ]

-- The scan of `findExisting`.
unfoldable pub existing_of_row : TransactionRow → Result AppError ExistingTransaction
unfolding scan_text
existing_of_row row = and_then (scan_text row.external_transaction_id) λ external_transaction_id.
    and_then (scan_text row.idempotency_key) λ idempotency_key.
      and_then (scan_text row.payload_hash) λ payload_hash. ok (record {
        transaction_id = row.id;
        idempotency_key = idempotency_key;
        payload_hash = payload_hash;
        external_transaction_id = external_transaction_id;
        status = row.status;
        failure_code = text_or_empty row.failure_code;
        resulting_balance = row.resulting_balance;
        currency = row.currency;
        pending_expires_at = row.pending_expires_at;
      })

-- `findExisting`
unfoldable pub find_existing : World → (TransactionRow → Bool) → Tx ExistingTransaction
find_existing world p = query world (λ db. and_then (select_row p db) existing_of_row)

-- `FindByIdempotencyKey`
unfoldable pub find_by_key : World → Text → Text → Tx ExistingTransaction
unfolding find_existing
find_by_key world provider_id key = find_existing world (has_key provider_id key)

-- `FindByExternalTransactionID`
unfoldable pub find_by_external : World → Text → Text → Tx ExistingTransaction
unfolding find_existing
find_by_external world provider_id external_id =
    find_existing world (has_external provider_id external_id)

-- `FindReference`
unfoldable pub find_reference : World → Text → Text → Tx WagerTransaction
find_reference world provider_id external_id =
    query world
      (λ db. and_then (select_row (has_external provider_id external_id) db) transaction_of_row)

abbrev pub reverses : Text → TransactionRow → Bool
reverses id row =
    same_value row.reference_transaction_id (some id)
    && is_reversal row.kind
    && is_processed row.status

-- `ExistsSuccessfulReversal`
unfoldable pub exists_successful_reversal : World → Text → Tx Bool
exists_successful_reversal world id = query world (λ db. ok (any (reverses id) db.transactions))
