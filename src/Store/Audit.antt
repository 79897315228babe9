-- ===== src/Store/Audit.antt =====
-- internal/walletpg/ledger_repository.go: the reads of the ledger for its audit. The identity column
-- sequence_number, which the database assigns, is a function of the row here.
pub mod Paging
pub mod Balance
use gaming_go_backend.Common.{
  ℕ, zero, suc, ◌+◌, Bool, not, ◌&&◌, ◌||◌, Option, none, some, List, [], ◌∷◌, ltb, if◌then◌else◌,
  Result, ok, err, map_err, and_then, find?, keep_where, take, sort_by, length,
}
use gaming_go_backend.Common.Int.{ℤ, pos, ◌+ℤ◌, ◌-ℤ◌, ltb_ℤ}
use gaming_go_backend.Common.Int64.{min_int64, max_int64}
use gaming_go_backend.Common.Text.{Text, text_eq}
use gaming_go_backend.Common.Time.{Time}
use gaming_go_backend.Money.{Money, new, subtract}
use gaming_go_backend.Wallet.{Direction, debit, credit, other_direction}
use gaming_go_backend.Store.Base.{
  AppError, not_found, infrastructure, money_error, WalletRow, LedgerRow, Db, World, Tx, query,
  within_tx,
}

-- `LedgerEntry` of internal/walletapp/ports.go.
pub record AuditEntry : Type 0 where
  pub sequence_number : ℕ
  pub transaction_id : Text
  pub direction : Direction
  pub money : Money
  pub balance_before : Money
  pub balance_after : Money
  pub occurred_at : Time

-- `LedgerPage`
pub record LedgerPage : Type 0 where
  pub entries : List AuditEntry
  pub next : Option ℕ

-- One round of `scanLedgerEntries`.
unfoldable pub entry_of_row : (LedgerRow → ℕ) → LedgerRow → Result AppError AuditEntry
entry_of_row number row = and_then (map_err money_error (new row.amount row.currency)) λ money.
    and_then (map_err money_error (new row.balance_before row.currency)) λ before.
      and_then (map_err money_error (new row.balance_after row.currency)) λ after. ok (record {
        sequence_number = number row;
        transaction_id = row.transaction_id;
        direction = row.direction;
        money = money;
        balance_before = before;
        balance_after = after;
        occurred_at = row.occurred_at;
      })

-- `scanLedgerEntries`
unfoldable pub scan_ledger_entries :
    (LedgerRow → ℕ) → List LedgerRow → Result AppError (List AuditEntry)
scan_ledger_entries number [] = ok []
scan_ledger_entries number (row ∷ rows) =
    and_then (entry_of_row number row)
      λ entry. and_then (scan_ledger_entries number rows) λ entries. ok (entry ∷ entries)

-- The WHERE clause of a page.
abbrev pub is_after : (LedgerRow → ℕ) → Text → ℕ → LedgerRow → Bool
is_after number wallet_id after row = text_eq row.wallet_id wallet_id && ltb after (number row)

-- The rows of the query: in the order of the sequence, one more than the page holds.
unfoldable pub page_rows : (LedgerRow → ℕ) → Text → ℕ → ℕ → List LedgerRow → List LedgerRow
page_rows number wallet_id after limit ledger =
    take (suc limit) (keep_where (is_after number wallet_id after) (sort_by number ledger))

-- `entries[limit-1].SequenceNumber`; the callers' limit is at least 1.
unfoldable pub last_number : ℕ → List AuditEntry → Option ℕ
last_number zero entries = none
last_number (suc n) [] = none
last_number (suc zero) (entry ∷ entries) = some entry.sequence_number
last_number (suc (suc n)) (entry ∷ entries) = last_number (suc n) entries

-- A page of the scanned entries.
unfoldable pub page_of : ℕ → List AuditEntry → LedgerPage
page_of limit entries =
    if ltb limit (length entries)
    then record { entries = take limit entries; next = last_number limit entries }
    else record { entries = entries; next = none }

unfoldable pub list_page : (LedgerRow → ℕ) → Text → ℕ → ℕ → Db → Result AppError LedgerPage
list_page number wallet_id after limit db =
    and_then (scan_ledger_entries number (page_rows number wallet_id after limit db.ledger))
      λ entries. ok (page_of limit entries)

-- `List`
unfoldable pub list_ledger : World → (LedgerRow → ℕ) → Text → ℕ → ℕ → Tx LedgerPage
list_ledger world number wallet_id after limit =
    query world (list_page number wallet_id after limit)

-- `Reconciliation`
pub record Reconciliation : Type 0 where
  pub wallet_id : Text
  pub stored_balance : Money
  pub calculated_balance : Money
  pub difference : Money
  pub checked_entries : ℕ

-- `CASE WHEN direction = 'CREDIT' THEN amount ELSE -amount END`
unfoldable pub signed_amount : LedgerRow → ℤ
signed_amount row = elim row.direction [
  | credit ↦ row.amount
  | debit ↦ pos 0 -ℤ row.amount
  | other_direction _ ↦ pos 0 -ℤ row.amount
]

-- `COALESCE(SUM(...), 0)`, over numbers of any size.
unfoldable pub sum_of : List LedgerRow → ℤ
sum_of [] = pos 0
sum_of (row ∷ rows) = signed_amount row +ℤ sum_of rows

abbrev pub of_wallet : Text → LedgerRow → Bool
of_wallet id row = text_eq row.wallet_id id

-- The scan of a number into an int64.
abbrev pub scan_int64 : ℤ → Result AppError ℤ
scan_int64 a = if ltb_ℤ a min_int64 || ltb_ℤ max_int64 a then err infrastructure else ok a

abbrev pub wallet_with : Text → Db → Result AppError WalletRow
wallet_with id db = elim (find? (λ (row : WalletRow). text_eq row.id id) db.wallets) [
  | none ↦ err not_found
  | some row ↦ ok row
]

-- What follows the two queries.
unfoldable pub reconciled : Text → WalletRow → ℤ → ℕ → Result AppError Reconciliation
reconciled id w calculated checked =
    and_then (map_err money_error (new w.balance w.currency)) λ stored.
      and_then (map_err money_error (new calculated w.currency)) λ total.
        and_then (map_err money_error (subtract stored total)) λ difference. ok (record {
          wallet_id = id;
          stored_balance = stored;
          calculated_balance = total;
          difference = difference;
          checked_entries = checked;
        })

-- The snapshot of `Reconcile`.
unfoldable pub reconcile_db : Text → Db → Result AppError Reconciliation
reconcile_db id db = and_then (wallet_with id db) λ w.
    and_then (scan_int64 (sum_of (keep_where (of_wallet id) db.ledger)))
      λ calculated. reconciled id w calculated (length (keep_where (of_wallet id) db.ledger))

-- `Reconcile`: one read-only transaction, so that both queries see the same tables.
unfoldable pub reconcile : World → Text → Tx Reconciliation
reconcile world id = within_tx world (query world (reconcile_db id))
