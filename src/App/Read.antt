-- ===== src/App/Read.antt =====
-- internal/walletapp/get_transaction.go, and the detail of a transaction that
-- internal/walletpg/transaction_repository.go reads.
pub mod Isolation
use gaming_go_backend.Common.{
  ℕ, Bool, true, false, not, ◌&&◌, ◌||◌, Option, none, some, [], if◌then◌else◌, Result, ok, err,
  map_err, and_then,
}
use gaming_go_backend.Common.Int.{ℤ}
use gaming_go_backend.Common.Text.{Text, text_eq}
use gaming_go_backend.Common.Time.{Time}
use gaming_go_backend.Money.{Money, new}
use gaming_go_backend.Transaction.{WagerKind, Origin, external, Status}
use gaming_go_backend.Operation.Codes
use gaming_go_backend.Store.Base.{
  AppError, operation_error, money_error, not_found, forbidden_provider, TransactionRow, World,
  Session, Tx, pure, raise, lift, query, ◌>>=◌,
}
use gaming_go_backend.Store.Rows.{text_or_empty}
use gaming_go_backend.Store.Lookups.{has_external, select_row}
use gaming_go_backend.Store.Pending.{has_id}
use gaming_go_backend.App.{rename_error}

-- `TransactionDetail`
pub record TransactionDetail : Type 0 where
  pub transaction_id : Text
  pub external_transaction_id : Text
  pub provider_id : Text
  pub player_id : Text
  pub wallet_id : Text
  pub round_id : Text
  pub game_id : Text
  pub kind : WagerKind
  pub origin : Origin
  pub money : Money
  pub reference_external_transaction_id : Text
  pub reference_transaction_id : Text
  pub status : Status
  pub failure_code : Text
  pub resulting_balance : Option Money
  pub attempts : ℕ
  pub next_attempt_at : Option Time
  pub pending_expires_at : Option Time
  pub created_at : Time
  pub updated_at : Time

-- `Caller`
pub record Caller : Type 0 where
  pub provider_id : Text
  pub is_admin : Bool

optional_money : Option ℤ → TransactionRow → Result AppError (Option Money)
optional_money none row = ok none
optional_money (some units) row = elim (new units row.currency) [
  | ok m ↦ ok (some m)
  | err e ↦ err (money_error e)
]

-- `scanTransactionDetail`
unfoldable pub detail_of_row : TransactionRow → Result AppError TransactionDetail
unfolding optional_money
detail_of_row row = and_then (map_err money_error (new row.amount row.currency)) λ money.
    and_then (optional_money row.resulting_balance row) λ resulting_balance. ok (record {
      transaction_id = row.id;
      external_transaction_id = text_or_empty row.external_transaction_id;
      provider_id = text_or_empty row.provider_id;
      player_id = row.player_id;
      wallet_id = row.wallet_id;
      round_id = text_or_empty row.round_id;
      game_id = text_or_empty row.game_id;
      kind = row.kind;
      origin = row.origin;
      money = money;
      reference_external_transaction_id = text_or_empty row.reference_external_transaction_id;
      reference_transaction_id = text_or_empty row.reference_transaction_id;
      status = row.status;
      failure_code = text_or_empty row.failure_code;
      resulting_balance = resulting_balance;
      attempts = row.attempts;
      next_attempt_at = row.next_attempt_at;
      pending_expires_at = row.pending_expires_at;
      created_at = row.created_at;
      updated_at = row.updated_at;
    })

-- `FindDetailByID` and `FindDetailByProviderExternalID`, by the WHERE clause.
unfoldable pub find_detail : World → (TransactionRow → Bool) → Tx TransactionDetail
find_detail world p = query world (λ db. and_then (select_row p db) detail_of_row)

abbrev pub is_external : Origin → Bool
is_external external = true
is_external _ = false

abbrev pub transaction_missing : AppError → AppError
transaction_missing not_found = operation_error Codes.transaction_not_found
transaction_missing e = e

-- The rows that a caller may see.
unfoldable pub is_visible : Caller → TransactionDetail → Bool
is_visible caller detail =
    caller.is_admin || is_external detail.origin && text_eq detail.provider_id caller.provider_id

-- `ByID`
unfoldable pub by_id : World → Text → Caller → Tx TransactionDetail
by_id world id caller = do
  detail ← rename_error transaction_missing (find_detail world (has_id id))
  lift (
      if is_visible caller detail
      then ok detail
      else err (operation_error Codes.transaction_not_found))

-- `ByProviderExternalID`
unfoldable pub by_provider_external_id : World → Text → Text → Caller → Tx TransactionDetail
by_provider_external_id world provider_id external_id caller =
    if not caller.is_admin && not (text_eq caller.provider_id provider_id)
    then raise forbidden_provider
    else rename_error transaction_missing (find_detail world (has_external provider_id external_id))
