-- ===== src/App/Audit.antt =====
-- internal/walletapp/ledger_audit.go: the audit of a wallet's ledger.
use gaming_go_backend.Common.{ℕ}
use gaming_go_backend.Common.Text.{Text}
use gaming_go_backend.Operation.Codes
use gaming_go_backend.Store.Base.{AppError, operation_error, not_found, LedgerRow, World, Tx, ◌>>=◌}
use gaming_go_backend.Store.Wallets.{find_wallet}
use gaming_go_backend.Store.Audit.{LedgerPage, Reconciliation, list_ledger, reconcile}
use gaming_go_backend.App.{rename_error}

abbrev wallet_missing : AppError → AppError
wallet_missing not_found = operation_error Codes.wallet_not_found
wallet_missing e = e

-- `LedgerAuditUseCase.List`
unfoldable pub list_entries : World → (LedgerRow → ℕ) → Text → ℕ → ℕ → Tx LedgerPage
list_entries world number wallet_id after limit = do
  _ ← rename_error wallet_missing (find_wallet world wallet_id)
  list_ledger world number wallet_id after limit

-- `LedgerAuditUseCase.Reconcile`
unfoldable pub reconcile_wallet : World → Text → Tx Reconciliation
reconcile_wallet world wallet_id = rename_error wallet_missing (reconcile world wallet_id)
