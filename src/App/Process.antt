-- ===== src/App/Process.antt =====
-- internal/walletapp/process_operation.go: one attempt at an operation, and `Process`.
pub mod Outbox
pub mod Existing
pub mod Movement
pub mod Persist
pub mod Effects
pub mod Preservation
pub mod AttemptPreservation
pub mod Recorded
pub mod Recording
pub mod LookupExisting
pub mod Replay
pub mod Retry
pub mod Idempotency
pub mod Once
pub mod OneRow
pub mod Books
use gaming_go_backend.Common.{
  Bool, true, false, not, Option, none, some, [], if◌then◌else◌, Result, ok, err, map_err,
}
use gaming_go_backend.Common.Int.{ℤ, pos}
use gaming_go_backend.Common.Int64.{sub64}
use gaming_go_backend.Common.Text.{Text, text_eq}
use gaming_go_backend.Common.Time.{Time}
use gaming_go_backend.Money
use gaming_go_backend.Money.{Currency, currency_eq, minor_units_of, currency_of}
use gaming_go_backend.Wallet.{Wallet, LedgerEntry}
use gaming_go_backend.Transaction.{
  WagerTransaction, pending_reference, ExternalTransactionInput, new_external_transaction,
  mark_processed, mark_rejected, mark_pending_reference,
}
use gaming_go_backend.Operation.Codes
use gaming_go_backend.Operation.Codes.{Code, code_text}
use gaming_go_backend.Operation.Rules.{
  Action, process, reject, wait_for_reference, Decision, Request,
}
use gaming_go_backend.Events.{EventMetadata, new_pending_reference_event}
use gaming_go_backend.Store.Base.{
  AppError, operation_error, not_found, retry_in_new_transaction, corrupted_balance, not_prepared,
  wallet_error, money_error, World, Session, Tx, pure, lift, within_tx, fail_if, new_id, now, ◌>>=◌,
  ◌>>◌,
}
use gaming_go_backend.Store.Wallets.{find_wallet, update_balance}
use gaming_go_backend.Store.Transactions.{insert_new, insert_pending}
use gaming_go_backend.Store.Ledger.{insert_ledger_entry}
use gaming_go_backend.App.{UseCase, rename_error}
use gaming_go_backend.App.Prepare.{ProcessInput, Prepared, prepare}
use gaming_go_backend.App.Process.Outbox.{publish, write_outbox_events, wager_aggregate}
use gaming_go_backend.App.Process.Existing.{
  ProcessResult, Lookup, answered, new_one, lookup_existing, resolve_decision,
}
use gaming_go_backend.App.Process.Movement.{Applied, apply_decision}
use gaming_go_backend.App.Process.Persist.{process_pending_new, process_new}

abbrev pub wallet_missing : AppError → AppError
wallet_missing not_found = operation_error Codes.wallet_not_found
wallet_missing e = e

abbrev pub is_waiting : Action → Bool
is_waiting wait_for_reference = true
is_waiting _ = false

-- The end of `attempt`, by the decision.
unfoldable pub conclude_new :
    UseCase
    → Wallet
    → Prepared
    → Decision
    → Option WagerTransaction
    → Time
    → Tx (Option ProcessResult)
conclude_new uc w prepared decision reference at =
    if is_waiting decision.action
    then process_pending_new uc prepared.input prepared.hash at
    else process_new uc w prepared.input prepared.hash decision reference at

-- `attempt` for an operation that is new.
unfoldable pub attempt_new : UseCase → Wallet → Prepared → Time → Tx (Option ProcessResult)
attempt_new uc w prepared at = do
  resolved ← resolve_decision uc.world prepared.input.request prepared.decision
  let (decision, reference) = resolved
  conclude_new uc w prepared decision reference at

-- `attempt` behind `lookupExisting`, which handles the operation or finds it new.
unfoldable pub conclude_lookup :
    UseCase → Wallet → Prepared → Time → Lookup → Tx (Option ProcessResult)
conclude_lookup uc w prepared at (answered result) = pure (some result)
conclude_lookup uc w prepared at new_one = attempt_new uc w prepared at

-- The checks of a request against its wallet.
unfoldable pub check_wallet : Request → Wallet → Tx Wallet
check_wallet r w = do
  fail_if (not (text_eq w.player_id r.player_id)) (operation_error Codes.wallet_player_mismatch)
  currency ← lift (map_err money_error (currency_of r.money))
  fail_if (not (currency_eq w.currency currency)) (operation_error Codes.wallet_currency_mismatch)
  pure w

-- The wallet of a request, locked and compared with it.
unfoldable pub lock_wallet : World → Request → Tx Wallet
lock_wallet world r = do
  w ← rename_error wallet_missing (find_wallet world r.wallet_id)
  check_wallet r w

-- `attempt`; `none` asks for a retry.
unfoldable pub attempt : UseCase → Prepared → Time → Tx (Option ProcessResult)
attempt uc prepared at = do
  w ← lock_wallet uc.world prepared.input.request
  found ←
      lookup_existing uc.world prepared.input.request prepared.input.idempotency_key prepared.hash
  conclude_lookup uc w prepared at found

abbrev pub or_retry : Option ProcessResult → Result AppError ProcessResult
or_retry (some result) = ok result
or_retry none = err retry_in_new_transaction

-- `ExecuteInTx`
unfoldable pub execute_in_tx : UseCase → Prepared → Tx ProcessResult
execute_in_tx uc prepared = do
  fail_if (not prepared.ready) not_prepared
  at ← now uc.world
  result ← attempt uc prepared at
  lift (or_retry result)

-- `runInNewTx`
unfoldable pub run_in_new_tx : UseCase → Prepared → Tx ProcessResult
run_in_new_tx uc prepared = within_tx uc.world (execute_in_tx uc prepared)

-- The second conflict of `processWithRetry`.
abbrev pub unavailable : AppError → AppError
unavailable retry_in_new_transaction = operation_error Codes.temporarily_unavailable
unavailable e = e

-- `processWithRetry`
unfoldable pub process_with_retry : UseCase → Prepared → Tx ProcessResult
process_with_retry uc prepared s =
    let (r, s') = run_in_new_tx uc prepared s in
    elim r [
      | ok result ↦ (ok result, s')
      | err e ↦ elim e [
        | retry_in_new_transaction ↦ rename_error unavailable (run_in_new_tx uc prepared) s'
        | other ↦ (err other, s')
      ]
    ]

-- `Process`
unfoldable pub process_operation : UseCase → ProcessInput → Tx ProcessResult
process_operation uc input = do
  _ ← now uc.world
  prepared ← lift (prepare uc input)
  process_with_retry uc prepared
