-- ===== src/App/Resume/Outcomes.antt =====
-- internal/walletapp/process_operation.go: the two ends of a pending operation.
use gaming_go_backend.Common.{Option, none, some, Result, ok, err, map_err}
use gaming_go_backend.Common.Int.{pos}
use gaming_go_backend.Common.Int64.{sub64}
use gaming_go_backend.Common.Time.{Time}
use gaming_go_backend.Money.{minor_units_of}
use gaming_go_backend.Wallet.{WalletError, insufficient_funds, Wallet, LedgerEntry}
use gaming_go_backend.Transaction.{WagerTransaction, mark_processed, mark_rejected}
use gaming_go_backend.Operation.Codes.{Code, code_text}
use gaming_go_backend.Operation.Rules.{Decision, insufficient_funds_for}
use gaming_go_backend.Store.Base.{
  wallet_error, money_error, World, Tx, pure, raise, lift, new_id, ◌>>=◌, ◌>>◌,
}
use gaming_go_backend.Store.Wallets.{update_balance}
use gaming_go_backend.Store.Ledger.{insert_ledger_entry}
use gaming_go_backend.Store.Pending.{complete_pending}
use gaming_go_backend.App.Process.Outbox.{write_outbox_events}
use gaming_go_backend.App.Process.Movement.{move_wallet}

-- `PendingResumeOutcome`
pub data PendingResumeOutcome : Type 0 where
  pending_rescheduled pending_processed pending_rejected : PendingResumeOutcome

-- `rejectPending`
unfoldable pub reject_pending :
    World → WagerTransaction → Wallet → Code → Time → Tx (Option PendingResumeOutcome)
reject_pending world t w code at = do
  t ← lift (map_err wallet_error (mark_rejected (code_text code) at t))
  balance ← lift (map_err money_error (minor_units_of w.balance))
  complete_pending world t (some balance)
  write_outbox_events world t w none t.id t.id at
  pure (some pending_rejected)

-- `processPending` behind its movement.
unfoldable pub complete_movement :
    World → WagerTransaction → Wallet → LedgerEntry → Time → Tx (Option PendingResumeOutcome)
complete_movement world t w entry at = do
  t ← lift (map_err wallet_error (mark_processed at t))
  balance ← lift (map_err money_error (minor_units_of w.balance))
  complete_pending world t (some balance)
  insert_ledger_entry world entry
  update_balance world w (sub64 w.version (pos 1))
  write_outbox_events world t w (some entry) t.id t.id at
  pure (some pending_processed)

-- `processPending` by the outcome of its movement.
unfoldable pub conclude_movement :
    World
    → WagerTransaction
    → Wallet
    → Time
    → Result WalletError (LedgerEntry × Wallet)
    → Tx (Option PendingResumeOutcome)
unfolding complete_movement
conclude_movement world t w at (ok (entry, w')) = complete_movement world t w' entry at
conclude_movement world t w at (err insufficient_funds) =
    reject_pending world t w (insufficient_funds_for t.kind) at
conclude_movement world t w at (err e) = raise (wallet_error e)

-- `processPending`
unfoldable pub process_pending :
    World → WagerTransaction → Wallet → Decision → Time → Tx (Option PendingResumeOutcome)
unfolding conclude_movement
process_pending world t w decision at = do
  id ← new_id world
  conclude_movement world t w at (
      move_wallet decision.direction w
        (record { ledger_entry_id = id; transaction_id = t.id; money = t.money; occurred_at = at }))
