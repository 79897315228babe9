-- ===== src/App/Process/Persist.antt =====
-- internal/walletapp/process_operation.go: the statements of a new operation.
use gaming_go_backend.Common.{Bool, true, false, Option, none, some, [], Result, map_err}
use gaming_go_backend.Common.Int.{ℤ, pos}
use gaming_go_backend.Common.Int64.{sub64}
use gaming_go_backend.Common.Text.{Text}
use gaming_go_backend.Common.Time.{Time}
use gaming_go_backend.Money
use gaming_go_backend.Money.{Currency, Money, currency_eq, minor_units_of, currency_of}
use gaming_go_backend.Wallet.{Wallet, LedgerEntry}
use gaming_go_backend.Transaction.{
  WagerTransaction, pending_reference, ExternalTransactionInput, new_external_transaction,
  mark_processed, mark_rejected, mark_pending_reference,
}
use gaming_go_backend.Operation.Codes.{Code, code_text}
use gaming_go_backend.Operation.Rules.{Decision}
use gaming_go_backend.Events.{new_pending_reference_event}
use gaming_go_backend.Store.Base.{
  AppError, corrupted_balance, wallet_error, money_error, World, Tx, pure, lift, new_id, ◌>>=◌,
  ◌>>◌,
}
use gaming_go_backend.Store.Wallets.{update_balance}
use gaming_go_backend.Store.Transactions.{insert_new, insert_pending}
use gaming_go_backend.Store.Ledger.{insert_ledger_entry}
use gaming_go_backend.App.{UseCase}
use gaming_go_backend.App.Prepare.{ProcessInput}
use gaming_go_backend.App.Process.Outbox.{publish, write_outbox_events, wager_aggregate}
use gaming_go_backend.App.Process.Existing.{ProcessResult, empty_money}
use gaming_go_backend.App.Process.Movement.{Applied, apply_decision}

abbrev text_or_empty : Option Text → Text
text_or_empty none = []
text_or_empty (some s) = s

abbrev pub reference_id : Option WagerTransaction → Text
reference_id none = []
reference_id (some t) = t.id

-- The input of `NewExternalTransaction` for a request.
abbrev pub external_input : ProcessInput → Text → Text → Text → Time → ExternalTransactionInput
external_input input hash id reference at = record {
  id = id;
  external_transaction_id = input.request.external_transaction_id;
  provider_id = input.request.provider_id;
  idempotency_key = input.idempotency_key;
  payload_hash = hash;
  wallet_id = input.request.wallet_id;
  player_id = input.request.player_id;
  round_id = input.request.round_id;
  game_id = input.request.game_id;
  kind = input.request.kind;
  money = input.request.money;
  reference_external_transaction_id = text_or_empty input.request.reference_external_transaction_id;
  reference_transaction_id = reference;
  created_at = at;
}

-- The result of a new transaction that waits.
abbrev pub pending_result : ProcessInput → WagerTransaction → Time → ProcessResult
pending_result input t expires_at = record {
  transaction_id = t.id;
  status = pending_reference;
  failure_code = [];
  balance = empty_money;
  pending_expires_at = some expires_at;
  idempotent_replay = false;
  kind = input.request.kind;
}

-- `processPendingNew`, from the insertion on; `none` asks for a retry.
unfoldable pub announce_pending :
    UseCase → ProcessInput → WagerTransaction → Time → Option Time → Tx (Option ProcessResult)
announce_pending uc input t at none = pure none
announce_pending uc input t at (some expires_at) = do
  event_id ← new_id uc.world
  event ← lift (
      map_err wallet_error (
        new_pending_reference_event
          (record {
            event_id = event_id;
            correlation_id = input.correlation_id;
            causation_id = input.causation_id;
            occurred_at = at;
          })
          t expires_at))
  publish uc.world wager_aggregate at event
  pure (some (pending_result input t expires_at))

-- `processPendingNew`
unfoldable pub process_pending_new :
    UseCase → ProcessInput → Text → Time → Tx (Option ProcessResult)
unfolding announce_pending
process_pending_new uc input hash at = do
  id ← new_id uc.world
  t ← lift (map_err wallet_error (new_external_transaction (external_input input hash id [] at)))
  t ← lift (map_err wallet_error (mark_pending_reference at t))
  expires_at ← insert_pending uc.world t at uc.pending_ttl
  announce_pending uc input t at expires_at

-- The mark of a new transaction, rejected where there is a code.
abbrev pub marked : Option Code → Time → WagerTransaction → Result AppError WagerTransaction
marked (some code) at t = map_err wallet_error (mark_rejected (code_text code) at t)
marked none at t = map_err wallet_error (mark_processed at t)

-- The ledger entry and the update of the wallet, for a movement.
unfoldable pub record_movement : World → Wallet → Option LedgerEntry → Tx (Unit {0})
record_movement world w none = pure tt
record_movement world w (some entry) = do
  insert_ledger_entry world entry
  update_balance world w (sub64 w.version (pos 1))

-- The result of a new transaction.
abbrev pub fresh_result : ProcessInput → WagerTransaction → Money → ProcessResult
fresh_result input t balance = record {
  transaction_id = t.id;
  status = t.status;
  failure_code = t.failure_code;
  balance = balance;
  pending_expires_at = none;
  idempotent_replay = false;
  kind = input.request.kind;
}

-- `processNew` behind its INSERT, by whether that inserted; `none` asks for a retry.
unfoldable pub persist_effects :
    UseCase
    → ProcessInput
    → Applied
    → WagerTransaction
    → Time
    → ℤ
    → Bool
    → Tx (Option ProcessResult)
persist_effects uc input applied t at resulting false = pure none
persist_effects uc input applied t at resulting true = do
  record_movement uc.world applied.wallet applied.entry
  write_outbox_events uc.world t applied.wallet applied.entry input.correlation_id
      input.causation_id at
  balance ← lift (map_err (λ _. corrupted_balance) (Money.new resulting applied.wallet.currency))
  pure (some (fresh_result input t balance))

-- `processNew` from the resulting balance on.
unfoldable pub persist_new :
    UseCase → ProcessInput → Applied → WagerTransaction → Time → Tx (Option ProcessResult)
persist_new uc input applied t at = do
  resulting ← lift (map_err money_error (minor_units_of applied.wallet.balance))
  inserted ← insert_new uc.world t (some resulting)
  persist_effects uc input applied t at resulting inserted

-- `processNew`
unfoldable pub process_new :
    UseCase
    → Wallet
    → ProcessInput
    → Text
    → Decision
    → Option WagerTransaction
    → Time
    → Tx (Option ProcessResult)
process_new uc w input hash decision reference at = do
  id ← new_id uc.world
  t ← lift (
      map_err wallet_error
        (new_external_transaction (external_input input hash id (reference_id reference) at)))
  applied ← apply_decision uc.world w decision id input.request.money input.request.kind at
  t ← lift (marked applied.rejection at t)
  persist_new uc input applied t at
