-- ===== src/App/Resume.antt =====
-- internal/walletapp/process_operation.go: the retries of an operation that waits for its reference.
pub mod Outcomes
pub mod OutcomePreservation
pub mod Preservation
pub mod Books
use gaming_go_backend.Common.{
  ℕ, ◌+◌, Bool, true, false, not, ◌&&◌, ◌||◌, Option, none, some, ltb, leb, if◌then◌else◌, Result,
  ok, err, map_err,
}
use gaming_go_backend.Common.Int64.{sub64}
use gaming_go_backend.Common.Text.{Text}
use gaming_go_backend.Common.Time.{Time}
use gaming_go_backend.Wallet.{Wallet}
use gaming_go_backend.Transaction.{
  WagerTransaction, mark_failed, is_pending_reference, resolve_reference,
}
use gaming_go_backend.Operation.Codes
use gaming_go_backend.Operation.Codes.{Code, code_text, permanent_processing_failure}
use gaming_go_backend.Operation.Rules.{
  Action, process, wait_for_reference, reject, Decision, Request, evaluate,
}
use gaming_go_backend.Store.Base.{
  AppError, operation_error, not_found, unresolved_reference, unexpected_decision, wallet_error,
  World, Session, Tx, pure, raise, lift, within_tx, now, ◌>>=◌, ◌>>◌,
}
use gaming_go_backend.Store.Wallets.{find_wallet}
use gaming_go_backend.Store.Lookups.{find_reference}
use gaming_go_backend.Store.Pending.{
  PendingReferenceTransaction, find_pending, reschedule_pending, complete_pending,
}
use gaming_go_backend.App.{UseCase, or_none}
use gaming_go_backend.App.Process.Existing.{resolve_decision}
use gaming_go_backend.App.Resume.Outcomes.{
  PendingResumeOutcome, pending_rescheduled, reject_pending, process_pending,
}

-- `PendingResumeSettings`
pub record PendingResumeSettings : Type 0 where
  pub max_attempts : ℕ
  pub retry_delay : Time

-- The request that a transaction came from.
unfoldable pub request_of : WagerTransaction → Request
request_of t = record {
  provider_id = t.provider_id;
  external_transaction_id = t.external_transaction_id;
  player_id = t.player_id;
  wallet_id = t.wallet_id;
  round_id = t.round_id;
  game_id = t.game_id;
  kind = t.kind;
  money = t.money;
  reference_external_transaction_id = some t.reference_external_transaction_id;
}

abbrev resolve : WagerTransaction → WagerTransaction → Result AppError WagerTransaction
resolve reference t = map_err wallet_error (resolve_reference reference.id t)

abbrev resolve_found : Option WagerTransaction → WagerTransaction → Result AppError WagerTransaction
resolve_found none t = ok t
resolve_found (some reference) t = resolve reference t

-- The branch of a rejection. One without an error, which `evaluate` never gives, is a nil pointer
-- that the source would follow.
unfoldable pub reject_decided :
    World
    → WagerTransaction
    → Wallet
    → Option Code
    → Option WagerTransaction
    → Time
    → Tx (Option PendingResumeOutcome)
reject_decided world t w none reference at = raise unexpected_decision
reject_decided world t w (some code) reference at = do
  t ← lift (resolve_found reference t)
  reject_pending world t w code at

-- The branch of a movement.
process_decided :
    World
    → WagerTransaction
    → Wallet
    → Decision
    → Option WagerTransaction
    → Time
    → Tx (Option PendingResumeOutcome)
process_decided world t w decision none at = raise unresolved_reference
process_decided world t w decision (some reference) at = do
  t ← lift (resolve reference t)
  process_pending world t w decision at

-- The code of an operation that has waited for too long.
unfoldable pub expiry_code : Option WagerTransaction → Code
expiry_code none = Codes.reference_not_found
expiry_code (some _) = Codes.reference_not_processed

-- The branch of an operation that has waited for too long.
expire : World → WagerTransaction → Wallet → Time → Tx (Option PendingResumeOutcome)
unfolding expiry_code
expire world t w at = do
  reference ← or_none (find_reference world t.provider_id t.reference_external_transaction_id)
  t ← lift (resolve_found reference t)
  reject_pending world t w (expiry_code reference) at

-- `pending.Expired || (settings.MaxAttempts > 0 && pending.Attempts >= settings.MaxAttempts)`
unfoldable pub is_exhausted : PendingReferenceTransaction → PendingResumeSettings → Bool
is_exhausted pending settings =
    pending.expired || ltb 0 settings.max_attempts && leb settings.max_attempts pending.attempts

-- The branch of an operation whose reference is still missing.
unfoldable pub wait_again :
    World
    → PendingReferenceTransaction
    → Wallet
    → PendingResumeSettings
    → Time
    → Tx (Option PendingResumeOutcome)
unfolding expire is_exhausted
wait_again world pending w settings at =
    if is_exhausted pending settings
    then expire world pending.transaction w at
    else reschedule_pending world pending.transaction.id (pending.attempts + 1) settings.retry_delay
      >> pure (some pending_rescheduled)

-- The branches of `ResumePending` behind `resolveDecision`.
resume_decided :
    World
    → PendingReferenceTransaction
    → Wallet
    → PendingResumeSettings
    → Time
    → Decision
    → Option WagerTransaction
    → Tx (Option PendingResumeOutcome)
unfolding reject_decided process_decided wait_again
resume_decided world pending w settings at decision reference = elim decision.action [
  | reject ↦ reject_decided world pending.transaction w decision.error reference at
  | process ↦ process_decided world pending.transaction w decision reference at
  | wait_for_reference ↦ wait_again world pending w settings at
]

-- `ResumePending` behind the lock of the transaction; a transaction that no longer waits is left.
resume_found :
    World
    → Option PendingReferenceTransaction
    → Wallet
    → PendingResumeSettings
    → Time
    → Tx (Option PendingResumeOutcome)
unfolding resume_decided
resume_found world none w settings at = pure none
resume_found world (some pending) w settings at =
    if not (is_pending_reference pending.transaction.status)
    then pure none
    else lift (map_err operation_error (evaluate (request_of pending.transaction) none false))
      >>= λ decision.
          resolve_decision world (request_of pending.transaction) decision >>= λ resolved.
          resume_decided world pending w settings at resolved.0 resolved.1

-- `ResumePending`; `none` is the empty outcome.
unfoldable pub resume_pending :
    UseCase → Text → Text → PendingResumeSettings → Tx (Option PendingResumeOutcome)
unfolding resume_found
resume_pending uc id wallet_id settings = within_tx uc.world do
  at ← now uc.world
  w ← find_wallet uc.world wallet_id
  pending ← or_none (find_pending uc.world id)
  resume_found uc.world pending w settings at

unfoldable pub fail_found : World → Option PendingReferenceTransaction → Time → Tx (Unit {0})
fail_found world none at = pure tt
fail_found world (some pending) at =
    if not (is_pending_reference pending.transaction.status)
    then pure tt
    else lift (
        map_err wallet_error
          (mark_failed (code_text permanent_processing_failure) at pending.transaction))
      >>= λ t. complete_pending world t none

-- `FailPending`
unfoldable pub fail_pending : UseCase → Text → Text → Tx (Unit {0})
unfolding fail_found
fail_pending uc id wallet_id = within_tx uc.world do
  at ← now uc.world
  _ ← find_wallet uc.world wallet_id
  pending ← or_none (find_pending uc.world id)
  fail_found uc.world pending at

unfoldable pub retry_found :
    World → Text → Option PendingReferenceTransaction → Time → Tx (Unit {0})
retry_found world id none delay = pure tt
retry_found world id (some pending) delay =
    if not (is_pending_reference pending.transaction.status)
    then pure tt
    else reschedule_pending world id (pending.attempts + 1) delay

-- `ReschedulePendingAfterFailure`
unfoldable pub reschedule_pending_after_failure : UseCase → Text → Text → Time → Tx (Unit {0})
unfolding retry_found
reschedule_pending_after_failure uc id wallet_id delay = within_tx uc.world do
  _ ← find_wallet uc.world wallet_id
  pending ← or_none (find_pending uc.world id)
  retry_found uc.world id pending delay
