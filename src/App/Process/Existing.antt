-- ===== src/App/Process/Existing.antt =====
-- internal/walletapp/process_operation.go: what an attempt reads of the transactions that are there.
use gaming_go_backend.Common.{
  Bool, true, false, Option, none, some, [], if◌then◌else◌, Result, ok, err, map_err,
}
use gaming_go_backend.Common.Int.{pos}
use gaming_go_backend.Common.Text.{Text}
use gaming_go_backend.Common.Time.{Time}
use gaming_go_backend.Money
use gaming_go_backend.Money.{Currency, Money}
use gaming_go_backend.Transaction.{WagerKind, Status, WagerTransaction}
use gaming_go_backend.Operation.Attempts.{
  Attempt, AttemptDecision, new_attempt, replay, conflict, classify_attempt,
}
use gaming_go_backend.Operation.Rules.{wait_for_reference, Decision, Request, evaluate}
use gaming_go_backend.Store.Base.{
  AppError, operation_error, corrupted_balance, unresolved_reference, World, Tx, pure, raise, lift,
  ◌>>=◌,
}
use gaming_go_backend.Store.Transactions.{is_processed}
use gaming_go_backend.Store.Lookups.{
  ExistingTransaction, find_by_key, find_by_external, find_reference, exists_successful_reversal,
}
use gaming_go_backend.App.{or_none}

-- `ProcessOperationResult`
pub record ProcessResult : Type 0 where
  pub transaction_id : Text
  pub status : Status
  pub failure_code : Text
  pub balance : Money
  pub pending_expires_at : Option Time
  pub idempotent_replay : Bool
  pub kind : WagerKind

-- `money.Money{}`
abbrev pub empty_money : Money
empty_money = record { minor_units = pos 0; currency = Money.other [] }

abbrev pub replayed : ExistingTransaction → Money → WagerKind → ProcessResult
replayed found balance kind = record {
  transaction_id = found.transaction_id;
  status = found.status;
  failure_code = found.failure_code;
  balance = balance;
  pending_expires_at = found.pending_expires_at;
  idempotent_replay = true;
  kind = kind;
}

-- `replayResult`, with the kind that its caller sets.
unfoldable pub replay_result : ExistingTransaction → WagerKind → Result AppError ProcessResult
replay_result found kind = elim found.resulting_balance [
  | none ↦ ok (replayed found empty_money kind)
  | some units ↦ elim (Money.new units found.currency) [
    | err _ ↦ err corrupted_balance
    | ok balance ↦ ok (replayed found balance kind)
  ]
]

abbrev pub to_attempt : Option ExistingTransaction → Option Attempt
to_attempt none = none
to_attempt (some found) = some (record {
  idempotency_key = found.idempotency_key;
  payload_hash = found.payload_hash;
  external_transaction_id = found.external_transaction_id;
})

-- The two first results of `lookupExisting`.
pub data Lookup : Type 0 where
  answered : ProcessResult → Lookup
  new_one : Lookup

-- The replay of what the key found. `classify_attempt` replays only what the key found.
abbrev replay_of : Option ExistingTransaction → WagerKind → Tx Lookup
replay_of none kind = raise unresolved_reference
replay_of (some found) kind = lift (replay_result found kind) >>= λ result. pure (answered result)

-- The switch of `lookupExisting`.
unfoldable pub answer : AttemptDecision → Option ExistingTransaction → WagerKind → Tx Lookup
answer replay by_key kind = replay_of by_key kind
answer (conflict code) by_key kind = raise (operation_error code)
answer new_attempt by_key kind = pure new_one

abbrev pub incoming_attempt : Request → Text → Text → Attempt
incoming_attempt r key hash = record {
  idempotency_key = key;
  payload_hash = hash;
  external_transaction_id = r.external_transaction_id;
}

-- `lookupExisting`
unfoldable pub lookup_existing : World → Request → Text → Text → Tx Lookup
lookup_existing world r key hash = do
  by_key ← or_none (find_by_key world r.provider_id key)
  by_external ← or_none (find_by_external world r.provider_id r.external_transaction_id)
  answer
      (classify_attempt (incoming_attempt r key hash) (to_attempt by_key) (to_attempt by_external))
      by_key r.kind

-- Whether a PROCESSED reference is reversed; the others are not asked for.
unfoldable pub reversed_already : World → WagerTransaction → Tx Bool
reversed_already world reference =
    if is_processed reference.status
    then exists_successful_reversal world reference.id
    else pure false

-- `resolveDecision` behind the lookup of the reference.
unfoldable pub resolve_found :
    World → Request → Decision → Option WagerTransaction → Tx (Decision × Option WagerTransaction)
resolve_found world r decision none = pure (decision, none)
resolve_found world r decision (some reference) = do
  reversed ← reversed_already world reference
  resolved ← lift (map_err operation_error (evaluate r (some reference) reversed))
  pure (resolved, some reference)

abbrev pub text_or_empty : Option Text → Text
text_or_empty none = []
text_or_empty (some s) = s

-- `resolveDecision`. A decision waits only where the request names a reference, so the pointer that
-- the source follows is there.
unfoldable pub resolve_decision :
    World → Request → Decision → Tx (Decision × Option WagerTransaction)
resolve_decision world r decision = elim decision.action [
  | wait_for_reference ↦
      or_none
        (find_reference world r.provider_id (text_or_empty r.reference_external_transaction_id))
      >>= resolve_found world r decision
  | _ ↦ pure (decision, none)
]
