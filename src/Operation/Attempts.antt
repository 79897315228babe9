-- ===== src/Operation/Attempts.antt =====
-- internal/domain/operation/idempotency.go: whether a submission is new, a replay or a conflict.
pub mod Classes
use gaming_go_backend.Common.{not, Bool, true, false, Option, none, some, if◌then◌else◌}
use gaming_go_backend.Common.Text.{Text, text_eq}
use gaming_go_backend.Operation.Codes.{
  Code, idempotency_key_reused, external_transaction_id_conflict,
}

pub record Attempt : Type 0 where
  pub idempotency_key : Text
  pub payload_hash : Text
  pub external_transaction_id : Text

-- `AttemptDecision`: a conflict alone carries an error.
pub data AttemptDecision : Type 0 where
  new_attempt replay : AttemptDecision
  conflict : Code → AttemptDecision

-- `existingByExternal != nil && existingByExternal.IdempotencyKey != incoming.IdempotencyKey`
abbrev other_key : Attempt → Option Attempt → Bool
other_key incoming none = false
other_key incoming (some found) = not (text_eq found.idempotency_key incoming.idempotency_key)

unfoldable pub classify_attempt : Attempt → Option Attempt → Option Attempt → AttemptDecision
classify_attempt incoming (some by_key) by_external =
    if text_eq by_key.payload_hash incoming.payload_hash
    then replay
    else conflict idempotency_key_reused
classify_attempt incoming none by_external =
    if other_key incoming by_external
    then conflict external_transaction_id_conflict
    else new_attempt
