-- ===== src/Operation/Codes.antt =====
-- internal/domain/operation/errors.go: failure codes and their classification. The source's `Error`
-- is a code with the classification that `newError` looks up, so a code stands for it here.
use gaming_go_backend.Common.{Option, none, some}
use gaming_go_backend.Common.Text.{Text, codes}

pub data Code : Type 0 where
  invalid_request invalid_money unsupported_currency invalid_amount_for_kind : Code
  kind_not_allowed missing_idempotency_key reference_required reference_not_allowed : Code
  wallet_not_found transaction_not_found wallet_player_mismatch wallet_currency_mismatch : Code
  insufficient_funds reversal_insufficient_funds reference_not_found reference_not_processed : Code
  reference_already_reversed reference_kind_not_reversible reference_mismatch : Code
  reference_amount_mismatch permanent_processing_failure idempotency_key_reused : Code
  external_transaction_id_conflict wallet_already_exists temporarily_unavailable : Code
  other_code : Text → Code

-- `string(code)`
unfoldable pub code_text : Code → Text
code_text invalid_request = codes "INVALID_REQUEST"
code_text invalid_money = codes "INVALID_MONEY"
code_text unsupported_currency = codes "UNSUPPORTED_CURRENCY"
code_text invalid_amount_for_kind = codes "INVALID_AMOUNT_FOR_KIND"
code_text kind_not_allowed = codes "KIND_NOT_ALLOWED"
code_text missing_idempotency_key = codes "MISSING_IDEMPOTENCY_KEY"
code_text reference_required = codes "REFERENCE_REQUIRED"
code_text reference_not_allowed = codes "REFERENCE_NOT_ALLOWED"
code_text wallet_not_found = codes "WALLET_NOT_FOUND"
code_text transaction_not_found = codes "TRANSACTION_NOT_FOUND"
code_text wallet_player_mismatch = codes "WALLET_PLAYER_MISMATCH"
code_text wallet_currency_mismatch = codes "WALLET_CURRENCY_MISMATCH"
code_text insufficient_funds = codes "INSUFFICIENT_FUNDS"
code_text reversal_insufficient_funds = codes "REVERSAL_INSUFFICIENT_FUNDS"
code_text reference_not_found = codes "REFERENCE_NOT_FOUND"
code_text reference_not_processed = codes "REFERENCE_NOT_PROCESSED"
code_text reference_already_reversed = codes "REFERENCE_ALREADY_REVERSED"
code_text reference_kind_not_reversible = codes "REFERENCE_KIND_NOT_REVERSIBLE"
code_text reference_mismatch = codes "REFERENCE_MISMATCH"
code_text reference_amount_mismatch = codes "REFERENCE_AMOUNT_MISMATCH"
code_text permanent_processing_failure = codes "PERMANENT_PROCESSING_FAILURE"
code_text idempotency_key_reused = codes "IDEMPOTENCY_KEY_REUSED"
code_text external_transaction_id_conflict = codes "EXTERNAL_TRANSACTION_ID_CONFLICT"
code_text wallet_already_exists = codes "WALLET_ALREADY_EXISTS"
code_text temporarily_unavailable = codes "TEMPORARILY_UNAVAILABLE"
code_text (other_code s) = s

pub data Classification : Type 0 where
  correctable definitive permanent_failure conflict unavailable : Classification

-- `ClassificationFor`; `none` is its second result, false.
unfoldable pub classification_for : Code → Option Classification
classification_for invalid_request = some correctable
classification_for invalid_money = some correctable
classification_for unsupported_currency = some correctable
classification_for invalid_amount_for_kind = some correctable
classification_for kind_not_allowed = some correctable
classification_for missing_idempotency_key = some correctable
classification_for reference_required = some correctable
classification_for reference_not_allowed = some correctable
classification_for wallet_not_found = some correctable
classification_for transaction_not_found = some correctable
classification_for wallet_player_mismatch = some correctable
classification_for wallet_currency_mismatch = some correctable
classification_for insufficient_funds = some definitive
classification_for reversal_insufficient_funds = some definitive
classification_for reference_not_found = some definitive
classification_for reference_not_processed = some definitive
classification_for reference_already_reversed = some definitive
classification_for reference_kind_not_reversible = some definitive
classification_for reference_mismatch = some definitive
classification_for reference_amount_mismatch = some definitive
classification_for permanent_processing_failure = some permanent_failure
classification_for idempotency_key_reused = some conflict
classification_for external_transaction_id_conflict = some conflict
classification_for wallet_already_exists = some conflict
classification_for temporarily_unavailable = some unavailable
classification_for (other_code _) = none
