-- ===== src/App/Prepare.antt =====
-- internal/walletapp/process_operation.go and internal/domain/operation/hash.go: what happens to a
-- request before any transaction.
use gaming_go_backend.Common.{
  not, Bool, true, false, ◌&&◌, ◌||◌, none, [], ◌∷◌, length, ltb, leb, ◌==◌, if◌then◌else◌, Result,
  ok, map_err, ◌>>=◌, ◌>>◌, fail_if,
}
use gaming_go_backend.Common.Text.{Text}
use gaming_go_backend.Money.Decimal.{decimal}
use gaming_go_backend.Operation.Codes.{missing_idempotency_key}
use gaming_go_backend.Operation.Rules.{Decision, Request, validate_input, evaluate}
use gaming_go_backend.Store.Base.{AppError, operation_error, money_error}
use gaming_go_backend.App.{UseCase}

-- `ProcessOperationInput`
pub record ProcessInput : Type 0 where
  pub request : Request
  pub idempotency_key : Text
  pub correlation_id : Text
  pub causation_id : Text
  pub channel : Text

-- `PreparedOperation`
pub record Prepared : Type 0 where
  pub input : ProcessInput
  pub hash : Text
  pub decision : Decision
  pub ready : Bool

unfoldable pub is_printable : Text → Bool
is_printable [] = true
is_printable (c ∷ s) = leb 32 c && leb c 126 && is_printable s

unfoldable pub is_valid_idempotency_key : Text → Bool
is_valid_idempotency_key key =
    if length key == 0 || ltb 255 (length key) then false else is_printable key

-- `PayloadHash`: the encoder fails where the JSON of the money does.
unfoldable pub payload_hash : (Request → Text) → Request → Result AppError Text
payload_hash digest r = do
  map_err operation_error (validate_input r)
  _ ← map_err money_error (decimal r.money)
  ok (digest r)

-- `Prepare`
unfoldable pub prepare : UseCase → ProcessInput → Result AppError Prepared
prepare uc input = do
  fail_if (not (is_valid_idempotency_key input.idempotency_key))
      (operation_error missing_idempotency_key)
  hash ← payload_hash uc.digest input.request
  decision ← map_err operation_error (evaluate input.request none false)
  ok (record { input = input; hash = hash; decision = decision; ready = true })
