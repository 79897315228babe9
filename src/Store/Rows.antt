-- ===== src/Store/Rows.antt =====
-- internal/walletpg/transaction_repository.go: a wager transaction as a row, and back.
use gaming_go_backend.Common.{
  Option, none, some, [], if◌then◌else◌, Result, ok, err, map_err, ◌>>=◌,
}
use gaming_go_backend.Common.Int.{ℤ}
use gaming_go_backend.Common.Text.{Text, is_empty}
use gaming_go_backend.Common.Time.{stored_time}
use gaming_go_backend.Money.{new, minor_units_of, currency_of}
use gaming_go_backend.Transaction.{Origin, external, WagerTransaction, rehydrate_transaction}
use gaming_go_backend.Store.Base.{
  AppError, money_error, infrastructure, invalid_persisted_transaction, TransactionRow,
}

-- A text that is NULL where it is empty.
abbrev pub null_if_empty : Text → Option Text
null_if_empty s = if is_empty s then none else some s

-- A provider's column, which only an external transaction fills.
abbrev pub provider_column : Origin → Text → Option Text
provider_column external s = some s
provider_column _ s = none

-- `transactionFields`, with the defaults of the columns that an INSERT does not name. An id is kept as
-- a UUID column keeps one in canonical text; an INSERT of what is no UUID is one that fails.
unfoldable pub row_of : WagerTransaction → Option ℤ → Result AppError TransactionRow
row_of t resulting_balance = do
  amount ← map_err money_error (minor_units_of t.money)
  currency ← map_err money_error (currency_of t.money)
  ok (record {
    id = t.id;
    external_transaction_id = provider_column t.origin t.external_transaction_id;
    provider_id = provider_column t.origin t.provider_id;
    idempotency_key = provider_column t.origin t.idempotency_key;
    payload_hash = provider_column t.origin t.payload_hash;
    wallet_id = t.wallet_id;
    player_id = t.player_id;
    round_id = provider_column t.origin t.round_id;
    game_id = provider_column t.origin t.game_id;
    kind = t.kind;
    origin = t.origin;
    amount = amount;
    currency = currency;
    reference_external_transaction_id = null_if_empty t.reference_external_transaction_id;
    reference_transaction_id = null_if_empty t.reference_transaction_id;
    status = t.status;
    failure_code = null_if_empty t.failure_code;
    resulting_balance = resulting_balance;
    attempts = 0;
    next_attempt_at = none;
    pending_expires_at = none;
    created_at = stored_time t.created_at;
    updated_at = stored_time t.updated_at;
  })

-- A scan into a string fails on NULL; one into a pointer does not.
unfoldable pub scan_text : Option Text → Result AppError Text
scan_text none = err infrastructure
scan_text (some s) = ok s

abbrev pub text_or_empty : Option Text → Text
text_or_empty none = []
text_or_empty (some s) = s

-- What `FindReference` and `FindPendingForUpdate` make of a row.
unfoldable pub transaction_of_row : TransactionRow → Result AppError WagerTransaction
unfolding scan_text
transaction_of_row row = do
  external_transaction_id ← scan_text row.external_transaction_id
  provider_id ← scan_text row.provider_id
  idempotency_key ← scan_text row.idempotency_key
  payload_hash ← scan_text row.payload_hash
  round_id ← scan_text row.round_id
  game_id ← scan_text row.game_id
  money ← map_err money_error (new row.amount row.currency)
  map_err (λ _. invalid_persisted_transaction)
      (rehydrate_transaction (record {
        id = row.id;
        external_transaction_id = external_transaction_id;
        provider_id = provider_id;
        idempotency_key = idempotency_key;
        payload_hash = payload_hash;
        wallet_id = row.wallet_id;
        player_id = row.player_id;
        round_id = round_id;
        game_id = game_id;
        kind = row.kind;
        origin = row.origin;
        money = money;
        reference_external_transaction_id = text_or_empty row.reference_external_transaction_id;
        reference_transaction_id = text_or_empty row.reference_transaction_id;
        status = row.status;
        failure_code = text_or_empty row.failure_code;
        created_at = row.created_at;
        updated_at = row.updated_at;
      }))
