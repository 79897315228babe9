-- ===== src/Transaction.antt =====
-- internal/domain/wallet/wager_transaction.go: the wager transaction and its lifecycle. A method
-- that mutates `*WagerTransaction` returns the new transaction, and an error leaves the receiver as
-- it was. Receivers are transactions and not nil pointers, as in Wallet.
pub mod Lifecycle
pub mod Amounts
pub mod Validity
use gaming_go_backend.Common.{
  Bool, true, false, not, ◌&&◌, ◌||◌, [], if◌then◌else◌, Result, ok, err, ◌>>=◌, ◌>>◌, fail_if,
  map_err,
}
use gaming_go_backend.Common.Text.{Text, is_empty}
use gaming_go_backend.Common.Time.{Time, is_zero}
use gaming_go_backend.Money.{Money, currency_of, compare_money}
use gaming_go_backend.Wallet.{
  WalletError, invalid_transaction, invalid_transition, zero_or_empty, is_at_least,
}

-- In each of these three, the last constructor is every text but the constants.
pub data WagerKind : Type 0 where
  opening bet win loss refund rollback : WagerKind
  other_kind : Text → WagerKind

pub data Origin : Type 0 where
  internal external : Origin
  other_origin : Text → Origin

pub data Status : Type 0 where
  pending processed rejected failed pending_reference : Status
  other_status : Text → Status

pub record ExternalTransactionInput : Type 0 where
  pub id : Text
  pub external_transaction_id : Text
  pub provider_id : Text
  pub idempotency_key : Text
  pub payload_hash : Text
  pub wallet_id : Text
  pub player_id : Text
  pub round_id : Text
  pub game_id : Text
  pub kind : WagerKind
  pub money : Money
  pub reference_external_transaction_id : Text
  pub reference_transaction_id : Text
  pub created_at : Time

pub record OpeningTransactionInput : Type 0 where
  pub id : Text
  pub wallet_id : Text
  pub player_id : Text
  pub money : Money
  pub created_at : Time

-- `WagerTransaction`, and `RehydratedTransaction`, which has the same fields.
pub record WagerTransaction : Type 0 where
  pub id : Text
  pub external_transaction_id : Text
  pub provider_id : Text
  pub idempotency_key : Text
  pub payload_hash : Text
  pub wallet_id : Text
  pub player_id : Text
  pub round_id : Text
  pub game_id : Text
  pub kind : WagerKind
  pub origin : Origin
  pub money : Money
  pub reference_external_transaction_id : Text
  pub reference_transaction_id : Text
  pub status : Status
  pub failure_code : Text
  pub created_at : Time
  pub updated_at : Time

abbrev pub is_opening : WagerKind → Bool
is_opening opening = true
is_opening _ = false

-- `kind == Refund || kind == Rollback`
abbrev pub is_reversal : WagerKind → Bool
is_reversal refund = true
is_reversal rollback = true
is_reversal _ = false

abbrev pub is_kind : WagerKind → Bool
is_kind (other_kind _) = false
is_kind _ = true

abbrev pub is_status : Status → Bool
is_status (other_status _) = false
is_status _ = true

-- `status == Rejected || status == Failed`
abbrev pub is_failure : Status → Bool
is_failure rejected = true
is_failure failed = true
is_failure _ = false

-- `status == Pending || status == PendingReference || status == Processed`
abbrev pub is_open_or_processed : Status → Bool
is_open_or_processed pending = true
is_open_or_processed pending_reference = true
is_open_or_processed processed = true
is_open_or_processed _ = false

-- `a != b` of two tests.
abbrev pub differ : Bool → Bool → Bool
differ true b = not b
differ false b = b

unfoldable pub validate_non_negative_money : Money → Result WalletError (Unit {0})
validate_non_negative_money m = do
  currency ← map_err (λ _. invalid_transaction) (currency_of m)
  fail_if (not (is_at_least (compare_money m (zero_or_empty currency)))) invalid_transaction

-- The metadata that an origin wants and forbids.
unfoldable pub wrong_metadata : Origin → WagerTransaction → Bool
wrong_metadata internal t =
    not (is_opening t.kind)
    || not (is_empty t.external_transaction_id)
    || not (is_empty t.provider_id)
    || not (is_empty t.idempotency_key)
    || not (is_empty t.payload_hash)
    || not (is_empty t.round_id)
    || not (is_empty t.game_id)
    || not (is_empty t.reference_external_transaction_id)
    || not (is_empty t.reference_transaction_id)
wrong_metadata external t =
    is_opening t.kind
    || is_empty t.external_transaction_id
    || is_empty t.provider_id
    || is_empty t.idempotency_key
    || is_empty t.payload_hash
    || is_empty t.round_id
    || is_empty t.game_id
wrong_metadata (other_origin _) t = true

unfoldable pub validate : WagerTransaction → Result WalletError (Unit {0})
validate t = do
  fail_if
      (is_empty t.id
        || is_empty t.wallet_id
        || is_empty t.player_id
        || is_zero t.created_at
        || is_zero t.updated_at
        || not (is_kind t.kind)
        || not (is_status t.status))
      invalid_transaction
  validate_non_negative_money t.money
  fail_if (wrong_metadata t.origin t) invalid_transaction
  fail_if (is_reversal t.kind && is_empty t.reference_external_transaction_id) invalid_transaction
  fail_if (differ (is_failure t.status) (not (is_empty t.failure_code))) invalid_transaction
  fail_if (is_open_or_processed t.status && not (is_empty t.failure_code)) invalid_transaction

-- `if err := transaction.validate(); err != nil { return nil, err }; return transaction, nil`
unfoldable pub checked : WagerTransaction → Result WalletError WagerTransaction
checked t = do validate t; ok t

unfoldable pub new_external_transaction :
    ExternalTransactionInput → Result WalletError WagerTransaction
new_external_transaction i = checked (record {
  id = i.id;
  external_transaction_id = i.external_transaction_id;
  provider_id = i.provider_id;
  idempotency_key = i.idempotency_key;
  payload_hash = i.payload_hash;
  wallet_id = i.wallet_id;
  player_id = i.player_id;
  round_id = i.round_id;
  game_id = i.game_id;
  kind = i.kind;
  origin = external;
  money = i.money;
  reference_external_transaction_id = i.reference_external_transaction_id;
  reference_transaction_id = i.reference_transaction_id;
  status = pending;
  failure_code = [];
  created_at = i.created_at;
  updated_at = i.created_at;
})

unfoldable pub new_opening_transaction :
    OpeningTransactionInput → Result WalletError WagerTransaction
new_opening_transaction i = checked (record {
  id = i.id;
  external_transaction_id = [];
  provider_id = [];
  idempotency_key = [];
  payload_hash = [];
  wallet_id = i.wallet_id;
  player_id = i.player_id;
  round_id = [];
  game_id = [];
  kind = opening;
  origin = internal;
  money = i.money;
  reference_external_transaction_id = [];
  reference_transaction_id = [];
  status = pending;
  failure_code = [];
  created_at = i.created_at;
  updated_at = i.created_at;
})

unfoldable pub rehydrate_transaction : WagerTransaction → Result WalletError WagerTransaction
rehydrate_transaction t = checked t

unfoldable pub is_allowed_transition : Status → Status → Bool
is_allowed_transition pending processed = true
is_allowed_transition pending rejected = true
is_allowed_transition pending failed = true
is_allowed_transition pending pending_reference = true
is_allowed_transition pending_reference processed = true
is_allowed_transition pending_reference rejected = true
is_allowed_transition pending_reference failed = true
is_allowed_transition _ _ = false

-- `next == Processed || next == PendingReference`
abbrev is_codeless : Status → Bool
is_codeless processed = true
is_codeless pending_reference = true
is_codeless _ = false

unfoldable pub transition :
    Status → Text → Time → WagerTransaction → Result WalletError WagerTransaction
unfolding is_allowed_transition
transition next code at t = do
  fail_if (is_zero at) invalid_transition
  fail_if (not (is_allowed_transition t.status next)) invalid_transition
  fail_if (is_failure next && is_empty code) invalid_transaction
  fail_if (is_codeless next && not (is_empty code)) invalid_transaction
  ok (record t { status = next; failure_code = code; updated_at = at })

unfoldable pub mark_processed : Time → WagerTransaction → Result WalletError WagerTransaction
mark_processed at t = transition processed [] at t

unfoldable pub mark_rejected : Text → Time → WagerTransaction → Result WalletError WagerTransaction
mark_rejected code at t = transition rejected code at t

unfoldable pub mark_failed : Text → Time → WagerTransaction → Result WalletError WagerTransaction
mark_failed code at t = transition failed code at t

unfoldable pub mark_pending_reference :
    Time → WagerTransaction → Result WalletError WagerTransaction
mark_pending_reference at t = transition pending_reference [] at t

abbrev pub is_pending_reference : Status → Bool
is_pending_reference pending_reference = true
is_pending_reference _ = false

unfoldable pub resolve_reference : Text → WagerTransaction → Result WalletError WagerTransaction
resolve_reference reference t = do
  fail_if
      (not (is_pending_reference t.status)
        || is_empty reference
        || not (is_empty t.reference_transaction_id))
      invalid_transition
  ok (record t { reference_transaction_id = reference })
