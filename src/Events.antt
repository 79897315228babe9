-- ===== src/Events.antt =====
-- internal/domain/wallet/events.go: the integration events. A timestamp is held by the whole second,
-- which is what its RFC 3339 text keeps of it.
use gaming_go_backend.Common.{ℕ, Bool, true, false, not, ◌||◌, Result, ok, ◌>>=◌, ◌>>◌, fail_if}
use gaming_go_backend.Common.Int.{ℤ, pos, ltb_ℤ}
use gaming_go_backend.Common.Text.{Text, codes, is_empty, text_eq}
use gaming_go_backend.Common.Time.{Time, is_zero, whole_second}
use gaming_go_backend.Money.{Money}
use gaming_go_backend.Wallet.{WalletError, invalid_event, Direction, Wallet, LedgerEntry}
use gaming_go_backend.Transaction.{
  WagerKind, Origin, Status, processed, rejected, WagerTransaction, is_pending_reference,
}

abbrev pub processed_event_type : Text
processed_event_type = codes "WagerTransactionProcessed"

abbrev pub rejected_event_type : Text
rejected_event_type = codes "WagerTransactionRejected"

abbrev pub balance_changed_event_type : Text
balance_changed_event_type = codes "WalletBalanceChanged"

abbrev pub pending_reference_event_type : Text
pending_reference_event_type = codes "WagerTransactionPendingReference"

abbrev pub event_version : ℕ
event_version = 1

pub record EventMetadata : Type 0 where
  pub event_id : Text
  pub correlation_id : Text
  pub causation_id : Text
  pub occurred_at : Time

pub record EventEnvelope : Type 0 where
  pub event_id : Text
  pub event_type : Text
  pub aggregate_id : Text
  pub correlation_id : Text
  pub causation_id : Text
  pub occurred_at : Time
  pub version : ℕ

pub record ProcessedData : Type 0 where
  pub transaction_id : Text
  pub wallet_id : Text
  pub player_id : Text
  pub kind : WagerKind
  pub origin : Origin
  pub external_transaction_id : Text
  pub provider_id : Text
  pub idempotency_key : Text
  pub payload_hash : Text
  pub round_id : Text
  pub game_id : Text
  pub reference_external_transaction_id : Text
  pub money : Money
  pub status : Status

pub record RejectedData : Type 0 where
  pub transaction_id : Text
  pub wallet_id : Text
  pub player_id : Text
  pub kind : WagerKind
  pub origin : Origin
  pub failure_code : Text
  pub status : Status

pub record BalanceChangedData : Type 0 where
  pub wallet_id : Text
  pub transaction_id : Text
  pub direction : Direction
  pub money : Money
  pub balance_before : Money
  pub balance_after : Money
  pub wallet_version : ℤ

pub record PendingReferenceData : Type 0 where
  pub transaction_id : Text
  pub wallet_id : Text
  pub reference_external_transaction_id : Text
  pub pending_expires_at : Time

pub data EventData : Type 0 where
  transaction_processed : ProcessedData → EventData
  transaction_rejected : RejectedData → EventData
  balance_changed : BalanceChangedData → EventData
  reference_pending : PendingReferenceData → EventData

pub record Event : Type 0 where
  pub envelope : EventEnvelope
  pub payload : EventData

unfoldable pub new_event_envelope : EventMetadata → Text → Text → Result WalletError EventEnvelope
new_event_envelope m event_type aggregate_id = do
  fail_if
      (is_empty m.event_id
        || is_empty m.correlation_id
        || is_zero m.occurred_at
        || is_empty event_type
        || is_empty aggregate_id)
      invalid_event
  ok (record {
    event_id = m.event_id;
    event_type = event_type;
    aggregate_id = aggregate_id;
    correlation_id = m.correlation_id;
    causation_id = m.causation_id;
    occurred_at = whole_second m.occurred_at;
    version = event_version;
  })

abbrev is_processed : Status → Bool
is_processed processed = true
is_processed _ = false

abbrev is_rejected : Status → Bool
is_rejected rejected = true
is_rejected _ = false

unfoldable pub new_processed_event : EventMetadata → WagerTransaction → Result WalletError Event
new_processed_event m t = do
  fail_if (not (is_processed t.status)) invalid_event
  envelope ← new_event_envelope m processed_event_type t.id
  ok (record {
    envelope = envelope;
    payload = transaction_processed (record {
      transaction_id = t.id;
      wallet_id = t.wallet_id;
      player_id = t.player_id;
      kind = t.kind;
      origin = t.origin;
      external_transaction_id = t.external_transaction_id;
      provider_id = t.provider_id;
      idempotency_key = t.idempotency_key;
      payload_hash = t.payload_hash;
      round_id = t.round_id;
      game_id = t.game_id;
      reference_external_transaction_id = t.reference_external_transaction_id;
      money = t.money;
      status = t.status;
    });
  })

unfoldable pub new_rejected_event : EventMetadata → WagerTransaction → Result WalletError Event
new_rejected_event m t = do
  fail_if (not (is_rejected t.status) || is_empty t.failure_code) invalid_event
  envelope ← new_event_envelope m rejected_event_type t.id
  ok (record {
    envelope = envelope;
    payload = transaction_rejected (record {
      transaction_id = t.id;
      wallet_id = t.wallet_id;
      player_id = t.player_id;
      kind = t.kind;
      origin = t.origin;
      failure_code = t.failure_code;
      status = t.status;
    });
  })

unfoldable pub new_balance_changed_event :
    EventMetadata → Wallet → LedgerEntry → Result WalletError Event
new_balance_changed_event m w e = do
  fail_if (not (text_eq w.id e.wallet_id) || ltb_ℤ w.version (pos 1)) invalid_event
  envelope ← new_event_envelope m balance_changed_event_type w.id
  ok (record {
    envelope = envelope;
    payload = balance_changed (record {
      wallet_id = w.id;
      transaction_id = e.transaction_id;
      direction = e.direction;
      money = e.money;
      balance_before = e.balance_before;
      balance_after = e.balance_after;
      wallet_version = w.version;
    });
  })

unfoldable pub new_pending_reference_event :
    EventMetadata → WagerTransaction → Time → Result WalletError Event
new_pending_reference_event m t expires_at = do
  fail_if
      (not (is_pending_reference t.status)
        || is_empty t.reference_external_transaction_id
        || is_zero expires_at)
      invalid_event
  envelope ← new_event_envelope m pending_reference_event_type t.id
  ok (record {
    envelope = envelope;
    payload = reference_pending (record {
      transaction_id = t.id;
      wallet_id = t.wallet_id;
      reference_external_transaction_id = t.reference_external_transaction_id;
      pending_expires_at = whole_second expires_at;
    });
  })
