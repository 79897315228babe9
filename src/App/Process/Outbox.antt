-- ===== src/App/Process/Outbox.antt =====
-- internal/walletapp/process_operation.go: `writeOutboxEvents`.
use gaming_go_backend.Common.{Option, none, some, map_err}
use gaming_go_backend.Common.Text.{Text, codes}
use gaming_go_backend.Common.Time.{Time}
use gaming_go_backend.Wallet.{Wallet, LedgerEntry}
use gaming_go_backend.Transaction.{Status, rejected, failed, WagerTransaction}
use gaming_go_backend.Events.{
  EventMetadata, Event, new_processed_event, new_rejected_event, new_balance_changed_event,
}
use gaming_go_backend.Store.Base.{wallet_error, World, Tx, pure, lift, new_id, ◌>>=◌, ◌>>◌}
use gaming_go_backend.Store.Ledger.{insert_outbox}

abbrev pub wager_aggregate : Text
wager_aggregate = codes "WagerTransaction"

abbrev pub wallet_aggregate : Text
wallet_aggregate = codes "Wallet"

-- The outbox record of an event, inserted.
unfoldable pub publish : World → Text → Time → Event → Tx (Unit {0})
publish world aggregate at event = insert_outbox world (record {
  event_id = event.envelope.event_id;
  event_type = event.envelope.event_type;
  aggregate_type = aggregate;
  aggregate_id = event.envelope.aggregate_id;
  event_version = event.envelope.version;
  occurred_at = at;
  payload = event;
})

abbrev pub metadata : Text → Text → Text → Time → EventMetadata
metadata event_id correlation_id causation_id at = record {
  event_id = event_id;
  correlation_id = correlation_id;
  causation_id = causation_id;
  occurred_at = at;
}

-- The event of a movement, where there is one.
unfoldable pub announce_movement :
    World → Wallet → Option LedgerEntry → Text → Text → Time → Tx (Unit {0})
announce_movement world w none correlation_id causation_id at = pure tt
announce_movement world w (some entry) correlation_id causation_id at = do
  event_id ← new_id world
  event ← lift (
      map_err wallet_error
        (new_balance_changed_event (metadata event_id correlation_id causation_id at) w entry))
  publish world wallet_aggregate at event

-- What follows the first event id, by the status of the transaction.
unfoldable pub announce :
    World
    → Status
    → EventMetadata
    → WagerTransaction
    → Wallet
    → Option LedgerEntry
    → Time
    → Tx (Unit {0})
announce world rejected m t w entry at = do
  event ← lift (map_err wallet_error (new_rejected_event m t))
  publish world wager_aggregate at event
announce world failed m t w entry at = pure tt
announce world _ m t w entry at = do
  event ← lift (map_err wallet_error (new_processed_event m t))
  publish world wager_aggregate at event
  announce_movement world w entry m.correlation_id m.causation_id at

-- `writeOutboxEvents`
unfoldable pub write_outbox_events :
    World → WagerTransaction → Wallet → Option LedgerEntry → Text → Text → Time → Tx (Unit {0})
write_outbox_events world t w entry correlation_id causation_id at = do
  event_id ← new_id world
  announce world t.status (metadata event_id correlation_id causation_id at) t w entry at
