-- ===== src/Outbox.antt =====
-- internal/outbox/publisher.go over internal/outboxpg/store.go: the delivery of committed events to
-- the queue.
pub mod Table
pub mod Leases
pub mod Sent
pub mod Delivery
pub mod Calls
pub mod Progress
use gaming_go_backend.Common.{
  ℕ, suc, Bool, true, false, Option, none, some, List, [], ◌∷◌, if◌then◌else◌, Result, ok, err,
}
use gaming_go_backend.Common.Int.{ℤ, pos}
use gaming_go_backend.Common.Text.{Text, is_empty}
use gaming_go_backend.Backoff.{exponential}
use gaming_go_backend.Outbox.Table.{
  PublishError, invalid_payload, invalid_wallet_id, send_failed, Payload, Record, Message, Plant,
  State, Io, StoreError, bump, claim, mark_published, schedule_retry, stats, ◌>>=◌, ◌>>◌, pure,
}

-- `config.OutboxConfig`, as far as the publisher reads it.
pub record OutboxConfig : Type 0 where
  pub batch_size : ℕ
  pub lease : ℤ
  pub retry_base : ℤ
  pub retry_max : ℤ

-- `refreshMetrics`: a read of the table, whose failure is ignored.
unfoldable pub refresh_metrics : Plant → Io (Unit {0})
refresh_metrics plant s = (ok tt, (stats plant s).1)

-- `retry`
unfoldable pub retry : Plant → OutboxConfig → Record → PublishError → Io (Unit {0})
retry plant config r e = do
  schedule_retry plant r.event_id (exponential (pos r.attempts) config.retry_base config.retry_max)
      e
  refresh_metrics plant

-- `Queue.Send`: it may fail after the queue has taken the message.
unfoldable pub send : Plant → Message → State → Bool × State
send plant message s =
    let taken = record s { sent = message ∷ s.sent; calls = suc s.calls } in
    if plant.fails s.calls
    then (false, if plant.arrives s.calls then taken else bump s)
    else (true, taken)

-- What follows `Queue.Send`.
unfoldable pub conclude : Plant → OutboxConfig → Record → Bool → Io (Unit {0})
conclude plant config r false = retry plant config r send_failed
conclude plant config r true = do mark_published plant r.event_id; refresh_metrics plant

-- `publish` with a wallet id.
unfoldable pub publish_to : Plant → OutboxConfig → Record → Text → Io (Unit {0})
publish_to plant config r group s =
    let (accepted, s') =
      send plant (record { body = r.payload; group = group; deduplication = r.event_id }) s in
    conclude plant config r accepted s'

-- `publish` by the wallet id of the payload.
unfoldable pub publish_by : Plant → OutboxConfig → Record → Option Text → Io (Unit {0})
publish_by plant config r none = retry plant config r invalid_payload
publish_by plant config r (some group) =
    if is_empty group
    then retry plant config r invalid_wallet_id
    else publish_to plant config r group

-- `publish`
unfoldable pub publish_record : Plant → OutboxConfig → Record → Io (Unit {0})
publish_record plant config r = publish_by plant config r r.payload.wallet_id

-- The loop of `PublishBatch`; an error that finds the context cancelled is dropped.
unfoldable pub publish_all : Plant → OutboxConfig → List Record → Io (Unit {0})
publish_all plant config [] s = (ok tt, s)
publish_all plant config (r ∷ rs) s =
    let (result, s') = publish_record plant config r s in
    elim result [
      | ok _ ↦ publish_all plant config rs s'
      | err e ↦ (if plant.cancelled s'.calls then ok tt else err e, s')
    ]

-- `PublishBatch`
unfoldable pub publish_batch : Plant → OutboxConfig → Io (Unit {0})
publish_batch plant config = do
  records ← claim plant config.batch_size config.lease
  refresh_metrics plant
  publish_all plant config records
