-- ===== src/Outbox/Calls.antt =====
-- internal/outbox/publisher.go and internal/outboxpg/store.go: what a call gives that does not fail.
use gaming_go_backend.Common.{
  ℕ, suc, ◌≡◌, ap, ◌∙◌, true, false, Option, List, ◌∷◌, map, length, update_where, keep_where,
  Result, ok, err,
}
use gaming_go_backend.Common.Int.{ℤ, pos}
use gaming_go_backend.Common.Text.{Text}
use gaming_go_backend.Common.Time.{Time}
use gaming_go_backend.Backoff.{exponential}
use gaming_go_backend.Outbox.Table.{
  PublishError, OutboxRow, Record, Message, Plant, State, Io, StoreError, bump, reach, statement,
  change, candidates, record_of, claimed, claim, is_null, is_open, confirmed, retried,
  mark_published, schedule_retry, stats, oldest, ◌>>=◌, ◌>>◌, pure,
}
use gaming_go_backend.Outbox
use gaming_go_backend.Outbox.{OutboxConfig}

abbrev pub message_of : Record → Text → Message
message_of r group = record { body = r.payload; group = group; deduplication = r.event_id }

pub following :
    {A B : Type 0} (m : Io A) (f : A → Io B) (s t : State) (a : A)
    → m s ≡ (ok a, t)
    → (m >>= f) s ≡ f a t
following {A} {B} m f s t a e =
    ap
      (λ (p : Result StoreError A × State). elim p.0 as (λ _. Result StoreError B × State) [
        | ok x ↦ f x p.1
        | err x ↦ (err x, p.1)
      ])
      e

module _ (plant : Plant) (up : (n : ℕ) → plant.fails n ≡ false) where
  reach_up : (s : State) → reach plant s ≡ (ok tt, bump s)
  unfolding reach
  reach_up s = rw (up s.calls)

  statement_up :
      (f : List OutboxRow → List OutboxRow) (s : State)
      → statement plant f s ≡ (ok tt, record s { rows = f s.rows; calls = suc s.calls })
  unfolding statement
  statement_up f s = following (reach plant) (change f) s (bump s) tt (reach_up s)

  pub refresh_metrics_up : (s : State) → Outbox.refresh_metrics plant s ≡ (ok tt, bump s)
  unfolding Outbox.refresh_metrics stats
  refresh_metrics_up s =
      let pending = keep_where (λ (row : OutboxRow). is_null row.published_at) s.rows in
      ap (λ (p : Result StoreError (ℕ × Option Time) × State). (ok tt, p.1))
        (following (reach plant) (λ _. pure (length pending, oldest pending)) s (bump s) tt
          (reach_up s))

  send_up :
      (m : Message) (s : State)
      → Outbox.send plant m s ≡ (true, record s { sent = m ∷ s.sent; calls = suc s.calls })
  unfolding Outbox.send
  send_up m s = rw (up s.calls)

  pub retry_up :
      (config : OutboxConfig) (r : Record) (e : PublishError) (s : State)
      → Outbox.retry plant config r e s ≡ (
        ok tt,
        record s {
          rows =
              update_where
                (is_open r.event_id)
                (retried
                  (plant.db_clock s.calls)
                  (exponential (pos r.attempts) config.retry_base config.retry_max)
                  e)
                s.rows;
          calls = suc (suc s.calls);
        },
      )
  unfolding Outbox.retry schedule_retry
  retry_up config r e s =
      let f = update_where (is_open r.event_id) (
        retried (plant.db_clock s.calls)
          (exponential (pos r.attempts) config.retry_base config.retry_max) e) in
      following
        (schedule_retry plant r.event_id
          (exponential (pos r.attempts) config.retry_base config.retry_max) e)
        (λ _. Outbox.refresh_metrics plant) s _ tt (statement_up f s)
      ∙ refresh_metrics_up _

  pub publish_to_up :
      (config : OutboxConfig) (r : Record) (group : Text) (s : State)
      → Outbox.publish_to plant config r group s ≡ (
        ok tt,
        record {
          rows =
              update_where (is_open r.event_id) (confirmed (plant.db_clock (suc s.calls))) s.rows;
          sent = message_of r group ∷ s.sent;
          calls = suc (suc (suc s.calls));
        },
      )
  unfolding Outbox.publish_to Outbox.conclude mark_published
  publish_to_up config r group s = rw (send_up (message_of r group) s) (
      following (mark_published plant r.event_id) (λ _. Outbox.refresh_metrics plant)
        (record s { sent = message_of r group ∷ s.sent; calls = suc s.calls }) _ tt
        (statement_up (update_where (is_open r.event_id) (confirmed (plant.db_clock (suc s.calls))))
          (record s { sent = message_of r group ∷ s.sent; calls = suc s.calls }))
      ∙ refresh_metrics_up _)

  pub claim_up :
      (batch : ℕ) (lease : ℤ) (s : State)
      → claim plant batch lease s ≡ (
        ok (
            plant.returned s.calls (
              map record_of
                (candidates (plant.db_clock s.calls) (plant.locked s.calls) batch s.rows))),
        record s {
          rows = claimed (plant.db_clock s.calls) (plant.locked s.calls) batch lease s.rows;
          calls = suc (suc (suc s.calls));
        },
      )
  unfolding claim
  claim_up batch lease s =
      let f = claimed (plant.db_clock s.calls) (plant.locked s.calls) batch lease in
      let records =
        plant.returned s.calls (
          map record_of
            (candidates (plant.db_clock s.calls) (plant.locked s.calls) batch s.rows)) in
      following (reach plant >> reach plant >> statement plant f) (λ _. pure records) s _ tt
        (following (reach plant >> reach plant) (λ _. statement plant f) s (bump (bump s)) tt
            (following (reach plant) (λ _. reach plant) s (bump s) tt (reach_up s)
              ∙ reach_up (bump s))
          ∙ statement_up f (bump (bump s)))
