-- ===== src/Outbox/Table.antt =====
-- internal/outboxpg/store.go: the leases and outcomes of events in the table outbox_events.
use gaming_go_backend.Common.{
  ℕ, suc, ◌+◌, ◌-◌, Bool, true, false, not, ◌&&◌, Option, none, some, List, [], ◌∷◌, map, leb,
  if◌then◌else◌, Result, ok, err, any, update_where, keep_where, take, sort_by, length,
}
use gaming_go_backend.Common.Int.{ℤ, pos, negsuc}
use gaming_go_backend.Common.Text.{Text, text_eq}
use gaming_go_backend.Common.Time.{Time}

-- The committed JSON of an event, with what `json.Unmarshal` reads from it as data.walletId: `none`
-- where it fails.
pub record Payload : Type 0 where
  pub bytes : Text
  pub wallet_id : Option Text

-- The errors whose text goes to last_error.
pub data PublishError : Type 0 where
  invalid_payload invalid_wallet_id send_failed : PublishError

-- A row of outbox_events; `none` is NULL.
pub record OutboxRow : Type 0 where
  pub event_id : Text
  pub payload : Payload
  pub occurred_at : Time
  pub attempts : ℕ
  pub next_attempt_at : Time
  pub locked_until : Option Time
  pub published_at : Option Time
  pub last_error : Option PublishError

-- `Record`
pub record Record : Type 0 where
  pub event_id : Text
  pub payload : Payload
  pub attempts : ℕ
  pub occurred_at : Time

-- A message of the output queue.
pub record Message : Type 0 where
  pub body : Payload
  pub group : Text
  pub deduplication : Text

-- The table, the messages that the queue has taken, the newest first, and the number of calls so far.
pub record State : Type 0 where
  pub rows : List OutboxRow
  pub sent : List Message
  pub calls : ℕ

-- What the code does not decide, by the number of the call: which call fails, whether the queue
-- takes a message of a call that fails, the clock of the database, the rows that other transactions
-- hold locked, the order in which an UPDATE returns its rows, and whether the context is cancelled.
pub record Plant : Type 0 where
  pub fails : ℕ → Bool
  pub arrives : ℕ → Bool
  pub db_clock : ℕ → Time
  pub locked : ℕ → Text → Bool
  pub returned : ℕ → List Record → List Record
  pub cancelled : ℕ → Bool

pub data StoreError : Type 0 where
  store_error : StoreError

abbrev pub Io : Type 0 → Type 0
Io A = State → Result StoreError A × State

abbrev pub bump : State → State
bump s = record s { calls = suc s.calls }

module _ {A : Type 0} where
  abbrev pub pure : A → Io A
  pure a s = (ok a, s)

module _ {A B : Type 0} where
  infixl 5 ◌>>=◌
  abbrev pub ◌>>=◌ : Io A → (A → Io B) → Io B
  ◌>>=◌ m f s = let (r, s') = m s in elim r [ ok a ↦ f a s' | err e ↦ (err e, s') ]

module _ {B : Type 0} where
  infixl 5 ◌>>◌
  abbrev pub ◌>>◌ : Io (Unit {0}) → Io B → Io B
  m >> k = m >>= λ _. k

-- A call of the database that may fail.
unfoldable pub reach : Plant → Io (Unit {0})
reach plant s = (if plant.fails s.calls then err store_error else ok tt, bump s)

-- A statement that changes rows.
abbrev pub change : (List OutboxRow → List OutboxRow) → Unit {0} → Io (Unit {0})
change f _ s = (ok tt, record s { rows = f s.rows })

unfoldable pub statement : Plant → (List OutboxRow → List OutboxRow) → Io (Unit {0})
statement plant f = reach plant >>= change f

-- `now() + interval`
abbrev pub later : Time → ℤ → Time
later now (pos d) = now + d
later now (negsuc d) = now - suc d

abbrev pub is_null : Option Time → Bool
is_null none = true
is_null (some _) = false

abbrev pub is_over : Time → Option Time → Bool
is_over now none = true
is_over now (some deadline) = leb deadline now

-- The WHERE clause of the candidates.
unfoldable pub is_claimable : Time → OutboxRow → Bool
is_claimable now row =
    is_null row.published_at && leb row.next_attempt_at now && is_over now row.locked_until

-- The candidates: due, not locked by another transaction, the oldest first, at most a batch.
unfoldable pub candidates : Time → (Text → Bool) → ℕ → List OutboxRow → List OutboxRow
candidates now locked batch rows = take batch (
    sort_by (λ row. row.occurred_at)
      (keep_where (λ row. is_claimable now row && not (locked row.event_id)) rows))

abbrev pub is_among : List OutboxRow → OutboxRow → Bool
is_among chosen row = any (λ c. text_eq c.event_id row.event_id) chosen

abbrev pub leased : Time → OutboxRow → OutboxRow
leased deadline row = record row { locked_until = some deadline }

abbrev pub record_of : OutboxRow → Record
record_of row = record {
  event_id = row.event_id;
  payload = row.payload;
  attempts = row.attempts;
  occurred_at = row.occurred_at;
}

-- The UPDATE of `Claim`.
unfoldable pub claimed : Time → (Text → Bool) → ℕ → ℤ → List OutboxRow → List OutboxRow
claimed now locked batch lease rows =
    update_where (is_among (candidates now locked batch rows)) (leased (later now lease)) rows

-- `Claim`: begin, the statement and the commit.
unfoldable pub claim : Plant → ℕ → ℤ → Io (List Record)
claim plant batch lease s =
    let now = plant.db_clock s.calls in
    let locked = plant.locked s.calls in
    let records = plant.returned s.calls (map record_of (candidates now locked batch s.rows)) in
    (reach plant >> reach plant >> statement plant (claimed now locked batch lease) >> pure records)
      s

abbrev pub is_open : Text → OutboxRow → Bool
is_open id row = text_eq row.event_id id && is_null row.published_at

abbrev pub confirmed : Time → OutboxRow → OutboxRow
confirmed now row = record row { published_at = some now; locked_until = none; last_error = none }

-- `MarkPublished`
unfoldable pub mark_published : Plant → Text → Io (Unit {0})
mark_published plant id s =
    statement plant (update_where (is_open id) (confirmed (plant.db_clock s.calls))) s

abbrev pub retried : Time → ℤ → PublishError → OutboxRow → OutboxRow
retried now delay e row = record row {
  attempts = suc row.attempts;
  next_attempt_at = later now delay;
  locked_until = none;
  last_error = some e;
}

-- `ScheduleRetry`
unfoldable pub schedule_retry : Plant → Text → ℤ → PublishError → Io (Unit {0})
schedule_retry plant id delay e s =
    statement plant (update_where (is_open id) (retried (plant.db_clock s.calls) delay e)) s

-- `min(occurred_at)`
unfoldable pub oldest : List OutboxRow → Option Time
oldest [] = none
oldest (row ∷ rows) =
    let rest = oldest rows in
    elim rest [
      | none ↦ some row.occurred_at
      | some t ↦ some (if leb row.occurred_at t then row.occurred_at else t)
    ]

-- `Stats`
unfoldable pub stats : Plant → Io (ℕ × Option Time)
stats plant s =
    let pending = keep_where (λ row. is_null row.published_at) s.rows in
    (reach plant >> pure (length pending, oldest pending)) s
