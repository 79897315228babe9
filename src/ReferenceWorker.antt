-- ===== src/ReferenceWorker.antt =====
-- internal/referenceworker/worker.go over internal/referenceworkerpg/store.go: the batches that take up
-- the operations that wait for their reference. Log lines are left out.
pub mod Recovery
pub mod Unreadable
pub mod Calls
pub mod Recovering
pub mod Progress
pub mod Leases
use gaming_go_backend.Common.{
  ℕ, suc, ◌+◌, Bool, true, false, not, ◌&&◌, ◌||◌, Option, none, some, List, [], ◌∷◌, map, leb, any,
  update_where, keep_where, take, sort_by, length, if◌then◌else◌, Result, ok, err,
}
use gaming_go_backend.Common.Int.{ℤ, pos, negsuc, leb_ℤ}
use gaming_go_backend.Common.Int64.{add64}
use gaming_go_backend.Common.Text.{Text, text_eq}
use gaming_go_backend.Common.Time.{Time}
use gaming_go_backend.Backoff.{half, exponential}
use gaming_go_backend.Transaction.{is_pending_reference}
use gaming_go_backend.Store.Base.{
  AppError, invalid_persisted_transaction, corrupted_balance, TransactionRow, Db, World, Session,
  Tx, query, statement, within_tx,
}
use gaming_go_backend.App.{UseCase}
use gaming_go_backend.App.Resume.{
  PendingResumeSettings, resume_pending, fail_pending, reschedule_pending_after_failure,
}
use gaming_go_backend.App.Resume.Outcomes.{PendingResumeOutcome, pending_rescheduled}

-- `Record`
pub record PendingRecord : Type 0 where
  pub transaction_id : Text
  pub wallet_id : Text
  pub attempts : ℕ

-- `config.ReferenceWorkerConfig`, as far as a batch reads it; `config.Load` takes positive values only.
pub record ReferenceWorkerConfig : Type 0 where
  pub lease : Time
  pub batch_size : ℕ
  pub retry_base : ℤ
  pub retry_max : ℤ
  pub max_attempts : ℕ

-- `workerMetrics`
pub record WorkerMetrics : Type 0 where
  pub retries : ℕ
  pub active : ℕ
  pub failures : ℕ

-- `Worker`, with what the code does not decide, by the number of calls so far: the rows that others
-- hold locked, the order in which an UPDATE returns its rows, whether the context is cancelled, and
-- the random numbers.
pub record Worker : Type 0 where
  pub use_case : UseCase
  pub config : ReferenceWorkerConfig
  pub locked : ℕ → Text → Bool
  pub returned : ℕ → List PendingRecord → List PendingRecord
  pub cancelled : ℕ → Bool
  pub random : ℕ → ℤ → ℤ

pub record WorkerState : Type 0 where
  pub session : Session
  pub metrics : WorkerMetrics

abbrev is_due : Time → Option Time → Bool
is_due now none = false
is_due now (some t) = leb t now

-- The WHERE clause of the claim.
unfoldable pub is_ready : Time → (Text → Bool) → TransactionRow → Bool
is_ready now locked row =
    is_pending_reference row.status && is_due now row.next_attempt_at && not (locked row.id)

abbrev due_time : TransactionRow → Time
due_time row = elim row.next_attempt_at [ none ↦ 0 | some t ↦ t ]

-- The rows of the claim, by next_attempt_at and created_at, as sorting keeps the order of equals.
unfoldable pub ready_rows : Time → (Text → Bool) → ℕ → List TransactionRow → List TransactionRow
ready_rows now locked batch rows =
    take batch
      (sort_by due_time (sort_by (λ row. row.created_at) (keep_where (is_ready now locked) rows)))

abbrev pub is_among : List TransactionRow → TransactionRow → Bool
is_among chosen row = any (λ c. text_eq c.id row.id) chosen

abbrev leased : Time → TransactionRow → TransactionRow
leased deadline row = record row { next_attempt_at = some deadline }

abbrev pending_record : TransactionRow → PendingRecord
pending_record row = record {
  transaction_id = row.id;
  wallet_id = row.wallet_id;
  attempts = row.attempts;
}

-- The UPDATE of the claim.
unfoldable pub lease_ready : Time → List TransactionRow → Db → Db
lease_ready deadline chosen db = record db {
  transactions = update_where (is_among chosen) (leased deadline) db.transactions;
}

-- `Claim`
unfoldable pub claim_pending : Worker → Tx (List PendingRecord)
claim_pending worker = within_tx worker.use_case.world (λ s.
    let now = worker.use_case.world.db_clock s.calls in
    statement worker.use_case.world
      (λ db.
        let chosen =
          ready_rows now (worker.locked s.calls) worker.config.batch_size db.transactions in
        ok (
          worker.returned s.calls (map pending_record chosen),
          lease_ready (now + worker.config.lease) chosen db,
        ))
      s)

-- `Pending`
unfoldable pub count_pending : World → Tx ℕ
count_pending world =
    query world
      (λ db. ok (length (keep_where (λ row. is_pending_reference row.status) db.transactions)))

-- `isTransient` and `isPermanent`
unfoldable pub is_transient : AppError → Bool
is_transient invalid_persisted_transaction = false
is_transient corrupted_balance = false
is_transient _ = true

abbrev is_permanent : AppError → Bool
is_permanent e = not (is_transient e)

-- `jitter`
unfoldable pub jitter : (ℤ → ℤ) → ℤ → ℤ
jitter random delay =
    if leb_ℤ delay (pos 0) then delay else add64 delay (random (add64 (half delay) (pos 1)))

-- A delay as the interval of a statement; none is negative where the bounds are positive.
abbrev interval : ℤ → Time
interval (pos n) = n
interval (negsuc _) = 0

unfoldable pub retry_delay : Worker → PendingRecord → ℕ → Time
retry_delay worker r calls = interval (
    jitter (worker.random calls)
      (exponential (pos r.attempts) worker.config.retry_base worker.config.retry_max))

abbrev pub retried : WorkerMetrics → WorkerMetrics
retried m = record m { retries = suc m.retries }

abbrev pub failed_for_good : WorkerMetrics → WorkerMetrics
failed_for_good m = record m { failures = suc m.failures }

-- A counter that goes up where a call returns.
unfoldable pub counted :
    (WorkerMetrics → WorkerMetrics)
    → WorkerMetrics
    → Result AppError (Unit {0}) × Session
    → WorkerState
counted count m (ok _, s) = record { session = s; metrics = count m }
counted count m (err _, s) = record { session = s; metrics = m }

-- The branch of a failing `ResumePending` in a context that is not cancelled.
unfoldable pub recover : Worker → PendingRecord → AppError → WorkerState → WorkerState
recover worker r e s =
    if is_permanent e
    then counted failed_for_good s.metrics
        (fail_pending worker.use_case r.transaction_id r.wallet_id s.session)
    else counted retried s.metrics (
        reschedule_pending_after_failure worker.use_case r.transaction_id r.wallet_id
          (retry_delay worker r s.session.calls) s.session)

abbrev count_outcome : Option PendingResumeOutcome → WorkerMetrics → WorkerMetrics
count_outcome (some pending_rescheduled) m = retried m
count_outcome _ m = m

abbrev show_active : WorkerMetrics → Result AppError ℕ × Session → WorkerState
show_active m (ok n, session) = record { session = session; metrics = record m { active = n } }
show_active m (err _, session) = record { session = session; metrics = m }

-- `refreshMetrics`
unfoldable pub refresh_active : Worker → WorkerState → WorkerState
refresh_active worker s = show_active s.metrics (count_pending worker.use_case.world s.session)

abbrev settings_of : Worker → PendingRecord → ℕ → PendingResumeSettings
settings_of worker r calls = record {
  max_attempts = worker.config.max_attempts;
  retry_delay = retry_delay worker r calls;
}

-- What follows `ResumePending`, and whether the loop goes on: a failure that finds the context
-- cancelled ends it.
unfoldable pub conclude_resume :
    Worker
    → PendingRecord
    → WorkerMetrics
    → Result AppError (Option PendingResumeOutcome) × Session
    → Bool × WorkerState
conclude_resume worker r m (ok outcome, session) =
    (true, record { session = session; metrics = count_outcome outcome m })
conclude_resume worker r m (err e, session) =
    let s : WorkerState = record { session = session; metrics = m } in
    if worker.cancelled session.calls then (false, s) else (true, recover worker r e s)

abbrev go_on : Bool × WorkerState → (WorkerState → WorkerState) → WorkerState
go_on (true, s) next = next s
go_on (false, s) next = s

-- The loop of `ProcessBatch`.
unfoldable pub resume_all : Worker → List PendingRecord → WorkerState → WorkerState
resume_all worker [] s = refresh_active worker s
resume_all worker (r ∷ rs) s =
    go_on
      (conclude_resume worker r s.metrics (
        resume_pending worker.use_case r.transaction_id r.wallet_id
          (settings_of worker r s.session.calls) s.session))
      (resume_all worker rs)

-- `ProcessBatch` behind its claim; no failure of a record is one of the batch.
unfoldable pub conclude_claim :
    Worker
    → WorkerMetrics
    → Result AppError (List PendingRecord) × Session
    → Result AppError (Unit {0}) × WorkerState
conclude_claim worker m (err e, session) = (err e, record { session = session; metrics = m })
conclude_claim worker m (ok records, session) =
    (ok tt, resume_all worker records (record { session = session; metrics = m }))

-- `ProcessBatch`
unfoldable pub process_batch : Worker → WorkerState → Result AppError (Unit {0}) × WorkerState
process_batch worker s = conclude_claim worker s.metrics (claim_pending worker s.session)
