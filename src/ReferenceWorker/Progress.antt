-- ===== src/ReferenceWorker/Progress.antt =====
-- What internal/referenceworker/worker.go achieves after a resume that failed, where no call fails.
use gaming_go_backend.Common.{
  ℕ, suc, ◌+◌, ◌≡◌, refl, sym, ap, true, false, none, some, find?, Result, ok,
}
use mathlib.Core.Path.{subst}
use gaming_go_backend.Common.Time.{Time, is_zero}
use gaming_go_backend.Transaction.{failed}
use gaming_go_backend.Operation.Codes.{code_text, permanent_processing_failure}
use gaming_go_backend.Store.Base.{AppError, TransactionRow, Session}
use gaming_go_backend.Store.Pending.{has_id, rescheduled, completed_row}
use gaming_go_backend.ReferenceWorker.{
  PendingRecord, Worker, WorkerState, WorkerMetrics, is_permanent, retry_delay, counted, retried,
  failed_for_good, recover,
}
use gaming_go_backend.ReferenceWorker.Calls.{IsReadable}
use gaming_go_backend.ReferenceWorker.Recovering.{changed-found, ended_at, given_up_up, put_off_up}

counted_up :
    (count : WorkerMetrics → WorkerMetrics) (m : WorkerMetrics)
    (p : Result AppError (Unit {0}) × Session) (t : Session)
    → p ≡ (ok tt, t)
    → counted count m p ≡ record { session = t; metrics = count m }
unfolding counted
counted_up count m p t h = ap (counted count m) h

module _ (worker : Worker) (r : PendingRecord) (e : AppError) (s : WorkerState)
    (row : TransactionRow) (up : (n : ℕ) → worker.use_case.world.fails n ≡ false)
    (readable : IsReadable r.wallet_id r.transaction_id row s.session.db) where
  -- Where no call fails and the operation and its wallet can be read, a waiting operation is put off
  -- after an error that is not permanent: it has one attempt more, its next one is due when the delay
  -- of the retries has passed on the clock of the database, and a retry is counted.
  pub recover_puts_off :
      is_permanent e ≡ false
      → let after : WorkerState = recover worker r e s in
        let now : Time = worker.use_case.world.db_clock (suc (suc (suc s.session.calls))) in
        (find? (has_id r.transaction_id) after.session.db.transactions
          ≡ some (record row {
            attempts = row.attempts + 1;
            next_attempt_at = some (now + retry_delay worker r s.session.calls);
            updated_at = now;
          }))
        × (after.metrics ≡ record s.metrics { retries = suc s.metrics.retries })
  unfolding recover
  recover_puts_off passing =
      let delay = retry_delay worker r s.session.calls in
      let uc = worker.use_case in
      let n = s.session.calls in
      let now = uc.world.db_clock (suc (suc (suc n))) in
      let run = put_off_up uc up r.wallet_id r.transaction_id row s.session.db readable delay n in
      rw passing (
        subst
          (λ (t : WorkerState).
            (find? (has_id r.transaction_id) t.session.db.transactions
              ≡ some (rescheduled (row.attempts + 1) (now + delay) now row))
            × (t.metrics ≡ retried s.metrics))
          (sym (counted_up retried s.metrics _ _ run))
          (
            changed-found uc up r.wallet_id r.transaction_id row s.session.db readable
                (rescheduled (row.attempts + 1) (now + delay) now) (λ x. refl),
            refl,
          ))

  -- Where no call fails, the operation and its wallet can be read and the clock is not at the zero
  -- time, a waiting operation is given up after a permanent error: its row becomes FAILED, with the
  -- code of a permanent failure, no balance and no further attempt, and a failure is counted.
  pub recover_gives_up :
      is_permanent e ≡ true
      → is_zero (worker.use_case.world.clock (suc s.session.calls)) ≡ false
      → let after : WorkerState = recover worker r e s in
        ((row' : TransactionRow) × (find? (has_id r.transaction_id) after.session.db.transactions
            ≡ some row')
          × (row'.status ≡ failed)
          × (row'.failure_code ≡ some (code_text permanent_processing_failure))
          × (row'.resulting_balance ≡ none)
          × (row'.next_attempt_at ≡ none))
        × (after.metrics ≡ record s.metrics { failures = suc s.metrics.failures })
  unfolding recover completed_row code_text
  recover_gives_up lasting late =
      let uc = worker.use_case in
      let n = s.session.calls in
      let t =
        ended_at uc up r.wallet_id r.transaction_id row s.session.db readable
          (uc.world.clock (suc n)) in
      let run = given_up_up uc up r.wallet_id r.transaction_id row s.session.db readable n late in
      rw lasting (
        subst
          (λ (u : WorkerState).
            ((row' : TransactionRow) × (find? (has_id r.transaction_id) u.session.db.transactions
                ≡ some row')
              × (row'.status ≡ failed)
              × (row'.failure_code ≡ some (code_text permanent_processing_failure))
              × (row'.resulting_balance ≡ none)
              × (row'.next_attempt_at ≡ none))
            × (u.metrics ≡ failed_for_good s.metrics))
          (sym (counted_up failed_for_good s.metrics _ _ run))
          (
            (
              completed_row t none row,
              changed-found uc up r.wallet_id r.transaction_id row s.session.db readable
                  (completed_row t none) (λ x. refl),
              refl,
              refl,
              refl,
              refl,
            ),
            refl,
          ))
