-- ===== src/ReferenceWorker/Recovery.antt =====
-- What internal/referenceworker/worker.go makes of the tables after a resume that failed.
use gaming_go_backend.Common.{
  ℕ, ◌+◌, ◌≡◌, refl, sym, ◌⊎◌, inl, inr, Bool, true, false, not, Option, none, some, List, [], ◌∷◌,
  any, update_where, Result, ok, err, map_err, arith, Bool-cases,
}
use mathlib.Core.Path.{subst}
use gaming_go_backend.Common.Text.{Text}
use gaming_go_backend.Common.Time.{Time}
use gaming_go_backend.Transaction.{
  WagerTransaction, failed, mark_failed, transition, is_pending_reference,
}
use gaming_go_backend.Operation.Codes.{code_text, permanent_processing_failure}
use gaming_go_backend.Store.Base.{
  AppError, wallet_error, TransactionRow, Db, World, Session, pure, now,
}
use gaming_go_backend.Store.Wallets.{find_wallet}
use gaming_go_backend.Store.Pending.{
  PendingReferenceTransaction, find_pending, is_waiting, update_row, rescheduled,
  reschedule_pending, completed_row, complete_pending,
}
use gaming_go_backend.Store.Hoare.{
  Ensures, Ensures-pure, Ensures-if, Ensures-from, Ensures-statement, Ensures-next,
  Ensures-lift->>=,
}
use gaming_go_backend.App.{UseCase, or_none}
use gaming_go_backend.App.Process.Retry.{within_tx-Ensures}
use gaming_go_backend.App.Resume.{
  fail_found, fail_pending, retry_found, reschedule_pending_after_failure,
}
use gaming_go_backend.App.Resume.Preservation.{
  find_wallet-Preserves, now-Preserves, find_pending-Preserves,
}
use gaming_go_backend.ReferenceWorker.{
  PendingRecord, Worker, WorkerState, WorkerMetrics, is_permanent, retry_delay, counted, retried,
  failed_for_good, recover,
}

-- Two lists of one length that are related row by row.
unfoldable pub Each :
    (TransactionRow → TransactionRow → Type 0) → List TransactionRow → List TransactionRow → Type 0
Each R [] [] = Unit {0}
Each R (x ∷ xs) (y ∷ ys) = R x y × Each R xs ys
Each R _ _ = ⊥

Each-same :
    (R : TransactionRow → TransactionRow → Type 0) (rows : List TransactionRow)
    → ((row : TransactionRow) → R row row)
    → Each R rows rows
unfolding Each
Each-same R [] same = tt
Each-same R (row ∷ rows) same = (same row, Each-same R rows same)

Each-update_where :
    (R : TransactionRow → TransactionRow → Type 0) (p : TransactionRow → Bool)
    (f : TransactionRow → TransactionRow) (rows : List TransactionRow)
    → ((row : TransactionRow) → R row row)
    → ((row : TransactionRow) → p row ≡ true → R row (f row))
    → Each R rows (update_where p f rows)
unfolding Each update_where
Each-update_where R p f [] same changed = tt
Each-update_where R p f (row ∷ rows) same changed = elim (Bool-cases (p row)) [
  | inl e ↦ rw e (changed row e, Each-update_where R p f rows same changed)
  | inr e ↦ rw e (same row, Each-update_where R p f rows same changed)
]

-- A waiting operation of which only the next attempt has changed.
pub record PutOff (row row' : TransactionRow) : Type 0 where
  pub attempts : ℕ
  pub next : Time
  pub at : Time
  pub waited : is_pending_reference row.status ≡ true
  pub only : row' ≡ record row { attempts = attempts; next_attempt_at = some next; updated_at = at }

-- A waiting operation that has become FAILED, with its code and without a balance.
pub record GivenUp (row row' : TransactionRow) : Type 0 where
  pub waited : is_pending_reference row.status ≡ true
  pub id : row'.id ≡ row.id
  pub key : row'.idempotency_key ≡ row.idempotency_key
  pub amount : row'.amount ≡ row.amount
  pub status : row'.status ≡ failed
  pub failure_code : row'.failure_code ≡ some (code_text permanent_processing_failure)
  pub resulting_balance : row'.resulting_balance ≡ none

-- What may become of a row, by whether the error is permanent.
unfoldable pub Change : Bool → TransactionRow → TransactionRow → Type 0
Change true row row' = (row' ≡ row) ⊎ GivenUp row row'
Change false row row' = (row' ≡ row) ⊎ PutOff row row'

pub record Recovered (permanent : Bool) (db db' : Db) : Type 0 where
  pub wallets : db'.wallets ≡ db.wallets
  pub ledger : db'.ledger ≡ db.ledger
  pub outbox : db'.outbox ≡ db.outbox
  pub rows : Each (Change permanent) db.transactions db'.transactions

Change-same : (b : Bool) (row : TransactionRow) → Change b row row
unfolding Change
Change-same true row = inl refl
Change-same false row = inl refl

Recovered-same : (b : Bool) (db db' : Db) → db' ≡ db → Recovered b db db'
Recovered-same b db db' e = subst (Recovered b db) (sym e) (record {
  wallets = refl;
  ledger = refl;
  outbox = refl;
  rows = Each-same (Change b) db.transactions (Change-same b);
})

update_row_lem :
    (id : Text) (f : TransactionRow → TransactionRow) (db db' : Db) (a : Unit {0})
    → update_row id f db ≡ ok (a, db')
    → db' ≡ record db { transactions = update_where (is_waiting id) f db.transactions }
update_row_lem id f db db' a h = elim (Bool-cases (any (is_waiting id) db.transactions)) [
  | inl found ↦ ground (arith, found, h)
  | inr missing ↦ ground (arith, missing, h)
]

update_row-Recovered :
    (b : Bool) (id : Text) (f : TransactionRow → TransactionRow) (start db db' : Db) (a : Unit {0})
    → ((row : TransactionRow) → is_waiting id row ≡ true → Change b row (f row))
    → update_row id f db ≡ ok (a, db')
    → db ≡ start
    → Recovered b start db'
update_row-Recovered b id f start db db' a changed h same =
    subst (λ x. Recovered b x db') same
      (subst (Recovered b db) (sym (update_row_lem id f db db' a h)) (record {
        wallets = refl;
        ledger = refl;
        outbox = refl;
        rows =
            Each-update_where (Change b) (is_waiting id) f db.transactions (Change-same b) changed;
      }))

rescheduled-Change :
    (id : Text) (attempts : ℕ) (next at : Time) (row : TransactionRow)
    → is_waiting id row ≡ true
    → Change false row (rescheduled attempts next at row)
unfolding Change
rescheduled-Change id attempts next at row waits = inr (record {
  attempts = attempts;
  next = next;
  at = at;
  waited = ground (arith, waits);
  only = refl;
})

mark_failed_lem :
    (at : Time) (t u : WagerTransaction)
    → map_err wallet_error (mark_failed (code_text permanent_processing_failure) at t) ≡ ok u
    → (u.status ≡ failed) × (u.failure_code ≡ code_text permanent_processing_failure)
unfolding mark_failed transition
mark_failed_lem at t u h = ground (arith, h)

completed-Change :
    (id : Text) (t : WagerTransaction) (row : TransactionRow)
    → (t.status ≡ failed) × (t.failure_code ≡ code_text permanent_processing_failure)
    → is_waiting id row ≡ true
    → Change true row (completed_row t none row)
unfolding Change completed_row code_text
completed-Change id t row (status, code) waits = inr (record {
  waited = ground (arith, waits);
  id = refl;
  key = refl;
  amount = refl;
  status = status;
  failure_code = ground (arith, code);
  resulting_balance = refl;
})

module _ (start : Db) (world : World) where
  reschedule-Recovered :
      (id : Text) (attempts : ℕ) (delay : Time)
      → Ensures
          (λ db. db ≡ start)
          (reschedule_pending world id attempts delay)
          (λ _. Recovered false start)
  unfolding reschedule_pending
  reschedule-Recovered id attempts delay = record {
    ensures = λ s a t h p.
        let at = world.db_clock s.calls in
        (Ensures-statement world (update_row id (rescheduled attempts (at + delay) at))
            (λ db. db ≡ start) (λ _. Recovered false start)
            (λ db db' a e same.
              update_row-Recovered false id (rescheduled attempts (at + delay) at) start db db' a
                (rescheduled-Change id attempts (at + delay) at) e same)).ensures
          s a t h p;
  }

  nothing-Recovered : (b : Bool) → Ensures (λ db. db ≡ start) (pure tt) (λ _. Recovered b start)
  nothing-Recovered b =
      Ensures-from (Recovered-same b start) (Ensures-pure (λ _. Recovered b start) tt)

  retry_found-Recovered :
      (id : Text) (o : Option PendingReferenceTransaction) (delay : Time)
      → Ensures (λ db. db ≡ start) (retry_found world id o delay) (λ _. Recovered false start)
  unfolding retry_found
  retry_found-Recovered id none delay = nothing-Recovered false
  retry_found-Recovered id (some pending) delay =
      Ensures-if (not (is_pending_reference pending.transaction.status)) (nothing-Recovered false)
        (reschedule-Recovered id (pending.attempts + 1) delay)

  complete-Recovered :
      (t : WagerTransaction)
      → (t.status ≡ failed) × (t.failure_code ≡ code_text permanent_processing_failure)
      → Ensures (λ db. db ≡ start) (complete_pending world t none) (λ _. Recovered true start)
  unfolding complete_pending
  complete-Recovered t gone =
      Ensures-statement world _ (λ db. db ≡ start) (λ _. Recovered true start)
        λ db db' a e same.
          update_row-Recovered true t.id (completed_row t none) start db db' a
            (λ row waits. completed-Change t.id t row gone waits) (ground (arith, e)) same

  fail_found-Recovered :
      (o : Option PendingReferenceTransaction) (at : Time)
      → Ensures (λ db. db ≡ start) (fail_found world o at) (λ _. Recovered true start)
  unfolding fail_found
  fail_found-Recovered none at = nothing-Recovered true
  fail_found-Recovered (some pending) at =
      Ensures-if (not (is_pending_reference pending.transaction.status)) (nothing-Recovered true) (
        Ensures-lift->>=
          (map_err wallet_error
            (mark_failed (code_text permanent_processing_failure) at pending.transaction))
          _ λ t made. complete-Recovered t (mark_failed_lem at pending.transaction t made))

put_off-Recovered :
    (uc : UseCase) (id wallet_id : Text) (delay : Time) (s : Session)
    → Recovered false s.db (reschedule_pending_after_failure uc id wallet_id delay s).1.db
unfolding reschedule_pending_after_failure
put_off-Recovered uc id wallet_id delay s =
    within_tx-Ensures uc.world _ s _ _ (Recovered-same false s.db)
      (Ensures-next (find_wallet uc.world wallet_id) _ (find_wallet-Preserves uc.world wallet_id)
        λ _.
          Ensures-next (or_none (find_pending uc.world id)) _ (find_pending-Preserves uc.world id)
            λ pending. retry_found-Recovered s.db uc.world id pending delay)
      refl refl

given_up-Recovered :
    (uc : UseCase) (id wallet_id : Text) (s : Session)
    → Recovered true s.db (fail_pending uc id wallet_id s).1.db
unfolding fail_pending
given_up-Recovered uc id wallet_id s =
    within_tx-Ensures uc.world _ s _ _ (Recovered-same true s.db)
      (Ensures-next (now uc.world) _ (now-Preserves uc.world) λ at.
        Ensures-next (find_wallet uc.world wallet_id) _ (find_wallet-Preserves uc.world wallet_id)
          λ _.
            Ensures-next (or_none (find_pending uc.world id)) _ (find_pending-Preserves uc.world id)
              λ pending. fail_found-Recovered s.db uc.world pending at)
      refl refl

counted_db :
    (count : WorkerMetrics → WorkerMetrics) (m : WorkerMetrics)
    (p : Result AppError (Unit {0}) × Session)
    → (counted count m p).session.db ≡ p.1.db
unfolding counted
counted_db count m (ok _, s) = refl
counted_db count m (err _, s) = refl

-- What follows a resume that failed touches no wallet, ledger entry or event, whatever fails. After an
-- error that is not permanent no operation ends: one that waits may only have its next attempt put
-- off. After a permanent one no operation is put off: one that waits may only become FAILED, with the
-- code of a permanent failure and without a balance.
pub recover_exact :
    (worker : Worker) (r : PendingRecord) (e : AppError) (s : WorkerState)
    → Recovered (is_permanent e) s.session.db (recover worker r e s).session.db
unfolding recover
recover_exact worker r e s = elim (Bool-cases (is_permanent e)) [
  | inl b ↦ rw b (
      subst (Recovered true s.session.db)
        (sym (
          counted_db failed_for_good s.metrics
            (fail_pending worker.use_case r.transaction_id r.wallet_id s.session)))
        (given_up-Recovered worker.use_case r.transaction_id r.wallet_id s.session))
  | inr b ↦ rw b (
      subst (Recovered false s.session.db)
        (sym (
          counted_db retried s.metrics (
            reschedule_pending_after_failure worker.use_case r.transaction_id r.wallet_id
              (retry_delay worker r s.session.calls) s.session)))
        (put_off-Recovered worker.use_case r.transaction_id r.wallet_id
          (retry_delay worker r s.session.calls) s.session))
]
