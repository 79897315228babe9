-- ===== src/ReferenceWorker/Unreadable.antt =====
-- internal/referenceworker/worker.go on an operation whose row does not rehydrate.
use gaming_go_backend.Common.{
  ◌≡◌, sym, inl, inr, Option, some, find?, Result, ok, err, and_then, arith, Bool-cases,
  Option-cases,
}
use mathlib.Core.Path.{subst}
use gaming_go_backend.Common.Text.{Text}
use gaming_go_backend.Common.Time.{Time}
use gaming_go_backend.Store.Base.{
  AppError, invalid_persisted_transaction, TransactionRow, Db, World, Session, Tx, within_tx, now,
  called, ◌>>=◌,
}
use gaming_go_backend.Store.Rows.{transaction_of_row}
use gaming_go_backend.Store.Wallets.{find_wallet}
use gaming_go_backend.Store.Lookups.{select_row}
use gaming_go_backend.Store.Pending.{
  PendingReferenceTransaction, has_id, pending_of_row, find_pending,
}
use gaming_go_backend.Store.Hoare.{Ensures, Ensures->>=, Ensures-next}
use gaming_go_backend.App.{UseCase, or_none}
use gaming_go_backend.App.Process.LookupExisting.{Answers, or_none-query}
use gaming_go_backend.App.Process.Retry.{within_tx-Ensures, within_tx-ok}
use gaming_go_backend.App.Resume.{
  fail_found, fail_pending, retry_found, reschedule_pending_after_failure,
}
use gaming_go_backend.App.Resume.Preservation.{find_wallet-Preserves, now-Preserves}
use gaming_go_backend.ReferenceWorker.{
  PendingRecord, Worker, WorkerState, WorkerMetrics, is_permanent, retry_delay, counted, retried,
  failed_for_good, recover,
}

-- The row that an id finds does not rehydrate.
abbrev pub IsUnreadable : Text → Db → Type 0
IsUnreadable id db =
    (row : TransactionRow) × (find? (has_id id) db.transactions ≡ some row)
    × (transaction_of_row row ≡ err invalid_persisted_transaction)

unanswered :
    (now : Time) (id : Text) (db : Db) (row : TransactionRow)
    (o : Option PendingReferenceTransaction)
    → find? (has_id id) db.transactions ≡ some row
    → transaction_of_row row ≡ err invalid_persisted_transaction
    → Answers o (and_then (select_row (has_id id) db) (pending_of_row now))
    → ⊥
unfolding select_row pending_of_row
unanswered now id db row o found broken answers = elim (Option-cases row.pending_expires_at) [
  | inl e ↦ ground (arith, found, broken, e, answers)
  | inr (t, e) ↦ ground (arith, found, broken, e, answers)
]

-- A body that returns nothing from these tables.
module _ {A : Type 0} (world : World) (s : Session) (body : Tx A)
    (never : Ensures (λ db. db ≡ s.db) body (λ _ _. ⊥)) where
  never_writes : (within_tx world body s).1.db ≡ s.db
  never_writes =
      within_tx-Ensures world body s _ _ (λ db same. same)
        (record { ensures = λ u a t h same. elim (never.ensures u a t h same) [ ] })
        (λ _. within_tx world body s) (λ _. s.db)

  never_returns : (a : A) → (within_tx world body s).0 ≡ ok a → ⊥
  never_returns a h =
      let (t, run, _) =
        within_tx-ok world body s (within_tx world body s).1 a
          (λ i. (h i, (within_tx world body s).1)) in
      never.ensures (called s) a t run (λ _. s.db)

counted_nothing :
    (count : WorkerMetrics → WorkerMetrics) (m : WorkerMetrics)
    (p : Result AppError (Unit {0}) × Session) (db : Db)
    → p.1.db ≡ db
    → ((a : Unit {0}) → p.0 ≡ ok a → ⊥)
    → ((counted count m p).session.db ≡ db) × ((counted count m p).metrics ≡ m)
unfolding counted
counted_nothing count m (ok a, s) db same never = elim (never a (λ _. ok a)) [ ]
counted_nothing count m (err e, s) db same never = (same, λ _. m)

module _ (uc : UseCase) (id : Text) (start : Db) (broken : IsUnreadable id start) where
  unread :
      {A : Type 0} (k : Option PendingReferenceTransaction → Tx A)
      → Ensures (λ db. db ≡ start) (or_none (find_pending uc.world id) >>= k) (λ _ _. ⊥)
  unfolding find_pending
  unread k =
      Ensures->>= (λ _ _. ⊥) (or_none (find_pending uc.world id)) k
        (record {
          ensures = λ s o t h same.
              let (row, found, fails) = subst (IsUnreadable id) (sym same) broken in
              unanswered (uc.world.db_clock s.calls) id s.db row o found fails
                (or_none-query uc.world _ s t o h).0;
        })
        λ o. record { ensures = λ s a t h impossible. impossible }

-- An operation whose row does not rehydrate is neither put off nor given up: whatever error a resume
-- of it gave, what follows changes no table and counts no retry and no failure, since both recoveries
-- read the row in the same way first.
pub recover_unreadable :
    (worker : Worker) (r : PendingRecord) (e : AppError) (s : WorkerState)
    → IsUnreadable r.transaction_id s.session.db
    → ((recover worker r e s).session.db ≡ s.session.db)
      × ((recover worker r e s).metrics ≡ s.metrics)
unfolding recover fail_pending reschedule_pending_after_failure
recover_unreadable worker r e s broken =
    let uc = worker.use_case in
    let given_up : Ensures (λ db. db ≡ s.session.db) _ (λ _ _. ⊥) =
      Ensures-next (now uc.world) _ (now-Preserves uc.world) λ at.
        Ensures-next (find_wallet uc.world r.wallet_id) _
          (find_wallet-Preserves uc.world r.wallet_id)
          λ _.
            unread uc r.transaction_id s.session.db broken
              (λ pending. fail_found uc.world pending at) in
    let put_off : Ensures (λ db. db ≡ s.session.db) _ (λ _ _. ⊥) =
      Ensures-next (find_wallet uc.world r.wallet_id) _ (find_wallet-Preserves uc.world r.wallet_id)
        λ _. unread uc r.transaction_id s.session.db broken (λ pending.
          retry_found uc.world r.transaction_id pending (retry_delay worker r s.session.calls)) in
    elim (Bool-cases (is_permanent e)) [
      | inl b ↦ rw b (
          counted_nothing failed_for_good s.metrics
            (fail_pending uc r.transaction_id r.wallet_id s.session) s.session.db
            (never_writes uc.world s.session _ given_up)
            (never_returns uc.world s.session _ given_up))
      | inr b ↦ rw b (
          counted_nothing retried s.metrics
            (reschedule_pending_after_failure uc r.transaction_id r.wallet_id
              (retry_delay worker r s.session.calls) s.session)
            s.session.db (never_writes uc.world s.session _ put_off)
            (never_returns uc.world s.session _ put_off))
    ]
