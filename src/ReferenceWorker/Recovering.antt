-- ===== src/ReferenceWorker/Recovering.antt =====
-- The two recoveries of internal/referenceworker/worker.go, where no call fails.
use gaming_go_backend.Common.{
  leb, ℕ, suc, ◌+◌, ◌≡◌, refl, ap, ◌∙◌, true, false, Option, none, some, find?, any, update_where,
  ok, arith,
}
use gaming_go_backend.Common.Text.{Text, text_eq, text_eq_sound}
use gaming_go_backend.Common.Time.{Time, is_zero}
use gaming_go_backend.Transaction.{
  WagerTransaction, failed, mark_failed, transition, is_allowed_transition, is_pending_reference,
}
use gaming_go_backend.Operation.Codes.{code_text, permanent_processing_failure}
use gaming_go_backend.Store.Base.{TransactionRow, Db, Session, Tx, statement, now, ◌>>=◌}
use gaming_go_backend.Store.Wallets.{find_wallet}
use gaming_go_backend.Store.Pending.{
  PendingReferenceTransaction, has_id, is_waiting, find_pending, rescheduled, reschedule_pending,
  completed_row, complete_pending,
}
use gaming_go_backend.App.{UseCase, or_none}
use gaming_go_backend.App.Resume.{
  fail_found, fail_pending, retry_found, reschedule_pending_after_failure,
}
use gaming_go_backend.ReferenceWorker.Calls.{
  IsReadable, find?-update_where, find_pending_up, find_wallet_up, following, found-any, found_hit,
  no_clashes, read_same, update_up, within_tx_up,
}

module _ (uc : UseCase) (up : (n : ℕ) → uc.world.fails n ≡ false) (wallet_id id : Text)
    (row : TransactionRow) (db : Db) (h : IsReadable wallet_id id row db) where
  abbrev pub at_call : ℕ → Session
  at_call n = record { db = db; calls = n }

  -- What the read of the operation gives at a call.
  abbrev seen : ℕ → PendingReferenceTransaction
  seen n = record {
    transaction = h.transaction;
    attempts = row.attempts;
    pending_expires_at = h.expires_at;
    expired = leb h.expires_at (uc.world.db_clock n);
  }

  locked_up :
      {A : Type 0} (k : Option PendingReferenceTransaction → Tx A) (n : ℕ)
      → (find_wallet uc.world wallet_id >>= λ _. or_none (find_pending uc.world id) >>= k)
          (at_call n)
        ≡ k (some (seen (suc n))) (at_call (suc (suc n)))
  locked_up k n =
      following (find_wallet uc.world wallet_id) (λ _. or_none (find_pending uc.world id) >>= k)
        (at_call n) (at_call (suc n)) h.wallet
        (find_wallet_up uc.world up wallet_id h.wallet_row h.wallet (at_call n) h.wallet_found
          h.wallet_read)
      ∙ following (or_none (find_pending uc.world id)) k (at_call (suc n)) (at_call (suc (suc n)))
          (some (seen (suc n)))
          (find_pending_up uc.world up id row h.transaction h.expires_at (at_call (suc n)) h.found
            h.read h.expires)

  waiting-any : any (is_waiting id) db.transactions ≡ true
  waiting-any =
      found-any (has_id id) (is_waiting id) db.transactions row h.found
        (ground (arith, found_hit (has_id id) db.transactions row h.found, h.waits))

  transaction-waits : is_pending_reference h.transaction.status ≡ true
  transaction-waits = ap is_pending_reference (read_same row h.transaction h.read).1 ∙ h.waits

  -- The tables with the operation as a statement has changed it.
  abbrev pub with_change : (TransactionRow → TransactionRow) → Db
  with_change f = record db { transactions = update_where (is_waiting id) f db.transactions }

  retry_found_up :
      (delay : Time) (m n : ℕ)
      → retry_found uc.world id (some (seen m)) delay (at_call n) ≡ (
        ok tt,
        record {
          db =
              with_change (
                rescheduled (row.attempts + 1) (uc.world.db_clock n + delay) (uc.world.db_clock n));
          calls = suc n;
        },
      )
  unfolding retry_found reschedule_pending
  retry_found_up delay m n =
      rw transaction-waits (update_up uc.world up id _ (at_call n) waiting-any)

  -- The operation that is found after a change that keeps ids.
  pub changed-found :
      (f : TransactionRow → TransactionRow)
      → ((x : TransactionRow) → (f x).id ≡ x.id)
      → find? (has_id id) (with_change f).transactions ≡ some (f row)
  changed-found f keeps =
      find?-update_where (has_id id) (is_waiting id) f db.transactions row
        (λ x. ap (λ i. text_eq i id) (keeps x)) h.found
        (ground (arith, found_hit (has_id id) db.transactions row h.found, h.waits))

  pub put_off_up :
      (delay : Time) (n : ℕ)
      → let now : Time = uc.world.db_clock (suc (suc (suc n))) in
        reschedule_pending_after_failure uc id wallet_id delay (at_call n) ≡ (
          ok tt,
          record {
            db = with_change (rescheduled (row.attempts + 1) (now + delay) now);
            calls = suc (suc (suc (suc (suc n))));
          },
        )
  unfolding reschedule_pending_after_failure
  put_off_up delay n = within_tx_up uc.world up _ (at_call n) _ tt (
      locked_up (λ pending. retry_found uc.world id pending delay) (suc n)
      ∙ retry_found_up delay (suc (suc n)) (suc (suc (suc n))))

  -- The transaction that has been given up at a time.
  abbrev pub ended_at : Time → WagerTransaction
  ended_at at = record h.transaction {
    status = failed;
    failure_code = code_text permanent_processing_failure;
    updated_at = at;
  }

  mark_failed_up :
      (at : Time)
      → is_zero at ≡ false
      → mark_failed (code_text permanent_processing_failure) at h.transaction ≡ ok (ended_at at)
  unfolding mark_failed transition is_allowed_transition code_text
  mark_failed_up at late = ground (arith, late, transaction-waits)

  transaction-id : h.transaction.id ≡ id
  transaction-id =
      (read_same row h.transaction h.read).0
      ∙ text_eq_sound row.id id (found_hit (has_id id) db.transactions row h.found)

  complete_up :
      (t : WagerTransaction) (n : ℕ)
      → t.status ≡ failed
      → t.id ≡ id
      → complete_pending uc.world t none (at_call n)
        ≡ (ok tt, record { db = with_change (completed_row t none); calls = suc n })
  unfolding complete_pending statement
  complete_up t n gone same =
      rw (up n, no_clashes t db.transactions db.transactions gone, same)
        (ground (arith, waiting-any))

  fail_found_up :
      (at : Time) (m n : ℕ)
      → is_zero at ≡ false
      → fail_found uc.world (some (seen m)) at (at_call n)
        ≡ (ok tt, record { db = with_change (completed_row (ended_at at) none); calls = suc n })
  unfolding fail_found
  fail_found_up at m n late =
      rw (transaction-waits, mark_failed_up at late)
        (complete_up (ended_at at) n refl transaction-id)

  pub given_up_up :
      (n : ℕ)
      → is_zero (uc.world.clock (suc n)) ≡ false
      → fail_pending uc id wallet_id (at_call n) ≡ (
        ok tt,
        record {
          db = with_change (completed_row (ended_at (uc.world.clock (suc n))) none);
          calls = suc (suc (suc (suc (suc (suc n)))));
        },
      )
  unfolding fail_pending now
  given_up_up n late = within_tx_up uc.world up _ (at_call n) _ tt (
      locked_up (λ pending. fail_found uc.world pending (uc.world.clock (suc n))) (suc (suc n))
      ∙ fail_found_up (uc.world.clock (suc n)) (suc (suc (suc n))) (suc (suc (suc (suc n)))) late)
