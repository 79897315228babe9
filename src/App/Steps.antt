-- ===== src/App/Steps.antt =====
-- internal/walletapp: the use cases that write, one after another on the same tables.
pub mod Books
use gaming_go_backend.Common.{
  ◌≡◌, sym, ap, ◌∙◌, Bool, false, Option, List, [], ◌∷◌, Result, arith, if◌then◌else◌, ◌&&◌,
  update_where,
}
use mathlib.Core.List.{Memᴰ}
use mathlib.Core.List.Memᴰ.{head, tail}
use gaming_go_backend.Common.Text.{Text, text_eq}
use gaming_go_backend.Common.Time.{Time}
use gaming_go_backend.Wallet.{Wallet}
use gaming_go_backend.Transaction.{is_pending_reference}
use gaming_go_backend.Store.Base.{AppError, TransactionRow, LedgerRow, Db, Session}
use gaming_go_backend.Store.Pending.{is_waiting}
use gaming_go_backend.Store.Stability.{Stable, Stable-Inserts, Stable-Resumes}
use gaming_go_backend.App.{UseCase}
use gaming_go_backend.App.Prepare.{ProcessInput}
use gaming_go_backend.App.Process.{process_operation}
use gaming_go_backend.App.Process.Existing.{ProcessResult}
use gaming_go_backend.App.Process.AttemptPreservation.{process_operation-Preserves}
use gaming_go_backend.App.Resume.{
  PendingResumeSettings, resume_pending, fail_pending, reschedule_pending_after_failure,
}
use gaming_go_backend.App.Resume.Outcomes.{PendingResumeOutcome}
use gaming_go_backend.App.Resume.Preservation.{
  resume_pending-Preserves, fail_pending-Preserves, reschedule_pending_after_failure-Preserves,
}
use gaming_go_backend.App.Open.{OpenWalletInput, open_player_wallet}
use gaming_go_backend.App.Open.Preservation.{open_player_wallet-Safe}

-- One call of a use case, whatever it returns.
pub data Step (uc : UseCase) (s s' : Session) : Type 0 where
  opened :
      (i : OpenWalletInput) (r : Result AppError Wallet)
      → open_player_wallet uc.world i s ≡ (r, s')
      → Step uc s s'
  done :
      (i : ProcessInput) (r : Result AppError ProcessResult)
      → process_operation uc i s ≡ (r, s')
      → Step uc s s'
  resumed :
      (id wallet_id : Text) (settings : PendingResumeSettings)
      (r : Result AppError (Option PendingResumeOutcome))
      → resume_pending uc id wallet_id settings s ≡ (r, s')
      → Step uc s s'
  given_up :
      (id wallet_id : Text) (r : Result AppError (Unit {0}))
      → fail_pending uc id wallet_id s ≡ (r, s')
      → Step uc s s'
  put_off :
      (id wallet_id : Text) (delay : Time) (r : Result AppError (Unit {0}))
      → reschedule_pending_after_failure uc id wallet_id delay s ≡ (r, s')
      → Step uc s s'

-- Calls in a row, each with a world of its own, on the tables that the one before it left.
pub data Run : Db → Db → Type 0 where
  rest : {db : Db} → Run db db
  step : {db : Db} (uc : UseCase) (s s' : Session) → Step uc s s' → Run s'.db db → Run s.db db

module _ {P : Db → Type 0} (stable : Stable P) where
  Step-Preserves : (uc : UseCase) (s s' : Session) → Step uc s s' → P s.db → P s'.db
  Step-Preserves uc s s' (opened i r h) p =
      (open_player_wallet-Safe stable uc.world i).safe s s' r h p
  Step-Preserves uc s s' (done i r h) p =
      process_operation-Preserves (Stable-Inserts stable) uc i s s' r h p
  Step-Preserves uc s s' (resumed id wallet_id settings r h) p =
      resume_pending-Preserves stable uc id wallet_id settings s s' r h p
  Step-Preserves uc s s' (given_up id wallet_id r h) p =
      fail_pending-Preserves (Stable-Resumes stable) uc id wallet_id s s' r h p
  Step-Preserves uc s s' (put_off id wallet_id delay r h) p =
      reschedule_pending_after_failure-Preserves (Stable-Resumes stable) uc id wallet_id delay s s'
        r h p

  Run-Preserves : {before after : Db} → Run before after → P before → P after
  Run-Preserves rest p = p
  Run-Preserves (step uc s s' one more) p = Run-Preserves more (Step-Preserves uc s s' one p)

-- The rows that are never changed again are the ones that wait for no reference, and every ledger row.
pub record AppendOnly (before after : Db) : Type 0 where
  pub rows_kept :
      (row : TransactionRow)
      → is_pending_reference row.status ≡ false
      → Memᴰ row before.transactions
      → Memᴰ row after.transactions
  pub entries_kept : (row : LedgerRow) → Memᴰ row before.ledger → Memᴰ row after.ledger

unchanged :
    (id : Text) (change : TransactionRow → TransactionRow) (row : TransactionRow) (b : Bool)
    → is_pending_reference row.status ≡ false
    → row ≡ (if b && is_pending_reference row.status then change row else row)
unchanged id change row b settled = ground (arith, settled)

settled_kept :
    (row : TransactionRow) (id : Text) (change : TransactionRow → TransactionRow)
    (rows : List TransactionRow)
    → is_pending_reference row.status ≡ false
    → Memᴰ row rows
    → Memᴰ row (update_where (is_waiting id) change rows)
unfolding update_where
settled_kept row id change [] settled m = elim m [ ]
settled_kept row id change (x ∷ rows) settled (head e) = head (
    e
    ∙ unchanged id change x (text_eq x.id id)
        (ap (λ (y : TransactionRow). is_pending_reference y.status) (sym e) ∙ settled))
settled_kept row id change (x ∷ rows) settled (tail m) =
    tail (settled_kept row id change rows settled m)

row-Stable :
    (row : TransactionRow)
    → is_pending_reference row.status ≡ false
    → Stable (λ db. Memᴰ row db.transactions)
row-Stable row settled = record {
  wallets_changed = λ db rows m. m;
  row_inserted = λ db inserted m. tail m;
  row_changed = λ db id change m. settled_kept row id change db.transactions settled m;
  entry_inserted = λ db entry m. m;
  event_inserted = λ db event m. m;
}

entry-Stable : (row : LedgerRow) → Stable (λ db. Memᴰ row db.ledger)
entry-Stable row = record {
  wallets_changed = λ db rows m. m;
  row_inserted = λ db inserted m. m;
  row_changed = λ db id change m. m;
  entry_inserted = λ db entry m. tail m;
  event_inserted = λ db event m. m;
}

-- However the use cases that write follow one another, and whatever they return, none removes or
-- changes a transaction that does not wait for a reference, nor a ledger entry.
pub Run-AppendOnly : (before after : Db) → Run before after → AppendOnly before after
Run-AppendOnly before after run = record {
  rows_kept = λ row settled m. Run-Preserves (row-Stable row settled) run m;
  entries_kept = λ row m. Run-Preserves (entry-Stable row) run m;
}
