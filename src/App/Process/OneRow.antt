-- ===== src/App/Process/OneRow.antt =====
-- One row for each operation, after internal/walletapp/process_operation.go.
use gaming_go_backend.Common.{◌≡◌, Result, arith}
use gaming_go_backend.Store.Base.{AppError, OutboxRecord, Db, World, Session}
use gaming_go_backend.Store.Ledger.{insert_outbox, insert_outbox_row}
use gaming_go_backend.Store.Logic.{Keeps, Keeps-statement}
use gaming_go_backend.Store.Preservation.{whole, Preserves, Keeps-Preserves, Inserts}
use gaming_go_backend.Store.Uniqueness.{rows, Unique, insert_new-Unique, insert_pending-Unique}
use gaming_go_backend.App.{UseCase}
use gaming_go_backend.App.Prepare.{ProcessInput}
use gaming_go_backend.App.Process.{process_operation}
use gaming_go_backend.App.Process.Existing.{ProcessResult}
use gaming_go_backend.App.Process.Effects.{insert_ledger_entry-Keeps, update_balance-Keeps}
use gaming_go_backend.App.Process.AttemptPreservation.{process_operation-Preserves}

abbrev UniqueRows : Db → Type 0
UniqueRows db = Unique (rows db)

of_rows :
    {A : Type 0} {m : Session → Result AppError A × Session}
    → Preserves rows Unique m
    → Preserves whole UniqueRows m
of_rows m = record { preserved = m.preserved }

insert_outbox-Keeps : (world : World) (r : OutboxRecord) → Keeps rows (insert_outbox world r)
unfolding insert_outbox insert_outbox_row
insert_outbox-Keeps world r = Keeps-statement world _ λ db db' a h. ground arith

UniqueRows-Inserts : Inserts UniqueRows
UniqueRows-Inserts = record {
  new_kept = λ world t resulting. of_rows (insert_new-Unique world t resulting);
  pending_kept = λ world t next ttl. of_rows (insert_pending-Unique world t next ttl);
  entry_kept = λ world e. of_rows (Keeps-Preserves (insert_ledger_entry-Keeps world e));
  event_kept = λ world r. of_rows (Keeps-Preserves (insert_outbox-Keeps world r));
  balance_kept =
      λ world w previous. of_rows (Keeps-Preserves (update_balance-Keeps world w previous));
}

-- An operation keeps the table of transactions unique, whatever it returns and whatever fails: no row
-- shares its id, its provider and idempotency key or its provider and external id with another, no
-- wallet has two processed openings, and no reference has two processed reversals.
pub process_operation-Unique :
    (uc : UseCase) (input : ProcessInput) (s s' : Session) (r : Result AppError ProcessResult)
    → process_operation uc input s ≡ (r, s')
    → Unique (rows s.db)
    → Unique (rows s'.db)
process_operation-Unique uc input s s' r h u =
    process_operation-Preserves UniqueRows-Inserts uc input s s' r h u
