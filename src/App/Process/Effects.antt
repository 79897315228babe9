-- ===== src/App/Process/Effects.antt =====
-- Which tables the steps of internal/walletapp/process_operation.go leave alone.
use gaming_go_backend.Common.{◌≡◌, Option, none, some, List, ok, arith}
use gaming_go_backend.Common.Int.{ℤ}
use gaming_go_backend.Common.Text.{Text}
use gaming_go_backend.Common.Time.{Time}
use gaming_go_backend.Wallet.{Wallet, LedgerEntry}
use gaming_go_backend.Transaction.{
  Status, pending, processed, rejected, failed, pending_reference, other_status, WagerTransaction,
}
use gaming_go_backend.Events.{EventMetadata, Event}
use gaming_go_backend.Store.Base.{TransactionRow, LedgerRow, Db, World}
use gaming_go_backend.Store.Wallets.{update_balance, update_balance_row}
use gaming_go_backend.Store.Ledger.{
  insert_ledger_entry, insert_ledger_row, ledger_row, insert_outbox, insert_outbox_row,
}
use gaming_go_backend.Store.Logic.{
  Keeps, Keeps-pure, Keeps-lift, Keeps-new_id, Keeps-statement, Keeps->>=,
}
use gaming_go_backend.App.Process.Outbox.{publish, announce_movement, announce, write_outbox_events}
use gaming_go_backend.App.Process.Persist.{record_movement}

abbrev pub rows : Db → List TransactionRow
rows db = db.transactions

pub publish-Keeps :
    (world : World) (aggregate : Text) (at : Time) (e : Event)
    → Keeps rows (publish world aggregate at e)
unfolding publish insert_outbox insert_outbox_row
publish-Keeps world aggregate at e = Keeps-statement world _ λ db db' a h. ground arith

announce_movement-Keeps :
    (world : World) (w : Wallet) (entry : Option LedgerEntry) (c d : Text) (at : Time)
    → Keeps rows (announce_movement world w entry c d at)
unfolding announce_movement
announce_movement-Keeps world w none c d at = Keeps-pure tt
announce_movement-Keeps world w (some entry) c d at =
    Keeps->>= _ _ (Keeps-new_id world)
      λ id. Keeps->>= _ _ (Keeps-lift _) λ e. publish-Keeps world _ at e

announce-Keeps :
    (world : World) (status : Status) (m : EventMetadata) (t : WagerTransaction) (w : Wallet)
    (entry : Option LedgerEntry) (at : Time)
    → Keeps rows (announce world status m t w entry at)
unfolding announce
announce-Keeps world rejected m t w entry at =
    Keeps->>= _ _ (Keeps-lift _) λ e. publish-Keeps world _ at e
announce-Keeps world failed m t w entry at = Keeps-pure tt
announce-Keeps world pending m t w entry at = Keeps->>= _ _ (Keeps-lift _) λ e.
    Keeps->>= _ _ (publish-Keeps world _ at e) λ _. announce_movement-Keeps world w entry _ _ at
announce-Keeps world processed m t w entry at = Keeps->>= _ _ (Keeps-lift _) λ e.
    Keeps->>= _ _ (publish-Keeps world _ at e) λ _. announce_movement-Keeps world w entry _ _ at
announce-Keeps world pending_reference m t w entry at = Keeps->>= _ _ (Keeps-lift _) λ e.
    Keeps->>= _ _ (publish-Keeps world _ at e) λ _. announce_movement-Keeps world w entry _ _ at
announce-Keeps world (other_status _) m t w entry at = Keeps->>= _ _ (Keeps-lift _) λ e.
    Keeps->>= _ _ (publish-Keeps world _ at e) λ _. announce_movement-Keeps world w entry _ _ at

pub write_outbox_events-Keeps :
    (world : World) (t : WagerTransaction) (w : Wallet) (entry : Option LedgerEntry) (c d : Text)
    (at : Time)
    → Keeps rows (write_outbox_events world t w entry c d at)
unfolding write_outbox_events
write_outbox_events-Keeps world t w entry c d at =
    Keeps->>= _ _ (Keeps-new_id world) λ id. announce-Keeps world t.status _ t w entry at

insert_ledger_row-rows :
    (row : LedgerRow) (db db' : Db) (a : Unit {0})
    → insert_ledger_row row db ≡ ok (a, db')
    → rows db' ≡ rows db
unfolding insert_ledger_row
insert_ledger_row-rows row db db' a h = ground arith

update_balance_row-rows :
    (w : Wallet) (balance previous : ℤ) (db db' : Db) (a : Unit {0})
    → update_balance_row w balance previous db ≡ ok (a, db')
    → rows db' ≡ rows db
unfolding update_balance_row
update_balance_row-rows w balance previous db db' a h = ground arith

pub insert_ledger_entry-Keeps :
    (world : World) (e : LedgerEntry) → Keeps rows (insert_ledger_entry world e)
unfolding insert_ledger_entry
insert_ledger_entry-Keeps world e =
    Keeps->>= _ _ (Keeps-lift (ledger_row e))
      λ row. Keeps-statement world _ (insert_ledger_row-rows row)

pub update_balance-Keeps :
    (world : World) (w : Wallet) (previous : ℤ) → Keeps rows (update_balance world w previous)
unfolding update_balance
update_balance-Keeps world w previous =
    Keeps->>= _ _ (Keeps-lift _) λ b. Keeps-statement world _ (update_balance_row-rows w b previous)

pub record_movement-Keeps :
    (world : World) (w : Wallet) (entry : Option LedgerEntry)
    → Keeps rows (record_movement world w entry)
unfolding record_movement
record_movement-Keeps world w none = Keeps-pure tt
record_movement-Keeps world w (some e) =
    Keeps->>= _ _ (insert_ledger_entry-Keeps world e) λ _. update_balance-Keeps world w _
