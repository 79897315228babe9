-- ===== src/Store/Stability.antt =====
-- Properties of the tables that every statement of internal/walletpg keeps.
use mathlib.Core.Path.{subst}
use gaming_go_backend.Common.{
  ◌≡◌, inl, inr, Bool, true, false, Option, none, List, ◌∷◌, ok, err, arith, Bool-cases,
  update_where, map_err, ◌+◌, any, if◌then◌else◌, ℕ,
}
use gaming_go_backend.Common.Int.{ℤ}
use gaming_go_backend.Common.Text.{Text}
use gaming_go_backend.Common.Time.{Time}
use gaming_go_backend.Money.{minor_units_of, currency_of}
use gaming_go_backend.Wallet.{Wallet, LedgerEntry}
use gaming_go_backend.Transaction.{WagerTransaction}
use gaming_go_backend.Store.Base.{
  money_error, infrastructure, TransactionRow, WalletRow, LedgerRow, OutboxRecord, Db, World, lift,
}
use gaming_go_backend.Store.Rows.{row_of}
use gaming_go_backend.Store.Wallets.{
  insert_wallet, insert_wallet_row, update_balance, update_balance_row,
}
use gaming_go_backend.Store.Transactions.{
  conflicts, with_row, insert_row, insert_row_or_nothing, insert_transaction, insert_new,
  insert_waiting, insert_pending, waiting_row, expiry_if,
}
use gaming_go_backend.Store.Pending.{
  is_waiting, completed_row, clashes, update_row, rescheduled, complete_pending, reschedule_pending,
}
use gaming_go_backend.Store.Ledger.{
  insert_ledger_entry, insert_ledger_row, ledger_row, insert_outbox, insert_outbox_row,
}
use gaming_go_backend.Store.Preservation.{
  Preserves, Preserves->>=, whole, Preserves-statement, Preserves-pure, Preserves-lift, Inserts,
  Resumes,
}

-- What the statements can do to the tables.
pub record Stable (P : Db → Type 0) : Type 0 where
  pub wallets_changed : (db : Db) (rows : List WalletRow) → P db → P (record db { wallets = rows })
  pub row_inserted : (db : Db) (row : TransactionRow) → P db → P (with_row row db)
  pub row_changed :
      (db : Db) (id : Text) (change : TransactionRow → TransactionRow)
      → P db
      → P (record db { transactions = update_where (is_waiting id) change db.transactions })
  pub entry_inserted :
      (db : Db) (row : LedgerRow) → P db → P (record db { ledger = row ∷ db.ledger })
  pub event_inserted :
      (db : Db) (row : OutboxRecord) → P db → P (record db { outbox = row ∷ db.outbox })

module _ {P : Db → Type 0} where
  module _ (stable : Stable P) where
    insert_row_or_nothing_lem :
        (row : TransactionRow) (db db' : Db) (b : Bool)
        → insert_row_or_nothing row db ≡ ok (b, db')
        → P db
        → P db'
    unfolding insert_row_or_nothing
    insert_row_or_nothing_lem row db db' b h p =
        elim (Bool-cases (any (conflicts row) db.transactions)) [
          | inl clash ↦ subst P (ground (arith, clash, h)) p
          | inr free ↦ subst P (ground (arith, free, h)) (stable.row_inserted db row p)
        ]

    insert_row_lem :
        (row : TransactionRow) (db db' : Db) (a : Unit {0})
        → insert_row row db ≡ ok (a, db')
        → P db
        → P db'
    insert_row_lem row db db' a h p = subst P (ground arith) (stable.row_inserted db row p)

    update_row_lem :
        (id : Text) (change : TransactionRow → TransactionRow) (db db' : Db) (a : Unit {0})
        → update_row id change db ≡ ok (a, db')
        → P db
        → P db'
    update_row_lem id change db db' a h p =
        subst P (ground arith) (stable.row_changed db id change p)

    insert_ledger_row_lem :
        (row : LedgerRow) (db db' : Db) (a : Unit {0})
        → insert_ledger_row row db ≡ ok (a, db')
        → P db
        → P db'
    unfolding insert_ledger_row
    insert_ledger_row_lem row db db' a h p = subst P (ground arith) (stable.entry_inserted db row p)

    insert_outbox_row_lem :
        (row : OutboxRecord) (db db' : Db) (a : Unit {0})
        → insert_outbox_row row db ≡ ok (a, db')
        → P db
        → P db'
    unfolding insert_outbox_row
    insert_outbox_row_lem row db db' a h p = subst P (ground arith) (stable.event_inserted db row p)

    insert_wallet_row_lem :
        (row : WalletRow) (db db' : Db) (a : Unit {0})
        → insert_wallet_row row db ≡ ok (a, db')
        → P db
        → P db'
    unfolding insert_wallet_row
    insert_wallet_row_lem row db db' a h p =
        subst P (ground arith) (stable.wallets_changed db (row ∷ db.wallets) p)

    update_balance_row_lem :
        (w : Wallet) (balance previous : ℤ) (db db' : Db) (a : Unit {0})
        → update_balance_row w balance previous db ≡ ok (a, db')
        → P db
        → P db'
    unfolding update_balance_row
    update_balance_row_lem w balance previous db db' a h p =
        subst P (ground arith) (stable.wallets_changed db db'.wallets p)

    pub insert_transaction-Preserves :
        (world : World) (t : WagerTransaction) (resulting : Option ℤ)
        → Preserves whole P (insert_transaction world t resulting)
    unfolding insert_transaction
    insert_transaction-Preserves world t resulting =
        Preserves->>= _ _ (Preserves-lift (row_of t resulting))
          λ row. Preserves-statement world _ (insert_row_lem row)

    pub insert_new-Preserves :
        (world : World) (t : WagerTransaction) (resulting : Option ℤ)
        → Preserves whole P (insert_new world t resulting)
    unfolding insert_new
    insert_new-Preserves world t resulting =
        Preserves->>= _ _ (Preserves-lift (row_of t resulting))
          λ row. Preserves-statement world _ (insert_row_or_nothing_lem row)

    insert_waiting-Preserves :
        (world : World) (row : TransactionRow) (next expires_at : Time)
        → Preserves whole P (insert_waiting world row next expires_at)
    unfolding insert_waiting
    insert_waiting-Preserves world row next expires_at =
        Preserves->>= _ _
          (Preserves-statement world _
            (insert_row_or_nothing_lem (waiting_row row next expires_at)))
          λ b. Preserves-pure (expiry_if expires_at b)

    pub insert_pending-Preserves :
        (world : World) (t : WagerTransaction) (next ttl : Time)
        → Preserves whole P (insert_pending world t next ttl)
    unfolding insert_pending
    insert_pending-Preserves world t next ttl =
        Preserves->>= (lift (row_of t none))
          (λ row s. insert_waiting world row next (world.db_clock s.calls + ttl) s)
          (Preserves-lift (row_of t none))
          λ row. record {
            preserved = λ s o s' h p.
                (insert_waiting-Preserves world row next (world.db_clock s.calls + ttl)).preserved s
                  o s' h p;
          }

    pub reschedule_pending-Preserves :
        (world : World) (id : Text) (attempts : ℕ) (delay : Time)
        → Preserves whole P (reschedule_pending world id attempts delay)
    unfolding reschedule_pending
    reschedule_pending-Preserves world id attempts delay = record {
      preserved = λ s a s' h p.
          (Preserves-statement world
              (update_row id
                (rescheduled attempts (world.db_clock s.calls + delay) (world.db_clock s.calls)))
              (update_row_lem id _)).preserved
            s a s' h p;
    }

    completed_lem :
        (clash : Bool) (t : WagerTransaction) (resulting : Option ℤ) (db db' : Db) (a : Unit {0})
        → (if clash then err infrastructure else update_row t.id (completed_row t resulting) db)
          ≡ ok (a, db')
        → P db
        → P db'
    completed_lem true t resulting db db' a h p = ground arith
    completed_lem false t resulting db db' a h p =
        update_row_lem t.id (completed_row t resulting) db db' a h p

    pub complete_pending-Preserves :
        (world : World) (t : WagerTransaction) (resulting : Option ℤ)
        → Preserves whole P (complete_pending world t resulting)
    unfolding complete_pending
    complete_pending-Preserves world t resulting =
        Preserves-statement world _
          λ db db' a h p. completed_lem (clashes t resulting db) t resulting db db' a h p

    pub insert_ledger_entry-Preserves :
        (world : World) (e : LedgerEntry) → Preserves whole P (insert_ledger_entry world e)
    unfolding insert_ledger_entry
    insert_ledger_entry-Preserves world e =
        Preserves->>= _ _ (Preserves-lift (ledger_row e))
          λ row. Preserves-statement world _ (insert_ledger_row_lem row)

    pub insert_outbox-Preserves :
        (world : World) (r : OutboxRecord) → Preserves whole P (insert_outbox world r)
    unfolding insert_outbox
    insert_outbox-Preserves world r = Preserves-statement world _ (insert_outbox_row_lem r)

    pub insert_wallet-Preserves :
        (world : World) (w : Wallet) → Preserves whole P (insert_wallet world w)
    unfolding insert_wallet
    insert_wallet-Preserves world w =
        Preserves->>= (lift (map_err money_error (minor_units_of w.balance))) _ (Preserves-lift _)
          λ balance.
            Preserves->>= (lift (map_err money_error (currency_of w.balance))) _ (Preserves-lift _)
              λ currency. Preserves-statement world _ (insert_wallet_row_lem _)

    pub update_balance-Preserves :
        (world : World) (w : Wallet) (previous : ℤ)
        → Preserves whole P (update_balance world w previous)
    unfolding update_balance
    update_balance-Preserves world w previous =
        Preserves->>= _ _ (Preserves-lift _)
          λ b. Preserves-statement world _ (update_balance_row_lem w b previous)

    pub Stable-Inserts : Inserts P
    Stable-Inserts = record {
      new_kept = insert_new-Preserves;
      pending_kept = insert_pending-Preserves;
      entry_kept = insert_ledger_entry-Preserves;
      event_kept = insert_outbox-Preserves;
      balance_kept = update_balance-Preserves;
    }

    pub Stable-Resumes : Resumes P
    Stable-Resumes = record {
      complete_kept = complete_pending-Preserves;
      reschedule_kept = reschedule_pending-Preserves;
      event_kept = insert_outbox-Preserves;
    }
