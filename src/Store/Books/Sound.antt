-- ===== src/Store/Books/Sound.antt =====
-- What the statements of internal/walletpg/transaction_repository.go and outbox_repository.go leave of
-- the balances and the ledger.
use gaming_go_backend.Common.{
  ◌≡◌, refl, sym, Bool, true, false, Option, none, some, ◌∷◌, ok, err, arith, find?, any, inl, inr,
  Bool-cases, update_where, ◌+◌, if◌then◌else◌,
}
use gaming_go_backend.Common.All.{All, All-find?, All-update_where}
use mathlib.Core.Path.{subst}
use gaming_go_backend.Common.Int.{ℤ, pos, ◌≤ℤ◌}
use gaming_go_backend.Common.Int64.{IsInt64}
use gaming_go_backend.Common.Text.{Text}
use gaming_go_backend.Common.Time.{Time}
use gaming_go_backend.Money.{minor_units_of, validate}
use gaming_go_backend.Wallet.{Wallet}
use gaming_go_backend.Transaction.{WagerTransaction}
use gaming_go_backend.Store.Base.{
  infrastructure, WalletRow, TransactionRow, OutboxRecord, Db, World, statement, pure,
}
use gaming_go_backend.Store.Rows.{row_of}
use gaming_go_backend.Store.Wallets.{has_id}
use gaming_go_backend.Store.Transactions.{
  conflicts, with_row, insert_row_or_nothing, insert_transaction, insert_new, insert_waiting,
  insert_pending, waiting_row, expiry_if,
}
use gaming_go_backend.Store.Pending.{
  is_waiting, completed_row, clashes, update_row, rescheduled, complete_pending, reschedule_pending,
}
use gaming_go_backend.Store.Ledger.{insert_outbox, insert_outbox_row}
use gaming_go_backend.Store.Preservation.{
  Preserves, Preserves->>=, whole, Preserves-statement, Preserves-pure, Resumes,
}
use gaming_go_backend.Store.Hoare.{Ensures, Ensures-lift->>=, Preserves-Ensures}
use gaming_go_backend.Store.Balances.{Balances, balances, Transfer, unchanged}
use gaming_go_backend.Store.Books.{Books, Read, Fits}

-- The columns of a transaction row that are BIGINT and that a movement reads.
abbrev pub AmountFits : TransactionRow → Type 0
AmountFits row = IsInt64 row.amount

pub record Sound (db : Db) : Type 0 where
  pub books : Books db.wallets db.ledger
  pub amounts : All AmountFits db.transactions

-- The tables are sound, and the balances are the ones at the start.
pub record Started (start : Balances) (db : Db) : Type 0 where
  pub sound : Sound db
  pub same : (id : Text) → balances db id ≡ start id

-- Moreover a wallet is what the tables hold.
pub record Held (start : Balances) (w : Wallet) (db : Db) : Type 0 where
  pub started : Started start db
  pub row : WalletRow
  pub found : find? (has_id w.id) db.wallets ≡ some row
  pub read : Read w row
  pub nonneg : pos 0 ≤ℤ w.balance.minor_units

-- The tables are sound, and the balances are one step behind the start.
pub record Ended (start : Balances) (db : Db) : Type 0 where
  pub sound : Sound db
  pub transfer : Transfer start (balances db)

-- What a property has to bear for the statements that touch neither wallets nor ledger to keep it.
pub record Bookkeeping (P : Db → Type 0) : Type 0 where
  pub row_inserted : (db : Db) (row : TransactionRow) → AmountFits row → P db → P (with_row row db)
  pub row_changed :
      (db : Db) (id : Text) (change : TransactionRow → TransactionRow)
      → ((row : TransactionRow) → (change row).amount ≡ row.amount)
      → P db
      → P (record db { transactions = update_where (is_waiting id) change db.transactions })
  pub event_inserted :
      (db : Db) (row : OutboxRecord) → P db → P (record db { outbox = row ∷ db.outbox })

pub Sound-Bookkeeping : Bookkeeping Sound
Sound-Bookkeeping = record {
  row_inserted = λ db row fits p. record { books = p.books; amounts = (fits, p.amounts) };
  row_changed = λ db id change same p. record {
    books = p.books;
    amounts =
        All-update_where AmountFits AmountFits (is_waiting id) change db.transactions
          (λ x _ f. subst IsInt64 (sym (same x)) f) (λ x _ f. f) p.amounts;
  };
  event_inserted = λ db row p. record { books = p.books; amounts = p.amounts };
}

pub Started-Bookkeeping : (start : Balances) → Bookkeeping (Started start)
Started-Bookkeeping start = record {
  row_inserted = λ db row fits p. record {
    sound = Sound-Bookkeeping.row_inserted db row fits p.sound;
    same = p.same;
  };
  row_changed = λ db id change same p. record {
    sound = Sound-Bookkeeping.row_changed db id change same p.sound;
    same = p.same;
  };
  event_inserted = λ db event p. record {
    sound = Sound-Bookkeeping.event_inserted db event p.sound;
    same = p.same;
  };
}

pub Ended-Bookkeeping : (start : Balances) → Bookkeeping (Ended start)
Ended-Bookkeeping start = record {
  row_inserted = λ db row fits p. record {
    sound = Sound-Bookkeeping.row_inserted db row fits p.sound;
    transfer = p.transfer;
  };
  row_changed = λ db id change same p. record {
    sound = Sound-Bookkeeping.row_changed db id change same p.sound;
    transfer = p.transfer;
  };
  event_inserted = λ db event p. record {
    sound = Sound-Bookkeeping.event_inserted db event p.sound;
    transfer = p.transfer;
  };
}

pub Held-Bookkeeping : (start : Balances) (w : Wallet) → Bookkeeping (Held start w)
Held-Bookkeeping start w = record {
  row_inserted = λ db row fits p. record {
    started = (Started-Bookkeeping start).row_inserted db row fits p.started;
    row = p.row;
    found = p.found;
    read = p.read;
    nonneg = p.nonneg;
  };
  row_changed = λ db id change same p. record {
    started = (Started-Bookkeeping start).row_changed db id change same p.started;
    row = p.row;
    found = p.found;
    read = p.read;
    nonneg = p.nonneg;
  };
  event_inserted = λ db event p. record {
    started = (Started-Bookkeeping start).event_inserted db event p.started;
    row = p.row;
    found = p.found;
    read = p.read;
    nonneg = p.nonneg;
  };
}

-- Sound tables are at their own start.
pub at_start : (db : Db) → Sound db → Started (balances db) db
at_start db p = record { sound = p; same = λ id. refl }

-- Nothing has moved.
pub idle : {start : Balances} {db : Db} → Started start db → Ended start db
idle p = record { sound = p.sound; transfer = unchanged p.same }

row_of-amount :
    (t : WagerTransaction) (resulting : Option ℤ) (row : TransactionRow)
    → row_of t resulting ≡ ok row
    → row.amount ≡ t.money.minor_units
unfolding row_of minor_units_of validate
row_of-amount t resulting row h = ground arith

module _ {P : Db → Type 0} (b : Bookkeeping P) where
  pub event_kept : (world : World) (r : OutboxRecord) → Preserves whole P (insert_outbox world r)
  unfolding insert_outbox insert_outbox_row
  event_kept world r =
      Preserves-statement world _
        λ db db' a h p. subst P (ground (arith, h)) (b.event_inserted db r p)

  row_or_nothing :
      (world : World) (row : TransactionRow)
      → AmountFits row
      → Preserves whole P (statement world (insert_row_or_nothing row))
  unfolding insert_row_or_nothing
  row_or_nothing world row fits = Preserves-statement world _ λ db db' a h p.
      elim (Bool-cases (any (conflicts row) db.transactions)) [
        | inl clash ↦ subst P (ground (arith, clash, h)) p
        | inr free ↦ subst P (ground (arith, free, h)) (b.row_inserted db row fits p)
      ]

  module _ (world : World) (t : WagerTransaction) (fits : IsInt64 t.money.minor_units) where
    row_fits :
        (resulting : Option ℤ) (row : TransactionRow) → row_of t resulting ≡ ok row → AmountFits row
    row_fits resulting row h = subst IsInt64 (sym (row_of-amount t resulting row h)) fits

    pub insert_new-kept : (resulting : Option ℤ) → Ensures P (insert_new world t resulting) (λ _. P)
    unfolding insert_new
    insert_new-kept resulting =
        Ensures-lift->>= (row_of t resulting) _
          λ row h. Preserves-Ensures (row_or_nothing world row (row_fits resulting row h))

    pub insert_transaction-kept :
        (resulting : Option ℤ) → Ensures P (insert_transaction world t resulting) (λ _. P)
    unfolding insert_transaction
    insert_transaction-kept resulting = Ensures-lift->>= (row_of t resulting) _ λ row h.
        Preserves-Ensures (
          Preserves-statement world _ λ db db' a e p.
            subst P (ground (arith, e)) (b.row_inserted db row (row_fits resulting row h) p))

    pub insert_pending-kept :
        (next ttl : Time) → Ensures P (insert_pending world t next ttl) (λ _. P)
    unfolding insert_pending insert_waiting
    insert_pending-kept next ttl =
        Ensures-lift->>= (row_of t none)
          (λ row s. insert_waiting world row next (world.db_clock s.calls + ttl) s)
          λ row h. record {
            ensures = λ s o s' run p.
                (Preserves->>=
                    (statement world
                      (insert_row_or_nothing (waiting_row row next (world.db_clock s.calls + ttl))))
                    (λ b. pure (expiry_if (world.db_clock s.calls + ttl) b))
                    (row_or_nothing world (waiting_row row next (world.db_clock s.calls + ttl))
                      (row_fits none row h))
                    λ b. Preserves-pure _).preserved
                  s o s' run p;
          }

  update_row_lem :
      (id : Text) (change : TransactionRow → TransactionRow) (db db' : Db) (a : Unit {0})
      → ((row : TransactionRow) → (change row).amount ≡ row.amount)
      → update_row id change db ≡ ok (a, db')
      → P db
      → P db'
  update_row_lem id change db db' a same h p =
      subst P (ground arith) (b.row_changed db id change same p)

  completed_lem :
      (clash : Bool) (t : WagerTransaction) (resulting : Option ℤ) (db db' : Db) (a : Unit {0})
      → (if clash then err infrastructure else update_row t.id (completed_row t resulting) db)
        ≡ ok (a, db')
      → P db
      → P db'
  unfolding completed_row
  completed_lem true t resulting db db' a h p = ground arith
  completed_lem false t resulting db db' a h p =
      update_row_lem t.id (completed_row t resulting) db db' a (λ row. refl) h p

  -- The two ends of a pending operation, and its delay.
  pub Bookkeeping-Resumes : Resumes P
  unfolding complete_pending reschedule_pending
  Bookkeeping-Resumes = record {
    complete_kept = λ world t resulting.
        Preserves-statement world _
          λ db db' a h p. completed_lem (clashes t resulting db) t resulting db db' a h p;
    reschedule_kept = λ world id attempts delay. record {
      preserved = λ s a s' h p.
          (Preserves-statement world
              (update_row id
                (rescheduled attempts (world.db_clock s.calls + delay) (world.db_clock s.calls)))
              (λ db db' x e. update_row_lem id _ db db' x (λ row. refl) e)).preserved
            s a s' h p;
    };
    event_kept = event_kept;
  }

-- The balance of a wallet that sound tables hold is an int64.
pub Held-fits :
    (start : Balances) (w : Wallet) (db : Db) → Held start w db → IsInt64 w.balance.minor_units
Held-fits start w db held =
    subst IsInt64 (sym held.read.same_balance)
      (All-find? Fits (has_id w.id) db.wallets held.row held.started.sound.books.fit
        held.found).balance_fits
