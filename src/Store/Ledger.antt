-- ===== src/Store/Ledger.antt =====
-- internal/walletpg/ledger_repository.go and outbox_repository.go: the inserts of a ledger entry and
-- of an outbox record.
use gaming_go_backend.Common.{
  Bool, ◌&&◌, ◌||◌, ◌∷◌, any, if◌then◌else◌, Result, ok, err, map_err, and_then,
}
use gaming_go_backend.Common.Time.{stored_time}
use gaming_go_backend.Common.Text.{text_eq}
use gaming_go_backend.Money.{minor_units_of, currency_of}
use gaming_go_backend.Wallet.{LedgerEntry}
use gaming_go_backend.Store.Base.{
  AppError, infrastructure, money_error, LedgerRow, OutboxRecord, Db, World, Tx, lift, statement,
  ◌>>=◌,
}

-- The primary key, and the one entry of a transaction in a wallet.
abbrev same_entry : LedgerRow → LedgerRow → Bool
same_entry a b =
    text_eq a.id b.id
    || text_eq a.wallet_id b.wallet_id && text_eq a.transaction_id b.transaction_id

unfoldable pub insert_ledger_row : LedgerRow → Db → Result AppError (Unit {0} × Db)
insert_ledger_row row db =
    if any (same_entry row) db.ledger
    then err infrastructure
    else ok (tt, record db { ledger = row ∷ db.ledger })

-- The arguments of the INSERT.
unfoldable pub ledger_row : LedgerEntry → Result AppError LedgerRow
ledger_row e = and_then (map_err money_error (minor_units_of e.money)) λ amount.
    and_then (map_err money_error (currency_of e.money)) λ currency.
      and_then (map_err money_error (minor_units_of e.balance_before)) λ before.
        and_then (map_err money_error (minor_units_of e.balance_after)) λ after. ok (record {
          id = e.id;
          wallet_id = e.wallet_id;
          transaction_id = e.transaction_id;
          direction = e.direction;
          amount = amount;
          currency = currency;
          balance_before = before;
          balance_after = after;
          occurred_at = stored_time e.occurred_at;
        })

-- `ledgerRepository.Insert`
unfoldable pub insert_ledger_entry : World → LedgerEntry → Tx (Unit {0})
insert_ledger_entry world e = do row ← lift (ledger_row e); statement world (insert_ledger_row row)

abbrev same_event : OutboxRecord → OutboxRecord → Bool
same_event a b = text_eq a.event_id b.event_id

unfoldable pub insert_outbox_row : OutboxRecord → Db → Result AppError (Unit {0} × Db)
insert_outbox_row row db =
    if any (same_event row) db.outbox
    then err infrastructure
    else ok (tt, record db { outbox = row ∷ db.outbox })

-- `outboxRepository.Insert`. The payload is one of the events, whose JSON encoding does not fail.
unfoldable pub insert_outbox : World → OutboxRecord → Tx (Unit {0})
insert_outbox world r = statement world (insert_outbox_row r)
