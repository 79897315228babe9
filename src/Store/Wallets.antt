-- ===== src/Store/Wallets.antt =====
-- internal/walletpg/wallet_repository.go, over the table of migrations/0003.
use gaming_go_backend.Common.{
  Bool, not, ◌&&◌, ◌||◌, Option, none, some, ◌∷◌, find?, any, update_where, if◌then◌else◌, Result,
  ok, err, map_err, and_then,
}
use gaming_go_backend.Common.Int.{ℤ, pos, ltb_ℤ, eqb_ℤ}
use gaming_go_backend.Common.Time.{stored_time}
use gaming_go_backend.Common.Text.{Text, text_eq}
use gaming_go_backend.Money.{currency_eq, new, minor_units_of, currency_of}
use gaming_go_backend.Wallet.{Wallet, rehydrate}
use gaming_go_backend.Store.Base.{
  AppError, not_found, already_exists, concurrency_conflict, infrastructure, money_error,
  wallet_error, WalletRow, Db, World, Tx, lift, query, statement, ◌>>=◌,
}

abbrev pub has_id : Text → WalletRow → Bool
has_id id row = text_eq row.id id

abbrev same_owner : WalletRow → WalletRow → Bool
same_owner a b = text_eq a.player_id b.player_id && currency_eq a.currency b.currency

-- The outcome of the INSERT: the primary key and the table's checks fail as driver errors, and the
-- unique pair of player and currency as `ErrAlreadyExists`.
unfoldable pub insert_wallet_row : WalletRow → Db → Result AppError (Unit {0} × Db)
insert_wallet_row row db =
    if any (has_id row.id) db.wallets || ltb_ℤ row.balance (pos 0) || ltb_ℤ row.version (pos 1)
    then err infrastructure
    else if any (same_owner row) db.wallets
    then err already_exists
    else ok (tt, record db { wallets = row ∷ db.wallets })

-- `Insert`
unfoldable pub insert_wallet : World → Wallet → Tx (Unit {0})
insert_wallet world w = do
  balance ← lift (map_err money_error (minor_units_of w.balance))
  currency ← lift (map_err money_error (currency_of w.balance))
  statement world (
      insert_wallet_row (record {
        id = w.id;
        player_id = w.player_id;
        currency = currency;
        balance = balance;
        version = w.version;
        created_at = stored_time w.created_at;
        updated_at = stored_time w.updated_at;
      }))

-- A row decoded, as `find` does behind the query.
unfoldable pub wallet_of_row : WalletRow → Result AppError Wallet
wallet_of_row row = and_then (map_err money_error (new row.balance row.currency)) λ balance.
    map_err wallet_error (
      rehydrate (record {
        id = row.id;
        player_id = row.player_id;
        currency = row.currency;
        balance = balance;
        version = row.version;
        created_at = row.created_at;
        updated_at = row.updated_at;
      }))

unfoldable pub or_not_found : Option WalletRow → Result AppError WalletRow
or_not_found none = err not_found
or_not_found (some row) = ok row

-- `FindByID`, and `FindForUpdate`, which also locks the row.
unfoldable pub find_wallet : World → Text → Tx Wallet
unfolding or_not_found
find_wallet world id = do
  row ← query world (λ db. or_not_found (find? (has_id id) db.wallets))
  lift (wallet_of_row row)

abbrev pub at_version : Text → ℤ → WalletRow → Bool
at_version id version row = text_eq row.id id && eqb_ℤ row.version version

-- The outcome of the UPDATE, by its WHERE clause.
unfoldable pub update_balance_row : Wallet → ℤ → ℤ → Db → Result AppError (Unit {0} × Db)
update_balance_row w balance previous db =
    if not (any (at_version w.id previous) db.wallets)
    then err concurrency_conflict
    else ok (
      tt,
      record db {
        wallets =
            update_where (at_version w.id previous)
              (λ row. record row {
                balance = balance;
                version = w.version;
                updated_at = stored_time w.updated_at;
              })
              db.wallets;
      },
    )

-- `UpdateBalance`
unfoldable pub update_balance : World → Wallet → ℤ → Tx (Unit {0})
update_balance world w previous = do
  balance ← lift (map_err money_error (minor_units_of w.balance))
  statement world (update_balance_row w balance previous)
