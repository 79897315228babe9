-- ===== src/App/Open.antt =====
-- internal/walletapp/open_wallet.go and get_wallet.go: opening and reading a wallet.
pub mod Preservation
pub mod Books
use gaming_go_backend.Common.{Bool, true, false, Option, none, some, [], Result, ok, err, map_err}
use gaming_go_backend.Common.Text.{Text}
use gaming_go_backend.Common.Time.{Time}
use gaming_go_backend.Money
use gaming_go_backend.Money.{
  Currency, MoneyError, Money, zero_of, minor_units_of, currency_of, Order, compare_money,
}
use gaming_go_backend.Wallet.{Wallet, LedgerEntry, is_greater, open_wallet}
use gaming_go_backend.Transaction.{WagerTransaction, new_opening_transaction, mark_processed}
use gaming_go_backend.Operation.Codes
use gaming_go_backend.Operation.Codes.{Code}
use gaming_go_backend.Events.{new_processed_event, new_balance_changed_event}
use gaming_go_backend.Store.Base.{
  AppError, operation_error, already_exists, not_found, wallet_error, money_error, World, Tx, pure,
  lift, within_tx, new_id, now, ◌>>=◌, ◌>>◌,
}
use gaming_go_backend.Store.Wallets.{insert_wallet, find_wallet}
use gaming_go_backend.Store.Transactions.{insert_transaction}
use gaming_go_backend.Store.Ledger.{insert_ledger_entry}
use gaming_go_backend.App.{rename_error}
use gaming_go_backend.App.Process.Outbox.{publish, metadata, wager_aggregate, wallet_aggregate}

-- `OpenWalletInput`
pub record OpenWalletInput : Type 0 where
  pub player_id : Text
  pub initial_balance : Money
  pub correlation_id : Text

-- `ClassifyMoneyError`
unfoldable pub classify_money_error : MoneyError → Code
classify_money_error Money.unsupported_currency = Codes.unsupported_currency
classify_money_error _ = Codes.invalid_money

abbrev pub classified : {A : Type 0} → Result MoneyError A → Result AppError A
classified r = map_err (λ e. operation_error (classify_money_error e)) r

-- The two ids that a positive balance needs.
pub opening_ids : World → Bool → Tx (Text × Text)
opening_ids world false = pure ([], [])
opening_ids world true = do
  transaction_id ← new_id world
  entry_id ← new_id world
  pure (transaction_id, entry_id)

-- The OPENING transaction, where the wallet opens with a ledger entry.
opening_transaction :
    OpenWalletInput
    → Text
    → Text
    → Time
    → Option LedgerEntry
    → Result AppError (Option WagerTransaction)
opening_transaction i wallet_id id at none = ok none
opening_transaction i wallet_id id at (some _) =
    elim (new_opening_transaction (record {
      id = id;
      wallet_id = wallet_id;
      player_id = i.player_id;
      money = i.initial_balance;
      created_at = at;
    })) [
      | err _ ↦ err (operation_error Codes.invalid_request)
      | ok t ↦
          map_err (λ _. operation_error Codes.invalid_request)
            (elim (mark_processed at t) [ ok t ↦ ok (some t) | err e ↦ err e ])
    ]

-- The statements behind the insertion of the wallet.
persist_opening :
    World → Text → Wallet → Time → Option LedgerEntry → Option WagerTransaction → Tx (Unit {0})
persist_opening world correlation_id w at (some entry) (some t) = do
  balance ← lift (map_err money_error (minor_units_of w.balance))
  insert_transaction world t (some balance)
  insert_ledger_entry world entry
  event_id ← new_id world
  event ←
      lift (map_err wallet_error (new_processed_event (metadata event_id correlation_id [] at) t))
  publish world wager_aggregate at event
  event_id ← new_id world
  event ← lift (
      map_err wallet_error
        (new_balance_changed_event (metadata event_id correlation_id [] at) w entry))
  publish world wallet_aggregate at event
persist_opening world correlation_id w at _ _ = pure tt

abbrev wallet_exists : AppError → AppError
wallet_exists already_exists = operation_error Codes.wallet_already_exists
wallet_exists e = e

-- The wallet that opens, with its ledger entry if the balance is positive.
abbrev pub opening_of :
    OpenWalletInput
    → Currency
    → Text
    → Text × Text
    → Time
    → Result AppError (Wallet × Option LedgerEntry)
opening_of i currency wallet_id ids at =
    map_err (λ _. operation_error Codes.invalid_request)
      (open_wallet (record {
        id = wallet_id;
        player_id = i.player_id;
        currency = currency;
        initial_balance = i.initial_balance;
        opening_transaction_id = ids.0;
        ledger_entry_id = ids.1;
        occurred_at = at;
      }))

-- `Open`
unfoldable pub open_player_wallet : World → OpenWalletInput → Tx Wallet
unfolding opening_ids opening_transaction persist_opening
open_player_wallet world i = do
  currency ← lift (classified (currency_of i.initial_balance))
  at ← now world
  wallet_id ← new_id world
  zero ← lift (classified (zero_of currency))
  comparison ← lift (classified (compare_money i.initial_balance zero))
  ids ← opening_ids world (is_greater (ok comparison))
  opened ← lift (opening_of i currency wallet_id ids at)
  let (w, entry) = opened
  t ← lift (opening_transaction i wallet_id ids.0 at entry)
  rename_error wallet_exists (
      within_tx world
        (insert_wallet world w >> persist_opening world i.correlation_id w at entry t))
  pure w

abbrev wallet_missing : AppError → AppError
wallet_missing not_found = operation_error Codes.wallet_not_found
wallet_missing e = e

-- `Get`
unfoldable pub get_wallet : World → Text → Tx Wallet
get_wallet world id = rename_error wallet_missing (find_wallet world id)
