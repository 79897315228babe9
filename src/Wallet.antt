-- ===== src/Wallet.antt =====
-- internal/domain/wallet/wallet.go: the wallet aggregate and its ledger entries.
-- A method that mutates `*Wallet` returns the new wallet. Its receiver is a wallet and not a nil
-- pointer: every caller in the repository has it from a constructor or from a repository.
pub mod Entries
pub mod Movements
pub mod History
pub mod Accepted
pub mod Opened
use gaming_go_backend.Common.{
  Bool, true, false, not, ◌&&◌, ◌||◌, Option, none, some, [], if◌then◌else◌, Result, ok, err, ◌>>=◌,
  ◌>>◌, fail_if, map_err,
}
use gaming_go_backend.Common.Int.{ℤ, pos, ltb_ℤ}
use gaming_go_backend.Common.Int64.{add64}
use gaming_go_backend.Common.Text.{Text, is_empty}
use gaming_go_backend.Common.Time.{Time, is_zero}
use gaming_go_backend.Money.{
  Currency, other, currency_eq, MoneyError, Money, zero_of, currency_of, add, subtract, Order, less,
  greater, same, compare_money,
}

-- The categories of `wallet.Error`, which transactions and events share, and the errors of money
-- that `move` hands on.
pub data WalletError : Type 0 where
  invalid_wallet insufficient_funds wallet_currency_mismatch invalid_ledger_entry : WalletError
  invalid_transaction invalid_transition invalid_event : WalletError
  of_money : MoneyError → WalletError

-- `other_direction` is every text but the two constants, the empty one of a LOSS among them.
pub data Direction : Type 0 where
  debit credit : Direction
  other_direction : Text → Direction

abbrev pub is_debit : Direction → Bool
is_debit debit = true
is_debit _ = false

abbrev pub is_movement : Direction → Bool
is_movement (other_direction _) = false
is_movement _ = true

pub record Wallet : Type 0 where
  pub id : Text
  pub player_id : Text
  pub currency : Currency
  pub balance : Money
  pub version : ℤ
  pub created_at : Time
  pub updated_at : Time

pub record NewInput : Type 0 where
  pub id : Text
  pub player_id : Text
  pub currency : Currency
  pub occurred_at : Time

pub record OpenInput : Type 0 where
  pub id : Text
  pub player_id : Text
  pub currency : Currency
  pub initial_balance : Money
  pub opening_transaction_id : Text
  pub ledger_entry_id : Text
  pub occurred_at : Time

pub record MovementInput : Type 0 where
  pub ledger_entry_id : Text
  pub transaction_id : Text
  pub money : Money
  pub occurred_at : Time

-- `LedgerEntryInput`, which is also all that a `WalletLedgerEntry` holds.
pub record LedgerEntry : Type 0 where
  pub id : Text
  pub wallet_id : Text
  pub transaction_id : Text
  pub direction : Direction
  pub money : Money
  pub balance_before : Money
  pub balance_after : Money
  pub occurred_at : Time

-- `zero, _ := money.Zero(currency)`: the zero value of Money stands in for an error.
unfoldable pub zero_or_empty : Currency → Money
zero_or_empty c = elim (zero_of c) [
  | ok m ↦ m
  | err _ ↦ record { minor_units = pos 0; currency = other [] }
]

-- `comparison, err := a.Compare(b); err == nil && comparison > 0`, and the same for `>= 0`.
abbrev pub is_greater : Result MoneyError Order → Bool
is_greater (ok greater) = true
is_greater _ = false

abbrev pub is_at_least : Result MoneyError Order → Bool
is_at_least (ok greater) = true
is_at_least (ok same) = true
is_at_least _ = false

abbrev pub is_same : Result MoneyError Order → Bool
is_same (ok same) = true
is_same _ = false

unfoldable pub require_currency : Money → Currency → Result WalletError (Unit {0})
require_currency value currency = do
  actual ← map_err (λ _. invalid_wallet) (currency_of value)
  fail_if (not (currency_eq actual currency)) wallet_currency_mismatch

-- `New`
unfoldable pub new : NewInput → Result WalletError Wallet
new i = do
  fail_if (is_empty i.id || is_empty i.player_id || is_zero i.occurred_at) invalid_wallet
  balance ← map_err (λ _. invalid_wallet) (zero_of i.currency)
  ok (record {
    id = i.id;
    player_id = i.player_id;
    currency = i.currency;
    balance = balance;
    version = pos 1;
    created_at = i.occurred_at;
    updated_at = i.occurred_at;
  })

abbrev invalid : {E A : Type 0} → E → Result MoneyError A → Result E A
invalid e = map_err (λ _. e)

-- `NewWalletLedgerEntry`
unfoldable pub new_ledger_entry : LedgerEntry → Result WalletError LedgerEntry
new_ledger_entry i = do
  fail_if
      (is_empty i.id
        || is_empty i.wallet_id
        || is_empty i.transaction_id
        || is_zero i.occurred_at
        || not (is_movement i.direction))
      invalid_ledger_entry
  currency ← invalid invalid_ledger_entry (currency_of i.money)
  map_err (λ _. invalid_ledger_entry) (require_currency i.balance_before currency)
  map_err (λ _. invalid_ledger_entry) (require_currency i.balance_after currency)
  let zero = zero_or_empty currency
  fail_if (not (is_greater (compare_money i.money zero))) invalid_ledger_entry
  fail_if (not (is_at_least (compare_money i.balance_before zero))) invalid_ledger_entry
  fail_if (not (is_at_least (compare_money i.balance_after zero))) invalid_ledger_entry
  expected ← invalid invalid_ledger_entry (
      if is_debit i.direction
      then subtract i.balance_before i.money
      else add i.balance_before i.money)
  fail_if (not (is_same (compare_money expected i.balance_after))) invalid_ledger_entry
  ok i

-- The balance after a movement, with the test for funds that only a debit makes.
unfoldable pub balance_after_move : Direction → Money → Money → Result WalletError Money
balance_after_move d balance amount =
    if is_debit d
    then if is_at_least (compare_money balance amount)
      then map_err of_money (subtract balance amount)
      else err insufficient_funds
    else map_err of_money (add balance amount)

-- `move`: the receiver changes in the last statement only, so an error leaves it as it was.
unfoldable pub move : Direction → Wallet → MovementInput → Result WalletError (LedgerEntry × Wallet)
move d w i = do
  fail_if (is_empty i.ledger_entry_id || is_empty i.transaction_id || is_zero i.occurred_at)
      invalid_wallet
  require_currency i.money w.currency
  fail_if (not (is_greater (compare_money i.money (zero_or_empty w.currency)))) invalid_ledger_entry
  after ← balance_after_move d w.balance i.money
  entry ← new_ledger_entry (record {
    id = i.ledger_entry_id;
    wallet_id = w.id;
    transaction_id = i.transaction_id;
    direction = d;
    money = i.money;
    balance_before = w.balance;
    balance_after = after;
    occurred_at = i.occurred_at;
  })
  ok (
    entry,
    record w { balance = after; version = add64 w.version (pos 1); updated_at = i.occurred_at },
  )

unfoldable pub debit_wallet : Wallet → MovementInput → Result WalletError (LedgerEntry × Wallet)
debit_wallet = move debit

unfoldable pub credit_wallet : Wallet → MovementInput → Result WalletError (LedgerEntry × Wallet)
credit_wallet = move credit

-- `Rehydrate`
unfoldable pub rehydrate : Wallet → Result WalletError Wallet
rehydrate w = do
  fail_if
      (is_empty w.id
        || is_empty w.player_id
        || ltb_ℤ w.version (pos 1)
        || is_zero w.created_at
        || is_zero w.updated_at)
      invalid_wallet
  require_currency w.balance w.currency
  fail_if (not (is_at_least (compare_money w.balance (zero_or_empty w.currency)))) invalid_wallet
  ok w

-- The opening credit of `Open`, for a positive initial balance.
opening_credit : OpenInput → Wallet → Result WalletError (Wallet × Option LedgerEntry)
opening_credit i w = do
  fail_if (is_empty i.opening_transaction_id || is_empty i.ledger_entry_id) invalid_wallet
  entry ← new_ledger_entry (record {
    id = i.ledger_entry_id;
    wallet_id = i.id;
    transaction_id = i.opening_transaction_id;
    direction = credit;
    money = i.initial_balance;
    balance_before = zero_or_empty i.currency;
    balance_after = i.initial_balance;
    occurred_at = i.occurred_at;
  })
  ok (record w { balance = i.initial_balance }, some entry)

-- `Open`
unfoldable pub open_wallet : OpenInput → Result WalletError (Wallet × Option LedgerEntry)
unfolding opening_credit
open_wallet i = do
  w ← new (record {
    id = i.id;
    player_id = i.player_id;
    currency = i.currency;
    occurred_at = i.occurred_at;
  })
  require_currency i.initial_balance i.currency
  let comparison = compare_money i.initial_balance (zero_or_empty i.currency)
  fail_if (not (is_at_least comparison)) invalid_wallet
  if is_same comparison then ok (w, none) else opening_credit i w
