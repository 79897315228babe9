-- ===== src/App/Process/Movement.antt =====
-- internal/walletapp/process_operation.go: the movement that a decision asks for.
use gaming_go_backend.Common.{Bool, true, false, Option, none, some, if◌then◌else◌, Result, ok, err}
use gaming_go_backend.Common.Text.{Text, is_empty}
use gaming_go_backend.Common.Time.{Time}
use gaming_go_backend.Money.{Money}
use gaming_go_backend.Wallet.{
  WalletError, insufficient_funds, Direction, other_direction, is_debit, Wallet, MovementInput,
  LedgerEntry, debit_wallet, credit_wallet,
}
use gaming_go_backend.Transaction.{WagerKind}
use gaming_go_backend.Operation.Codes.{Code}
use gaming_go_backend.Operation.Rules.{Action, reject, Decision, insufficient_funds_for}
use gaming_go_backend.Store.Base.{AppError, wallet_error, World, Tx, pure, lift, new_id, ◌>>=◌}

-- The wallet, `entry` and `rejectionCode` behind the switch of `processNew`.
pub record Applied : Type 0 where
  pub wallet : Wallet
  pub entry : Option LedgerEntry
  pub rejection : Option Code

abbrev pub is_reject : Action → Bool
is_reject reject = true
is_reject _ = false

-- `direction == ""`
abbrev pub is_blank : Direction → Bool
is_blank (other_direction s) = is_empty s
is_blank _ = false

-- `Debit` for a debit and `Credit` for any other direction.
unfoldable pub move_wallet :
    Direction → Wallet → MovementInput → Result WalletError (LedgerEntry × Wallet)
move_wallet d w i = if is_debit d then debit_wallet w i else credit_wallet w i

-- A movement's outcome: a lack of funds rejects the operation and leaves the wallet as it is.
unfoldable pub moved_or_rejected :
    Wallet → WagerKind → Result WalletError (LedgerEntry × Wallet) → Result AppError Applied
moved_or_rejected w kind (ok (entry, w')) =
    ok (record { wallet = w'; entry = some entry; rejection = none })
moved_or_rejected w kind (err insufficient_funds) =
    ok (record { wallet = w; entry = none; rejection = some (insufficient_funds_for kind) })
moved_or_rejected w kind (err e) = err (wallet_error e)

-- The last case of the switch, under a new id for the ledger entry.
unfoldable pub apply_movement :
    World → Wallet → Direction → Text → Money → WagerKind → Time → Tx Applied
apply_movement world w d id money kind at = do
  entry_id ← new_id world
  lift (
      moved_or_rejected w kind (
        move_wallet d w (record {
          ledger_entry_id = entry_id;
          transaction_id = id;
          money = money;
          occurred_at = at;
        })))

-- The switch of `processNew`.
unfoldable pub apply_decision :
    World → Wallet → Decision → Text → Money → WagerKind → Time → Tx Applied
apply_decision world w decision id money kind at =
    if is_reject decision.action
    then pure (record { wallet = w; entry = none; rejection = decision.error })
    else if is_blank decision.direction
    then pure (record { wallet = w; entry = none; rejection = none })
    else apply_movement world w decision.direction id money kind at
