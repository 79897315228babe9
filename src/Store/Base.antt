-- ===== src/Store/Base.antt =====
-- The database, the world around it, and transactions over both.
use gaming_go_backend.Common.{
  ℕ, suc, Bool, Option, none, some, List, if◌then◌else◌, Result, ok, err,
}
use gaming_go_backend.Common.Int.{ℤ}
use gaming_go_backend.Common.Text.{Text}
use gaming_go_backend.Common.Time.{Time}
use gaming_go_backend.Money.{Currency, MoneyError}
use gaming_go_backend.Wallet.{WalletError, Direction}
use gaming_go_backend.Transaction.{WagerKind, Origin, Status}
use gaming_go_backend.Operation.Codes.{Code}
use gaming_go_backend.Events.{Event}

-- The errors of the application layer, told apart as far as `errors.Is` and `errors.As` do: a
-- wrapper with `%w` is the error that it wraps. `infrastructure` is any error of the driver.
pub data AppError : Type 0 where
  operation_error : Code → AppError
  not_found already_exists concurrency_conflict retry_in_new_transaction : AppError
  corrupted_balance invalid_persisted_transaction not_prepared forbidden_provider : AppError
  unresolved_reference unexpected_decision infrastructure id_generation : AppError
  wallet_error : WalletError → AppError
  money_error : MoneyError → AppError

pub record WalletRow : Type 0 where
  pub id : Text
  pub player_id : Text
  pub currency : Currency
  pub balance : ℤ
  pub version : ℤ
  pub created_at : Time
  pub updated_at : Time

-- `none` is NULL.
pub record TransactionRow : Type 0 where
  pub id : Text
  pub external_transaction_id : Option Text
  pub provider_id : Option Text
  pub idempotency_key : Option Text
  pub payload_hash : Option Text
  pub wallet_id : Text
  pub player_id : Text
  pub round_id : Option Text
  pub game_id : Option Text
  pub kind : WagerKind
  pub origin : Origin
  pub amount : ℤ
  pub currency : Currency
  pub reference_external_transaction_id : Option Text
  pub reference_transaction_id : Option Text
  pub status : Status
  pub failure_code : Option Text
  pub resulting_balance : Option ℤ
  pub attempts : ℕ
  pub next_attempt_at : Option Time
  pub pending_expires_at : Option Time
  pub created_at : Time
  pub updated_at : Time

pub record LedgerRow : Type 0 where
  pub id : Text
  pub wallet_id : Text
  pub transaction_id : Text
  pub direction : Direction
  pub amount : ℤ
  pub currency : Currency
  pub balance_before : ℤ
  pub balance_after : ℤ
  pub occurred_at : Time

-- `OutboxRecord`; the payload is the event, whose JSON the repository stores.
pub record OutboxRecord : Type 0 where
  pub event_id : Text
  pub event_type : Text
  pub aggregate_type : Text
  pub aggregate_id : Text
  pub event_version : ℕ
  pub occurred_at : Time
  pub payload : Event

-- The tables, the newest row first.
pub record Db : Type 0 where
  pub wallets : List WalletRow
  pub transactions : List TransactionRow
  pub ledger : List LedgerRow
  pub outbox : List OutboxRecord

-- What the code does not decide, by the number of the call: whether it fails, whether a commit that
-- fails was applied all the same, as one is whose answer is lost, new ids, and the clocks.
pub record World : Type 0 where
  pub fails : ℕ → Bool
  pub applied : ℕ → Bool
  pub fresh_id : ℕ → Option Text
  pub clock : ℕ → Time
  pub db_clock : ℕ → Time

pub record Session : Type 0 where
  pub db : Db
  pub calls : ℕ

abbrev pub Tx : Type 0 → Type 0
Tx A = Session → Result AppError A × Session

abbrev pub called : Session → Session
called s = record s { calls = suc s.calls }

module _ {A : Type 0} where
  abbrev pub pure : A → Tx A
  pure a s = (ok a, s)

  abbrev pub raise : AppError → Tx A
  raise e s = (err e, s)

  abbrev pub lift : Result AppError A → Tx A
  lift r s = (r, s)

  -- A statement that reads.
  unfoldable pub query : World → (Db → Result AppError A) → Tx A
  query world f s =
      if world.fails s.calls then (err infrastructure, called s) else (f s.db, called s)

  -- The result of a statement that writes; a failed one leaves the tables alone.
  abbrev pub wrote : Session → Result AppError (A × Db) → Result AppError A × Session
  wrote s (ok (a, db)) = (ok a, record s { db = db; calls = suc s.calls })
  wrote s (err e) = (err e, called s)

  unfoldable pub statement : World → (Db → Result AppError (A × Db)) → Tx A
  statement world f s =
      if world.fails s.calls then (err infrastructure, called s) else wrote s (f s.db)

  -- The end of a transaction: an error of its body brings back the tables, one of its commit leaves
  -- either the old tables or the new.
  abbrev pub finished : World → Session → Result AppError A × Session → Result AppError A × Session
  finished world s (err e, s') = (err e, record s' { db = s.db })
  finished world s (ok a, s') =
      if world.fails s'.calls
      then (
        err infrastructure,
        record s' { db = if world.applied s'.calls then s'.db else s.db; calls = suc s'.calls },
      )
      else (ok a, called s')

  -- `UnitOfWork.Execute`: the first call begins the transaction.
  unfoldable pub within_tx : World → Tx A → Tx A
  within_tx world body s =
      if world.fails s.calls
      then (err infrastructure, called s)
      else finished world s (body (called s))

module _ {A B : Type 0} where
  infixl 5 ◌>>=◌
  abbrev pub ◌>>=◌ : Tx A → (A → Tx B) → Tx B
  ◌>>=◌ m f s = let (r, s') = m s in elim r [ ok a ↦ f a s' | err e ↦ (err e, s') ]

module _ {B : Type 0} where
  infixl 5 ◌>>◌
  abbrev pub ◌>>◌ : Tx (Unit {0}) → Tx B → Tx B
  m >> k = m >>= λ _. k

abbrev pub fail_if : Bool → AppError → Tx (Unit {0})
fail_if b e s = (if b then err e else ok tt, s)

-- `newID`, over the uuid library.
unfoldable pub new_id : World → Tx Text
new_id world s = elim (world.fresh_id s.calls) [
  | none ↦ (err id_generation, called s)
  | some id ↦ (ok id, called s)
]

-- `uc.now()`
unfoldable pub now : World → Tx Time
now world s = (ok (world.clock s.calls), called s)
