-- ===== src/Store/Uniqueness.antt =====
-- The unique indexes of the table of transactions, which the INSERTs of
-- internal/walletpg/transaction_repository.go keep.
use gaming_go_backend.Common.{
  suc, ◌+◌, ◌≡◌, sym, inl, inr, Bool, true, false, Option, none, some, List, [], ◌∷◌, any, Result,
  ok, arith, Bool-cases,
}
use mathlib.Core.Path.{subst}
use gaming_go_backend.Common.All.{All}
use gaming_go_backend.Common.Int.{ℤ}
use gaming_go_backend.Common.Text.{Text, text_eq_iff, text_eq_refl}
use gaming_go_backend.Common.Time.{Time}
use gaming_go_backend.Transaction.{WagerTransaction, opening, processed, is_reversal}
use gaming_go_backend.Store.Base.{
  AppError, TransactionRow, Db, World, Session, lift, pure, statement, called,
}
use gaming_go_backend.Store.Rows.{row_of}
use gaming_go_backend.Store.Transactions.{
  conflicts, with_row, insert_row_or_nothing, insert_new, insert_waiting, insert_pending,
  waiting_row, expiry_if,
}
use gaming_go_backend.Store.Logic.{Keeps-lift, Keeps-pure}
use gaming_go_backend.Store.Preservation.{Preserves, Keeps-Preserves, Preserves->>=}

abbrev pub rows : Db → List TransactionRow
rows db = db.transactions

-- What the unique indexes ask of two rows: other ids; another provider or idempotency key, and another
-- provider or external id, where neither is NULL; and of two PROCESSED rows other wallets where both
-- are openings, and other references where both are reversals.
pub record Distinct (row other : TransactionRow) : Type 0 where
  pub ids : row.id ≡ other.id → ⊥
  pub keys :
      (provider key : Text)
      → row.provider_id ≡ some provider
      → other.provider_id ≡ some provider
      → row.idempotency_key ≡ some key
      → other.idempotency_key ≡ some key
      → ⊥
  pub externals :
      (provider id : Text)
      → row.provider_id ≡ some provider
      → other.provider_id ≡ some provider
      → row.external_transaction_id ≡ some id
      → other.external_transaction_id ≡ some id
      → ⊥
  pub openings :
      row.kind ≡ opening
      → row.status ≡ processed
      → other.kind ≡ opening
      → other.status ≡ processed
      → row.wallet_id ≡ other.wallet_id
      → ⊥
  pub reversals :
      (reference : Text)
      → is_reversal row.kind ≡ true
      → row.status ≡ processed
      → is_reversal other.kind ≡ true
      → other.status ≡ processed
      → row.reference_transaction_id ≡ some reference
      → other.reference_transaction_id ≡ some reference
      → ⊥

-- Each row is distinct from every older one.
unfoldable pub Unique : List TransactionRow → Type 0
Unique [] = Unit {0}
Unique (row ∷ older) = All (Distinct row) older × Unique older

conflicts-Distinct : (row other : TransactionRow) → conflicts row other ≡ false → Distinct row other
unfolding conflicts
conflicts-Distinct row other free = record {
  ids = λ e. ground (arith, free, (text_eq_iff row.id other.id).1 e);
  keys = λ p k rp op rk ok. ground (arith, free, rp, op, rk, ok, text_eq_refl p, text_eq_refl k);
  externals =
      λ p x rp op rx ox. ground (arith, free, rp, op, rx, ox, text_eq_refl p, text_eq_refl x);
  openings = λ rk rs ok os e.
      ground (arith, free, rk, rs, ok, os, (text_eq_iff row.wallet_id other.wallet_id).1 e);
  reversals = λ r rk rs ok os rr or. ground (arith, free, rk, rs, ok, os, rr, or, text_eq_refl r);
}

free-Distinct :
    (row : TransactionRow) (older : List TransactionRow)
    → any (conflicts row) older ≡ false
    → All (Distinct row) older
unfolding any
free-Distinct row [] free = tt
free-Distinct row (other ∷ older) free = elim (Bool-cases (conflicts row other)) [
  | inl clash ↦ ground (arith, clash, free)
  | inr apart ↦
      (conflicts-Distinct row other apart, free-Distinct row older (ground (arith, apart, free)))
]

unchanged :
    (s s' : Session) (b : Bool)
    → ◌≡◌ {A = Result AppError Bool × Session} (ok false, called s) (ok b, s')
    → rows s'.db ≡ rows s.db
unchanged s s' b h = ground arith

grown :
    (s s' : Session) (b : Bool) (row : TransactionRow)
    → ◌≡◌ {A = Result AppError Bool × Session}
        (ok true, record s { db = with_row row s.db; calls = suc s.calls })
        (ok b, s')
    → rows s'.db ≡ row ∷ rows s.db
grown s s' b row h = ground arith

insert_row_or_nothing-Unique :
    (world : World) (row : TransactionRow) (s s' : Session) (b : Bool)
    → statement world (insert_row_or_nothing row) s ≡ (ok b, s')
    → Unique (rows s.db)
    → Unique (rows s'.db)
unfolding statement insert_row_or_nothing Unique
insert_row_or_nothing-Unique world row s s' b h u = elim (Bool-cases (world.fails s.calls)) [
  | inl bad ↦ ground (arith, bad, h)
  | inr up ↦ elim (Bool-cases (any (conflicts row) s.db.transactions)) [
    | inl clash ↦ subst Unique (sym (unchanged s s' b (ground (arith, up, clash, h)))) u
    | inr free ↦
        subst Unique (sym (grown s s' b row (ground (arith, up, free, h))))
          (free-Distinct row s.db.transactions free, u)
  ]
]

pub insert_new-Unique :
    (world : World) (t : WagerTransaction) (resulting : Option ℤ)
    → Preserves rows Unique (insert_new world t resulting)
unfolding insert_new
insert_new-Unique world t resulting =
    Preserves->>= _ _ (Keeps-Preserves (Keeps-lift (row_of t resulting)))
      λ row. record { preserved = λ s b s' h u. insert_row_or_nothing-Unique world row s s' b h u }

insert_waiting-Unique :
    (world : World) (row : TransactionRow) (next expires_at : Time)
    → Preserves rows Unique (insert_waiting world row next expires_at)
unfolding insert_waiting
insert_waiting-Unique world row next expires_at =
    Preserves->>= (statement world (insert_row_or_nothing (waiting_row row next expires_at)))
      (λ b. pure (expiry_if expires_at b))
      (record {
        preserved = λ s b s' h u.
            insert_row_or_nothing-Unique world (waiting_row row next expires_at) s s' b h u;
      })
      λ b. Keeps-Preserves (Keeps-pure (expiry_if expires_at b))

pub insert_pending-Unique :
    (world : World) (t : WagerTransaction) (next ttl : Time)
    → Preserves rows Unique (insert_pending world t next ttl)
unfolding insert_pending
insert_pending-Unique world t next ttl =
    Preserves->>= (lift (row_of t none))
      (λ row s. insert_waiting world row next (world.db_clock s.calls + ttl) s)
      (Keeps-Preserves (Keeps-lift (row_of t none)))
      λ row. record {
        preserved = λ s o s' h u.
            (insert_waiting-Unique world row next (world.db_clock s.calls + ttl)).preserved s o s' h
              u;
      }
