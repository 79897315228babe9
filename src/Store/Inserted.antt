-- ===== src/Store/Inserted.antt =====
-- The row that an INSERT of internal/walletpg/transaction_repository.go leaves.
use gaming_go_backend.Common.{
  ◌+◌, ◌≡◌, refl, ap, inl, inr, true, Option, none, some, [], ◌∷◌, Result, ok, arith, Bool-cases,
}
use gaming_go_backend.Common.Int.{ℤ}
use gaming_go_backend.Common.Text.{Text}
use gaming_go_backend.Common.Time.{Time}
use gaming_go_backend.Money.{currency_of}
use gaming_go_backend.Transaction.{external, WagerTransaction}
use gaming_go_backend.Store.Base.{AppError, TransactionRow, World, Session, lift, pure, statement}
use gaming_go_backend.Store.Rows.{null_if_empty, text_or_empty, row_of}
use gaming_go_backend.Store.Transactions.{
  insert_row_or_nothing, insert_new, insert_pending, waiting_row, insert_waiting, expiry_if,
}
use gaming_go_backend.Store.Logic.{>>=-ok}

pub text_or_empty-null_if_empty : (s : Text) → text_or_empty (null_if_empty s) ≡ s
text_or_empty-null_if_empty [] = refl
text_or_empty-null_if_empty (c ∷ s) = refl

-- The columns of an external transaction.
pub record IsRowOf (t : WagerTransaction) (resulting : Option ℤ) (row : TransactionRow)
    : Type 0 where
  pub id : row.id ≡ t.id
  pub provider : row.provider_id ≡ some t.provider_id
  pub key : row.idempotency_key ≡ some t.idempotency_key
  pub external_id : row.external_transaction_id ≡ some t.external_transaction_id
  pub hash : row.payload_hash ≡ some t.payload_hash
  pub currency : currency_of t.money ≡ ok row.currency
  pub status : row.status ≡ t.status
  pub failure_code : row.failure_code ≡ null_if_empty t.failure_code
  pub balance : row.resulting_balance ≡ resulting
  pub unscheduled : row.pending_expires_at ≡ none

pub row_of-IsRowOf :
    (t : WagerTransaction) (resulting : Option ℤ) (row : TransactionRow)
    → t.origin ≡ external
    → row_of t resulting ≡ ok row
    → IsRowOf t resulting row
unfolding row_of
row_of-IsRowOf t resulting row o h = ground arith

insert_row_or_nothing_lem :
    (world : World) (row : TransactionRow) (s s' : Session)
    → statement world (insert_row_or_nothing row) s ≡ (ok true, s')
    → s'.db.transactions ≡ row ∷ s.db.transactions
unfolding statement insert_row_or_nothing
insert_row_or_nothing_lem world row s s' h = ground arith

pub insert_new_lem :
    (world : World) (t : WagerTransaction) (resulting : Option ℤ) (s s' : Session)
    → insert_new world t resulting s ≡ (ok true, s')
    → (row : TransactionRow) × (row_of t resulting ≡ ok row)
      × (s'.db.transactions ≡ row ∷ s.db.transactions)
unfolding insert_new
insert_new_lem world t resulting s s' h =
    let (row, u, e, rest) =
      >>=-ok (lift (row_of t resulting)) (λ row. statement world (insert_row_or_nothing row)) s true
        s' h in
    (
      row,
      ap (λ (p : Result AppError TransactionRow × Session). p.0) e,
      insert_row_or_nothing_lem world row s s' (ground (arith, rest, e)),
    )

insert_waiting_lem :
    (world : World) (row : TransactionRow) (next expires_at e : Time) (s s' : Session)
    → insert_waiting world row next expires_at s ≡ (ok (some e), s')
    → (e ≡ expires_at) × (s'.db.transactions ≡ waiting_row row next expires_at ∷ s.db.transactions)
unfolding insert_waiting
insert_waiting_lem world row next expires_at e s s' h =
    let (b, u, run, rest) =
      >>=-ok (statement world (insert_row_or_nothing (waiting_row row next expires_at)))
        (λ b. pure (expiry_if expires_at b)) s (some e) s' h in
    elim (Bool-cases b) [
      | inl ins ↦ (
        ground (arith, ins, rest),
        insert_row_or_nothing_lem world (waiting_row row next expires_at) s s'
            (ground (arith, ins, rest, run)),
      )
      | inr kept ↦ ground (arith, kept, rest)
    ]

pub insert_pending_lem :
    (world : World) (t : WagerTransaction) (next ttl e : Time) (s s' : Session)
    → insert_pending world t next ttl s ≡ (ok (some e), s')
    → (row : TransactionRow) × (row_of t none ≡ ok row)
      × (s'.db.transactions ≡ waiting_row row next e ∷ s.db.transactions)
unfolding insert_pending
insert_pending_lem world t next ttl e s s' h =
    let (row, u, run, rest) =
      >>=-ok (lift (row_of t none))
        (λ row s. insert_waiting world row next (world.db_clock s.calls + ttl) s) s (some e) s' h in
    let (same, shown) =
      insert_waiting_lem world row next (world.db_clock u.calls + ttl) e u s' rest in
    (
      row,
      ap (λ (p : Result AppError TransactionRow × Session). p.0) run,
      ground (arith, same, shown, run),
    )
