-- ===== src/Store/Books/Pending.antt =====
-- internal/walletpg/transaction_repository.go: a pending transaction that is read has an int64 amount.
use gaming_go_backend.Common.{
  ◌≡◌, sym, ap, ◌∙◌, ok, arith, find?, inl, inr, Option-cases, Result-cases, map_err, map_err-ok,
  bind-ok, and_then,
}
use gaming_go_backend.Common.All.{All-find?}
use mathlib.Core.Path.{subst}
use gaming_go_backend.Common.Int64.{IsInt64}
use gaming_go_backend.Common.Text.{Text}
use gaming_go_backend.Common.Time.{Time}
use gaming_go_backend.Money.{new}
use gaming_go_backend.Transaction.{WagerTransaction}
use gaming_go_backend.Transaction.Amounts.{rehydrate_transaction-money}
use gaming_go_backend.Store.Base.{money_error, invalid_persisted_transaction, TransactionRow, Db}
use gaming_go_backend.Store.Rows.{scan_text, transaction_of_row}
use gaming_go_backend.Store.Lookups.{select_row}
use gaming_go_backend.Store.Pending.{PendingReferenceTransaction, has_id, pending_of_row}
use gaming_go_backend.Store.Books.Sound.{Sound, AmountFits}
use gaming_go_backend.Store.Books.Movement.{new_lem}

transaction_of_row-amount :
    (row : TransactionRow) (t : WagerTransaction)
    → transaction_of_row row ≡ ok t
    → t.money.minor_units ≡ row.amount
unfolding transaction_of_row
transaction_of_row-amount row t h =
    let (external_id, _, h1) = bind-ok (scan_text row.external_transaction_id) _ t h in
    let (provider_id, _, h2) = bind-ok (scan_text row.provider_id) _ t h1 in
    let (key, _, h3) = bind-ok (scan_text row.idempotency_key) _ t h2 in
    let (hash, _, h4) = bind-ok (scan_text row.payload_hash) _ t h3 in
    let (round_id, _, h5) = bind-ok (scan_text row.round_id) _ t h4 in
    let (game_id, _, h6) = bind-ok (scan_text row.game_id) _ t h5 in
    let (money, made, h7) = bind-ok (map_err money_error (new row.amount row.currency)) _ t h6 in
    ap (λ m. m.minor_units)
      (rehydrate_transaction-money _ t (map_err-ok (λ _. invalid_persisted_transaction) _ t h7))
    ∙ new_lem row.amount row.currency money (map_err-ok money_error _ money made)

pending_amount :
    (now : Time) (row : TransactionRow) (p : PendingReferenceTransaction)
    → pending_of_row now row ≡ ok p
    → p.transaction.money.minor_units ≡ row.amount
unfolding pending_of_row
pending_amount now row p h = elim (Option-cases row.pending_expires_at) [
  | inl e ↦ ground (arith, e, h)
  | inr (expires_at, e) ↦ elim (Result-cases (transaction_of_row row)) [
    | inr (x, bad) ↦ ground (arith, e, bad, h)
    | inl (t, good) ↦ ground (arith, e, good, h, transaction_of_row-amount row t good)
  ]
]

-- The amount of what `FindPendingForUpdate` selects from sound tables.
pub pending_fits :
    (id : Text) (now : Time) (db : Db) (p : PendingReferenceTransaction)
    → Sound db
    → and_then (select_row (has_id id) db) (pending_of_row now) ≡ ok p
    → IsInt64 p.transaction.money.minor_units
unfolding select_row
pending_fits id now db p sound h = elim (Option-cases (find? (has_id id) db.transactions)) [
  | inl e ↦ ground (arith, e, h)
  | inr (row, e) ↦
      subst IsInt64 (sym (pending_amount now row p (ground (arith, e, h))))
        (All-find? AmountFits (has_id id) db.transactions row sound.amounts e)
]
