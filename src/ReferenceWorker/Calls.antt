-- ===== src/ReferenceWorker/Calls.antt =====
-- What the calls of internal/referenceworker/worker.go give that do not fail.
use gaming_go_backend.Common.{
  leb, ℕ, suc, ◌≡◌, refl, ap, ◌∙◌, inl, inr, Bool, true, false, ◌&&◌, Option, none, some, List, [],
  ◌∷◌, find?, any, update_where, Result, ok, err, and_then, arith, Bool-cases,
}
use gaming_go_backend.Common.Text.{Text}
use gaming_go_backend.Common.Time.{Time}
use gaming_go_backend.Wallet.{Wallet}
use gaming_go_backend.Transaction.{
  WagerTransaction, failed, is_pending_reference, rehydrate_transaction, checked,
}
use gaming_go_backend.Store.Base.{
  AppError, not_found, WalletRow, TransactionRow, Db, World, Session, Tx, called, query, statement,
  lift, within_tx, ◌>>=◌,
}
use gaming_go_backend.Store.Rows.{scan_text, transaction_of_row}
use gaming_go_backend.Store.Wallets
use gaming_go_backend.Store.Wallets.{find_wallet, wallet_of_row, or_not_found}
use gaming_go_backend.Store.Transactions.{both_reverse}
use gaming_go_backend.Store.Lookups.{select_row}
use gaming_go_backend.Store.Pending.{
  has_id, is_waiting, pending_of_row, find_pending, update_row, completed_row,
}
use gaming_go_backend.App.{or_none}

-- A waiting operation and its wallet, both of which can be read.
pub record IsReadable (wallet_id id : Text) (row : TransactionRow) (db : Db) : Type 0 where
  pub wallet_row : WalletRow
  pub wallet : Wallet
  pub transaction : WagerTransaction
  pub expires_at : Time
  pub wallet_found : find? (Wallets.has_id wallet_id) db.wallets ≡ some wallet_row
  pub wallet_read : wallet_of_row wallet_row ≡ ok wallet
  pub found : find? (has_id id) db.transactions ≡ some row
  pub read : transaction_of_row row ≡ ok transaction
  pub waits : is_pending_reference row.status ≡ true
  pub expires : row.pending_expires_at ≡ some expires_at

pub following :
    {A B : Type 0} (m : Tx A) (f : A → Tx B) (s t : Session) (a : A)
    → m s ≡ (ok a, t)
    → (m >>= f) s ≡ f a t
following {A} {B} m f s t a e =
    ap
      (λ (p : Result AppError A × Session). elim p.0 as (λ _. Result AppError B × Session) [
        | ok x ↦ f x p.1
        | err x ↦ (err x, p.1)
      ])
      e

or_none_up :
    {A : Type 0} (m : Tx A) (s t : Session) (a : A)
    → m s ≡ (ok a, t)
    → or_none m s ≡ (ok (some a), t)
or_none_up {A} m s t a e =
    ap
      (λ (p : Result AppError A × Session).
        elim p.0 as (λ _. Result AppError (Option A) × Session) [
          | ok x ↦ (ok (some x), p.1)
          | err x ↦ elim x as (λ _. Result AppError (Option A) × Session) [
            | not_found ↦ (ok none, p.1)
            | other ↦ (err other, p.1)
          ]
        ])
      e

-- A row that a search finds is found as what an UPDATE makes of it.
pub find?-update_where :
    (p q : TransactionRow → Bool) (f : TransactionRow → TransactionRow) (rows : List TransactionRow)
    (row : TransactionRow)
    → ((x : TransactionRow) → p (f x) ≡ p x)
    → find? p rows ≡ some row
    → q row ≡ true
    → find? p (update_where q f rows) ≡ some (f row)
unfolding find? update_where
find?-update_where p q f [] row keeps found hit = ground arith
find?-update_where p q f (x ∷ rows) row keeps found hit = elim (Bool-cases (p x)) [
  | inl e ↦ ground (arith, e, found, hit, keeps x)
  | inr e ↦ elim (Bool-cases (q x)) [
    | inl h ↦ ground (
      arith,
      e,
      h,
      keeps x,
      find?-update_where p q f rows row keeps (ground (arith, e, found)) hit,
    )
    | inr h ↦
        ground (arith, e, h, find?-update_where p q f rows row keeps (ground (arith, e, found)) hit)
  ]
]

pub found-any :
    (p q : TransactionRow → Bool) (rows : List TransactionRow) (row : TransactionRow)
    → find? p rows ≡ some row
    → q row ≡ true
    → any q rows ≡ true
unfolding find? any
found-any p q [] row found hit = ground arith
found-any p q (x ∷ rows) row found hit = elim (Bool-cases (p x)) [
  | inl e ↦ ground (arith, e, found, hit)
  | inr e ↦ ground (arith, e, found-any p q rows row (ground (arith, e, found)) hit)
]

pub found_hit :
    (p : TransactionRow → Bool) (rows : List TransactionRow) (row : TransactionRow)
    → find? p rows ≡ some row
    → p row ≡ true
unfolding find?
found_hit p [] row found = ground arith
found_hit p (x ∷ rows) row found = elim (Bool-cases (p x)) [
  | inl e ↦ ground (arith, e, found)
  | inr e ↦ found_hit p rows row (ground (arith, e, found))
]

module _ (world : World) (up : (n : ℕ) → world.fails n ≡ false) where
  pub within_tx_up :
      {A : Type 0} (body : Tx A) (s t : Session) (a : A)
      → body (called s) ≡ (ok a, t)
      → within_tx world body s ≡ (ok a, called t)
  unfolding within_tx
  within_tx_up body s t a run = ground (arith, up s.calls, up t.calls, run)

  query_up :
      {A : Type 0} (f : Db → Result AppError A) (s : Session) → query world f s ≡ (f s.db, called s)
  unfolding query
  query_up f s = rw (up s.calls)

  pub find_wallet_up :
      (id : Text) (wallet_row : WalletRow) (wallet : Wallet) (s : Session)
      → find? (Wallets.has_id id) s.db.wallets ≡ some wallet_row
      → wallet_of_row wallet_row ≡ ok wallet
      → find_wallet world id s ≡ (ok wallet, called s)
  unfolding find_wallet or_not_found
  find_wallet_up id wallet_row wallet s found read =
      following (query world (λ db. or_not_found (find? (Wallets.has_id id) db.wallets)))
        (λ row. lift (wallet_of_row row)) s (called s) wallet_row
        (query_up _ s ∙ ground (arith, found))
      ∙ ground (arith, read)

  pub find_pending_up :
      (id : Text) (row : TransactionRow) (t : WagerTransaction) (expires_at : Time) (s : Session)
      → find? (has_id id) s.db.transactions ≡ some row
      → transaction_of_row row ≡ ok t
      → row.pending_expires_at ≡ some expires_at
      → or_none (find_pending world id) s ≡ (
        ok (
            some (record {
              transaction = t;
              attempts = row.attempts;
              pending_expires_at = expires_at;
              expired = leb expires_at (world.db_clock s.calls);
            })),
        called s,
      )
  unfolding find_pending select_row pending_of_row
  find_pending_up id row t expires_at s found read expires =
      or_none_up (find_pending world id) s (called s) _ (
        query_up
          (λ db. and_then (select_row (has_id id) db) (pending_of_row (world.db_clock s.calls))) s
        ∙ ap (λ r. (r, called s)) (ground (arith, found, read, expires)))

  pub update_up :
      (id : Text) (f : TransactionRow → TransactionRow) (s : Session)
      → any (is_waiting id) s.db.transactions ≡ true
      → statement world (update_row id f) s ≡ (
        ok tt,
        record {
          db = record s.db { transactions = update_where (is_waiting id) f s.db.transactions };
          calls = suc s.calls;
        },
      )
  unfolding statement
  update_up id f s found = ground (arith, up s.calls, found)

pub read_same :
    (row : TransactionRow) (t : WagerTransaction)
    → transaction_of_row row ≡ ok t
    → (t.id ≡ row.id) × (t.status ≡ row.status)
unfolding transaction_of_row scan_text rehydrate_transaction checked
read_same row t h = ground (arith, h)

-- A completion that gives up clashes with no reversal.
no_clash :
    (t : WagerTransaction) (row : TransactionRow) (rows : List TransactionRow)
    → t.status ≡ failed
    → any (both_reverse (completed_row t none row)) rows ≡ false
unfolding any completed_row
no_clash t row [] gone = refl
no_clash t row (x ∷ rows) gone = ground (arith, gone, no_clash t row rows gone)

pub no_clashes :
    (t : WagerTransaction) (rows all : List TransactionRow)
    → t.status ≡ failed
    → any (λ row. is_waiting t.id row && any (both_reverse (completed_row t none row)) all) rows
      ≡ false
unfolding any
no_clashes t [] all gone = refl
no_clashes t (row ∷ rows) all gone =
    ground (arith, no_clash t row all gone, no_clashes t rows all gone)
