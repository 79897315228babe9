-- ===== src/App/Process/LookupExisting.antt =====
-- What `lookupExisting` of internal/walletapp/process_operation.go finds.
use gaming_go_backend.Common.{
  ◌≡◌, ap, inl, inr, Bool, true, false, Option, none, some, find?, if◌then◌else◌, Result, ok, err,
  arith, Option-cases, and_then,
}
use mathlib.Core.Path.{subst}
use gaming_go_backend.Store.Base.{
  AppError, not_found, infrastructure, called, TransactionRow, Db, World, Session, query,
}
use gaming_go_backend.Store.Rows.{scan_text}
use gaming_go_backend.Store.Lookups.{
  ExistingTransaction, select_row, existing_of_row, find_existing,
}
use gaming_go_backend.App.{or_none}

abbrev pub tables : Db → Db
tables db = db

-- What a lookup found, which is `ErrNotFound` where nothing was.
abbrev pub Found : (TransactionRow → Bool) → Option ExistingTransaction → Db → Type 0
Found p none db = find? p db.transactions ≡ none
Found p (some found) db =
    (row : TransactionRow) × (find? p db.transactions ≡ some row) × (existing_of_row row ≡ ok found)

existing_error :
    (row : TransactionRow) (e : AppError) → existing_of_row row ≡ err e → e ≡ infrastructure
unfolding existing_of_row scan_text
existing_error row e h = ground arith

-- A query whose `ErrNotFound` is taken for nothing.
abbrev pub Answers : {A : Type 0} → Option A → Result AppError A → Type 0
Answers none r = r ≡ err not_found
Answers (some a) r = r ≡ ok a

abbrev answer_of : {A : Type 0} → Bool → Result AppError A → Session → Result AppError A × Session
answer_of fails r s = if fails then (err infrastructure, called s) else (r, called s)

answer_case :
    {A : Type 0} (fails : Bool) (r : Result AppError A) (o : Option A) (s s' : Session)
    → or_none (λ s. answer_of fails r s) s ≡ (ok o, s')
    → Answers o r × (s'.db ≡ s.db)
answer_case true r o s s' h = ground arith
answer_case false (ok a) none s s' h = ground arith
answer_case false (ok a) (some b) s s' h = ground arith
answer_case false (err not_found) none s s' h = ground arith
answer_case false (err not_found) (some b) s s' h = ground arith
answer_case false (err e) o s s' h = ground arith

pub or_none-query :
    {A : Type 0} (world : World) (g : Db → Result AppError A) (s s' : Session) (o : Option A)
    → or_none (query world g) s ≡ (ok o, s')
    → Answers o (g s.db) × (s'.db ≡ s.db)
unfolding query
or_none-query world g s s' o h = answer_case (world.fails s.calls) (g s.db) o s s' h

selected_none :
    (p : TransactionRow → Bool) (o : Option ExistingTransaction) (db : Db)
    → find? p db.transactions ≡ none
    → Answers o (err not_found)
    → Found p o db
selected_none p none db nothing h = nothing
selected_none p (some found) db nothing h = ground arith

selected_some :
    (p : TransactionRow → Bool) (o : Option ExistingTransaction) (db : Db) (row : TransactionRow)
    → find? p db.transactions ≡ some row
    → Answers o (existing_of_row row)
    → Found p o db
selected_some p none db row at h = ground (arith, existing_error row not_found h)
selected_some p (some found) db row at h = (row, at, h)

abbrev chosen : Option TransactionRow → Result AppError ExistingTransaction
chosen row = and_then (elim row [ none ↦ err not_found | some row ↦ ok row ]) existing_of_row

selected :
    (p : TransactionRow → Bool) (o : Option ExistingTransaction) (db : Db)
    → Answers o (and_then (select_row p db) existing_of_row)
    → Found p o db
unfolding select_row
selected p o db h = elim (Option-cases (find? p db.transactions)) [
  | inl nothing ↦ selected_none p o db nothing (subst (λ r. Answers o r) (ap chosen nothing) h)
  | inr (row, at) ↦ selected_some p o db row at (subst (λ r. Answers o r) (ap chosen at) h)
]

-- What `find_existing` found, whichever column it looks in.
pub find_existing_lem :
    (world : World) (p : TransactionRow → Bool) (s s' : Session) (o : Option ExistingTransaction)
    → or_none (find_existing world p) s ≡ (ok o, s')
    → Found p o s.db × (s'.db ≡ s.db)
unfolding find_existing
find_existing_lem world p s s' o h =
    let (a, kept) = or_none-query world _ s s' o h in (selected p o s.db a, kept)
