-- ===== src/ReferenceWorker/Leases.antt =====
-- The leases of internal/referenceworkerpg/store.go: next_attempt_at keeps a claimed operation out of the
-- claims that follow.
use gaming_go_backend.Common.{
  ℕ, ◌<◌, ◌≡◌, refl, sym, ap, ◌∙◌, ◌⊎◌, Bool, true, false, some, Option, List, [], ◌∷◌, any, arith,
  Bool-cases, inl, inr, update_where, keep_where, sort_by,
}
use gaming_go_backend.Common.All.{
  All, All-of, All-take, All-sort_by, All-keep_where, All-update_where,
}
use gaming_go_backend.Common.Int.{ℤ}
use gaming_go_backend.Common.Text.{Text, text_eq, text_eq_sound}
use gaming_go_backend.Common.Time.{Time}
use gaming_go_backend.Transaction.{WagerTransaction, is_pending_reference}
use gaming_go_backend.Store.Base.{TransactionRow, Db}
use gaming_go_backend.Store.Pending.{is_waiting, rescheduled, completed_row}
use gaming_go_backend.ReferenceWorker.{
  is_ready, due_time, ready_rows, is_among, leased, lease_ready,
}

-- Whether an operation is one of the claimed.
abbrev pub has_leased_id : List TransactionRow → Text → Bool
has_leased_id chosen id = any (λ c. text_eq c.id id) chosen

-- What the statements of others make of the table between a lease and its deadline: claims before the
-- deadline, new operations under other ids, other operations rescheduled, and any operation completed.
pub data Between (deadline : Time) (chosen : List TransactionRow)
    : List TransactionRow → List TransactionRow → Type 0 where
  nothing : (rows : List TransactionRow) → Between deadline chosen rows rows
  claimed :
      (now later : Time) (locked : Text → Bool) (batch : ℕ) (rows rows' : List TransactionRow)
      → now < deadline
      → Between deadline chosen
          (update_where (is_among (ready_rows now locked batch rows)) (leased later) rows)
          rows'
      → Between deadline chosen rows rows'
  inserted :
      (row : TransactionRow) (rows rows' : List TransactionRow)
      → has_leased_id chosen row.id ≡ false
      → Between deadline chosen (row ∷ rows) rows'
      → Between deadline chosen rows rows'
  put_off :
      (id : Text) (attempts : ℕ) (next now : Time) (rows rows' : List TransactionRow)
      → has_leased_id chosen id ≡ false
      → Between deadline chosen
          (update_where (is_waiting id) (rescheduled attempts next now) rows)
          rows'
      → Between deadline chosen rows rows'
  completed :
      (t : WagerTransaction) (resulting : Option ℤ) (rows rows' : List TransactionRow)
      → is_pending_reference t.status ≡ false
      → Between deadline chosen
          (update_where (is_waiting t.id) (completed_row t resulting) rows)
          rows'
      → Between deadline chosen rows rows'

module _ (deadline : Time) (chosen : List TransactionRow) where
  abbrev Free : TransactionRow → Type 0
  Free row = is_among chosen row ≡ false

  -- A row is not claimed, waits for the deadline, or waits no longer.
  abbrev Kept : TransactionRow → Type 0
  Kept row =
      Free row ⊎ (row.next_attempt_at ≡ some deadline) ⊎ (is_pending_reference row.status ≡ false)

  leased-Kept :
      (rows : List TransactionRow)
      → All Kept (update_where (is_among chosen) (leased deadline) rows)
  leased-Kept rows =
      All-update_where (λ (_ : TransactionRow). Unit {0}) Kept (is_among chosen) (leased deadline)
        rows (λ row among _. inr (inl refl)) (λ row free _. inl free)
        (All-of (λ (_ : TransactionRow). Unit {0}) rows λ _ _. tt)

  ready-Free :
      (now : Time) (locked : Text → Bool) (row : TransactionRow)
      → now < deadline
      → is_ready now locked row ≡ true
      → Kept row
      → Free row
  unfolding is_ready
  ready-Free now locked row early ready (inl free) = free
  ready-Free now locked row early ready (inr (inl waits)) = ground (arith, early, ready, waits)
  ready-Free now locked row early ready (inr (inr gone)) = ground (arith, ready, gone)

  ready_rows-Free :
      (now : Time) (locked : Text → Bool) (batch : ℕ) (rows : List TransactionRow)
      → now < deadline
      → All Kept rows
      → All Free (ready_rows now locked batch rows)
  unfolding ready_rows
  ready_rows-Free now locked batch rows early kept =
      let ready = keep_where (is_ready now locked) rows in
      let by_creation = sort_by (λ (row : TransactionRow). row.created_at) ready in
      All-take Free batch (sort_by due_time by_creation) (
        All-sort_by Free due_time by_creation (
          All-sort_by Free (λ row. row.created_at) ready
            (All-keep_where Kept Free (is_ready now locked) rows
              (λ row ready kept. ready-Free now locked row early ready kept) kept)))

  same_id-Free :
      (id : Text) (row : TransactionRow)
      → text_eq id row.id ≡ true
      → has_leased_id chosen id ≡ false
      → Free row
  same_id-Free id row same free =
      ap (has_leased_id chosen) (sym (text_eq_sound id row.id same)) ∙ free

  waiting-Free :
      (id : Text) (row : TransactionRow)
      → text_eq row.id id ≡ true
      → has_leased_id chosen id ≡ false
      → Free row
  waiting-Free id row same free = ap (has_leased_id chosen) (text_eq_sound row.id id same) ∙ free

  among-Free :
      (others : List TransactionRow) (row : TransactionRow)
      → All Free others
      → is_among others row ≡ true
      → Free row
  unfolding any
  among-Free [] row all among = ground arith
  among-Free (c ∷ others) row all among = elim (Bool-cases (text_eq c.id row.id)) [
    | inl same ↦ same_id-Free c.id row same all.0
    | inr other ↦ among-Free others row all.1 (ground (arith, other, among))
  ]

  -- A statement that changes no id and only rows that are free afterwards, or gone.
  updated-Kept :
      (p : TransactionRow → Bool) (f : TransactionRow → TransactionRow) (rows : List TransactionRow)
      → ((row : TransactionRow) → p row ≡ true → Kept (f row))
      → All Kept rows
      → All Kept (update_where p f rows)
  updated-Kept p f rows change kept =
      All-update_where Kept Kept p f rows (λ row h _. change row h) (λ row _ k. k) kept

  Between-Kept :
      (rows rows' : List TransactionRow)
      → Between deadline chosen rows rows'
      → All Kept rows
      → All Kept rows'
  unfolding completed_row
  Between-Kept _ _ (nothing rows) kept = kept
  Between-Kept _ _ (claimed now later locked batch rows rows' early next) kept =
      let ready = ready_rows now locked batch rows in
      Between-Kept _ rows' next (
        updated-Kept (is_among ready) (leased later) rows
          (λ row among.
            inl (among-Free ready row (ready_rows-Free now locked batch rows early kept) among))
          kept)
  Between-Kept _ _ (inserted row rows rows' free next) kept =
      Between-Kept (row ∷ rows) rows' next (inl free, kept)
  Between-Kept _ _ (put_off id attempts later now rows rows' free next) kept =
      Between-Kept _ rows' next (
        updated-Kept (is_waiting id) (rescheduled attempts later now) rows
          (λ row waits. inl (waiting-Free id row (ground (arith, waits)) free)) kept)
  Between-Kept _ _ (completed t resulting rows rows' gone next) kept = Between-Kept _ rows' next (
      updated-Kept (is_waiting t.id) (completed_row t resulting) rows (λ row _. inr (inr gone))
        kept)

  -- An operation that a claim has leased is taken by no other claim before the deadline of the lease,
  -- however many rows it asks for and whatever rows are locked then, and whatever statements stand in
  -- between, as long as they are claims before the deadline, insertions under other ids, and
  -- completions of any operation and rescheduling of operations that are not leased.
  pub lease_ready-Free :
      (now : Time) (locked : Text → Bool) (batch : ℕ) (db db' : Db)
      → Between deadline chosen (lease_ready deadline chosen db).transactions db'.transactions
      → now < deadline
      → All Free (ready_rows now locked batch db'.transactions)
  unfolding lease_ready
  lease_ready-Free now locked batch db db' between early =
      ready_rows-Free now locked batch db'.transactions early
        (Between-Kept _ db'.transactions between (leased-Kept db.transactions))
