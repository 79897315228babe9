-- ===== src/Store/Audit/Paging.antt =====
-- internal/walletpg/ledger_repository.go: the pages of a ledger, one after another.
use mathlib.Core.List.{map-append}
use gaming_go_backend.Common.{
  ℕ, zero, suc, ◌<◌, ◌≤◌, ◌≡◌, refl, sym, ap, ◌∙◌, inl, inr, true, false, Option, none, some, List,
  [], ◌∷◌, ◌++◌, map, ltb, Result, ok, and_then, arith, Bool-cases, length, keep_where, take,
  sort_by,
}
use gaming_go_backend.Common.All.{All, All-of, All-take, All-sort_by, All-keep_where}
use gaming_go_backend.Common.Ascending.{
  Distinct, Ascending, sort_by-Ascending, keep_where-Ascending, nth_key, nth_key-Above, drop,
  take-append-drop, take-take, take_all, length-drop, length-take-le, keep_where-drop,
}
use gaming_go_backend.Common.Text.{Text, text_eq}
use gaming_go_backend.Store.Base.{AppError, LedgerRow, Db}
use gaming_go_backend.Store.Audit.{
  AuditEntry, LedgerPage, entry_of_row, scan_ledger_entries, is_after, page_rows, last_number,
  page_of, list_page,
}

-- A caller that asks for one page after another, each from the cursor that the one before gave; `none`
-- where its rounds run out.
proceed :
    (ℕ → Result AppError (Option (List AuditEntry)))
    → LedgerPage
    → Result AppError (Option (List AuditEntry))
proceed ask page = elim page.next [
  | none ↦ ok (some page.entries)
  | some cursor ↦
      and_then (ask cursor)
        λ more. elim more [ none ↦ ok none | some entries ↦ ok (some (page.entries ++ entries)) ]
]

unfoldable pub follow :
    ℕ → (LedgerRow → ℕ) → Text → ℕ → ℕ → Db → Result AppError (Option (List AuditEntry))
unfolding proceed
follow zero number wallet_id after limit db = ok none
follow (suc rounds) number wallet_id after limit db =
    and_then (list_page number wallet_id after limit db)
      (proceed (λ cursor. follow rounds number wallet_id cursor limit db))

-- The entries of a wallet after a cursor, in the order of the sequence.
abbrev pub rows_after : (LedgerRow → ℕ) → Text → ℕ → Db → List LedgerRow
rows_after number wallet_id after db =
    keep_where (is_after number wallet_id after) (sort_by number db.ledger)

module _ {A B : Type 0} (f : A → B) where
  take-map : (n : ℕ) (xs : List A) → take n (map f xs) ≡ map f (take n xs)
  unfolding take
  take-map zero xs = refl
  take-map (suc n) [] = refl
  take-map (suc n) (x ∷ xs) = ap (λ l. f x ∷ l) (take-map n xs)

  length-map : (xs : List A) → length (map f xs) ≡ length xs
  length-map [] = refl
  length-map (x ∷ xs) = ap suc (length-map xs)

module _ (number : LedgerRow → ℕ) (view : LedgerRow → AuditEntry) where
  scan_ledger_entries_lem :
      (rows : List LedgerRow)
      → All (λ row. entry_of_row number row ≡ ok (view row)) rows
      → scan_ledger_entries number rows ≡ ok (map view rows)
  unfolding scan_ledger_entries
  scan_ledger_entries_lem [] all = refl
  scan_ledger_entries_lem (row ∷ rows) all =
      rw (all.0, and_then) (rw (scan_ledger_entries_lem rows all.1, and_then))

  sequence_number_lem :
      (row : LedgerRow)
      → entry_of_row number row ≡ ok (view row)
      → (view row).sequence_number ≡ number row
  unfolding entry_of_row
  sequence_number_lem row h = ground (arith, h)

  last_number-nth_key :
      (n : ℕ) (rows : List LedgerRow)
      → All (λ row. entry_of_row number row ≡ ok (view row)) rows
      → last_number (suc n) (map view (take (suc (suc n)) rows)) ≡ nth_key number n rows
  unfolding last_number nth_key take
  last_number-nth_key n [] all = refl
  last_number-nth_key zero (row ∷ rows) all = ap some (sequence_number_lem row all.0)
  last_number-nth_key (suc n) (row ∷ rows) all = last_number-nth_key n rows all.1

-- What lies after a cursor beyond another.
keep_where-keep_where :
    (number : LedgerRow → ℕ) (wallet_id : Text) (after cursor : ℕ) (rows : List LedgerRow)
    → after ≤ cursor
    → keep_where
        (λ row. ltb cursor (number row))
        (keep_where (is_after number wallet_id after) rows)
      ≡ keep_where (is_after number wallet_id cursor) rows
unfolding keep_where
keep_where-keep_where number wallet_id after cursor [] h = refl
keep_where-keep_where number wallet_id after cursor (row ∷ rows) h =
    elim (Bool-cases (text_eq row.wallet_id wallet_id)) [
      | inr e ↦ ground (arith, e, keep_where-keep_where number wallet_id after cursor rows h)
      | inl e ↦ ground (arith, e, keep_where-keep_where number wallet_id after cursor rows h)
    ]

module _ (number : LedgerRow → ℕ) (view : LedgerRow → AuditEntry) (wallet_id : Text) (m : ℕ)
    (db : Db) (decodes : All (λ row. entry_of_row number row ≡ ok (view row)) db.ledger)
    (distinct : Distinct number db.ledger) where
  after_decodes :
      (after : ℕ)
      → All (λ row. entry_of_row number row ≡ ok (view row)) (rows_after number wallet_id after db)
  after_decodes after =
      All-keep_where (λ row. entry_of_row number row ≡ ok (view row))
        (λ row. entry_of_row number row ≡ ok (view row)) (is_after number wallet_id after) _
        (λ _ _ h. h)
        (All-sort_by (λ row. entry_of_row number row ≡ ok (view row)) number db.ledger decodes)

  after-Ascending : (after : ℕ) → Ascending number (rows_after number wallet_id after db)
  after-Ascending after =
      keep_where-Ascending number (is_after number wallet_id after) _
        (sort_by-Ascending number db.ledger distinct)

  list_page_lem :
      (after : ℕ)
      → list_page number wallet_id after (suc m) db
        ≡ ok
            (page_of (suc m) (map view (take (suc (suc m)) (rows_after number wallet_id after db))))
  unfolding list_page page_rows
  list_page_lem after = rw (
    scan_ledger_entries_lem number view (take (suc (suc m)) (rows_after number wallet_id after db))
        (All-take (λ row. entry_of_row number row ≡ ok (view row)) (suc (suc m)) _
          (after_decodes after)),
    and_then,
  )

  last_page :
      (after : ℕ)
      → ltb (suc m) (length (map view (take (suc (suc m)) (rows_after number wallet_id after db))))
        ≡ false
      → page_of (suc m) (map view (take (suc (suc m)) (rows_after number wallet_id after db)))
        ≡ record { entries = map view (rows_after number wallet_id after db); next = none }
  unfolding page_of
  last_page after last = rw last (
      ap (λ rows. record { entries = map view rows; next = none })
        (take_all (suc m) (rows_after number wallet_id after db) (
          ground (
            arith,
            last,
            length-map view (take (suc (suc m)) (rows_after number wallet_id after db)),
          ))))

  full_page :
      (after x : ℕ)
      → ltb (suc m) (length (map view (take (suc (suc m)) (rows_after number wallet_id after db))))
        ≡ true
      → nth_key number m (rows_after number wallet_id after db) ≡ some x
      → page_of (suc m) (map view (take (suc (suc m)) (rows_after number wallet_id after db)))
        ≡ record {
          entries = map view (take (suc m) (rows_after number wallet_id after db));
          next = some x;
        }
  unfolding page_of
  full_page after x more at = rw more (λ i. record {
    entries =
        (take-map view (suc m) (take (suc (suc m)) (rows_after number wallet_id after db))
            ∙ ap (map view) (take-take (suc m) (rows_after number wallet_id after db)))
          i;
    next =
        (last_number-nth_key number view m (rows_after number wallet_id after db)
              (after_decodes after)
            ∙ at)
          i;
  })

  joined :
      (after : ℕ)
      → map view (take (suc m) (rows_after number wallet_id after db))
          ++ map view (drop (suc m) (rows_after number wallet_id after db))
        ≡ map view (rows_after number wallet_id after db)
  joined after =
      sym (
        map-append view (take (suc m) (rows_after number wallet_id after db))
          (drop (suc m) (rows_after number wallet_id after db)))
      ∙ ap (map view) (take-append-drop (suc m) (rows_after number wallet_id after db))

  after_above : (after : ℕ) → All (λ row. after < number row) (rows_after number wallet_id after db)
  after_above after =
      All-keep_where (λ _. Unit {0}) (λ row. after < number row) (is_after number wallet_id after) _
        (λ row hit _. ground (arith, hit)) (All-of (λ _. Unit {0}) _ (λ _ _. tt))

  -- The rows after the cursor of a full page.
  after_page :
      (after x : ℕ)
      → nth_key number m (rows_after number wallet_id after db) ≡ some x
      → keep_where (λ row. ltb x (number row)) (rows_after number wallet_id after db)
        ≡ drop (suc m) (rows_after number wallet_id after db)
      → rows_after number wallet_id x db ≡ drop (suc m) (rows_after number wallet_id after db)
  after_page after x at rest =
      sym (
        keep_where-keep_where number wallet_id after x (sort_by number db.ledger) (
          let above =
            nth_key-Above number after m x (rows_after number wallet_id after db)
              (after_above after) at in
          omega arith))
      ∙ rest

  follow_first :
      (rounds after : ℕ) (page : LedgerPage)
      → page_of (suc m) (map view (take (suc (suc m)) (rows_after number wallet_id after db)))
        ≡ page
      → follow (suc rounds) number wallet_id after (suc m) db
        ≡ proceed (λ cursor. follow rounds number wallet_id cursor (suc m) db) page
  unfolding follow
  follow_first rounds after page e =
      ap (λ r. and_then r (proceed (λ cursor. follow rounds number wallet_id cursor (suc m) db)))
        (list_page_lem after)
      ∙ ap (proceed (λ cursor. follow rounds number wallet_id cursor (suc m) db)) e

  proceed_full :
      (rounds x : ℕ) (first more : List AuditEntry)
      → follow rounds number wallet_id x (suc m) db ≡ ok (some more)
      → proceed
          (λ cursor. follow rounds number wallet_id cursor (suc m) db)
          (record { entries = first; next = some x })
        ≡ ok (some (first ++ more))
  unfolding proceed
  proceed_full rounds x first more h = rw (h, and_then)

  follow_lem :
      (rounds after : ℕ)
      → length (rows_after number wallet_id after db) < rounds
      → follow rounds number wallet_id after (suc m) db
        ≡ ok (some (map view (rows_after number wallet_id after db)))
  unfolding proceed
  follow_lem zero after enough = elim enough [ ]
  follow_lem (suc rounds) after enough =
      let rows = rows_after number wallet_id after db in
      let shown = length-map view (take (suc (suc m)) rows) in
      elim (Bool-cases (ltb (suc m) (length (map view (take (suc (suc m)) rows))))) [
        | inr last ↦ follow_first rounds after _ (last_page after last)
        | inl more ↦
            let enough_rows : m < length rows =
              ground (arith, more, shown, length-take-le (suc (suc m)) rows) in
            let (x, at, rest) = keep_where-drop number m rows (after-Ascending after) enough_rows in
            let next = after_page after x at rest in
            let fewer : length (rows_after number wallet_id x db) < rounds =
              omega (arith, ap (λ l. length l) next, length-drop m rows enough_rows) in
            follow_first rounds after _ (full_page after x more at)
            ∙ proceed_full rounds x _ _
                (follow_lem rounds x fewer ∙ ap (λ l. ok (some (map view l))) next)
            ∙ ap (λ l. ok (some l)) (joined after)
      ]

-- Reading the pages of a wallet's ledger, each from the cursor of the one before, ends after at most
-- one more page than there are entries, and gives every entry of the wallet behind the first cursor
-- exactly once, in the order of the sequence, whatever the size of a page, where no two entries
-- have one sequence number and every row can be decoded.
pub follow_covers :
    (number : LedgerRow → ℕ) (view : LedgerRow → AuditEntry) (wallet_id : Text)
    (after limit rounds : ℕ) (db : Db)
    → All (λ row. entry_of_row number row ≡ ok (view row)) db.ledger
    → Distinct number db.ledger
    → 1 ≤ limit
    → length (rows_after number wallet_id after db) < rounds
    → follow rounds number wallet_id after limit db
      ≡ ok (some (map view (rows_after number wallet_id after db)))
follow_covers number view wallet_id after zero rounds db decodes distinct positive enough =
    absurd (omega arith)
follow_covers number view wallet_id after (suc m) rounds db decodes distinct positive enough =
    follow_lem number view wallet_id m db decodes distinct rounds after enough
