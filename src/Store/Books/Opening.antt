-- ===== src/Store/Books/Opening.antt =====
-- The statements of an opening, of internal/walletpg: a new wallet, and the entry of its balance.
use gaming_go_backend.Common.{
  ◌≡◌, refl, sym, ap, ◌∙◌, true, false, Option, none, some, List, [], ◌∷◌, ok, arith, find?, any,
  inl, inr, Bool-cases, map_err,
}
use gaming_go_backend.Common.All.{All}
use mathlib.Core.Path.{subst}
use gaming_go_backend.Common.Int.{ℤ, pos, ◌+ℤ◌, ◌≤ℤ◌}
use gaming_go_backend.Common.Int64.{IsInt64}
use gaming_go_backend.Common.Time.{stored_time}
use gaming_go_backend.Common.Text.{Text, text_eq, text_eq_sound, text_eq_refl}
use gaming_go_backend.Money.{Money, minor_units_of, currency_of}
use gaming_go_backend.Wallet.{Wallet, LedgerEntry, credit}
use gaming_go_backend.Wallet.Accepted.{signed}
use gaming_go_backend.Wallet.Opened.{IsOpened, Accounts}
use gaming_go_backend.Store.Base.{money_error, WalletRow, LedgerRow, Db, World, statement}
use gaming_go_backend.Store.Balances.{
  Balances, balances, balances_of, balance_in, Elsewhere, Transfer, added,
}
use gaming_go_backend.Store.Wallets.{has_id, insert_wallet_row, insert_wallet}
use gaming_go_backend.Store.Ledger.{ledger_row, insert_ledger_row, insert_ledger_entry}
use gaming_go_backend.Store.Audit.{signed_amount}
use gaming_go_backend.Store.Hoare.{Ensures, Ensures-lift->>=, Ensures-statement}
use gaming_go_backend.Store.Books.{Books, Fits, stored, stored_of, sum_of-own, sum_of-other}
use gaming_go_backend.Store.Books.Sound.{
  Sound, Started, Ended, AmountFits, Bookkeeping, Sound-Bookkeeping,
}
use gaming_go_backend.Store.Books.Movement.{minor_units_of_lem, ledger_row_lem}

module _ (row : WalletRow) (rest : List WalletRow) (id : Text) where
  stored-own : text_eq row.id id ≡ true → stored id (row ∷ rest) ≡ row.balance
  unfolding find?
  stored-own e = rw e refl

  stored-other : text_eq row.id id ≡ false → stored id (row ∷ rest) ≡ stored id rest
  unfolding find?
  stored-other e = rw e refl

  stored-fresh :
      text_eq row.id id ≡ true → find? (has_id row.id) rest ≡ none → stored id rest ≡ pos 0
  stored-fresh e fresh =
      ap (λ x. stored x rest) (sym (text_eq_sound row.id id e)) ∙ ap stored_of fresh

+ℤ_zero : (a : ℤ) → a +ℤ pos 0 ≡ a
unfolding ◌+ℤ◌
+ℤ_zero a = ground arith

module _ (row : WalletRow) (rest : List WalletRow) (ledger : List LedgerRow)
    (books : Books rest ledger) (fresh : find? (has_id row.id) rest ≡ none) (fits : Fits row) where
  -- A new row without a balance keeps the books.
  Books-empty : row.balance ≡ pos 0 → Books (row ∷ rest) ledger
  Books-empty empty = record {
    balanced = λ id. elim (Bool-cases (text_eq row.id id)) [
      | inl own ↦
          books.balanced id
          ∙ stored-fresh row rest id own fresh
          ∙ sym empty
          ∙ sym (stored-own row rest id own)
      | inr other ↦ books.balanced id ∙ sym (stored-other row rest id other)
    ];
    fit = (fits, books.fit);
  }

  -- A new row with a balance keeps them with the entry of the balance.
  Books-opened :
      (entry : LedgerRow)
      → entry.wallet_id ≡ row.id
      → signed_amount entry ≡ row.balance
      → Books (row ∷ rest) (entry ∷ ledger)
  Books-opened entry owner amount = record {
    balanced = λ id. elim (Bool-cases (text_eq row.id id)) [
      | inl own ↦
          sum_of-own id entry ledger (ap (λ x. text_eq x id) owner ∙ own)
          ∙ ap (λ a. signed_amount entry +ℤ a)
              (books.balanced id ∙ stored-fresh row rest id own fresh)
          ∙ +ℤ_zero (signed_amount entry)
          ∙ amount
          ∙ sym (stored-own row rest id own)
      | inr other ↦
          sum_of-other id entry ledger (ap (λ x. text_eq x id) owner ∙ other)
          ∙ books.balanced id
          ∙ sym (stored-other row rest id other)
    ];
    fit = (fits, books.fit);
  }

module _ (row : WalletRow) (rest : List WalletRow) where
  own_balance : balances_of (row ∷ rest) row.id ≡ some row.balance
  unfolding find?
  own_balance = rw (text_eq_refl row.id) refl

  other_balance : Elsewhere row.id (balances_of rest) (balances_of (row ∷ rest))
  unfolding find?
  other_balance id other = rw other refl

  -- A new row is one step of the abstract account.
  insert-Transfer :
      (start : Balances)
      → ((id : Text) → balances_of rest id ≡ start id)
      → find? (has_id row.id) rest ≡ none
      → Fits row
      → Transfer start (balances_of (row ∷ rest))
  insert-Transfer start same fresh fits =
      added row.id row.balance (sym (same row.id) ∙ ap balance_in fresh) own_balance fits.nonneg
        (λ id other. other_balance id other ∙ same id)

-- The tables with a wallet that is new, before the entry of its balance.
pub record Inserted (start : Balances) (w : Wallet) (db : Db) : Type 0 where
  rest : List WalletRow
  row : WalletRow
  same : db.wallets ≡ row ∷ rest
  started : (id : Text) → balances_of rest id ≡ start id
  books : Books rest db.ledger
  amounts : All AmountFits db.transactions
  fresh : find? (has_id row.id) rest ≡ none
  same_id : row.id ≡ w.id
  same_balance : row.balance ≡ w.balance.minor_units
  fits : Fits row

pub Inserted-Bookkeeping : (start : Balances) (w : Wallet) → Bookkeeping (Inserted start w)
Inserted-Bookkeeping start w = record {
  row_inserted = λ db row f p. record {
    rest = p.rest;
    row = p.row;
    same = p.same;
    started = p.started;
    books = p.books;
    amounts = (f, p.amounts);
    fresh = p.fresh;
    same_id = p.same_id;
    same_balance = p.same_balance;
    fits = p.fits;
  };
  row_changed = λ db id change same p. record {
    rest = p.rest;
    row = p.row;
    same = p.same;
    started = p.started;
    books = p.books;
    amounts =
        (Sound-Bookkeeping.row_changed (record db { wallets = p.rest }) id change same
          (record { books = p.books; amounts = p.amounts })).amounts;
    fresh = p.fresh;
    same_id = p.same_id;
    same_balance = p.same_balance;
    fits = p.fits;
  };
  event_inserted = λ db event p. record {
    rest = p.rest;
    row = p.row;
    same = p.same;
    started = p.started;
    books = p.books;
    amounts = p.amounts;
    fresh = p.fresh;
    same_id = p.same_id;
    same_balance = p.same_balance;
    fits = p.fits;
  };
}

none_found :
    (id : Text) (rows : List WalletRow)
    → any (has_id id) rows ≡ false
    → find? (has_id id) rows ≡ none
unfolding any find?
none_found id [] h = refl
none_found id (x ∷ rows) h = elim (Bool-cases (text_eq x.id id)) [
  | inl own ↦ ground (arith, own, h)
  | inr skip ↦ rw skip (none_found id rows (ground (arith, skip, h)))
]

insert_wallet_row_lem :
    (row : WalletRow) (db db' : Db) (a : Unit {0})
    → insert_wallet_row row db ≡ ok (a, db')
    → (any (has_id row.id) db.wallets ≡ false) × (db' ≡ record db { wallets = row ∷ db.wallets })
unfolding insert_wallet_row
insert_wallet_row_lem row db db' a h = (ground arith, ground arith)

pub insert_wallet-Inserted :
    (start : Balances) (world : World) (w : Wallet) (entry : Option LedgerEntry)
    → IsOpened w entry
    → Ensures (Started start) (insert_wallet world w) (λ _. Inserted start w)
unfolding insert_wallet
insert_wallet-Inserted start world w entry opened =
    Ensures-lift->>= (map_err money_error (minor_units_of w.balance)) _ λ balance units.
      Ensures-lift->>= (map_err money_error (currency_of w.balance)) _ λ currency _.
        Ensures-statement world _ (Started start) (λ _. Inserted start w)
          λ db db' a h p.
            let (fresh, same) = insert_wallet_row_lem _ db db' a h in
            let e = minor_units_of_lem w.balance balance units in
            subst (Inserted start w) (sym same) (record {
              rest = db.wallets;
              row = record {
                id = w.id;
                player_id = w.player_id;
                currency = currency;
                balance = balance;
                version = w.version;
                created_at = stored_time w.created_at;
                updated_at = stored_time w.updated_at;
              };
              same = refl;
              started = p.same;
              books = p.sound.books;
              amounts = p.sound.amounts;
              fresh = none_found _ db.wallets fresh;
              same_id = refl;
              same_balance = e;
              fits = record {
                balance_fits = subst IsInt64 (sym e) opened.balance_fits;
                version_fits = subst IsInt64 (sym opened.version_one) (omega arith, omega arith);
                nonneg = subst (λ a. pos 0 ≤ℤ a) (sym e) opened.nonneg;
              };
            })

inserted-Transfer :
    (start : Balances) (w : Wallet) (db : Db) → Inserted start w db → Transfer start (balances db)
inserted-Transfer start w db p =
    subst (λ rows. Transfer start (balances_of rows)) (sym p.same)
      (insert-Transfer p.row p.rest start p.started p.fresh p.fits)

pub Inserted-empty :
    (start : Balances) (w : Wallet)
    → Accounts w none
    → (db : Db) → Inserted start w db
    → Ended start db
Inserted-empty start w empty db p = record {
  sound = record {
    books =
        subst (λ rows. Books rows db.ledger) (sym p.same)
          (Books-empty p.row p.rest db.ledger p.books p.fresh p.fits (p.same_balance ∙ empty));
    amounts = p.amounts;
  };
  transfer = inserted-Transfer start w db p;
}

signed_credit :
    (e : LedgerEntry)
    → e.direction ≡ credit
    → signed e.direction e.money.minor_units ≡ e.money.minor_units
signed_credit e h = ap (λ d. signed d e.money.minor_units) h

pub insert_ledger_entry-Ended :
    (start : Balances) (world : World) (w : Wallet) (e : LedgerEntry)
    → Accounts w (some e)
    → Ensures (Inserted start w) (insert_ledger_entry world e) (λ _. Ended start)
unfolding insert_ledger_entry insert_ledger_row
insert_ledger_entry-Ended start world w e (owner, direction, money) =
    Ensures-lift->>= (ledger_row e) (λ row. statement world (insert_ledger_row row))
      λ row h.
        Ensures-statement world (insert_ledger_row row) (Inserted start w) (λ _. Ended start)
          λ db db' a g p.
            let (same_owner, amount) = ledger_row_lem e row h in
            let books : Books (p.row ∷ p.rest) (row ∷ db.ledger) =
              Books-opened p.row p.rest db.ledger p.books p.fresh p.fits row
                (same_owner ∙ owner ∙ sym p.same_id)
                (amount
                  ∙ signed_credit e direction
                  ∙ ap (λ (m : Money). m.minor_units) money
                  ∙ sym p.same_balance) in
            let sound : Sound (record db { ledger = row ∷ db.ledger }) = record {
              books = subst (λ rows. Books rows (row ∷ db.ledger)) (sym p.same) books;
              amounts = p.amounts;
            } in
            let ended : Ended start (record db { ledger = row ∷ db.ledger }) = record {
              sound = sound;
              transfer = inserted-Transfer start w db p;
            } in
            subst (Ended start) (ground arith) ended
