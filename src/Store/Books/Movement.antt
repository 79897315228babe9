-- ===== src/Store/Books/Movement.antt =====
-- The statements of a movement, of internal/walletpg: a wallet read, its ledger entry and its new
-- balance.
use gaming_go_backend.Common.{
  ◌≡◌, sym, ap, ◌∙◌, true, some, List, [], ◌∷◌, ok, arith, find?, inl, inr, Bool-cases,
  Option-cases, Result-cases, map_err,
}
use mathlib.Core.Path.{subst}
use gaming_go_backend.Common.Int.{ℤ, pos, ◌≤ℤ◌}
use gaming_go_backend.Common.Int64.{sub64}
use gaming_go_backend.Common.Text.{Text, text_eq, text_eq_sound}
use gaming_go_backend.Money.{Money, Currency, new, minor_units_of, validate, compare_money}
use gaming_go_backend.Wallet.{Wallet, LedgerEntry, rehydrate, is_at_least, zero_or_empty}
use gaming_go_backend.Wallet.Accepted.{Moves, Moved, signed, at_least_lem}
use gaming_go_backend.Store.Base.{
  money_error, WalletRow, LedgerRow, Db, World, Session, lift, query, statement,
}
use gaming_go_backend.Store.Balances.{Balances}
use gaming_go_backend.Store.Wallets.{
  has_id, wallet_of_row, find_wallet, or_not_found, update_balance_row, update_balance,
}
use gaming_go_backend.Store.Ledger.{ledger_row, insert_ledger_row, insert_ledger_entry}
use gaming_go_backend.Store.Audit.{signed_amount}
use gaming_go_backend.Store.Hoare.{
  Ensures, Ensures->>=, Ensures-query, Ensures-lift->>=, Ensures-statement,
}
use gaming_go_backend.Store.Books.{Read, rewrite, Books-move, move-Transfer}
use gaming_go_backend.Store.Books.Sound.{Started, Held, Ended}

rehydrated :
    (x w : Wallet)
    → rehydrate x ≡ ok w
    → (w ≡ x) × (is_at_least (compare_money x.balance (zero_or_empty x.currency)) ≡ true)
unfolding rehydrate
rehydrated x w h = (ground arith, ground arith)

pub new_lem : (a : ℤ) (c : Currency) (m : Money) → new a c ≡ ok m → m.minor_units ≡ a
unfolding new
new_lem a c m h = ground arith

-- What a wallet keeps of the row that it is read from.
record IsDecoded (row : WalletRow) (w : Wallet) : Type 0 where
  pub same_id : w.id ≡ row.id
  pub read : Read w row
  pub nonneg : pos 0 ≤ℤ w.balance.minor_units

decoded : (row : WalletRow) (w : Wallet) → wallet_of_row row ≡ ok w → IsDecoded row w
unfolding wallet_of_row
decoded row w h = elim (Result-cases (new row.balance row.currency)) [
  | inr (e, bad) ↦ ground (arith, bad, h)
  | inl (balance, good) ↦
      elim (Result-cases (
        rehydrate (record {
          id = row.id;
          player_id = row.player_id;
          currency = row.currency;
          balance = balance;
          version = row.version;
          created_at = row.created_at;
          updated_at = row.updated_at;
        }))) [
          | inr (e, bad) ↦ ground (arith, good, bad, h)
          | inl (x, checked) ↦
              let (same, least) = rehydrated _ x checked in
              let e : w ≡ x = ground (arith, good, checked, h) in
              let all = e ∙ same in
              record {
                same_id = ap (λ (y : Wallet). y.id) all;
                read = record {
                  same_balance =
                      ap (λ (y : Wallet). y.balance.minor_units) all
                      ∙ new_lem row.balance row.currency balance good;
                  same_version = ap (λ (y : Wallet). y.version) all;
                };
                nonneg =
                    subst (λ (y : Wallet). pos 0 ≤ℤ y.balance.minor_units) (sym all)
                      (at_least_lem balance row.currency least);
              }
        ]
]

found_id :
    (id : Text) (row : WalletRow) (rows : List WalletRow)
    → find? (has_id id) rows ≡ some row
    → row.id ≡ id
unfolding find?
found_id id row [] h = ground arith
found_id id row (x ∷ rows) h = elim (Bool-cases (text_eq x.id id)) [
  | inl own ↦ ground (arith, own, h, text_eq_sound x.id id own)
  | inr skip ↦ found_id id row rows (ground (arith, skip, h))
]

selected :
    (id : Text) (db : Db) (row : WalletRow)
    → or_not_found (find? (has_id id) db.wallets) ≡ ok row
    → find? (has_id id) db.wallets ≡ some row
unfolding or_not_found
selected id db row h = elim (Option-cases (find? (has_id id) db.wallets)) [
  | inl e ↦ ground (arith, e, h)
  | inr (x, e) ↦ ground (arith, e, h)
]

-- A wallet that is read from sound tables is what they hold.
pub find_wallet-Held :
    (start : Balances) (world : World) (id : Text)
    → Ensures (Started start) (find_wallet world id) (Held start)
unfolding find_wallet
find_wallet-Held start world id =
    Ensures->>= (λ row db. (find? (has_id id) db.wallets ≡ some row) × Started start db)
      (query world (λ db. or_not_found (find? (has_id id) db.wallets)))
      (λ row. lift (wallet_of_row row))
      (Ensures-query world (λ db. or_not_found (find? (has_id id) db.wallets)) (Started start)
        (λ row db. (find? (has_id id) db.wallets ≡ some row) × Started start db)
        λ db row h p. (selected id db row h, p))
      λ row. record {
        ensures = λ s w t h (found, p).
            let d = decoded row w (ground (arith, h)) in
            let same_id : id ≡ w.id = sym (found_id id row s.db.wallets found) ∙ sym d.same_id in
            let e : s ≡ t = ground (arith, h) in
            let held : Held start w s.db = record {
              started = p;
              row = row;
              found = subst (λ x. find? (has_id x) s.db.wallets ≡ some row) same_id found;
              read = d.read;
              nonneg = d.nonneg;
            } in
            subst (λ (u : Session). Held start w u.db) e held;
      }

pub ledger_row_lem :
    (e : LedgerEntry) (row : LedgerRow)
    → ledger_row e ≡ ok row
    → (row.wallet_id ≡ e.wallet_id) × (signed_amount row ≡ signed e.direction e.money.minor_units)
unfolding ledger_row minor_units_of validate signed_amount
ledger_row_lem e row h = ground arith

-- The tables between the two statements: the entry is in, and the row of the wallet is as before.
pub record Entered (start : Balances) (w w' : Wallet) (db : Db) : Type 0 where
  before : Db
  held : Held start w before
  entry : LedgerRow
  owned : entry.wallet_id ≡ w.id
  moves : Moves w w' (signed_amount entry)
  same : db ≡ record before { ledger = entry ∷ before.ledger }

pub insert_ledger_entry-Entered :
    (start : Balances) (world : World) (w w' : Wallet) (e : LedgerEntry)
    → Moved w e w'
    → Ensures (Held start w) (insert_ledger_entry world e) (λ _. Entered start w w')
unfolding insert_ledger_entry insert_ledger_row
insert_ledger_entry-Entered start world w w' e moved =
    Ensures-lift->>= (ledger_row e) (λ row. statement world (insert_ledger_row row))
      λ row h.
        Ensures-statement world (insert_ledger_row row) (Held start w) (λ _. Entered start w w')
          λ db db' a g p.
            let (owner, amount) = ledger_row_lem e row h in
            record {
              before = db;
              held = p;
              entry = row;
              owned = owner ∙ moved.same_owner;
              moves = subst (Moves w w') (sym amount) moved.moves;
              same = ground arith;
            }

pub minor_units_of_lem :
    (m : Money) (a : ℤ) → map_err money_error (minor_units_of m) ≡ ok a → a ≡ m.minor_units
unfolding minor_units_of validate
minor_units_of_lem m a h = ground arith

update_balance_row_lem :
    (w : Wallet) (balance previous : ℤ) (db db' : Db) (a : Unit {0})
    → update_balance_row w balance previous db ≡ ok (a, db')
    → db' ≡ record db { wallets = rewrite w balance previous db.wallets }
unfolding update_balance_row
update_balance_row_lem w balance previous db db' a h = ground arith

-- The tables behind the two statements.
abbrev moved_db : Wallet → LedgerRow → ℤ → Db → Db
moved_db w entry previous db = record db {
  wallets = rewrite w w.balance.minor_units previous db.wallets;
  ledger = entry ∷ db.ledger;
}

moved-Ended :
    (start : Balances) (w w' : Wallet) (db : Db) (p : Entered start w w' db)
    → Ended start (moved_db w' p.entry (sub64 w'.version (pos 1)) p.before)
moved-Ended start w w' db p = record {
  sound = record {
    books =
        Books-move w w' p.held.row p.before.wallets p.before.ledger p.entry
          p.held.started.sound.books p.held.found p.held.read p.owned p.moves;
    amounts = p.held.started.sound.amounts;
  };
  transfer =
      move-Transfer w w' p.held.row p.before.wallets p.before.ledger p.entry
        p.held.started.sound.books p.held.found p.held.read p.owned p.moves start
        p.held.started.same;
}

pub update_balance-Ended :
    (start : Balances) (world : World) (w w' : Wallet)
    → Ensures
        (Entered start w w')
        (update_balance world w' (sub64 w'.version (pos 1)))
        (λ _. Ended start)
unfolding update_balance
update_balance-Ended start world w w' =
    let previous = sub64 w'.version (pos 1) in
    Ensures-lift->>= (map_err money_error (minor_units_of w'.balance))
      (λ balance. statement world (update_balance_row w' balance previous))
      λ balance h.
        Ensures-statement world (update_balance_row w' balance previous) (Entered start w w')
          (λ _. Ended start)
          λ db db' a g p.
            subst (Ended start)
              (sym (
                update_balance_row_lem w' balance previous db db' a g
                ∙ ap (λ b. record db { wallets = rewrite w' b previous db.wallets })
                    (minor_units_of_lem w'.balance balance h)
                ∙ ap
                    (λ (d : Db). record d {
                      wallets = rewrite w' w'.balance.minor_units previous d.wallets;
                    })
                    p.same))
              (moved-Ended start w w' db p)
