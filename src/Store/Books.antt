-- ===== src/Store/Books.antt =====
-- The balances of internal/walletpg/wallet_repository.go against the rows of ledger_repository.go.

pub mod Sound
pub mod Movement
pub mod Pending
pub mod Opening
use gaming_go_backend.Common.{
  ◌≡◌, refl, sym, ap, ◌∙◌, true, false, Option, none, some, List, [], ◌∷◌, arith, if◌then◌else◌,
  find?, keep_where, update_where, inl, inr, Bool-cases,
}
use mathlib.Core.Path.{subst}
use gaming_go_backend.Common.All.{All, All-find?, All-update_where}
use gaming_go_backend.Common.Int.{ℤ, pos, ◌≤ℤ◌, eqb_ℤ, ◌+ℤ◌, ◌-ℤ◌, int_laws}
use gaming_go_backend.Common.Int64.{IsInt64, add64, sub64, wrap64, wrap64-IsInt64}
use gaming_go_backend.Common.Time.{stored_time}
use gaming_go_backend.Common.Text.{Text, text_eq, text_eq_refl, text_eq_sound}
use gaming_go_backend.Wallet.{Wallet}
use gaming_go_backend.Wallet.Accepted.{Moves}
use gaming_go_backend.Store.Base.{WalletRow, LedgerRow, Db}
use gaming_go_backend.Store.Balances.{Balances, balance_in, balances_of, Elsewhere, Transfer, moved}
use gaming_go_backend.Store.Wallets.{has_id, at_version}
use gaming_go_backend.Store.Audit.{sum_of, of_wallet, signed_amount}

-- The stored balance; an id without a row has no ledger row either, which a foreign key sees to.
abbrev or_zero : Option ℤ → ℤ
or_zero none = pos 0
or_zero (some a) = a

abbrev pub stored_of : Option WalletRow → ℤ
stored_of row = or_zero (balance_in row)

abbrev pub stored : Text → List WalletRow → ℤ
stored id wallets = stored_of (find? (has_id id) wallets)

-- The columns of a wallet row that are BIGINT, and a balance that is not overdrawn.
pub record Fits (row : WalletRow) : Type 0 where
  pub balance_fits : IsInt64 row.balance
  pub version_fits : IsInt64 row.version
  pub nonneg : pos 0 ≤ℤ row.balance

-- Every stored balance is the sum of the wallet's entries, a credit positive and a debit negative.
pub record Books (wallets : List WalletRow) (ledger : List LedgerRow) : Type 0 where
  pub balanced : (id : Text) → sum_of (keep_where (of_wallet id) ledger) ≡ stored id wallets
  pub fit : All Fits wallets

-- The columns that a movement changes, of the wallet as it was read.
pub record Read (w : Wallet) (row : WalletRow) : Type 0 where
  pub same_balance : w.balance.minor_units ≡ row.balance
  pub same_version : w.version ≡ row.version

module _ (id : Text) (row : LedgerRow) (rows : List LedgerRow) where
  sum_of-own :
      text_eq row.wallet_id id ≡ true
      → sum_of (keep_where (of_wallet id) (row ∷ rows))
        ≡ signed_amount row +ℤ sum_of (keep_where (of_wallet id) rows)
  unfolding sum_of keep_where
  sum_of-own e = rw e refl

  sum_of-other :
      text_eq row.wallet_id id ≡ false
      → sum_of (keep_where (of_wallet id) (row ∷ rows)) ≡ sum_of (keep_where (of_wallet id) rows)
  unfolding keep_where
  sum_of-other e = rw e refl

+ℤ_comm : (a b : ℤ) → a +ℤ b ≡ b +ℤ a
unfolding ◌+ℤ◌
+ℤ_comm a b = ground arith

-- The version of a row after it was raised and lowered.
pub sub64-add64 : (a : ℤ) → IsInt64 a → sub64 (add64 a (pos 1)) (pos 1) ≡ a
unfolding sub64 add64 wrap64 ◌+ℤ◌ ◌-ℤ◌
sub64-add64 a h = ground arith

other_text : (a b : Text) → text_eq a b ≡ false → text_eq b a ≡ false
other_text a b e = elim (Bool-cases (text_eq b a)) [
  | inl same ↦ ground (arith, e, same, text_eq_sound b a same, text_eq_refl a)
  | inr other ↦ other
]

-- The row as the UPDATE leaves it.
abbrev pub rewritten : Wallet → ℤ → WalletRow → WalletRow
rewritten w balance row = record row {
  balance = balance;
  version = w.version;
  updated_at = stored_time w.updated_at;
}

module _ (w : Wallet) (balance previous : ℤ) where
  abbrev pub rewrite : List WalletRow → List WalletRow
  rewrite rows = update_where (at_version w.id previous) (rewritten w balance) rows

  unread :
      (id : Text) (x : WalletRow)
      → text_eq w.id id ≡ false
      → text_eq x.id id ≡ true
      → at_version w.id previous x ≡ false
  unread id x other own = ground (arith, other_text w.id id other, text_eq_sound x.id id own)

  pub balances_of-rewrite_other :
      (id : Text) (rows : List WalletRow)
      → text_eq w.id id ≡ false
      → balances_of (rewrite rows) id ≡ balances_of rows id
  unfolding find? update_where
  balances_of-rewrite_other id [] other = refl
  balances_of-rewrite_other id (x ∷ rows) other = elim (Bool-cases (text_eq x.id id)) [
    | inl own ↦ rw (own, unread id x other own, own) refl
    | inr skip ↦ elim (Bool-cases (at_version w.id previous x)) [
      | inl hit ↦ rw (skip, hit, skip) (balances_of-rewrite_other id rows other)
      | inr miss ↦ rw (skip, miss, skip) (balances_of-rewrite_other id rows other)
    ]
  ]

  pub balances_of-rewrite_own :
      (row : WalletRow) (rows : List WalletRow)
      → find? (has_id w.id) rows ≡ some row
      → row.version ≡ previous
      → balances_of (rewrite rows) w.id ≡ some balance
  unfolding find? update_where
  balances_of-rewrite_own row [] found same = ground arith
  balances_of-rewrite_own row (x ∷ rows) found same = elim (Bool-cases (text_eq x.id w.id)) [
    | inl own ↦ ground (arith, found, own, same)
    | inr skip ↦
        rw (skip, skip) (balances_of-rewrite_own row rows (ground (arith, found, skip)) same)
  ]

module _ (w w' : Wallet) (row : WalletRow) (wallets : List WalletRow) (ledger : List LedgerRow)
    (entry : LedgerRow) where
  abbrev previous : ℤ
  previous = sub64 w'.version (pos 1)

  module _ (books : Books wallets ledger) (found : find? (has_id w.id) wallets ≡ some row)
      (read : Read w row) (owned : entry.wallet_id ≡ w.id)
      (moves : Moves w w' (signed_amount entry)) where
    found_moved : find? (has_id w'.id) wallets ≡ some row
    found_moved = ap (λ id. find? (has_id id) wallets) moves.same_wallet ∙ found

    same_previous : row.version ≡ previous
    same_previous =
        sym read.same_version
        ∙ sym (
            sub64-add64 w.version (
              subst IsInt64 (sym read.same_version)
                (All-find? Fits (has_id w.id) wallets row books.fit found).version_fits))
        ∙ ap (λ v. sub64 v (pos 1)) (sym moves.raised)

    raised_fits : IsInt64 w'.version
    unfolding add64
    raised_fits = subst IsInt64 (sym moves.raised) (wrap64-IsInt64 (w.version +ℤ pos 1))

    own_balance :
        balances_of (rewrite w' w'.balance.minor_units previous wallets) w'.id
        ≡ some w'.balance.minor_units
    own_balance =
        balances_of-rewrite_own w' w'.balance.minor_units previous row wallets found_moved
          same_previous

    other_balance :
        Elsewhere w'.id
          (balances_of wallets)
          (balances_of (rewrite w' w'.balance.minor_units previous wallets))
    other_balance id other =
        balances_of-rewrite_other w' w'.balance.minor_units previous id wallets other

    -- The balances move by one step of the abstract account.
    pub move-Transfer :
        (start : Balances)
        → ((id : Text) → balances_of wallets id ≡ start id)
        → Transfer start (balances_of (rewrite w' w'.balance.minor_units previous wallets))
    move-Transfer start same =
        moved w'.id row.balance w'.balance.minor_units
          (sym (same w'.id) ∙ ap balance_in found_moved) own_balance moves.nonneg
          (λ id other. other_balance id other ∙ same id)

    move_own :
        text_eq entry.wallet_id w'.id ≡ true
        → sum_of (keep_where (of_wallet w'.id) (entry ∷ ledger))
          ≡ stored w'.id (rewrite w' w'.balance.minor_units previous wallets)
    move_own own =
        sum_of-own w'.id entry ledger own
        ∙ ap (λ a. signed_amount entry +ℤ a)
            (books.balanced w'.id ∙ ap stored_of found_moved ∙ sym read.same_balance)
        ∙ +ℤ_comm (signed_amount entry) w.balance.minor_units
        ∙ sym moves.adds
        ∙ ap or_zero (sym own_balance)

    same_id : (id : Text) → text_eq entry.wallet_id id ≡ true → w'.id ≡ id
    same_id id own = moves.same_wallet ∙ sym owned ∙ text_eq_sound entry.wallet_id id own

    move_balanced :
        (id : Text)
        → sum_of (keep_where (of_wallet id) (entry ∷ ledger))
          ≡ stored id (rewrite w' w'.balance.minor_units previous wallets)
    move_balanced id = elim (Bool-cases (text_eq entry.wallet_id id)) [
      | inl own ↦
          subst
            (λ x.
              sum_of (keep_where (of_wallet x) (entry ∷ ledger))
              ≡ stored x (rewrite w' w'.balance.minor_units previous wallets))
            (same_id id own) (move_own (ap (text_eq entry.wallet_id) (same_id id own) ∙ own))
      | inr other ↦
          sum_of-other id entry ledger other
          ∙ books.balanced id
          ∙ ap or_zero (
              sym
                (other_balance id (ap (λ x. text_eq x id) (moves.same_wallet ∙ sym owned) ∙ other)))
    ]

    -- The entry of a movement and the new balance of the row that was read keep the books.
    pub Books-move : Books (rewrite w' w'.balance.minor_units previous wallets) (entry ∷ ledger)
    Books-move = record {
      balanced = move_balanced;
      fit =
          All-update_where Fits Fits (at_version w'.id previous)
            (rewritten w' w'.balance.minor_units) wallets
            (λ x _ _. record {
              balance_fits = moves.fits;
              version_fits = raised_fits;
              nonneg = moves.nonneg;
            })
            (λ x _ f. f) books.fit;
    }
