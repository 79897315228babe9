-- ===== src/Store/Audit/Balance.antt =====
-- `Reconcile` of internal/walletpg/ledger_repository.go on tables whose balances are the sums of their
-- entries.
use gaming_go_backend.Common.{◌≡◌, refl, ap, ◌∙◌, true, some, ok, arith, find?, keep_where, length}
use gaming_go_backend.Common.Int.{ℤ, pos, ◌-ℤ◌, ◌≤ℤ◌}
use gaming_go_backend.Common.Int64.{IsInt64}
use gaming_go_backend.Common.All.{All-find?}
use gaming_go_backend.Common.Text.{Text}
use gaming_go_backend.Money.{Money, IsMoney, new, subtract, is_supported}
use gaming_go_backend.Money.Arithmetic.{subtract_exact}
use gaming_go_backend.Store.Base.{WalletRow, Db}
use gaming_go_backend.Store.Wallets.{has_id}
use gaming_go_backend.Store.Audit.{sum_of, of_wallet, reconciled, reconcile_db}
use gaming_go_backend.Store.Books.{Fits, stored_of}
use gaming_go_backend.Store.Books.Sound.{Sound}

abbrev money_of : WalletRow → ℤ → Money
money_of row a = record { minor_units = a; currency = row.currency }

minus_self : (a : ℤ) → a -ℤ a ≡ pos 0
unfolding ◌-ℤ◌
minus_self a = ground arith

module _ (row : WalletRow) (supported : is_supported row.currency ≡ true)
    (nonneg : pos 0 ≤ℤ row.balance) (fits : IsInt64 row.balance) where
  stored-IsMoney : IsMoney (money_of row row.balance)
  stored-IsMoney = record {
    supported = supported;
    above_min = omega (arith, nonneg);
    below_max = omega (arith, fits.1);
  }

  new_ok : new row.balance row.currency ≡ ok (money_of row row.balance)
  unfolding new
  new_ok = ground (arith, supported, nonneg)

  no_difference :
      subtract (money_of row row.balance) (money_of row row.balance) ≡ ok (money_of row (pos 0))
  no_difference =
      subtract_exact (money_of row row.balance) (money_of row row.balance) stored-IsMoney
        stored-IsMoney refl
      ∙ rw (minus_self row.balance) refl

-- A wallet in a supported currency, of tables whose balances are not negative and are the sums of their entries,
-- reconciles: the audit returns the stored balance, the same calculated balance, the difference 0 and
-- the number of the wallet's entries.
pub reconcile_balanced :
    (id : Text) (db : Db) (row : WalletRow)
    → Sound db
    → find? (has_id id) db.wallets ≡ some row
    → is_supported row.currency ≡ true
    → reconcile_db id db
      ≡ ok (record {
        wallet_id = id;
        stored_balance = money_of row row.balance;
        calculated_balance = money_of row row.balance;
        difference = money_of row (pos 0);
        checked_entries = length (keep_where (of_wallet id) db.ledger);
      })
unfolding reconcile_db reconciled
reconcile_balanced id db row sound found supported =
    let fit = All-find? Fits (has_id id) db.wallets row sound.books.fit found in
    let balanced : sum_of (keep_where (of_wallet id) db.ledger) ≡ row.balance =
      sound.books.balanced id ∙ ap stored_of found in
    ground (
      arith,
      found,
      balanced,
      fit.balance_fits,
      new_ok row supported fit.nonneg fit.balance_fits,
      no_difference row supported fit.nonneg fit.balance_fits,
    )
