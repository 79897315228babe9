-- ===== src/Tests/Audit.antt =====
-- Inputs for the theorems on the audit of a ledger.
use gaming_go_backend.Common.{
  ℕ, ◌≡◌, refl, some, [], ◌∷◌, map, length, ok, keep_where, sort_by, insert_by, arith,
}
use gaming_go_backend.Common.Int.{ℤ, pos}
use gaming_go_backend.Common.Text.{Text, codes, text_eq}
use gaming_go_backend.Money.{brl, Money, is_supported, new}
use gaming_go_backend.Wallet.{credit, debit, Direction}
use gaming_go_backend.Store.Base.{LedgerRow, Db}
use gaming_go_backend.Store.Audit.{AuditEntry, entry_of_row}
use gaming_go_backend.Store.Audit.Paging.{follow, rows_after, follow_covers}

abbrev row_of_number : Text → Direction → ℕ → ℕ → ℕ → LedgerRow
row_of_number id direction amount before after = record {
  id = id;
  wallet_id = codes "wallet";
  transaction_id = id;
  direction = direction;
  amount = pos amount;
  currency = brl;
  balance_before = pos before;
  balance_after = pos after;
  occurred_at = 1;
}

-- The identity column of rows that are numbered by the length of their id.
abbrev number : LedgerRow → ℕ
number row = length row.id

abbrev reais : ℤ → Money
reais n = record { minor_units = n; currency = brl }

abbrev view : LedgerRow → AuditEntry
view row = record {
  sequence_number = number row;
  transaction_id = row.transaction_id;
  direction = row.direction;
  money = reais row.amount;
  balance_before = reais row.balance_before;
  balance_after = reais row.balance_after;
  occurred_at = row.occurred_at;
}

abbrev ledger_tables : Db
ledger_tables = record {
  wallets = [];
  transactions = [];
  ledger =
      row_of_number (codes "ccc") debit 20 70 50
      ∷ row_of_number (codes "bb") debit 30 100 70
      ∷ row_of_number (codes "a") credit 100 0 100
      ∷ [];
  outbox = [];
}

follow_covers_example :
    follow 4 number (codes "wallet") 0 1 ledger_tables
    ≡ ok (some (map view (rows_after number (codes "wallet") 0 ledger_tables)))
unfolding entry_of_row new is_supported keep_where sort_by insert_by text_eq
follow_covers_example =
    follow_covers number view (codes "wallet") 0 1 4 ledger_tables (refl, (refl, (refl, tt)))
      (
        ((λ e. ground (arith, e)), ((λ e. ground (arith, e)), tt)),
        (((λ e. ground (arith, e)), tt), (tt, tt)),
      )
      (omega arith) (omega arith)
