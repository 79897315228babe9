-- ===== src/Tests/Processing/Books.antt =====
-- Inputs for the theorems on the balances and the ledger.
use gaming_go_backend.Common.{◌≡◌, refl, ok, Bool-cases, inl, inr, keep_where, find?, arith}
use gaming_go_backend.Common.Int.{pos, ◌+ℤ◌}
use gaming_go_backend.Common.Text.{Text, text_eq}
use gaming_go_backend.Money.{is_supported}
use gaming_go_backend.Store.Audit.{sum_of, signed_amount, of_wallet, reconcile_db}
use gaming_go_backend.Store.Audit.Balance.{reconcile_balanced}
use gaming_go_backend.Store.Books.{stored}
use gaming_go_backend.Store.Balances.{balances, Transfers}
use gaming_go_backend.Store.Books.Sound.{Sound}
use gaming_go_backend.App.Process.{process_operation}
use gaming_go_backend.App.Process.Recorded.{as_replay}
use gaming_go_backend.App.Steps.{done, rest, step}
use gaming_go_backend.App.Steps.Books.{Run-Sound, Run-Transfers}
use gaming_go_backend.Tests.Processing.{
  use_case, input, tables, wallet_row, before, after, again, accepted, accepted_run, repeated_run,
  reais,
}

tables_balanced :
    (id : Text) → sum_of (keep_where (of_wallet id) tables.ledger) ≡ stored id tables.wallets
unfolding sum_of signed_amount keep_where find? ◌+ℤ◌
tables_balanced id = elim (Bool-cases (text_eq wallet_row.id id)) [
  | inl e ↦ rw e refl
  | inr e ↦ rw e refl
]

pub tables-Sound : Sound tables
tables-Sound = record {
  books = record {
    balanced = tables_balanced;
    fit = (
      record {
        balance_fits = (omega arith, omega arith);
        version_fits = (omega arith, omega arith);
        nonneg = omega arith;
      },
      tt,
    );
  };
  amounts = tt;
}

-- A bet and its repetition.
Run-Sound_example : Sound (process_operation use_case input again).1.db
Run-Sound_example =
    Run-Sound tables (process_operation use_case input again).1.db
      (step use_case before after (done input (ok accepted) accepted_run) (
        step use_case again (process_operation use_case input again).1
          (done input (ok (as_replay accepted)) repeated_run) rest))
      ((omega arith, omega arith), ((omega arith, omega arith), tt)) tables-Sound

Run-Transfers_example :
    Transfers 2 (balances tables) (balances (process_operation use_case input again).1.db)
Run-Transfers_example =
    Run-Transfers tables (process_operation use_case input again).1.db
      (step use_case before after (done input (ok accepted) accepted_run) (
        step use_case again (process_operation use_case input again).1
          (done input (ok (as_replay accepted)) repeated_run) rest))
      ((omega arith, omega arith), ((omega arith, omega arith), tt)) tables-Sound

reconcile_balanced_example :
    reconcile_db wallet_row.id tables
    ≡ ok (record {
      wallet_id = wallet_row.id;
      stored_balance = reais (pos 1000);
      calculated_balance = reais (pos 1000);
      difference = reais (pos 0);
      checked_entries = 1;
    })
unfolding keep_where find? text_eq is_supported
reconcile_balanced_example =
    reconcile_balanced wallet_row.id tables wallet_row tables-Sound refl refl
