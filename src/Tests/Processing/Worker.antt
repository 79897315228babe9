-- ===== src/Tests/Processing/Worker.antt =====
-- Inputs for the theorems on the reference worker: one operation that waits for its reference.
use gaming_go_backend.Common.{
  ◌+◌, ◌≡◌, refl, true, false, none, some, [], ◌∷◌, arith, any, update_where, keep_where, sort_by,
  take,
}
use gaming_go_backend.Common.All.{All}
use gaming_go_backend.Common.Int.{pos}
use gaming_go_backend.Common.Text.{codes, text_eq}
use gaming_go_backend.Money.{brl}
use gaming_go_backend.Transaction.{rollback, external, pending_reference, failed}
use gaming_go_backend.Store.Base.{TransactionRow, Db, infrastructure, invalid_persisted_transaction}
use gaming_go_backend.Store.Books.Sound.{Sound}
use gaming_go_backend.ReferenceWorker.{
  Worker, WorkerState, PendingRecord, retry_delay, recover, is_transient, is_among, ready_rows,
  lease_ready, is_ready,
}
use gaming_go_backend.ReferenceWorker.Recovery.{Recovered, recover_exact}
use gaming_go_backend.ReferenceWorker.Leases.{claimed, nothing, lease_ready-Free}
use gaming_go_backend.Common.{find?}
use gaming_go_backend.Money.{
  currency_of, zero_of, compare_money, is_supported, require_comparable, validate, compare_units,
  new,
}
use gaming_go_backend.Wallet.{zero_or_empty, rehydrate, require_currency}
use gaming_go_backend.Transaction
use gaming_go_backend.Transaction.{
  checked, rehydrate_transaction, validate_non_negative_money, wrong_metadata,
}
use gaming_go_backend.Operation.Codes.{code_text, permanent_processing_failure}
use gaming_go_backend.Store.Wallets.{wallet_of_row}
use gaming_go_backend.Store.Pending.{has_id}
use gaming_go_backend.ReferenceWorker.Calls.{IsReadable}
use gaming_go_backend.ReferenceWorker.Progress.{recover_puts_off, recover_gives_up}
use gaming_go_backend.Store.Rows.{scan_text, transaction_of_row}
use gaming_go_backend.ReferenceWorker.Unreadable.{IsUnreadable, recover_unreadable}
use gaming_go_backend.Tests.Processing.{use_case, tables, wallet_row}
use gaming_go_backend.Tests.Processing.Books.{tables-Sound}

abbrev waiting_operation : TransactionRow
waiting_operation = record {
  id = codes "waiting";
  external_transaction_id = some (codes "external");
  provider_id = some (codes "provider");
  idempotency_key = some (codes "key");
  payload_hash = some (codes "digest");
  wallet_id = wallet_row.id;
  player_id = wallet_row.player_id;
  round_id = some (codes "round");
  game_id = some (codes "game");
  kind = rollback;
  origin = external;
  amount = pos 300;
  currency = brl;
  reference_external_transaction_id = some (codes "missing");
  reference_transaction_id = none;
  status = pending_reference;
  failure_code = none;
  resulting_balance = none;
  attempts = 0;
  next_attempt_at = some 5;
  pending_expires_at = some 9_000_000_000;
  created_at = 4;
  updated_at = 4;
}

abbrev waiting_tables : Db
waiting_tables = record tables { transactions = waiting_operation ∷ [] }

waiting_tables-Sound : Sound waiting_tables
waiting_tables-Sound = record {
  books = tables-Sound.books;
  amounts = ((omega arith, omega arith), tt);
}

abbrev worker : Worker
worker = record {
  use_case = use_case;
  config = record {
    lease = 30;
    batch_size = 10;
    retry_base = pos 1;
    retry_max = pos 60;
    max_attempts = 10;
  };
  locked = λ n id. false;
  returned = λ n records. records;
  cancelled = λ n. false;
  random = λ n bound. pos 0;
}

abbrev waiting_record : PendingRecord
waiting_record = record {
  transaction_id = waiting_operation.id;
  wallet_id = waiting_operation.wallet_id;
  attempts = 0;
}

abbrev idle_worker : WorkerState
idle_worker = record {
  session = record { db = waiting_tables; calls = 0 };
  metrics = record { retries = 0; active = 0; failures = 0 };
}

recover_exact_example :
    Recovered true waiting_tables
      (recover worker waiting_record invalid_persisted_transaction idle_worker).session.db
unfolding is_transient
recover_exact_example =
    recover_exact worker waiting_record invalid_persisted_transaction idle_worker

-- Another claim before the deadline stands in between.
lease_ready-Free_example :
    All
      (λ row. is_among (waiting_operation ∷ []) row ≡ false)
      (ready_rows 12
        (λ id. false)
        5
        (lease_ready 50 (waiting_operation ∷ []) waiting_tables).transactions)
unfolding lease_ready update_where any keep_where text_eq ready_rows is_ready sort_by take
lease_ready-Free_example =
    lease_ready-Free 50 (waiting_operation ∷ []) 12 (λ id. false) 5 waiting_tables
      (lease_ready 50 (waiting_operation ∷ []) waiting_tables)
      (claimed 11 60 (λ id. false) 5 _ _ (omega arith) (nothing _)) (omega arith)

readable :
    IsReadable waiting_record.wallet_id waiting_record.transaction_id waiting_operation
      waiting_tables
unfolding wallet_of_row rehydrate require_currency find? text_eq transaction_of_row scan_text
    rehydrate_transaction checked Transaction.validate validate_non_negative_money wrong_metadata
    currency_of zero_or_empty zero_of new compare_money require_comparable validate is_supported
    compare_units
readable = record {
  wallet_row = wallet_row;
  wallet = _;
  transaction = _;
  expires_at = 9_000_000_000;
  wallet_found = refl;
  wallet_read = refl;
  found = refl;
  read = refl;
  waits = refl;
  expires = refl;
}

abbrev retried_worker : WorkerState
retried_worker = recover worker waiting_record infrastructure idle_worker

recover_puts_off_example :
    (find? (has_id waiting_record.transaction_id) retried_worker.session.db.transactions
      ≡ some (record waiting_operation {
        attempts = 1;
        next_attempt_at = some (6_000_000_000 + retry_delay worker waiting_record 0);
        updated_at = 6_000_000_000;
      }))
    × (retried_worker.metrics ≡ record { retries = 1; active = 0; failures = 0 })
unfolding is_transient
recover_puts_off_example =
    recover_puts_off worker waiting_record infrastructure idle_worker waiting_operation (λ n. refl)
      readable refl

abbrev failed_worker : WorkerState
failed_worker = recover worker waiting_record invalid_persisted_transaction idle_worker

recover_gives_up_example :
    ((row : TransactionRow) × (find?
          (has_id waiting_record.transaction_id)
          failed_worker.session.db.transactions
        ≡ some row)
      × (row.status ≡ failed)
      × (row.failure_code ≡ some (code_text permanent_processing_failure))
      × (row.resulting_balance ≡ none)
      × (row.next_attempt_at ≡ none))
    × (failed_worker.metrics ≡ record { retries = 0; active = 0; failures = 1 })
unfolding is_transient
recover_gives_up_example =
    recover_gives_up worker waiting_record invalid_persisted_transaction idle_worker
      waiting_operation (λ n. refl) readable refl refl

-- An operation without an id of its provider's, which does not rehydrate.
abbrev broken_tables : Db
broken_tables = record tables {
  transactions = record waiting_operation { external_transaction_id = some [] } ∷ [];
}

abbrev broken_worker : WorkerState
broken_worker = record idle_worker { session = record { db = broken_tables; calls = 0 } }

broken_operation : IsUnreadable waiting_operation.id broken_tables
unfolding find? text_eq transaction_of_row scan_text rehydrate_transaction checked
    Transaction.validate validate_non_negative_money wrong_metadata currency_of zero_or_empty
    zero_of new compare_money require_comparable validate is_supported compare_units
broken_operation = (record waiting_operation { external_transaction_id = some [] }, refl, refl)

recover_unreadable_example :
    ((recover worker waiting_record invalid_persisted_transaction broken_worker).session.db
      ≡ broken_tables)
    × ((recover worker waiting_record invalid_persisted_transaction broken_worker).metrics
        ≡ broken_worker.metrics)
recover_unreadable_example =
    recover_unreadable worker waiting_record invalid_persisted_transaction broken_worker
      broken_operation
