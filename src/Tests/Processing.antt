-- ===== src/Tests/Processing.antt =====
-- Inputs for the theorems on internal/walletapp and internal/walletpg.
mod Books
mod Worker
use gaming_go_backend.Common.{
  ℕ, suc, ◌≡◌, ◌⊎◌, refl, true, false, Bool, some, none, [], ◌∷◌, ok, err, ◌==◌,
}
use gaming_go_backend.Common.{find?, any, update_where}
use gaming_go_backend.Common.Int.{◌+ℤ◌, ◌-ℤ◌}
use gaming_go_backend.Common.Int64.{wrap64, add64, sub64}
use gaming_go_backend.Common.Text.{text_eq}
use gaming_go_backend.Money.{
  is_supported, new, zero_of, validate, minor_units_of, currency_of, require_comparable,
  add_overflows, subtract_overflows, add, subtract, negate, compare_units, compare_money,
}
use gaming_go_backend.Money.Decimal.{parse_byte, parse_loop, format_digits, format_uint, decimal}
use gaming_go_backend.Wallet.{
  zero_or_empty, require_currency, new_ledger_entry, balance_after_move, move, debit_wallet,
  credit_wallet, rehydrate, open_wallet, credit,
}
use gaming_go_backend.Transaction.{
  validate_non_negative_money, wrong_metadata, checked, new_external_transaction,
  is_allowed_transition, transition, mark_processed, mark_rejected, mark_pending_reference,
}
use gaming_go_backend.Operation.Codes.{code_text, classification_for}
use gaming_go_backend.Operation.Rules.{
  kind_rules, is_opaque_identifier, is_canonical_uuid, validate_input, rule_for, wrong_amount,
  validate_request, rule_direction, movement_decision, same_currency, validate_reference, evaluate,
  insufficient_funds_for,
}
use gaming_go_backend.Operation.Attempts.{classify_attempt}
use gaming_go_backend.Events.{
  new_event_envelope, new_processed_event, new_rejected_event, new_balance_changed_event,
  new_pending_reference_event,
}
use gaming_go_backend.Store.Base.{WalletRow, LedgerRow, query, statement, within_tx, new_id, now}
use gaming_go_backend.Store.Wallets.{
  insert_wallet_row, insert_wallet, wallet_of_row, find_wallet, update_balance_row, update_balance,
}
use gaming_go_backend.Store.Rows.{row_of, scan_text, transaction_of_row}
use gaming_go_backend.Store.Transactions.{
  conflicts, insert_row_or_nothing, insert_transaction, insert_new, insert_waiting, insert_pending,
}
use gaming_go_backend.Store.Lookups.{
  select_row, existing_of_row, find_existing, find_by_key, find_by_external, find_reference,
  exists_successful_reversal,
}
use gaming_go_backend.Store.Ledger.{
  insert_ledger_row, ledger_row, insert_ledger_entry, insert_outbox_row, insert_outbox,
}
use gaming_go_backend.App.Prepare.{is_printable, is_valid_idempotency_key, payload_hash, prepare}
use gaming_go_backend.App.Process.{
  conclude_new, attempt_new, conclude_lookup, check_wallet, lock_wallet, attempt, execute_in_tx,
  run_in_new_tx, process_with_retry, process_operation,
}
use gaming_go_backend.App.Process.Outbox.{publish, announce_movement, announce, write_outbox_events}
use gaming_go_backend.App.Process.Existing.{
  replay_result, answer, lookup_existing, reversed_already, resolve_found, resolve_decision,
}
use gaming_go_backend.App.Process.Movement.{
  move_wallet, moved_or_rejected, apply_movement, apply_decision,
}
use gaming_go_backend.App.Process.Persist.{
  announce_pending, process_pending_new, record_movement, persist_effects, persist_new, process_new,
}
use gaming_go_backend.Common.Int.{ℤ, pos}
use gaming_go_backend.Common.Text.{codes}
use gaming_go_backend.Money.{brl, Money}
use gaming_go_backend.Transaction
use gaming_go_backend.Transaction.{WagerKind, bet, processed}
use gaming_go_backend.Operation.Rules.{Request}
use gaming_go_backend.Store.Base.{WalletRow, LedgerRow, Session, Db, infrastructure, not_found}
use gaming_go_backend.App.{UseCase}
use gaming_go_backend.App.Prepare.{ProcessInput}
use gaming_go_backend.App.Process.Existing.{ProcessResult}
use gaming_go_backend.App.Process.Recorded.{IsRecorded, as_replay}
use gaming_go_backend.App.Process.Once.{
  IsDoneUnanswered, process_operation-once, process_operation-IsRecorded, process_operation-atomic,
}
use gaming_go_backend.App.Process.OneRow.{process_operation-Unique}
use gaming_go_backend.App.Resume.{fail_pending}
use gaming_go_backend.App.Steps.{given_up, done, rest, step, AppendOnly, Run-AppendOnly}
use gaming_go_backend.Store.Uniqueness.{rows, Unique}

abbrev reais : ℤ → Money
reais n = record { minor_units = n; currency = brl }

abbrev request : Request
request = record {
  provider_id = codes "provider";
  external_transaction_id = codes "external";
  player_id = codes "00000000-0000-0000-0000-000000000001";
  wallet_id = codes "00000000-0000-0000-0000-000000000002";
  round_id = codes "round";
  game_id = codes "game";
  kind = bet;
  money = reais (pos 300);
  reference_external_transaction_id = none;
}

abbrev input : ProcessInput
input = record {
  request = request;
  idempotency_key = codes "key";
  correlation_id = codes "correlation";
  causation_id = [];
  channel = codes "HTTP";
}

-- A world whose calls fail at one number, and one where none does.
abbrev failing : (ℕ → Bool) → UseCase
failing fails = record {
  world = record {
    fails = fails;
    applied = λ n. true;
    fresh_id = λ n. some (suc n ∷ []);
    clock = λ n. 5_000_000_000;
    db_clock = λ n. 6_000_000_000;
  };
  digest = λ r. codes "digest";
  pending_ttl = 1;
}

abbrev use_case : UseCase
use_case = failing (λ n. false)

abbrev wallet_row : WalletRow
wallet_row = record {
  id = codes "00000000-0000-0000-0000-000000000002";
  player_id = codes "00000000-0000-0000-0000-000000000001";
  currency = brl;
  balance = pos 1000;
  version = pos 1;
  created_at = 1;
  updated_at = 1;
}

abbrev opening_row : LedgerRow
opening_row = record {
  id = codes "entry";
  wallet_id = codes "00000000-0000-0000-0000-000000000002";
  transaction_id = codes "opening";
  direction = credit;
  amount = pos 1000;
  currency = brl;
  balance_before = pos 0;
  balance_after = pos 1000;
  occurred_at = 1;
}

abbrev tables : Db
tables = record {
  wallets = wallet_row ∷ [];
  transactions = [];
  ledger = opening_row ∷ [];
  outbox = [];
}

abbrev before : Session
before = record { db = tables; calls = 0 }

abbrev accepted : ProcessResult
accepted = record {
  transaction_id = 7 ∷ [];
  status = processed;
  failure_code = [];
  balance = reais (pos 700);
  pending_expires_at = none;
  idempotent_replay = false;
  kind = bet;
}

abbrev after : Session
after = (process_operation use_case input before).1

accepted_run : process_operation use_case input before ≡ (ok accepted, after)
unfolding find? any update_where ◌+ℤ◌ ◌-ℤ◌ wrap64 add64 sub64 text_eq is_supported new zero_of
    validate minor_units_of currency_of require_comparable add_overflows subtract_overflows add
    subtract negate compare_units compare_money parse_byte parse_loop format_digits format_uint
    decimal zero_or_empty require_currency new_ledger_entry balance_after_move move debit_wallet
    credit_wallet rehydrate open_wallet validate_non_negative_money wrong_metadata checked
    new_external_transaction is_allowed_transition transition mark_processed mark_rejected
    mark_pending_reference code_text classification_for kind_rules is_opaque_identifier
    is_canonical_uuid validate_input rule_for wrong_amount validate_request rule_direction
    movement_decision same_currency validate_reference evaluate insufficient_funds_for
    classify_attempt new_event_envelope new_processed_event new_rejected_event
    new_balance_changed_event new_pending_reference_event query statement within_tx new_id now
    insert_wallet_row insert_wallet wallet_of_row find_wallet update_balance_row update_balance
    row_of scan_text transaction_of_row conflicts insert_row_or_nothing insert_transaction
    insert_new insert_waiting insert_pending select_row existing_of_row find_existing find_by_key
    find_by_external find_reference exists_successful_reversal insert_ledger_row ledger_row
    insert_ledger_entry insert_outbox_row insert_outbox is_printable is_valid_idempotency_key
    payload_hash prepare conclude_new attempt_new conclude_lookup check_wallet lock_wallet attempt
    execute_in_tx run_in_new_tx process_with_retry process_operation publish announce_movement
    announce write_outbox_events replay_result answer lookup_existing reversed_already resolve_found
    resolve_decision move_wallet moved_or_rejected apply_movement apply_decision announce_pending
    process_pending_new record_movement persist_effects persist_new process_new Transaction.validate
accepted_run = refl

-- The same operation again, on the tables that the first one left.
abbrev again : Session
again = record { db = after.db; calls = 40 }

repeated_run :
    process_operation use_case input again
    ≡ (ok (as_replay accepted), (process_operation use_case input again).1)
unfolding find? any update_where ◌+ℤ◌ ◌-ℤ◌ wrap64 add64 sub64 text_eq is_supported new zero_of
    validate minor_units_of currency_of require_comparable add_overflows subtract_overflows add
    subtract negate compare_units compare_money parse_byte parse_loop format_digits format_uint
    decimal zero_or_empty require_currency new_ledger_entry balance_after_move move debit_wallet
    credit_wallet rehydrate open_wallet validate_non_negative_money wrong_metadata checked
    new_external_transaction is_allowed_transition transition mark_processed mark_rejected
    mark_pending_reference code_text classification_for kind_rules is_opaque_identifier
    is_canonical_uuid validate_input rule_for wrong_amount validate_request rule_direction
    movement_decision same_currency validate_reference evaluate insufficient_funds_for
    classify_attempt new_event_envelope new_processed_event new_rejected_event
    new_balance_changed_event new_pending_reference_event query statement within_tx new_id now
    insert_wallet_row insert_wallet wallet_of_row find_wallet update_balance_row update_balance
    row_of scan_text transaction_of_row conflicts insert_row_or_nothing insert_transaction
    insert_new insert_waiting insert_pending select_row existing_of_row find_existing find_by_key
    find_by_external find_reference exists_successful_reversal insert_ledger_row ledger_row
    insert_ledger_entry insert_outbox_row insert_outbox is_printable is_valid_idempotency_key
    payload_hash prepare conclude_new attempt_new conclude_lookup check_wallet lock_wallet attempt
    execute_in_tx run_in_new_tx process_with_retry process_operation publish announce_movement
    announce write_outbox_events replay_result answer lookup_existing reversed_already resolve_found
    resolve_decision move_wallet moved_or_rejected apply_movement apply_decision announce_pending
    process_pending_new record_movement persist_effects persist_new process_new Transaction.validate
repeated_run = refl

process_operation-once_example :
    (as_replay accepted ≡ as_replay accepted)
    × ((process_operation use_case input again).1.db ≡ again.db)
process_operation-once_example =
    process_operation-once use_case use_case input before after again
      (process_operation use_case input again).1 accepted (as_replay accepted) refl accepted_run
      refl repeated_run

process_operation-IsRecorded_example : IsRecorded input (codes "digest") accepted after.db
process_operation-IsRecorded_example =
    process_operation-IsRecorded use_case input before after accepted accepted_run

-- A world whose commit fails, although it was applied.
abbrev failing_commit : UseCase
failing_commit = failing (λ n. n == 15)

abbrev failed : Session
failed = (process_operation failing_commit input before).1

failed_run : process_operation failing_commit input before ≡ (err infrastructure, failed)
unfolding find? any update_where ◌+ℤ◌ ◌-ℤ◌ wrap64 add64 sub64 text_eq is_supported new zero_of
    validate minor_units_of currency_of require_comparable add_overflows subtract_overflows add
    subtract negate compare_units compare_money parse_byte parse_loop format_digits format_uint
    decimal zero_or_empty require_currency new_ledger_entry balance_after_move move debit_wallet
    credit_wallet rehydrate open_wallet validate_non_negative_money wrong_metadata checked
    new_external_transaction is_allowed_transition transition mark_processed mark_rejected
    mark_pending_reference code_text classification_for kind_rules is_opaque_identifier
    is_canonical_uuid validate_input rule_for wrong_amount validate_request rule_direction
    movement_decision same_currency validate_reference evaluate insufficient_funds_for
    classify_attempt new_event_envelope new_processed_event new_rejected_event
    new_balance_changed_event new_pending_reference_event query statement within_tx new_id now
    insert_wallet_row insert_wallet wallet_of_row find_wallet update_balance_row update_balance
    row_of scan_text transaction_of_row conflicts insert_row_or_nothing insert_transaction
    insert_new insert_waiting insert_pending select_row existing_of_row find_existing find_by_key
    find_by_external find_reference exists_successful_reversal insert_ledger_row ledger_row
    insert_ledger_entry insert_outbox_row insert_outbox is_printable is_valid_idempotency_key
    payload_hash prepare conclude_new attempt_new conclude_lookup check_wallet lock_wallet attempt
    execute_in_tx run_in_new_tx process_with_retry process_operation publish announce_movement
    announce write_outbox_events replay_result answer lookup_existing reversed_already resolve_found
    resolve_decision move_wallet moved_or_rejected apply_movement apply_decision announce_pending
    process_pending_new record_movement persist_effects persist_new process_new Transaction.validate
failed_run = refl

process_operation-atomic_example :
    (failed.db ≡ before.db)
    ⊎ IsDoneUnanswered failing_commit input before.db failed.db infrastructure
process_operation-atomic_example =
    process_operation-atomic failing_commit input before failed infrastructure failed_run

process_operation-Unique_example : Unique (rows after.db)
unfolding Unique
process_operation-Unique_example =
    process_operation-Unique use_case input before after (ok accepted) accepted_run tt

-- The operation and its repetition.
Run-AppendOnly_example : AppendOnly tables (process_operation use_case input again).1.db
Run-AppendOnly_example = Run-AppendOnly tables (process_operation use_case input again).1.db (
    step use_case before after (done input (ok accepted) accepted_run) (
      step use_case again (process_operation use_case input again).1
        (done input (ok (as_replay accepted)) repeated_run) rest))
