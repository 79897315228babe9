-- ===== src/Tests/Domain.antt =====
-- Inputs for the theorems on internal/domain/money, internal/domain/wallet and internal/backoff.
use gaming_go_backend.Common.{
  ◌≡◌, refl, ◌≤◌, ◌+◌, ◌*◌, ◌^◌, true, [], ◌∷◌, if◌then◌else◌, ok, err, ◌>>=◌, arith, ltb,
}
use gaming_go_backend.Common.Int.{ℤ, pos, ◌+ℤ◌, ◌-ℤ◌, leb_ℤ}
use gaming_go_backend.Common.Int64.{add64, sub64, wrap64}
use gaming_go_backend.Common.Text.{Text, codes}
use gaming_go_backend.Money.{
  currency_of, zero_of, compare_money, is_supported, require_comparable, validate, add_overflows,
  negate, new, brl, Money, IsMoney, overflow, invalid_amount, add, subtract,
}
use gaming_go_backend.Money.Arithmetic.{fits, add_exact, subtract_exact, subtract-add}
use gaming_go_backend.Money.Decimal.{decimal, parse, canonical_amount}
use gaming_go_backend.Money.Decimal.RoundTrip.{parse-decimal}
use gaming_go_backend.Money.Decimal.Exact.{parse_exact, minor_units_in}
use gaming_go_backend.Wallet.{
  zero_or_empty, Wallet, MovementInput, LedgerEntry, insufficient_funds, of_money, debit, credit,
  debit_wallet, credit_wallet,
}
use gaming_go_backend.Wallet.Entries.{IsWallet, IsMovement}
use gaming_go_backend.Wallet.Movements.{debit_exact, credit_exact, entry_of, moved, with_units}
use gaming_go_backend.Wallet.History.{History, start, call, debited, Reconciles, History-Reconciles}
use gaming_go_backend.Transaction
use gaming_go_backend.Transaction.{
  pending_reference, transition, Status, checked, validate_non_negative_money, wrong_metadata,
  WagerTransaction, ExternalTransactionInput, bet, external, pending, processed, rejected,
  new_external_transaction, mark_pending_reference, mark_rejected, is_failure,
}
use gaming_go_backend.Transaction.Lifecycle.{
  Life, here, next, Step, waits, rejects, SameRequest, rank, status_changes, terminal_absorbs,
  Life-rank, Life-SameRequest,
}
use gaming_go_backend.Transaction.Validity.{IsValid, Life-IsValid, new_external_transaction_lem}
use gaming_go_backend.Backoff.{exponential, min, exponential_exact}

abbrev reais : ℤ → Money
reais n = record { minor_units = n; currency = brl }

reais-IsMoney : (n : ℤ) → fits n ≡ true → IsMoney (reais n)
unfolding is_supported
reais-IsMoney n h = record { supported = refl; above_min = ground arith; below_max = ground arith }

add_exact_example :
    add (reais (pos 150)) (reais (pos 50))
    ≡ (if fits (pos 150 +ℤ pos 50) then ok (reais (pos 150 +ℤ pos 50)) else err overflow)
add_exact_example =
    add_exact (reais (pos 150)) (reais (pos 50)) (reais-IsMoney (pos 150) refl)
      (reais-IsMoney (pos 50) refl) refl

subtract_exact_example :
    subtract (reais (pos 150)) (reais (pos 50))
    ≡ (if fits (pos 150 -ℤ pos 50) then ok (reais (pos 150 -ℤ pos 50)) else err overflow)
subtract_exact_example =
    subtract_exact (reais (pos 150)) (reais (pos 50)) (reais-IsMoney (pos 150) refl)
      (reais-IsMoney (pos 50) refl) refl

sum_of_two : add (reais (pos 150)) (reais (pos 50)) ≡ ok (reais (pos 200))
unfolding add add64 wrap64 ◌+ℤ◌ require_comparable validate is_supported add_overflows sub64 ◌-ℤ◌
    negate new
sum_of_two = refl

subtract-add_example : subtract (reais (pos 200)) (reais (pos 50)) ≡ ok (reais (pos 150))
subtract-add_example =
    subtract-add (reais (pos 150)) (reais (pos 50)) (reais (pos 200)) (reais-IsMoney (pos 150) refl)
      (reais-IsMoney (pos 50) refl) sum_of_two

parse-decimal_example : (decimal (reais (pos 1005)) >>= λ s. parse s brl) ≡ ok (reais (pos 1005))
parse-decimal_example =
    parse-decimal (reais (pos 1005)) (reais-IsMoney (pos 1005) refl) (ground arith)

parse_exact_example : parse (codes "10.05") brl ≡ (
    if canonical_amount (codes "10.05")
    then if ltb (minor_units_in 0 (codes "10.05")) (2 ^ 63)
      then ok (record { minor_units = pos (minor_units_in 0 (codes "10.05")); currency = brl })
      else err overflow
    else err invalid_amount)
unfolding is_supported
parse_exact_example = parse_exact (codes "10.05") brl refl

exponential_exact_example : exponential (pos 3) (pos 100) (pos 5000) ≡ pos (min (100 * 2 ^ 3) 5000)
exponential_exact_example = exponential_exact 3 100 5000 (ground arith)

abbrev account : Wallet
account = record {
  id = codes "wallet";
  player_id = codes "player";
  currency = brl;
  balance = reais (pos 1000);
  version = pos 1;
  created_at = 1;
  updated_at = 1;
}

account-IsWallet : IsWallet account
account-IsWallet = record {
  named = refl;
  owned = refl;
  created = refl;
  updated = refl;
  balance_money = reais-IsMoney (pos 1000) refl;
  one_currency = refl;
  nonneg = ground arith;
  versioned = ground arith;
  version_fits = ground arith;
}

abbrev of_300 : MovementInput
of_300 = record {
  ledger_entry_id = codes "entry";
  transaction_id = codes "transaction";
  money = reais (pos 300);
  occurred_at = 2;
}

of_300-IsMovement : IsMovement account of_300
of_300-IsMovement = record {
  entry_named = refl;
  transaction_named = refl;
  dated = refl;
  amount_money = reais-IsMoney (pos 300) refl;
  one_currency = refl;
  positive = ground arith;
}

debit_exact_example : debit_wallet account of_300 ≡ (
    let after = with_units account.balance (pos 1000 -ℤ pos 300) in
    if leb_ℤ (pos 300) (pos 1000)
    then ok (entry_of debit account of_300 after, moved account of_300 after)
    else err insufficient_funds)
debit_exact_example = debit_exact account of_300 account-IsWallet of_300-IsMovement

credit_exact_example : credit_wallet account of_300 ≡ (
    let after = with_units account.balance (pos 1000 +ℤ pos 300) in
    if fits (pos 1000 +ℤ pos 300)
    then ok (entry_of credit account of_300 after, moved account of_300 after)
    else err (of_money overflow))
credit_exact_example = credit_exact account of_300 account-IsWallet of_300-IsMovement

abbrev account_after : Wallet
account_after = moved account of_300 (reais (pos 700))

abbrev entry_after : LedgerEntry
entry_after = entry_of debit account of_300 (reais (pos 700))

one_debit : debit_wallet account of_300 ≡ ok (entry_after, account_after)
unfolding ◌-ℤ◌
one_debit = debit_exact account of_300 account-IsWallet of_300-IsMovement

one_call : History account (entry_after ∷ []) account_after
one_call = call (debited of_300 (reais-IsMoney (pos 300) refl) one_debit) start

History-Reconciles_example : Reconciles account (entry_after ∷ []) account_after
unfolding ◌+ℤ◌
History-Reconciles_example = History-Reconciles account-IsWallet (ground arith) one_call

abbrev bet_input : ExternalTransactionInput
bet_input = record {
  id = codes "transaction";
  external_transaction_id = codes "external";
  provider_id = codes "provider";
  idempotency_key = codes "key";
  payload_hash = codes "hash";
  wallet_id = codes "wallet";
  player_id = codes "player";
  round_id = codes "round";
  game_id = codes "game";
  kind = bet;
  money = reais (pos 300);
  reference_external_transaction_id = [];
  reference_transaction_id = [];
  created_at = 2;
}

abbrev bet_in : Status → Text → WagerTransaction
bet_in status code = record {
  id = codes "transaction";
  external_transaction_id = codes "external";
  provider_id = codes "provider";
  idempotency_key = codes "key";
  payload_hash = codes "hash";
  wallet_id = codes "wallet";
  player_id = codes "player";
  round_id = codes "round";
  game_id = codes "game";
  kind = bet;
  origin = external;
  money = reais (pos 300);
  reference_external_transaction_id = [];
  reference_transaction_id = [];
  status = status;
  failure_code = code;
  created_at = 2;
  updated_at = 2;
}

new_bet : new_external_transaction bet_input ≡ ok (bet_in pending [])
unfolding new_external_transaction checked Transaction.validate validate_non_negative_money
    wrong_metadata currency_of zero_or_empty zero_of new compare_money require_comparable validate
    is_supported
new_bet = refl

wait : Life (bet_in pending []) (bet_in pending_reference [])
unfolding mark_pending_reference transition
wait = next here (waits 2 refl)

waiting_rejected : Life (bet_in pending []) (bet_in rejected (codes "REFERENCE_NOT_FOUND"))
unfolding mark_rejected transition
waiting_rejected = next wait (rejects (codes "REFERENCE_NOT_FOUND") 2 refl)

terminal_absorbs_example :
    ¬ (Step (bet_in processed []) (bet_in rejected (codes "REFERENCE_NOT_FOUND")))
terminal_absorbs_example = terminal_absorbs refl

Life-rank_example : status_changes waiting_rejected + rank rejected ≤ rank pending
Life-rank_example = Life-rank waiting_rejected

Life-SameRequest_example :
    SameRequest (bet_in pending []) (bet_in rejected (codes "REFERENCE_NOT_FOUND"))
Life-SameRequest_example = Life-SameRequest waiting_rejected

Life-IsValid_example : IsValid (bet_in rejected (codes "REFERENCE_NOT_FOUND"))
Life-IsValid_example =
    Life-IsValid refl waiting_rejected (new_external_transaction_lem bet_input new_bet).0
