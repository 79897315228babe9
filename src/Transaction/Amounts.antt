-- ===== src/Transaction/Amounts.antt =====
-- internal/domain/wallet/wager_transaction.go: a transaction keeps the amount that it was made with.
use gaming_go_backend.Common.{◌≡◌, ok, arith}
use gaming_go_backend.Common.Text.{Text}
use gaming_go_backend.Common.Time.{Time}
use gaming_go_backend.Transaction.{
  WagerTransaction, Status, checked, ExternalTransactionInput, OpeningTransactionInput,
  new_external_transaction, new_opening_transaction, rehydrate_transaction, transition,
  mark_processed, mark_rejected, mark_pending_reference, resolve_reference,
}

checked_money : (t t' : WagerTransaction) → checked t ≡ ok t' → t'.money ≡ t.money
unfolding checked
checked_money t t' h = ground arith

pub new_external_transaction-money :
    (i : ExternalTransactionInput) (t : WagerTransaction)
    → new_external_transaction i ≡ ok t
    → t.money ≡ i.money
unfolding new_external_transaction
new_external_transaction-money i t h = checked_money _ t h

pub new_opening_transaction-money :
    (i : OpeningTransactionInput) (t : WagerTransaction)
    → new_opening_transaction i ≡ ok t
    → t.money ≡ i.money
unfolding new_opening_transaction
new_opening_transaction-money i t h = checked_money _ t h

pub rehydrate_transaction-money :
    (t t' : WagerTransaction) → rehydrate_transaction t ≡ ok t' → t'.money ≡ t.money
unfolding rehydrate_transaction
rehydrate_transaction-money t t' h = checked_money t t' h

transition_money :
    (next : Status) (code : Text) (at : Time) (t t' : WagerTransaction)
    → transition next code at t ≡ ok t'
    → t'.money ≡ t.money
unfolding transition
transition_money next code at t t' h = ground arith

pub mark_processed-money :
    (at : Time) (t t' : WagerTransaction) → mark_processed at t ≡ ok t' → t'.money ≡ t.money
unfolding mark_processed
mark_processed-money at t t' h = transition_money _ _ at t t' h

pub mark_rejected-money :
    (code : Text) (at : Time) (t t' : WagerTransaction)
    → mark_rejected code at t ≡ ok t'
    → t'.money ≡ t.money
unfolding mark_rejected
mark_rejected-money code at t t' h = transition_money _ code at t t' h

pub mark_pending_reference-money :
    (at : Time) (t t' : WagerTransaction) → mark_pending_reference at t ≡ ok t' → t'.money ≡ t.money
unfolding mark_pending_reference
mark_pending_reference-money at t t' h = transition_money _ _ at t t' h

pub resolve_reference-money :
    (reference : Text) (t t' : WagerTransaction)
    → resolve_reference reference t ≡ ok t'
    → t'.money ≡ t.money
unfolding resolve_reference
resolve_reference-money reference t t' h = ground arith
