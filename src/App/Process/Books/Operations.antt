-- ===== src/App/Process/Books/Operations.antt =====
-- `Process` of internal/walletapp/process_operation.go keeps every balance the sum of its entries.
use gaming_go_backend.Common.{
  ◌≡◌, sym, Option, none, some, [], Result, ok, map_err, map_err-ok, arith, inl, inr, Result-cases,
}
use mathlib.Core.Path.{subst}
use gaming_go_backend.Common.Int64.{IsInt64}
use gaming_go_backend.Common.Text.{Text}
use gaming_go_backend.Common.Time.{Time}
use gaming_go_backend.Money.{Money, currency_of}
use gaming_go_backend.Wallet.{Wallet}
use gaming_go_backend.Transaction.{
  WagerTransaction, new_external_transaction, mark_pending_reference,
}
use gaming_go_backend.Transaction.Amounts.{
  new_external_transaction-money, mark_pending_reference-money, mark_processed-money,
  mark_rejected-money,
}
use gaming_go_backend.Operation.Codes.{Code, code_text}
use gaming_go_backend.Operation.Rules.{Decision, Request}
use gaming_go_backend.Store.Base.{AppError, wallet_error, World, Session, new_id}
use gaming_go_backend.Store.Wallets.{find_wallet}
use gaming_go_backend.Store.Transactions.{insert_pending}
use gaming_go_backend.Store.Preservation.{Preserves-new_id}
use gaming_go_backend.Store.Hoare.{
  Ensures, Ensures-pure, Ensures->>=, Ensures-next, Ensures-lift->>=, Ensures-if, Ensures-from,
  Ensures-knowing, Preserves-Ensures,
}
use gaming_go_backend.Store.Balances.{Balances, balances}
use gaming_go_backend.Store.Books.Sound.{
  Sound, Started, Held, Ended, Started-Bookkeeping, Ended-Bookkeeping, event_kept,
  insert_pending-kept, idle, at_start,
}
use gaming_go_backend.Store.Books.Movement.{find_wallet-Held}
use gaming_go_backend.App.{UseCase, rename_error}
use gaming_go_backend.App.Logic.{rename_error-ok}
use gaming_go_backend.App.Prepare.{ProcessInput, Prepared}
use gaming_go_backend.App.Process.{
  attempt_new, conclude_new, is_waiting, attempt, conclude_lookup, lock_wallet, check_wallet,
  wallet_missing, process_operation,
}
use gaming_go_backend.App.Process.Existing.{
  ProcessResult, Lookup, answered, new_one, lookup_existing, resolve_decision,
}
use gaming_go_backend.App.Process.Movement.{apply_decision}
use gaming_go_backend.App.Process.Persist.{
  process_new, process_pending_new, external_input, reference_id, marked,
}
use gaming_go_backend.App.Process.Preservation.{resolve_decision-Preserves}
use gaming_go_backend.App.Process.AttemptPreservation.{
  announce_pending-Preserves, lookup_existing-Preserves,
}
use gaming_go_backend.App.Process.Books.{AppliedWell, apply_decision-Applies, persist_new-Ended}
use gaming_go_backend.App.Process.Idempotency.{looked}
use gaming_go_backend.App.Process.Once.{process_operation-Ensures, prepare_lem}

marked_money :
    (rejection : Option Code) (at : Time) (t u : WagerTransaction)
    → marked rejection at t ≡ ok u
    → u.money ≡ t.money
marked_money none at t u h = mark_processed-money at t u (map_err-ok wallet_error _ u h)
marked_money (some code) at t u h =
    mark_rejected-money (code_text code) at t u (map_err-ok wallet_error _ u h)

module _ (start : Balances) (uc : UseCase) (w : Wallet) (input : ProcessInput)
    (fits : IsInt64 input.request.money.minor_units) where
  amount_fits :
      (hash id reference : Text) (at : Time) (t : WagerTransaction)
      → map_err wallet_error (new_external_transaction (external_input input hash id reference at))
        ≡ ok t
      → IsInt64 t.money.minor_units
  amount_fits hash id reference at t h =
      subst (λ (m : Money). IsInt64 m.minor_units)
        (sym (
          new_external_transaction-money (external_input input hash id reference at) t
            (map_err-ok wallet_error _ t h)))
        fits

  process_new-Ended :
      (hash : Text) (d : Decision) (reference : Option WagerTransaction) (at : Time)
      → Ensures (Held start w) (process_new uc w input hash d reference at) (λ _. Ended start)
  unfolding process_new AppliedWell
  process_new-Ended hash d reference at =
      Ensures-next (new_id uc.world) _ (Preserves-new_id uc.world) λ id.
        Ensures-lift->>=
          (map_err wallet_error
            (new_external_transaction (external_input input hash id (reference_id reference) at)))
          _
          λ t made.
            Ensures->>= (AppliedWell start uc.world w)
              (apply_decision uc.world w d id input.request.money input.request.kind at) _
              (apply_decision-Applies start uc.world w d id input.request.money input.request.kind
                at fits)
              λ applied. Ensures-knowing λ applies.
                Ensures-lift->>= (marked applied.rejection at t) _ λ u mark.
                  persist_new-Ended start uc w input applied u at
                    (subst (λ (m : Money). IsInt64 m.minor_units)
                      (sym (marked_money applied.rejection at t u mark))
                      (amount_fits hash id (reference_id reference) at t made))
                    applies

  process_pending_new-Ended :
      (hash : Text) (at : Time)
      → Ensures (Started start) (process_pending_new uc input hash at) (λ _. Ended start)
  unfolding process_pending_new
  process_pending_new-Ended hash at =
      Ensures-next (new_id uc.world) _ (Preserves-new_id uc.world) λ id.
        Ensures-lift->>=
          (map_err wallet_error (new_external_transaction (external_input input hash id [] at))) _
          λ t made.
            Ensures-lift->>= (map_err wallet_error (mark_pending_reference at t)) _ λ u mark.
              Ensures->>= (λ _. Started start) (insert_pending uc.world u at uc.pending_ttl) _
                (insert_pending-kept (Started-Bookkeeping start) uc.world u
                  (subst (λ (m : Money). IsInt64 m.minor_units)
                    (sym (mark_pending_reference-money at t u (map_err-ok wallet_error _ u mark)))
                    (amount_fits hash id [] at t made))
                  at uc.pending_ttl)
                λ o.
                  Ensures-from (λ db p. idle p)
                    (Preserves-Ensures (
                      announce_pending-Preserves (event_kept (Ended-Bookkeeping start)) uc input u
                        at o))

module _ (start : Balances) (uc : UseCase) (prepared : Prepared) (at : Time)
    (fits : IsInt64 prepared.input.request.money.minor_units) where
  attempt_new-Ended :
      (w : Wallet) → Ensures (Held start w) (attempt_new uc w prepared at) (λ _. Ended start)
  unfolding attempt_new conclude_new
  attempt_new-Ended w =
      Ensures-next (resolve_decision uc.world prepared.input.request prepared.decision)
        (λ resolved. conclude_new uc w prepared resolved.0 resolved.1 at)
        (resolve_decision-Preserves uc.world prepared.input.request prepared.decision)
        λ resolved.
          Ensures-if (is_waiting resolved.0.action)
            (Ensures-from (λ db held. held.started)
              (process_pending_new-Ended start uc w prepared.input fits prepared.hash at))
            (process_new-Ended start uc w prepared.input fits prepared.hash resolved.0 resolved.1
              at)

  conclude_lookup-Ended :
      (w : Wallet) (l : Lookup)
      → Ensures (Held start w) (conclude_lookup uc w prepared at l) (λ _. Ended start)
  unfolding conclude_lookup
  conclude_lookup-Ended w (answered result) =
      Ensures-from (λ db held. idle held.started) (Ensures-pure (λ _. Ended start) (some result))
  conclude_lookup-Ended w new_one = attempt_new-Ended w

check_wallet_lem :
    (r : Request) (w w' : Wallet) (s t : Session)
    → check_wallet r w s ≡ (ok w', t)
    → (w ≡ w') × (s ≡ t)
unfolding check_wallet
check_wallet_lem r w w' s t h = elim (Result-cases (currency_of r.money)) [
  | inr (e, bad) ↦ ground (arith, bad, h)
  | inl (c, good) ↦ (ground (arith, good, h), ground (arith, good, h))
]

lock_wallet-Held :
    (start : Balances) (world : World) (r : Request)
    → Ensures (Started start) (lock_wallet world r) (Held start)
unfolding lock_wallet
lock_wallet-Held start world r =
    Ensures->>= (Held start) (rename_error wallet_missing (find_wallet world r.wallet_id))
      (check_wallet r)
      (record {
        ensures = λ s w t h.
            (find_wallet-Held start world r.wallet_id).ensures s w t
              (rename_error-ok wallet_missing (find_wallet world r.wallet_id) s t w h);
      })
      λ w. record {
        ensures = λ s w' t h held.
            let (same, still) = check_wallet_lem r w w' s t h in
            subst (λ x. Held start x t.db) same
              (subst (λ (u : Session). Held start w u.db) still held);
      }

attempt-Ended :
    (start : Balances) (uc : UseCase) (prepared : Prepared) (at : Time)
    → IsInt64 prepared.input.request.money.minor_units
    → Ensures (Started start) (attempt uc prepared at) (λ _. Ended start)
unfolding attempt
attempt-Ended start uc prepared at fits =
    Ensures->>= (Held start) (lock_wallet uc.world prepared.input.request) (looked uc prepared at)
      (lock_wallet-Held start uc.world prepared.input.request)
      λ w.
        Ensures-next
          (lookup_existing uc.world prepared.input.request prepared.input.idempotency_key
            prepared.hash)
          (conclude_lookup uc w prepared at)
          (lookup_existing-Preserves uc.world prepared.input.request prepared.input.idempotency_key
            prepared.hash)
          λ l. conclude_lookup-Ended start uc prepared at fits w l

-- An operation whose amount is an int64 keeps the tables sound and moves the balances by at most one
-- step, whatever it returns and whatever fails.
pub process_operation-Ended :
    (uc : UseCase) (input : ProcessInput) (s s' : Session) (r : Result AppError ProcessResult)
    → IsInt64 input.request.money.minor_units
    → process_operation uc input s ≡ (r, s')
    → Sound s.db
    → Ended (balances s.db) s'.db
process_operation-Ended uc input s s' r fits h p =
    process_operation-Ensures uc input s s' r (λ _. idle)
      (λ prepared at made. attempt-Ended (balances s.db) uc prepared at (
        subst (λ (x : ProcessInput). IsInt64 x.request.money.minor_units)
          (sym (prepare_lem uc input prepared made).0) fits))
      h (at_start s.db p)
