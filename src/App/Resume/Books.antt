-- ===== src/App/Resume/Books.antt =====
-- The retries of internal/walletapp/process_operation.go keep every balance the sum of its entries.
use gaming_go_backend.Common.{
  ◌≡◌, refl, sym, false, not, Option, none, some, Result, ok, err, map_err, map_err-ok,
}
use mathlib.Core.Path.{subst}
use gaming_go_backend.Common.Int.{pos}
use gaming_go_backend.Common.Int64.{IsInt64, sub64}
use gaming_go_backend.Common.Text.{Text}
use gaming_go_backend.Common.Time.{Time}
use gaming_go_backend.Money.{Money, minor_units_of}
use gaming_go_backend.Wallet.{WalletError, insufficient_funds, Wallet, LedgerEntry}
use gaming_go_backend.Wallet.Accepted.{Moved}
use gaming_go_backend.Transaction.{WagerTransaction, is_pending_reference, mark_processed}
use gaming_go_backend.Transaction.Amounts.{resolve_reference-money}
use gaming_go_backend.Operation.Rules.{
  Action, process, wait_for_reference, reject, Decision, evaluate, insufficient_funds_for,
}
use gaming_go_backend.Store.Base.{
  AppError, operation_error, wallet_error, money_error, unresolved_reference, Db, World, Session,
  Tx, within_tx, new_id, now,
}
use gaming_go_backend.Store.Wallets.{find_wallet, update_balance}
use gaming_go_backend.Store.Ledger.{insert_ledger_entry}
use gaming_go_backend.Store.Pending.{PendingReferenceTransaction, find_pending, complete_pending}
use gaming_go_backend.Store.Preservation.{
  whole, Preserves, Preserves->>=, Preserves-pure, Preserves-new_id, Resumes,
}
use gaming_go_backend.Store.Hoare.{
  Ensures, Ensures-pure, Ensures->>=, Ensures-next, Ensures-lift->>=, Ensures-if, Ensures-from,
  Ensures-at, Ensures-raise, Ensures-knowing, Preserves-Ensures,
}
use gaming_go_backend.Store.Balances.{Balances, balances}
use gaming_go_backend.Store.Books.Sound.{
  Sound, Started, Held, Ended, Ended-Bookkeeping, Held-Bookkeeping, event_kept, Bookkeeping-Resumes,
  idle, at_start,
}
use gaming_go_backend.Store.Books.Movement.{
  find_wallet-Held, Entered, insert_ledger_entry-Entered, update_balance-Ended,
}
use gaming_go_backend.Store.Books.Pending.{pending_fits}
use gaming_go_backend.App.{UseCase, or_none}
use gaming_go_backend.App.Process.LookupExisting.{or_none-query}
use gaming_go_backend.App.Process.Existing.{resolve_decision}
use gaming_go_backend.App.Process.Movement.{move_wallet}
use gaming_go_backend.App.Process.Outbox.{write_outbox_events}
use gaming_go_backend.App.Process.Preservation.{
  write_outbox_events-Preserves, resolve_decision-Preserves,
}
use gaming_go_backend.App.Process.Books.{movement, move_wallet-Moved}
use gaming_go_backend.App.Process.Retry.{within_tx-Ensures}
use gaming_go_backend.App.Resume.Outcomes.{
  PendingResumeOutcome, pending_processed, complete_movement, conclude_movement, process_pending,
}
use gaming_go_backend.App.Resume.OutcomePreservation.{reject_pending-Preserves}
use gaming_go_backend.App.Resume.Preservation.{
  reject_decided-Preserves, wait_again-Preserves, now-Preserves,
}
use gaming_go_backend.App.Resume.{
  PendingResumeSettings, request_of, resolve, process_decided, resume_decided, resume_found,
  resume_pending,
}

Held-Resumes : (start : Balances) (w : Wallet) → Resumes (Held start w)
Held-Resumes start w = Bookkeeping-Resumes (Held-Bookkeeping start w)

-- What leaves a held wallet held has moved nothing.
Held-Ended :
    {A : Type 0} {m : Tx A} (start : Balances) (w : Wallet)
    → Preserves whole (Held start w) m
    → Ensures (Held start w) m (λ _. Ended start)
Held-Ended start w keep = record {
  ensures = λ s a t h held. idle (keep.preserved s a t h held).started;
}

module _ (start : Balances) (world : World) (w : Wallet) (at : Time) where
  complete_movement-Ended :
      (t : WagerTransaction) (w' : Wallet) (entry : LedgerEntry)
      → Moved w entry w'
      → Ensures (Held start w) (complete_movement world t w' entry at) (λ _. Ended start)
  unfolding complete_movement
  complete_movement-Ended t w' entry moved =
      Ensures-lift->>= (map_err wallet_error (mark_processed at t)) _ λ u _.
        Ensures-lift->>= (map_err money_error (minor_units_of w'.balance)) _ λ balance _.
          Ensures-next (complete_pending world u (some balance)) _
            ((Held-Resumes start w).complete_kept world u (some balance))
            λ _.
              Ensures->>= (λ _. Entered start w w') (insert_ledger_entry world entry) _
                (insert_ledger_entry-Entered start world w w' entry moved)
                λ _.
                  Ensures->>= (λ _. Ended start)
                    (update_balance world w' (sub64 w'.version (pos 1))) _
                    (update_balance-Ended start world w w')
                    λ _. Preserves-Ensures (
                      Preserves->>= (write_outbox_events world u w' (some entry) u.id u.id at) _
                        (write_outbox_events-Preserves (event_kept (Ended-Bookkeeping start)) world
                          u w' (some entry) u.id u.id at)
                        λ _. Preserves-pure (some pending_processed))

  conclude_movement-Ended :
      (t : WagerTransaction) (r : Result WalletError (LedgerEntry × Wallet))
      → ((e : LedgerEntry) (w' : Wallet) → r ≡ ok (e, w') → Moved w e w')
      → Ensures (Held start w) (conclude_movement world t w at r) (λ _. Ended start)
  unfolding conclude_movement
  conclude_movement-Ended t (ok (entry, w')) moved =
      complete_movement-Ended t w' entry (moved entry w' refl)
  conclude_movement-Ended t (err insufficient_funds) moved =
      Held-Ended start w (
        reject_pending-Preserves (Held-Resumes start w) world t w (insufficient_funds_for t.kind)
          at)
  conclude_movement-Ended t (err e) moved = Ensures-raise (wallet_error e)

  process_pending-Ended :
      (t : WagerTransaction) (d : Decision)
      → IsInt64 t.money.minor_units
      → Ensures (Held start w) (process_pending world t w d at) (λ _. Ended start)
  unfolding process_pending
  process_pending-Ended t d fits =
      Ensures-next (new_id world)
        (λ id.
          conclude_movement world t w at (move_wallet d.direction w (movement id t.id t.money at)))
        (Preserves-new_id world)
        λ id. Ensures-at λ db held.
          conclude_movement-Ended t (move_wallet d.direction w (movement id t.id t.money at))
            λ e w' h.
              move_wallet-Moved start w (movement id t.id t.money at) fits d.direction e w' db held
                h

  process_decided-Ended :
      (t : WagerTransaction) (d : Decision) (reference : Option WagerTransaction)
      → IsInt64 t.money.minor_units
      → Ensures (Held start w) (process_decided world t w d reference at) (λ _. Ended start)
  unfolding process_decided
  process_decided-Ended t d none fits = Ensures-raise unresolved_reference
  process_decided-Ended t d (some reference) fits = Ensures-lift->>= (resolve reference t) _ λ u h.
      process_pending-Ended u d (
        subst (λ (m : Money). IsInt64 m.minor_units)
          (sym (resolve_reference-money reference.id t u (map_err-ok wallet_error _ u h))) fits)

by_action :
    {A : Type 0} {P : Db → Type 0} {Q : A → Db → Type 0} {l m n : Tx A} (a : Action)
    → Ensures P l Q
    → Ensures P m Q
    → Ensures P n Q
    → Ensures P (elim a [ reject ↦ l | process ↦ m | wait_for_reference ↦ n ]) Q
by_action process hl hm hn = hm
by_action wait_for_reference hl hm hn = hn
by_action reject hl hm hn = hl

abbrev PendingFits : Option PendingReferenceTransaction → Type 0
PendingFits none = Unit
PendingFits (some p) = IsInt64 p.transaction.money.minor_units

found_fits :
    (world : World) (id : Text) (o : Option PendingReferenceTransaction) (s t : Session)
    → or_none (find_pending world id) s ≡ (ok o, t)
    → Sound s.db
    → PendingFits o × (t.db ≡ s.db)
unfolding find_pending
found_fits world id none s t h sound = (tt, (or_none-query world _ s t none h).1)
found_fits world id (some p) s t h sound =
    let (found, same) = or_none-query world _ s t (some p) h in
    (pending_fits id (world.db_clock s.calls) s.db p sound found, same)

module _ (start : Balances) (world : World) (w : Wallet) (settings : PendingResumeSettings)
    (at : Time) where
  resume_found-Ended :
      (o : Option PendingReferenceTransaction)
      → PendingFits o
      → Ensures (Held start w) (resume_found world o w settings at) (λ _. Ended start)
  unfolding resume_found resume_decided
  resume_found-Ended none fits =
      Ensures-from (λ db held. idle held.started) (Ensures-pure (λ _. Ended start) none)
  resume_found-Ended (some pending) fits =
      Ensures-if (not (is_pending_reference pending.transaction.status))
        (Ensures-from (λ db held. idle held.started) (Ensures-pure (λ _. Ended start) none))
        (Ensures-lift->>=
          (map_err operation_error (evaluate (request_of pending.transaction) none false)) _
          λ decision _.
            Ensures-next (resolve_decision world (request_of pending.transaction) decision) _
              (resolve_decision-Preserves world (request_of pending.transaction) decision)
              λ resolved.
                by_action resolved.0.action
                  (Held-Ended start w (
                    reject_decided-Preserves (Held-Resumes start w) world pending.transaction w
                      resolved.0.error resolved.1 at))
                  (process_decided-Ended start world w at pending.transaction resolved.0 resolved.1
                    fits)
                  (Held-Ended start w
                    (wait_again-Preserves (Held-Resumes start w) world pending w settings at)))

within_tx-Ended :
    {A : Type 0} (world : World) (m : Tx A) (s s' : Session) (r : Result AppError A)
    → Ensures (Started (balances s.db)) m (λ _. Ended (balances s.db))
    → within_tx world m s ≡ (r, s')
    → Sound s.db
    → Ended (balances s.db) s'.db
within_tx-Ended world m s s' r keep h p =
    within_tx-Ensures world m s s' r (λ _. idle) keep h (at_start s.db p)

-- A retry of a pending operation keeps the tables sound and moves the balances by at most one step,
-- whatever it returns and whatever fails.
pub resume_pending-Ended :
    (uc : UseCase) (id wallet_id : Text) (settings : PendingResumeSettings) (s s' : Session)
    (r : Result AppError (Option PendingResumeOutcome))
    → resume_pending uc id wallet_id settings s ≡ (r, s')
    → Sound s.db
    → Ended (balances s.db) s'.db
unfolding resume_pending
resume_pending-Ended uc id wallet_id settings s s' r =
    let start : Balances = balances s.db in
    within_tx-Ended uc.world _ s s' r (
      Ensures-next (now uc.world) _ (now-Preserves uc.world) λ at.
        Ensures->>= (Held start) (find_wallet uc.world wallet_id) _
          (find_wallet-Held start uc.world wallet_id)
          λ w.
            Ensures->>= (λ o db. PendingFits o × Held start w db)
              (or_none (find_pending uc.world id)) (λ o. resume_found uc.world o w settings at)
              (record {
                ensures = λ u o t h held.
                    let (fits, same) = found_fits uc.world id o u t h held.started.sound in
                    (fits, subst (Held start w) (sym same) held);
              })
              λ o. Ensures-knowing λ fits. resume_found-Ended start uc.world w settings at o fits)
