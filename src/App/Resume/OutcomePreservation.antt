-- ===== src/App/Resume/OutcomePreservation.antt =====
-- A property that every statement keeps is kept by the two ends of a pending operation of
-- internal/walletapp/process_operation.go.
use gaming_go_backend.Common.{none, some, Result, ok, err, map_err}
use gaming_go_backend.Common.Int.{pos}
use gaming_go_backend.Common.Int64.{sub64}
use gaming_go_backend.Common.Time.{Time}
use gaming_go_backend.Money.{minor_units_of}
use gaming_go_backend.Wallet.{WalletError, insufficient_funds, Wallet, LedgerEntry}
use gaming_go_backend.Transaction.{WagerTransaction, mark_processed, mark_rejected}
use gaming_go_backend.Operation.Codes.{Code, code_text}
use gaming_go_backend.Operation.Rules.{Decision, insufficient_funds_for}
use gaming_go_backend.Store.Base.{wallet_error, money_error, Db, World, lift, new_id}
use gaming_go_backend.Store.Ledger.{insert_ledger_entry}
use gaming_go_backend.Store.Pending.{complete_pending}
use gaming_go_backend.Store.Logic.{Keeps-raise}
use gaming_go_backend.Store.Preservation.{
  whole, Preserves, Keeps-Preserves, Preserves->>=, Preserves-pure, Preserves-lift,
  Preserves-new_id, Resumes,
}
use gaming_go_backend.Store.Stability.{
  Stable, Stable-Inserts, Stable-Resumes, insert_ledger_entry-Preserves, update_balance-Preserves,
  complete_pending-Preserves,
}
use gaming_go_backend.App.Process.Movement.{move_wallet}
use gaming_go_backend.App.Process.Outbox.{write_outbox_events}
use gaming_go_backend.App.Process.Preservation.{write_outbox_events-Preserves}
use gaming_go_backend.App.Resume.Outcomes.{
  pending_rejected, pending_processed, reject_pending, complete_movement, conclude_movement,
  process_pending,
}

module _ {P : Db → Type 0} (kept : Resumes P) where
  pub reject_pending-Preserves :
      (world : World) (t : WagerTransaction) (w : Wallet) (code : Code) (at : Time)
      → Preserves whole P (reject_pending world t w code at)
  unfolding reject_pending
  reject_pending-Preserves world t w code at =
      Preserves->>= (lift (map_err wallet_error (mark_rejected (code_text code) at t))) _
        (Preserves-lift _)
        λ u.
          Preserves->>= (lift (map_err money_error (minor_units_of w.balance))) _ (Preserves-lift _)
            λ balance.
              Preserves->>= (complete_pending world u (some balance)) _
                (kept.complete_kept world u (some balance))
                λ _.
                  Preserves->>= (write_outbox_events world u w none u.id u.id at) _
                    (write_outbox_events-Preserves kept.event_kept world u w none u.id u.id at)
                    λ _. Preserves-pure (some pending_rejected)

module _ {P : Db → Type 0} (stable : Stable P) where
  complete_movement-Preserves :
      (world : World) (t : WagerTransaction) (w : Wallet) (entry : LedgerEntry) (at : Time)
      → Preserves whole P (complete_movement world t w entry at)
  unfolding complete_movement
  complete_movement-Preserves world t w entry at =
      Preserves->>= (lift (map_err wallet_error (mark_processed at t))) _ (Preserves-lift _) λ u.
        Preserves->>= (lift (map_err money_error (minor_units_of w.balance))) _ (Preserves-lift _)
          λ balance.
            Preserves->>= (complete_pending world u (some balance)) _
              (complete_pending-Preserves stable world u (some balance))
              λ _.
                Preserves->>= (insert_ledger_entry world entry) _
                  (insert_ledger_entry-Preserves stable world entry)
                  λ _.
                    Preserves->>= _ _
                      (update_balance-Preserves stable world w (sub64 w.version (pos 1)))
                      λ _.
                        Preserves->>= (write_outbox_events world u w (some entry) u.id u.id at) _
                          (write_outbox_events-Preserves (Stable-Inserts stable).event_kept world u
                            w (some entry) u.id u.id at)
                          λ _. Preserves-pure (some pending_processed)

  conclude_movement-Preserves :
      (world : World) (t : WagerTransaction) (w : Wallet) (at : Time)
      (r : Result WalletError (LedgerEntry × Wallet))
      → Preserves whole P (conclude_movement world t w at r)
  unfolding conclude_movement
  conclude_movement-Preserves world t w at (ok (entry, w')) =
      complete_movement-Preserves world t w' entry at
  conclude_movement-Preserves world t w at (err insufficient_funds) =
      reject_pending-Preserves (Stable-Resumes stable) world t w (insufficient_funds_for t.kind) at
  conclude_movement-Preserves world t w at (err e) = Keeps-Preserves (Keeps-raise (wallet_error e))

  pub process_pending-Preserves :
      (world : World) (t : WagerTransaction) (w : Wallet) (d : Decision) (at : Time)
      → Preserves whole P (process_pending world t w d at)
  unfolding process_pending
  process_pending-Preserves world t w d at =
      Preserves->>= (new_id world) _ (Preserves-new_id world) λ id.
        conclude_movement-Preserves world t w at (
          move_wallet d.direction w (record {
            ledger_entry_id = id;
            transaction_id = t.id;
            money = t.money;
            occurred_at = at;
          }))
