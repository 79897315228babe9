-- ===== src/App/Process/Books.antt =====
-- Operations of internal/walletapp/process_operation.go keep every balance the sum of its entries.
pub mod Operations
use gaming_go_backend.Common.{
  ◌≡◌, refl, sym, ap, ◌∙◌, Bool, true, false, not, Option, none, some, [], Result, ok, err, map_err,
  arith, inl, inr, Bool-cases, Result-cases, if◌then◌else◌,
}
use mathlib.Core.Path.{subst}
use gaming_go_backend.Common.Int.{ℤ, pos, ◌≤ℤ◌}
use gaming_go_backend.Common.Int64.{IsInt64, sub64}
use gaming_go_backend.Common.Text.{Text}
use gaming_go_backend.Common.Time.{Time}
use gaming_go_backend.Money
use gaming_go_backend.Money.{Money, minor_units_of, currency_of}
use gaming_go_backend.Wallet.{
  Direction, Wallet, LedgerEntry, MovementInput, WalletError, insufficient_funds, is_debit,
  debit_wallet, credit_wallet,
}
use gaming_go_backend.Wallet.Accepted.{Moved, debit-Moved, credit-Moved}
use gaming_go_backend.Transaction.{
  WagerKind, WagerTransaction, new_external_transaction, mark_pending_reference, mark_processed,
  mark_rejected,
}
use gaming_go_backend.Operation.Codes.{Code}
use gaming_go_backend.Operation.Rules.{Decision, Request, insufficient_funds_for}
use gaming_go_backend.Store.Base.{
  AppError, corrupted_balance, wallet_error, money_error, Db, World, Session, Tx, pure, lift,
  new_id, ◌>>=◌,
}
use gaming_go_backend.Store.Wallets.{find_wallet, update_balance}
use gaming_go_backend.Store.Transactions.{insert_new, insert_pending}
use gaming_go_backend.Store.Ledger.{insert_ledger_entry}
use gaming_go_backend.Store.Preservation.{
  whole, Preserves, Preserves->>=, Preserves-lift, Preserves-pure, Preserves-new_id,
}
use gaming_go_backend.Store.Hoare.{
  Ensures, Ensures-pure, Ensures->>=, Ensures-next, Ensures-lift->>=, Ensures-if, Ensures-from,
  Ensures-knowing, Preserves-Ensures,
}
use gaming_go_backend.Store.Balances.{Balances}
use gaming_go_backend.Store.Books.Sound.{
  Started, Held, Ended, Held-fits, Ended-Bookkeeping, Held-Bookkeeping, event_kept, insert_new-kept,
  idle,
}
use gaming_go_backend.Store.Books.Movement.{
  find_wallet-Held, Entered, insert_ledger_entry-Entered, update_balance-Ended,
}
use gaming_go_backend.App.{UseCase, rename_error}
use gaming_go_backend.App.Logic.{rename_error-ok}
use gaming_go_backend.App.Process.Movement.{
  Applied, apply_decision, apply_movement, moved_or_rejected, move_wallet, is_reject, is_blank,
}
use gaming_go_backend.App.Prepare.{ProcessInput, Prepared}
use gaming_go_backend.App.Process.Outbox.{write_outbox_events}
use gaming_go_backend.App.Process.Preservation.{write_outbox_events-Preserves}
use gaming_go_backend.App.Process.Persist.{
  record_movement, persist_effects, persist_new, fresh_result,
}

-- What a use case does to the tables is sound where the wallet was held.
module _ (start : Balances) (w : Wallet) (i : MovementInput)
    (fits : IsInt64 i.money.minor_units) where
  pub move_wallet-Moved :
      (d : Direction) (e : LedgerEntry) (w' : Wallet) (db : Db)
      → Held start w db
      → move_wallet d w i ≡ ok (e, w')
      → Moved w e w'
  unfolding move_wallet
  move_wallet-Moved d e w' db held h = elim (Bool-cases (is_debit d)) [
    | inl out ↦
        debit-Moved w i e w' held.nonneg (Held-fits start w db held) fits (ground (arith, out, h))
    | inr back ↦
        credit-Moved w i e w' held.nonneg (Held-fits start w db held) fits (ground (arith, back, h))
  ]

-- An entry that comes with a wallet is of a movement of the wallet that was read.
abbrev Applies : Wallet → Option LedgerEntry → Wallet → Type 0
Applies w entry w' = (e : LedgerEntry) → entry ≡ some e → Moved w e w'

no_entry : (w : Wallet) → Applies w none w
no_entry w e h = ground arith

moved_or_rejected-Applies :
    (w : Wallet) (kind : WagerKind) (r : Result WalletError (LedgerEntry × Wallet))
    (applied : Applied)
    → ((e : LedgerEntry) (w' : Wallet) → r ≡ ok (e, w') → Moved w e w')
    → moved_or_rejected w kind r ≡ ok applied
    → Applies w applied.entry applied.wallet
unfolding moved_or_rejected
moved_or_rejected-Applies w kind (ok (e, w')) applied moved h =
    let same : record { wallet = w'; entry = some e; rejection = none } ≡ applied = ground arith in
    subst (λ (a : Applied). Applies w a.entry a.wallet) same
      λ x g. subst (λ y. Moved w y w') (ground arith) (moved e w' refl)
moved_or_rejected-Applies w kind (err insufficient_funds) applied moved h =
    let same : record { wallet = w; entry = none; rejection = some (insufficient_funds_for kind) }
        ≡ applied =
      ground arith in
    subst (λ (a : Applied). Applies w a.entry a.wallet) same (no_entry w)
moved_or_rejected-Applies w kind (err _) applied moved h = λ e g. ground arith

abbrev pub movement : Text → Text → Money → Time → MovementInput
movement entry_id id money at = record {
  ledger_entry_id = entry_id;
  transaction_id = id;
  money = money;
  occurred_at = at;
}

module _ (start : Balances) (world : World) (w : Wallet) where
  AppliedWell : Applied → Db → Type 0
  AppliedWell applied db = Applies w applied.entry applied.wallet × Held start w db

  unmoved :
      (rejection : Option Code)
      → Ensures
          (Held start w)
          (pure (record { wallet = w; entry = none; rejection = rejection }))
          AppliedWell
  unfolding AppliedWell
  unmoved rejection =
      Ensures-from (λ db held. (no_entry w, held))
        (Ensures-pure AppliedWell (record { wallet = w; entry = none; rejection = rejection }))

  apply_decision-Applies :
      (d : Decision) (id : Text) (money : Money) (kind : WagerKind) (at : Time)
      → IsInt64 money.minor_units
      → Ensures (Held start w) (apply_decision world w d id money kind at) AppliedWell
  unfolding apply_decision apply_movement AppliedWell
  apply_decision-Applies d id money kind at fits =
      Ensures-if (is_reject d.action) (unmoved d.error) (
        Ensures-if (is_blank d.direction) (unmoved none) (
          Ensures-next (new_id world)
            (λ entry_id. lift (
              moved_or_rejected w kind (move_wallet d.direction w (movement entry_id id money at))))
            (Preserves-new_id world)
            λ entry_id. record {
              ensures = λ s applied t h held.
                  let e : s ≡ t = ground (arith, h) in
                  (
                    moved_or_rejected-Applies w kind
                        (move_wallet d.direction w (movement entry_id id money at)) applied
                        (λ x w' g.
                          move_wallet-Moved start w (movement entry_id id money at) fits d.direction
                            x w' s.db held g)
                        (ground (arith, h)),
                    subst (λ (u : Session). Held start w u.db) e held,
                  );
            }))

  -- The statements of a movement, or none, make the tables sound again.
  record_movement-Ended :
      (w' : Wallet) (entry : Option LedgerEntry)
      → Applies w entry w'
      → Ensures (Held start w) (record_movement world w' entry) (λ _. Ended start)
  unfolding record_movement
  record_movement-Ended w' none applies =
      Ensures-from (λ db held. idle held.started) (Ensures-pure (λ _. Ended start) tt)
  record_movement-Ended w' (some e) applies =
      Ensures->>= (λ _. Entered start w w') (insert_ledger_entry world e) _
        (insert_ledger_entry-Entered start world w w' e (applies e refl))
        λ _. update_balance-Ended start world w w'

module _ (start : Balances) (uc : UseCase) (w : Wallet) (input : ProcessInput) where
  persist_effects-Ended :
      (applied : Applied) (t : WagerTransaction) (at : Time) (resulting : ℤ) (inserted : Bool)
      → Applies w applied.entry applied.wallet
      → Ensures
          (Held start w)
          (persist_effects uc input applied t at resulting inserted)
          (λ _. Ended start)
  unfolding persist_effects
  persist_effects-Ended applied t at resulting false applies =
      Ensures-from (λ db held. idle held.started) (Ensures-pure (λ _. Ended start) none)
  persist_effects-Ended applied t at resulting true applies =
      Ensures->>= (λ _. Ended start) (record_movement uc.world applied.wallet applied.entry) _
        (record_movement-Ended start uc.world w applied.wallet applied.entry applies)
        λ _. Preserves-Ensures (
          Preserves->>=
            (write_outbox_events uc.world t applied.wallet applied.entry input.correlation_id
              input.causation_id at)
            _
            (write_outbox_events-Preserves (event_kept (Ended-Bookkeeping start)) uc.world t
              applied.wallet applied.entry input.correlation_id input.causation_id at)
            λ _.
              Preserves->>=
                (lift
                  (map_err (λ _. corrupted_balance) (Money.new resulting applied.wallet.currency)))
                _ (Preserves-lift _)
                λ balance. Preserves-pure (some (fresh_result input t balance)))

  persist_new-Ended :
      (applied : Applied) (t : WagerTransaction) (at : Time)
      → IsInt64 t.money.minor_units
      → Applies w applied.entry applied.wallet
      → Ensures (Held start w) (persist_new uc input applied t at) (λ _. Ended start)
  unfolding persist_new
  persist_new-Ended applied t at fits applies =
      Ensures-lift->>= (map_err money_error (minor_units_of applied.wallet.balance)) _
        λ resulting _.
          Ensures->>= (λ _. Held start w) (insert_new uc.world t (some resulting)) _
            (insert_new-kept (Held-Bookkeeping start w) uc.world t fits (some resulting))
            λ inserted. persist_effects-Ended applied t at resulting inserted applies
