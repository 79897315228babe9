-- ===== src/App/Process/AttemptPreservation.antt =====
-- A property that the statements of a new operation keep is kept by an attempt of
-- internal/walletapp/process_operation.go.
use gaming_go_backend.Common.{Bool, true, false, Option, none, some, [], map_err, ◌≡◌, sym, Result}
use gaming_go_backend.Common.Int.{ℤ}
use gaming_go_backend.Common.Text.{Text}
use gaming_go_backend.Common.Time.{Time}
use gaming_go_backend.Money
use gaming_go_backend.Money.{minor_units_of}
use gaming_go_backend.Wallet.{Wallet}
use gaming_go_backend.Transaction.{
  WagerKind, WagerTransaction, new_external_transaction, mark_pending_reference,
}
use gaming_go_backend.Events.{new_pending_reference_event}
use gaming_go_backend.Operation.Rules.{Decision, Request}
use gaming_go_backend.Store.Base.{
  wallet_error, money_error, corrupted_balance, OutboxRecord, World, lift, new_id, AppError,
  Session, Db,
}
use gaming_go_backend.Store.Transactions.{insert_new, insert_pending}
use gaming_go_backend.Store.Ledger.{insert_outbox}
use gaming_go_backend.Store.Preservation.{
  Preserves, Preserves->>=, Preserves-if, whole, Preserves-pure, Preserves-lift, Preserves-new_id,
  Inserts,
}
use gaming_go_backend.App.{UseCase}
use gaming_go_backend.App.Prepare.{ProcessInput, Prepared}
use gaming_go_backend.App.Process.{
  attempt_new, conclude_new, is_waiting, attempt, conclude_lookup, lock_wallet, process_operation,
}
use gaming_go_backend.App.Process.Existing.{
  resolve_decision, ProcessResult, Lookup, answered, new_one, lookup_existing,
}
use gaming_go_backend.App.Process.Outbox.{publish, write_outbox_events, wager_aggregate, metadata}
use gaming_go_backend.App.Process.Movement.{
  Applied, apply_decision, apply_movement, moved_or_rejected, move_wallet, is_reject, is_blank,
}
use gaming_go_backend.App.Process.Persist.{
  record_movement, persist_effects, persist_new, process_new, process_pending_new, announce_pending,
  external_input, reference_id, marked, fresh_result, pending_result,
}
use mathlib.Core.Path.{subst}
use gaming_go_backend.App.Process.Replay.{lookup_lem}
use gaming_go_backend.App.Process.Idempotency.{lock_wallet_lem, looked}
use gaming_go_backend.Store.Hoare.{Preserves-Ensures}
use gaming_go_backend.App.Process.Once.{process_operation-Ensures}
use gaming_go_backend.App.Process.Preservation.{
  publish-Preserves, write_outbox_events-Preserves, record_movement-Preserves,
  resolve_decision-Preserves,
}

module _ {P : Db → Type 0} where
  pub apply_decision-Preserves :
      (world : World) (w : Wallet) (d : Decision) (id : Text) (money : Money.Money)
      (kind : WagerKind) (at : Time)
      → Preserves whole P (apply_decision world w d id money kind at)
  unfolding apply_decision apply_movement
  apply_decision-Preserves world w d id money kind at =
      Preserves-if (is_reject d.action) (Preserves-pure _) (
        Preserves-if (is_blank d.direction) (Preserves-pure _) (
          Preserves->>= (new_id world) _ (Preserves-new_id world) λ entry_id. Preserves-lift (
            moved_or_rejected w kind (
              move_wallet d.direction w (record {
                ledger_entry_id = entry_id;
                transaction_id = id;
                money = money;
                occurred_at = at;
              })))))

  pub lock_wallet-Preserves :
      (world : World) (r : Request) → Preserves whole P (lock_wallet world r)
  lock_wallet-Preserves world r = record {
    preserved = λ s w t h p. subst P (sym ((lock_wallet_lem world r s).holds w t h).1) p;
  }

  pub lookup_existing-Preserves :
      (world : World) (r : Request) (key hash : Text)
      → Preserves whole P (lookup_existing world r key hash)
  lookup_existing-Preserves world r key hash = record {
    preserved = λ s l t h p.
        let (_, _, _, same) = (lookup_lem world r key hash s).holds l t h in subst P (sym same) p;
  }

module _ {P : Db → Type 0}
    (event_kept : (world : World) (r : OutboxRecord)
      → Preserves whole P (insert_outbox world r)) where
  pub announce_pending-Preserves :
      (uc : UseCase) (input : ProcessInput) (t : WagerTransaction) (at : Time) (o : Option Time)
      → Preserves whole P (announce_pending uc input t at o)
  unfolding announce_pending
  announce_pending-Preserves uc input t at none = Preserves-pure none
  announce_pending-Preserves uc input t at (some expires_at) =
      Preserves->>= (new_id uc.world) _ (Preserves-new_id uc.world) λ id.
        Preserves->>=
          (lift (
            map_err wallet_error (
              new_pending_reference_event (metadata id input.correlation_id input.causation_id at) t
                expires_at)))
          _ (Preserves-lift _)
          λ event.
            Preserves->>= (publish uc.world wager_aggregate at event) _
              (publish-Preserves event_kept uc.world wager_aggregate at event)
              λ x. Preserves-pure (some (pending_result input t expires_at))

module _ {P : Db → Type 0}
    (event_kept : (world : World) (r : OutboxRecord) → Preserves whole P (insert_outbox world r))
    (pending_kept : (world : World) (t : WagerTransaction) (next ttl : Time)
      → Preserves whole P (insert_pending world t next ttl)) where
  pub process_pending_new-Preserves :
      (uc : UseCase) (input : ProcessInput) (hash : Text) (at : Time)
      → Preserves whole P (process_pending_new uc input hash at)
  unfolding process_pending_new
  process_pending_new-Preserves uc input hash at =
      Preserves->>= (new_id uc.world) _ (Preserves-new_id uc.world) λ id.
        Preserves->>=
          (lift
            (map_err wallet_error (new_external_transaction (external_input input hash id [] at))))
          _ (Preserves-lift _)
          λ t.
            Preserves->>= (lift (map_err wallet_error (mark_pending_reference at t))) _
              (Preserves-lift _)
              λ u.
                Preserves->>= (insert_pending uc.world u at uc.pending_ttl) _
                  (pending_kept uc.world u at uc.pending_ttl)
                  λ o. announce_pending-Preserves event_kept uc input u at o

module _ {P : Db → Type 0} (kept : Inserts P) where
  persist_effects-Preserves :
      (uc : UseCase) (input : ProcessInput) (applied : Applied) (t : WagerTransaction) (at : Time)
      (resulting : ℤ) (inserted : Bool)
      → Preserves whole P (persist_effects uc input applied t at resulting inserted)
  unfolding persist_effects
  persist_effects-Preserves uc input applied t at resulting false = Preserves-pure none
  persist_effects-Preserves uc input applied t at resulting true =
      Preserves->>= (record_movement uc.world applied.wallet applied.entry) _
        (record_movement-Preserves kept uc.world applied.wallet applied.entry)
        λ x.
          Preserves->>=
            (write_outbox_events uc.world t applied.wallet applied.entry input.correlation_id
              input.causation_id at)
            _
            (write_outbox_events-Preserves kept.event_kept uc.world t applied.wallet applied.entry
              input.correlation_id input.causation_id at)
            λ y.
              Preserves->>=
                (lift
                  (map_err (λ _. corrupted_balance) (Money.new resulting applied.wallet.currency)))
                _ (Preserves-lift _) λ balance. Preserves-pure (some (fresh_result input t balance))

  persist_new-Preserves :
      (uc : UseCase) (input : ProcessInput) (applied : Applied) (t : WagerTransaction) (at : Time)
      → Preserves whole P (persist_new uc input applied t at)
  unfolding persist_new
  persist_new-Preserves uc input applied t at =
      Preserves->>= (lift (map_err money_error (minor_units_of applied.wallet.balance))) _
        (Preserves-lift _)
        λ resulting.
          Preserves->>= (insert_new uc.world t (some resulting)) _
            (kept.new_kept uc.world t (some resulting))
            λ inserted. persist_effects-Preserves uc input applied t at resulting inserted

  process_new-Preserves :
      (uc : UseCase) (w : Wallet) (input : ProcessInput) (hash : Text) (d : Decision)
      (reference : Option WagerTransaction) (at : Time)
      → Preserves whole P (process_new uc w input hash d reference at)
  unfolding process_new
  process_new-Preserves uc w input hash d reference at =
      Preserves->>= (new_id uc.world) _ (Preserves-new_id uc.world) λ id.
        Preserves->>=
          (lift (
            map_err wallet_error (
              new_external_transaction (external_input input hash id (reference_id reference) at))))
          _ (Preserves-lift _)
          λ t.
            Preserves->>= (apply_decision uc.world w d id input.request.money input.request.kind at)
              _ (apply_decision-Preserves uc.world w d id input.request.money input.request.kind at)
              λ applied.
                Preserves->>= (lift (marked applied.rejection at t)) _ (Preserves-lift _)
                  λ u. persist_new-Preserves uc input applied u at

  pub attempt_new-Preserves :
      (uc : UseCase) (w : Wallet) (prepared : Prepared) (at : Time)
      → Preserves whole P (attempt_new uc w prepared at)
  unfolding attempt_new conclude_new
  attempt_new-Preserves uc w prepared at =
      Preserves->>= (resolve_decision uc.world prepared.input.request prepared.decision)
        (λ resolved. conclude_new uc w prepared resolved.0 resolved.1 at)
        (resolve_decision-Preserves uc.world prepared.input.request prepared.decision)
        λ resolved.
          Preserves-if (is_waiting resolved.0.action)
            (process_pending_new-Preserves kept.event_kept kept.pending_kept uc prepared.input
              prepared.hash at)
            (process_new-Preserves uc w prepared.input prepared.hash resolved.0 resolved.1 at)

  conclude_lookup-Preserves :
      (uc : UseCase) (w : Wallet) (prepared : Prepared) (at : Time) (l : Lookup)
      → Preserves whole P (conclude_lookup uc w prepared at l)
  unfolding conclude_lookup
  conclude_lookup-Preserves uc w prepared at (answered result) = Preserves-pure (some result)
  conclude_lookup-Preserves uc w prepared at new_one = attempt_new-Preserves uc w prepared at

  attempt-Preserves :
      (uc : UseCase) (prepared : Prepared) (at : Time) → Preserves whole P (attempt uc prepared at)
  unfolding attempt
  attempt-Preserves uc prepared at =
      Preserves->>= (lock_wallet uc.world prepared.input.request) (looked uc prepared at)
        (lock_wallet-Preserves uc.world prepared.input.request)
        λ w.
          Preserves->>=
            (lookup_existing uc.world prepared.input.request prepared.input.idempotency_key
              prepared.hash)
            (conclude_lookup uc w prepared at)
            (lookup_existing-Preserves uc.world prepared.input.request
              prepared.input.idempotency_key prepared.hash)
            λ l. conclude_lookup-Preserves uc w prepared at l

  -- What the statements keep, an operation keeps, whatever it returns and whatever fails.
  pub process_operation-Preserves :
      (uc : UseCase) (input : ProcessInput) (s s' : Session) (r : Result AppError ProcessResult)
      → process_operation uc input s ≡ (r, s')
      → P s.db
      → P s'.db
  process_operation-Preserves uc input s s' r h p =
      process_operation-Ensures uc input s s' r (λ _ p. p)
        (λ prepared at _. Preserves-Ensures (attempt-Preserves uc prepared at)) h p
