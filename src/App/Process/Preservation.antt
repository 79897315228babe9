-- ===== src/App/Process/Preservation.antt =====
-- What the events, movements and lookups of internal/walletapp/process_operation.go keep of the tables.
use gaming_go_backend.Common.{false, Option, none, some, map_err, sym}
use gaming_go_backend.Common.Text.{Text}
use gaming_go_backend.Common.Time.{Time}
use gaming_go_backend.Wallet.{Wallet, LedgerEntry}
use gaming_go_backend.Transaction.{
  WagerTransaction, Status, pending, processed, rejected, failed, pending_reference, other_status,
}
use gaming_go_backend.Events.{EventMetadata, Event}
use gaming_go_backend.Operation.Rules.{
  Action, process, wait_for_reference, reject, Decision, Request, evaluate,
}
use gaming_go_backend.Store.Base.{operation_error, OutboxRecord, World, Tx, lift, Db}
use gaming_go_backend.Store.Transactions.{is_processed}
use gaming_go_backend.Store.Ledger.{insert_outbox}
use gaming_go_backend.Store.Lookups.{find_reference, exists_successful_reversal}
use gaming_go_backend.Store.Preservation.{
  Preserves, Preserves->>=, Preserves-if, whole, Preserves-pure, Preserves-lift, Preserves-query,
  Preserves-new_id, Inserts,
}
use gaming_go_backend.App.{or_none}
use gaming_go_backend.App.Process.LookupExisting.{or_none-query}
use gaming_go_backend.App.Process.Existing.{
  resolve_decision, resolve_found, reversed_already, text_or_empty,
}
use gaming_go_backend.App.Process.Outbox.{publish, write_outbox_events, announce_movement, announce}
use gaming_go_backend.App.Process.Persist.{record_movement}
use mathlib.Core.Path.{subst}

module _ {P : Db → Type 0}
    (event_kept : (world : World) (r : OutboxRecord)
      → Preserves whole P (insert_outbox world r)) where
  pub publish-Preserves :
      (world : World) (aggregate : Text) (at : Time) (e : Event)
      → Preserves whole P (publish world aggregate at e)
  unfolding publish
  publish-Preserves world aggregate at e = event_kept world _

  announce_movement-Preserves :
      (world : World) (w : Wallet) (entry : Option LedgerEntry) (c d : Text) (at : Time)
      → Preserves whole P (announce_movement world w entry c d at)
  unfolding announce_movement
  announce_movement-Preserves world w none c d at = Preserves-pure tt
  announce_movement-Preserves world w (some entry) c d at =
      Preserves->>= _ _ (Preserves-new_id world)
        λ id. Preserves->>= _ _ (Preserves-lift _) λ e. publish-Preserves world _ at e

  announce-Preserves :
      (world : World) (status : Status) (m : EventMetadata) (t : WagerTransaction) (w : Wallet)
      (entry : Option LedgerEntry) (at : Time)
      → Preserves whole P (announce world status m t w entry at)
  unfolding announce
  announce-Preserves world rejected m t w entry at =
      Preserves->>= _ _ (Preserves-lift _) λ e. publish-Preserves world _ at e
  announce-Preserves world failed m t w entry at = Preserves-pure tt
  announce-Preserves world pending m t w entry at = Preserves->>= _ _ (Preserves-lift _) λ e.
      Preserves->>= _ _ (publish-Preserves world _ at e)
        λ _. announce_movement-Preserves world w entry _ _ at
  announce-Preserves world processed m t w entry at = Preserves->>= _ _ (Preserves-lift _) λ e.
      Preserves->>= _ _ (publish-Preserves world _ at e)
        λ _. announce_movement-Preserves world w entry _ _ at
  announce-Preserves world pending_reference m t w entry at =
      Preserves->>= _ _ (Preserves-lift _) λ e.
        Preserves->>= _ _ (publish-Preserves world _ at e)
          λ _. announce_movement-Preserves world w entry _ _ at
  announce-Preserves world (other_status _) m t w entry at =
      Preserves->>= _ _ (Preserves-lift _) λ e.
        Preserves->>= _ _ (publish-Preserves world _ at e)
          λ _. announce_movement-Preserves world w entry _ _ at

  pub write_outbox_events-Preserves :
      (world : World) (t : WagerTransaction) (w : Wallet) (entry : Option LedgerEntry) (c d : Text)
      (at : Time)
      → Preserves whole P (write_outbox_events world t w entry c d at)
  unfolding write_outbox_events
  write_outbox_events-Preserves world t w entry c d at =
      Preserves->>= _ _ (Preserves-new_id world)
        λ id. announce-Preserves world t.status _ t w entry at

module _ {P : Db → Type 0} (kept : Inserts P) where
  pub record_movement-Preserves :
      (world : World) (w : Wallet) (entry : Option LedgerEntry)
      → Preserves whole P (record_movement world w entry)
  unfolding record_movement
  record_movement-Preserves world w none = Preserves-pure tt
  record_movement-Preserves world w (some e) =
      Preserves->>= _ _ (kept.entry_kept world e) λ _. kept.balance_kept world w _

module _ {P : Db → Type 0} where
  reversed_already-Preserves :
      (world : World) (t : WagerTransaction) → Preserves whole P (reversed_already world t)
  unfolding reversed_already exists_successful_reversal
  reversed_already-Preserves world t =
      Preserves-if (is_processed t.status) (Preserves-query world _) (Preserves-pure false)

  resolve_found-Preserves :
      (world : World) (r : Request) (d : Decision) (found : Option WagerTransaction)
      → Preserves whole P (resolve_found world r d found)
  unfolding resolve_found
  resolve_found-Preserves world r d none = Preserves-pure (d, none)
  resolve_found-Preserves world r d (some reference) =
      Preserves->>= (reversed_already world reference) _
        (reversed_already-Preserves world reference)
        λ reversed.
          Preserves->>= (lift (map_err operation_error (evaluate r (some reference) reversed))) _
            (Preserves-lift _) λ resolved. Preserves-pure (resolved, some reference)

  pub find_reference-Preserves :
      (world : World) (provider_id external_id : Text)
      → Preserves whole P (or_none (find_reference world provider_id external_id))
  unfolding find_reference
  find_reference-Preserves world provider_id external_id = record {
    preserved = λ s o t h p. subst P (sym (or_none-query world _ s t o h).1) p;
  }

  by_action :
      {A : Type 0} {m n : Tx A} (a : Action)
      → Preserves whole P m
      → Preserves whole P n
      → Preserves whole P (elim a [ wait_for_reference ↦ m | _ ↦ n ])
  by_action process hm hn = hn
  by_action wait_for_reference hm hn = hm
  by_action reject hm hn = hn

  pub resolve_decision-Preserves :
      (world : World) (r : Request) (d : Decision) → Preserves whole P (resolve_decision world r d)
  unfolding resolve_decision
  resolve_decision-Preserves world r d =
      by_action d.action
        (Preserves->>=
          (or_none (
            find_reference world r.provider_id (text_or_empty r.reference_external_transaction_id)))
          (resolve_found world r d)
          (find_reference-Preserves world r.provider_id
            (text_or_empty r.reference_external_transaction_id))
          (resolve_found-Preserves world r d))
        (Preserves-pure (d, none))
