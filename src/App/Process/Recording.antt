-- ===== src/App/Process/Recording.antt =====
-- What the INSERTs of internal/walletapp/process_operation.go record of a new operation.
pub mod Waiting
use gaming_go_backend.Common.{
  ◌≡◌, sym, ap, ◌∙◌, Bool, true, false, Option, none, some, [], List, ◌∷◌, find?, ok, arith,
  map_err,
}
use gaming_go_backend.Common.Int.{ℤ}
use gaming_go_backend.Common.Text.{Text, text_eq_refl}
use gaming_go_backend.Common.Time.{Time}
use gaming_go_backend.Money.{Currency, currency_of, minor_units_of}
use gaming_go_backend.Wallet.{Wallet}
use gaming_go_backend.Transaction.{
  WagerTransaction, new_external_transaction, mark_pending_reference, transition,
}
use gaming_go_backend.Events.{new_pending_reference_event}
use gaming_go_backend.Transaction.Lifecycle.{Step, processes, rejects, waits}
use gaming_go_backend.Operation.Rules.{Decision}
use gaming_go_backend.Operation.Codes.{Code, code_text}
use gaming_go_backend.Store.Base.{wallet_error, money_error, TransactionRow, Db, Session, new_id}
use gaming_go_backend.Store.Rows.{row_of, scan_text}
use gaming_go_backend.Store.Lookups.{ExistingTransaction, has_key, existing_of_row}
use gaming_go_backend.Store.Transactions.{waiting_row}
use gaming_go_backend.Store.Transactions.{insert_new, insert_pending}
use gaming_go_backend.Store.Inserted.{
  text_or_empty-null_if_empty, IsRowOf, row_of-IsRowOf, insert_new_lem, insert_pending_lem,
}
use gaming_go_backend.Store.Logic.{Keeps-new_id, Post, Post-pure, Post->>=, Post-lift->>=}
use gaming_go_backend.App.{UseCase}
use gaming_go_backend.App.Prepare.{ProcessInput}
use gaming_go_backend.App.Process.Existing.{ProcessResult, replay_result}
use gaming_go_backend.App.Process.Persist.{
  reference_id, pending_result, announce_pending, external_input, marked, persist_effects,
  persist_new, process_new, process_pending_new,
}
use gaming_go_backend.App.Process.Movement.{Applied, apply_decision}
use gaming_go_backend.App.Process.Outbox.{publish, wager_aggregate, metadata}
use gaming_go_backend.App.Process.Recorded.{
  IsFor, new-IsFor, Step-IsFor, IsRecorded, IsConcluded, as_replay, has_key_head,
  persist_effects_lem, apply_decision_currency,
}
use gaming_go_backend.App.Process.Effects.{publish-Keeps, rows}

-- What the lookup by key makes of the row of a transaction.
abbrev pub found_of : WagerTransaction → TransactionRow → ExistingTransaction
found_of t row = record {
  transaction_id = t.id;
  idempotency_key = t.idempotency_key;
  payload_hash = t.payload_hash;
  external_transaction_id = t.external_transaction_id;
  status = t.status;
  failure_code = t.failure_code;
  resulting_balance = row.resulting_balance;
  currency = row.currency;
  pending_expires_at = row.pending_expires_at;
}

existing_of_row_lem :
    (t : WagerTransaction) (resulting : Option ℤ) (row : TransactionRow)
    → IsRowOf t resulting row
    → existing_of_row row ≡ ok (found_of t row)
unfolding existing_of_row scan_text
existing_of_row_lem t resulting row h = ground (
  arith,
  h.id,
  h.key,
  h.hash,
  h.external_id,
  h.status,
  h.failure_code,
  text_or_empty-null_if_empty t.failure_code,
)

replay_concluded :
    (input : ProcessInput) (t : WagerTransaction) (resulting : ℤ) (row : TransactionRow)
    (r : ProcessResult)
    → IsRowOf t (some resulting) row
    → IsConcluded input t resulting row.currency r
    → replay_result (found_of t row) input.request.kind ≡ ok (as_replay r)
unfolding replay_result
replay_concluded input t resulting row r h c =
    ground
      (arith, h.balance, h.unscheduled, c.id, c.status, c.failure_code, c.balance, c.expiry, c.kind)

new-IsRecorded :
    (input : ProcessInput) (hash : Text) (t : WagerTransaction) (resulting : ℤ)
    (row : TransactionRow) (r : ProcessResult) (c : Currency) (rest : List TransactionRow) (db : Db)
    → IsFor input hash t
    → row_of t (some resulting) ≡ ok row
    → db.transactions ≡ row ∷ rest
    → currency_of t.money ≡ ok c
    → IsConcluded input t resulting c r
    → IsRecorded input hash r db
new-IsRecorded input hash t resulting row r c rest db f made shown cur concluded =
    let h = row_of-IsRowOf t (some resulting) row f.origin made in
    record {
      row = row;
      found = found_of t row;
      looked_up =
          ap (λ x. find? (has_key input.request.provider_id input.idempotency_key) x) shown
          ∙ has_key_head input hash t (some resulting) row rest f h;
      scanned = existing_of_row_lem t (some resulting) row h;
      same_hash = f.hash;
      replays =
          replay_concluded input t resulting row r h (ground (arith, h.currency, cur, concluded));
    }

-- What each ending of an attempt establishes.
unfoldable pub Recorded : ProcessInput → Text → Option ProcessResult → Session → Type 0
Recorded input hash o s = (r : ProcessResult) → o ≡ some r → IsRecorded input hash r s.db

persist_inserted :
    (uc : UseCase) (input : ProcessInput) (hash : Text) (applied : Applied) (t : WagerTransaction)
    (at : Time) (resulting : ℤ) (inserted : Bool) (s s1 : Session)
    → IsFor input hash t
    → currency_of t.money ≡ ok applied.wallet.currency
    → insert_new uc.world t (some resulting) s ≡ (ok inserted, s1)
    → Post (persist_effects uc input applied t at resulting inserted) s1 (Recorded input hash)
unfolding Recorded persist_effects
persist_inserted uc input hash applied t at resulting false s s1 f cur run =
    Post-pure s1 none λ r e. ground arith
persist_inserted uc input hash applied t at resulting true s s1 f cur run = record {
  holds = λ o s' h r e.
      let (row, made, shown) = insert_new_lem uc.world t (some resulting) s s1 run in
      let (kept, concluded) =
        (persist_effects_lem uc input applied t at resulting s1).holds o s' h r e in
      new-IsRecorded input hash t resulting row r applied.wallet.currency s.db.transactions s'.db f
        made (kept ∙ shown) cur concluded;
}

persist_new_lem :
    (uc : UseCase) (input : ProcessInput) (hash : Text) (applied : Applied) (t : WagerTransaction)
    (at : Time) (s : Session)
    → IsFor input hash t
    → currency_of t.money ≡ ok applied.wallet.currency
    → Post (persist_new uc input applied t at) s (Recorded input hash)
unfolding persist_new
persist_new_lem uc input hash applied t at s f cur =
    Post-lift->>= (map_err money_error (minor_units_of applied.wallet.balance)) _ s
      λ resulting paid. Post->>= (insert_new uc.world t (some resulting)) _ s λ inserted s1 run.
        persist_inserted uc input hash applied t at resulting inserted s s1 f cur run

marked-Step :
    (code : Option Code) (at : Time) (t u : WagerTransaction) → marked code at t ≡ ok u → Step t u
marked-Step none at t u h = processes at (ground arith)
marked-Step (some code) at t u h = rejects (code_text code) at (ground arith)

pub process_new_lem :
    (uc : UseCase) (w : Wallet) (input : ProcessInput) (hash : Text) (d : Decision)
    (reference : Option WagerTransaction) (at : Time) (s : Session)
    → currency_of input.request.money ≡ ok w.currency
    → Post (process_new uc w input hash d reference at) s (Recorded input hash)
unfolding process_new
process_new_lem uc w input hash d reference at s cur = Post->>= (new_id uc.world) _ s λ id s1 run1.
    Post-lift->>=
      (map_err wallet_error
        (new_external_transaction (external_input input hash id (reference_id reference) at)))
      _ s1
      λ t made.
        Post->>= (apply_decision uc.world w d id input.request.money input.request.kind at) _ s1
          λ applied s2 run2. Post-lift->>= (marked applied.rejection at t) _ s2 λ u mark.
            let f =
              Step-IsFor (marked-Step applied.rejection at t u mark)
                (new-IsFor input hash id (reference_id reference) at t (ground arith)) in
            persist_new_lem uc input hash applied u at s2 f (
              ap currency_of f.money
              ∙ cur
              ∙ ap ok (
                  sym (
                    apply_decision_currency uc.world w d id input.request.money input.request.kind
                      at s1 s2 applied run2)))
