-- ===== src/App/Process/Recording/Waiting.antt =====
-- What the INSERT of an operation that waits records in internal/walletapp/process_operation.go.
use gaming_go_backend.Common.{
  ◌≡◌, ap, ◌∙◌, Option, none, some, [], List, ◌∷◌, find?, ok, arith, map_err,
}
use gaming_go_backend.Common.Text.{Text, text_eq_refl}
use gaming_go_backend.Common.Time.{Time}
use gaming_go_backend.Transaction.{
  WagerTransaction, new_external_transaction, mark_pending_reference, transition,
}
use gaming_go_backend.Events.{new_pending_reference_event}
use gaming_go_backend.Transaction.Lifecycle.{waits}
use gaming_go_backend.Store.Base.{wallet_error, TransactionRow, Db, Session, new_id}
use gaming_go_backend.Store.Rows.{row_of, scan_text}
use gaming_go_backend.Store.Lookups.{has_key, existing_of_row}
use gaming_go_backend.Store.Transactions.{waiting_row}
use gaming_go_backend.Store.Transactions.{insert_pending}
use gaming_go_backend.Store.Inserted.{
  text_or_empty-null_if_empty, IsRowOf, row_of-IsRowOf, insert_pending_lem,
}
use gaming_go_backend.Store.Logic.{Keeps-new_id, Post, Post-pure, Post->>=, Post-lift->>=}
use gaming_go_backend.App.{UseCase}
use gaming_go_backend.App.Prepare.{ProcessInput}
use gaming_go_backend.App.Process.Existing.{ProcessResult, replay_result}
use gaming_go_backend.App.Process.Persist.{
  pending_result, announce_pending, external_input, process_pending_new,
}
use gaming_go_backend.App.Process.Outbox.{publish, wager_aggregate, metadata}
use gaming_go_backend.App.Process.Recorded.{IsFor, new-IsFor, Step-IsFor, IsRecorded, as_replay}
use gaming_go_backend.App.Process.Effects.{publish-Keeps, rows}
use gaming_go_backend.App.Process.Recording.{found_of, Recorded}

waiting_head :
    (input : ProcessInput) (hash : Text) (t : WagerTransaction) (row : TransactionRow)
    (at expires_at : Time) (rest : List TransactionRow)
    → IsFor input hash t
    → IsRowOf t none row
    → find?
        (has_key input.request.provider_id input.idempotency_key)
        (waiting_row row at expires_at ∷ rest)
      ≡ some (waiting_row row at expires_at)
unfolding find?
waiting_head input hash t row at expires_at rest f r = ground (
  arith,
  f.provider,
  f.key,
  r.provider,
  r.key,
  text_eq_refl input.request.provider_id,
  text_eq_refl input.idempotency_key,
)

waiting_scanned :
    (t : WagerTransaction) (row : TransactionRow) (at expires_at : Time)
    → IsRowOf t none row
    → existing_of_row (waiting_row row at expires_at)
      ≡ ok (found_of t (waiting_row row at expires_at))
unfolding existing_of_row scan_text
waiting_scanned t row at expires_at h = ground (
  arith,
  h.id,
  h.key,
  h.hash,
  h.external_id,
  h.status,
  h.failure_code,
  text_or_empty-null_if_empty t.failure_code,
)

waiting_replays :
    (input : ProcessInput) (t u : WagerTransaction) (row : TransactionRow) (at expires_at : Time)
    → IsRowOf u none row
    → mark_pending_reference at t ≡ ok u
    → replay_result (found_of u (waiting_row row at expires_at)) input.request.kind
      ≡ ok (as_replay (pending_result input u expires_at))
unfolding replay_result mark_pending_reference transition
waiting_replays input t u row at expires_at h mark = ground (arith, h.balance, mark)

pending-IsRecorded :
    (input : ProcessInput) (hash : Text) (t u : WagerTransaction) (row : TransactionRow)
    (at expires_at : Time) (rest : List TransactionRow) (db : Db)
    → IsFor input hash u
    → mark_pending_reference at t ≡ ok u
    → row_of u none ≡ ok row
    → db.transactions ≡ waiting_row row at expires_at ∷ rest
    → IsRecorded input hash (pending_result input u expires_at) db
unfolding mark_pending_reference transition
pending-IsRecorded input hash t u row at expires_at rest db f mark made shown =
    let h = row_of-IsRowOf u none row f.origin made in
    record {
      row = waiting_row row at expires_at;
      found = found_of u (waiting_row row at expires_at);
      looked_up =
          ap (λ x. find? (has_key input.request.provider_id input.idempotency_key) x) shown
          ∙ waiting_head input hash u row at expires_at rest f h;
      scanned = waiting_scanned u row at expires_at h;
      same_hash = f.hash;
      replays = waiting_replays input t u row at expires_at h mark;
    }

some_injective : (a b : ProcessResult) → some a ≡ some b → a ≡ b
some_injective a b h = ground arith

announced :
    (uc : UseCase) (input : ProcessInput) (hash : Text) (t u : WagerTransaction) (at : Time)
    (o : Option Time) (s s1 : Session)
    → IsFor input hash u
    → mark_pending_reference at t ≡ ok u
    → insert_pending uc.world u at uc.pending_ttl s ≡ (ok o, s1)
    → Post (announce_pending uc input u at o) s1 (Recorded input hash)
unfolding announce_pending Recorded
announced uc input hash t u at none s s1 f mark run = Post-pure s1 none λ r e. ground arith
announced uc input hash t u at (some expires_at) s s1 f mark run =
    let (row, made, shown) = insert_pending_lem uc.world u at uc.pending_ttl expires_at s s1 run in
    Post->>= (new_id uc.world) _ s1 λ id s2 run2.
      Post-lift->>=
        (map_err wallet_error (
          new_pending_reference_event (metadata id input.correlation_id input.causation_id at) u
            expires_at))
        _ s2
        λ event built. Post->>= (publish uc.world wager_aggregate at event) _ s2 λ x s3 run3.
          Post-pure s3 (some (pending_result input u expires_at)) λ r e.
            rw (← some_injective _ r e) (
              pending-IsRecorded input hash t u row at expires_at s.db.transactions s3.db f mark
                made
                ((publish-Keeps uc.world wager_aggregate at event).kept s2 x s3 run3
                  ∙ (Keeps-new_id {f = rows} uc.world).kept s1 id s2 run2
                  ∙ shown))

pub process_pending_new_lem :
    (uc : UseCase) (input : ProcessInput) (hash : Text) (at : Time) (s : Session)
    → Post (process_pending_new uc input hash at) s (Recorded input hash)
unfolding process_pending_new
process_pending_new_lem uc input hash at s = Post->>= (new_id uc.world) _ s λ id s1 run1.
    Post-lift->>=
      (map_err wallet_error (new_external_transaction (external_input input hash id [] at))) _ s1
      λ t made. Post-lift->>= (map_err wallet_error (mark_pending_reference at t)) _ s1 λ u mark.
        Post->>= (insert_pending uc.world u at uc.pending_ttl) _ s1 λ o s2 run2.
          announced uc input hash t u at o s1 s2
            (Step-IsFor (waits at (ground arith)) (new-IsFor input hash id [] at t (ground arith)))
            (ground arith) run2
