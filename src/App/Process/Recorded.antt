-- ===== src/App/Process/Recorded.antt =====
-- What an operation that returns leaves in the table of transactions.
use gaming_go_backend.Common.{
  ◌≡◌, refl, ap, ◌∙◌, inl, inr, true, false, Option, none, some, List, ◌∷◌, find?, Result, ok, err,
  arith, map_err, Bool-cases,
}
use gaming_go_backend.Common.Int.{ℤ}
use gaming_go_backend.Common.Text.{Text, text_eq_refl}
use gaming_go_backend.Common.Time.{Time}
use gaming_go_backend.Money
use gaming_go_backend.Money.{Currency, currency_of, minor_units_of}
use gaming_go_backend.Wallet.{
  WalletError, Direction, MovementInput, move, debit_wallet, credit_wallet, Wallet, LedgerEntry,
}
use gaming_go_backend.Transaction.{
  WagerKind, external, WagerTransaction, new_external_transaction, checked,
}
use gaming_go_backend.Transaction.Lifecycle.{Step, Step-SameRequest}
use gaming_go_backend.Operation.Rules.{Decision}
use gaming_go_backend.Store.Base.{
  corrupted_balance, AppError, TransactionRow, Db, World, Session, lift, new_id,
}
use gaming_go_backend.Store.Lookups.{ExistingTransaction, has_key, existing_of_row}
use gaming_go_backend.Store.Inserted.{IsRowOf}
use gaming_go_backend.Store.Logic.{>>=-ok, Post, Post-pure, Post->>=, Post-lift->>=}
use gaming_go_backend.App.{UseCase}
use gaming_go_backend.App.Prepare.{ProcessInput}
use gaming_go_backend.App.Process.Existing.{ProcessResult, replay_result}
use gaming_go_backend.App.Process.Persist.{
  fresh_result, record_movement, external_input, persist_effects,
}
use gaming_go_backend.App.Process.Movement.{
  is_blank, is_reject, move_wallet, apply_movement, Applied, apply_decision, moved_or_rejected,
}
use gaming_go_backend.App.Process.Outbox.{write_outbox_events}
use gaming_go_backend.App.Process.Effects.{write_outbox_events-Keeps, record_movement-Keeps}

-- A transaction that answers an input.
pub record IsFor (input : ProcessInput) (digest : Text) (t : WagerTransaction) : Type 0 where
  pub provider : t.provider_id ≡ input.request.provider_id
  pub key : t.idempotency_key ≡ input.idempotency_key
  pub hash : t.payload_hash ≡ digest
  pub money : t.money ≡ input.request.money
  pub origin : t.origin ≡ external

pub new-IsFor :
    (input : ProcessInput) (hash id reference : Text) (at : Time) (t : WagerTransaction)
    → new_external_transaction (external_input input hash id reference at) ≡ ok t
    → IsFor input hash t
unfolding new_external_transaction checked
new-IsFor input hash id reference at t h = ground arith

pub Step-IsFor :
    {input : ProcessInput} {hash : Text} {t u : WagerTransaction}
    → Step t u
    → IsFor input hash t
    → IsFor input hash u
Step-IsFor step h =
    let same = Step-SameRequest step in
    record {
      provider = same.provider_id ∙ h.provider;
      key = same.idempotency_key ∙ h.key;
      hash = same.payload_hash ∙ h.hash;
      money = same.money ∙ h.money;
      origin = same.origin ∙ h.origin;
    }

-- A result as a replay of it.
abbrev pub as_replay : ProcessResult → ProcessResult
as_replay r = record r { idempotent_replay = true }

-- The table holds a row from which the key of an input finds a result again.
pub record IsRecorded (input : ProcessInput) (hash : Text) (r : ProcessResult) (db : Db)
    : Type 0 where
  pub row : TransactionRow
  pub found : ExistingTransaction
  pub looked_up :
      find? (has_key input.request.provider_id input.idempotency_key) db.transactions ≡ some row
  pub scanned : existing_of_row row ≡ ok found
  pub same_hash : found.payload_hash ≡ hash
  pub replays : replay_result found input.request.kind ≡ ok (as_replay r)

-- A row at the head is the one that its key finds.
pub has_key_head :
    (input : ProcessInput) (hash : Text) (t : WagerTransaction) (resulting : Option ℤ)
    (row : TransactionRow) (rest : List TransactionRow)
    → IsFor input hash t
    → IsRowOf t resulting row
    → find? (has_key input.request.provider_id input.idempotency_key) (row ∷ rest) ≡ some row
unfolding find?
has_key_head input hash t resulting row rest f r = ground (
  arith,
  f.provider,
  f.key,
  r.provider,
  r.key,
  text_eq_refl input.request.provider_id,
  text_eq_refl input.idempotency_key,
)

-- What `persist_effects` makes of an inserted transaction.
pub record IsConcluded (input : ProcessInput) (t : WagerTransaction) (resulting : ℤ)
    (currency : Currency) (r : ProcessResult) : Type 0 where
  pub id : r.transaction_id ≡ t.id
  pub status : r.status ≡ t.status
  pub failure_code : r.failure_code ≡ t.failure_code
  pub balance : Money.new resulting currency ≡ ok r.balance
  pub expiry : r.pending_expires_at ≡ none
  pub fresh : r.idempotent_replay ≡ false
  pub kind : r.kind ≡ input.request.kind

pub persist_effects_lem :
    (uc : UseCase) (input : ProcessInput) (applied : Applied) (t : WagerTransaction) (at : Time)
    (resulting : ℤ) (s : Session)
    → Post (persist_effects uc input applied t at resulting true) s λ o s'.
      (r : ProcessResult)
      → o ≡ some r
      → (s'.db.transactions ≡ s.db.transactions)
        × IsConcluded input t resulting applied.wallet.currency r
unfolding persist_effects
persist_effects_lem uc input applied t at resulting s =
    Post->>= (record_movement uc.world applied.wallet applied.entry) _ _ λ a s1 run1.
      Post->>=
        (write_outbox_events uc.world t applied.wallet applied.entry input.correlation_id
          input.causation_id at)
        _ _
        λ b s2 run2.
          Post-lift->>=
            (map_err (λ _. corrupted_balance) (Money.new resulting applied.wallet.currency)) _ _
            λ balance paid. Post-pure _ (some (fresh_result input t balance)) λ r e. (
              (write_outbox_events-Keeps uc.world t applied.wallet applied.entry
                      input.correlation_id input.causation_id at).kept
                    s1 b s2 run2
                  ∙ (record_movement-Keeps uc.world applied.wallet applied.entry).kept s a s1 run1,
              ground (arith, paid, e),
            )

move_wallet_currency :
    (d : Direction) (w : Wallet) (i : MovementInput) (e : LedgerEntry) (w' : Wallet)
    → move_wallet d w i ≡ ok (e, w')
    → w'.currency ≡ w.currency
unfolding move_wallet debit_wallet credit_wallet move
move_wallet_currency d w i e w' h = ground arith

moved_or_rejected_currency :
    (w : Wallet) (kind : WagerKind) (r : Result WalletError (LedgerEntry × Wallet))
    (applied : Applied)
    → ((e : LedgerEntry) (w' : Wallet) → r ≡ ok (e, w') → w'.currency ≡ w.currency)
    → moved_or_rejected w kind r ≡ ok applied
    → applied.wallet.currency ≡ w.currency
unfolding moved_or_rejected
moved_or_rejected_currency w kind (ok (e, w')) applied same h = ground (arith, same e w' refl)
moved_or_rejected_currency w kind (err e) applied same h = ground arith

apply_movement_currency :
    (world : World) (w : Wallet) (d : Direction) (id : Text) (money : Money.Money)
    (kind : WagerKind) (at : Time) (s s' : Session) (applied : Applied)
    → apply_movement world w d id money kind at s ≡ (ok applied, s')
    → applied.wallet.currency ≡ w.currency
unfolding apply_movement
apply_movement_currency world w d id money kind at s s' applied h =
    let (entry_id, u, run, rest) =
      >>=-ok (new_id world)
        (λ entry_id. lift (
          moved_or_rejected w kind (
            move_wallet d w (record {
              ledger_entry_id = entry_id;
              transaction_id = id;
              money = money;
              occurred_at = at;
            }))))
        s applied s' h in
    moved_or_rejected_currency w kind _ applied (move_wallet_currency d w _)
      (ap (λ (p : Result AppError Applied × Session). p.0) rest)

pub apply_decision_currency :
    (world : World) (w : Wallet) (d : Decision) (id : Text) (money : Money.Money) (kind : WagerKind)
    (at : Time) (s s' : Session) (applied : Applied)
    → apply_decision world w d id money kind at s ≡ (ok applied, s')
    → applied.wallet.currency ≡ w.currency
unfolding apply_decision
apply_decision_currency world w d id money kind at s s' applied h =
    elim (Bool-cases (is_reject d.action)) [
      | inl y ↦ ground (arith, y, h)
      | inr n ↦ elim (Bool-cases (is_blank d.direction)) [
        | inl y ↦ ground (arith, n, y, h)
        | inr m ↦
            apply_movement_currency world w d.direction id money kind at s s' applied
              (ground (arith, n, m, h))
      ]
    ]
