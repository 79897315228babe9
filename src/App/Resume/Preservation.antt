-- ===== src/App/Resume/Preservation.antt =====
-- A property that every statement keeps is kept by the retries of a pending operation of
-- internal/walletapp/process_operation.go.
use mathlib.Core.Path.{subst}
use gaming_go_backend.Common.{◌+◌, ◌≡◌, sym, false, not, Option, none, some, Result, map_err}
use gaming_go_backend.Common.Text.{Text}
use gaming_go_backend.Common.Time.{Time}
use gaming_go_backend.Wallet.{Wallet}
use gaming_go_backend.Transaction.{WagerTransaction, mark_failed, is_pending_reference}
use gaming_go_backend.Operation.Codes.{Code, code_text, permanent_processing_failure}
use gaming_go_backend.Operation.Rules.{
  Action, process, wait_for_reference, reject, Decision, evaluate,
}
use gaming_go_backend.Store.Base.{
  AppError, operation_error, wallet_error, Db, World, Session, Tx, lift, within_tx, now,
}
use gaming_go_backend.Store.Wallets.{find_wallet}
use gaming_go_backend.Store.Lookups.{find_reference}
use gaming_go_backend.Store.Pending.{PendingReferenceTransaction, find_pending}
use gaming_go_backend.Store.Logic.{Keeps-raise}
use gaming_go_backend.Store.Preservation.{
  whole, Preserves, Keeps-Preserves, Preserves->>=, Preserves-if, Preserves-pure, Preserves-lift,
  Preserves-query, Resumes,
}
use gaming_go_backend.Store.Hoare.{Preserves-Ensures}
use gaming_go_backend.Store.Stability.{Stable, Stable-Resumes}
use gaming_go_backend.App.{UseCase, or_none}
use gaming_go_backend.App.Process.LookupExisting.{or_none-query}
use gaming_go_backend.App.Process.Existing.{resolve_decision}
use gaming_go_backend.App.Process.Preservation.{
  resolve_decision-Preserves, find_reference-Preserves,
}
use gaming_go_backend.App.Process.Retry.{within_tx-Ensures, now_db}
use gaming_go_backend.App.Resume.Outcomes.{PendingResumeOutcome, pending_rescheduled}
use gaming_go_backend.App.Resume.{
  PendingResumeSettings, request_of, resolve, resolve_found, reject_decided, process_decided,
  expire, expiry_code, wait_again, is_exhausted, resume_decided, resume_found, resume_pending,
  fail_found, fail_pending, retry_found, reschedule_pending_after_failure,
}
use gaming_go_backend.App.Resume.OutcomePreservation.{
  reject_pending-Preserves, process_pending-Preserves,
}

module _ {P : Db → Type 0} where
  pub within_tx-Preserves :
      {A : Type 0} (world : World) (m : Tx A) (s s' : Session) (r : Result AppError A)
      → Preserves whole P m
      → within_tx world m s ≡ (r, s')
      → P s.db
      → P s'.db
  within_tx-Preserves world m s s' r keep h p =
      within_tx-Ensures world m s s' r (λ _ p. p) (Preserves-Ensures keep) h p

  pub find_wallet-Preserves : (world : World) (id : Text) → Preserves whole P (find_wallet world id)
  unfolding find_wallet
  find_wallet-Preserves world id =
      Preserves->>= _ _ (Preserves-query world _) λ row. Preserves-lift _

  pub now-Preserves : (world : World) → Preserves whole P (now world)
  now-Preserves world = record { preserved = λ s at t h p. subst P (sym (now_db world s t at h)) p }

  pub find_pending-Preserves :
      (world : World) (id : Text) → Preserves whole P (or_none (find_pending world id))
  unfolding find_pending
  find_pending-Preserves world id = record {
    preserved = λ s o t h p. subst P (sym (or_none-query world _ s t o h).1) p;
  }

  by_action :
      {A : Type 0} {l m n : Tx A} (a : Action)
      → Preserves whole P l
      → Preserves whole P m
      → Preserves whole P n
      → Preserves whole P (elim a [ reject ↦ l | process ↦ m | wait_for_reference ↦ n ])
  by_action process hl hm hn = hm
  by_action wait_for_reference hl hm hn = hn
  by_action reject hl hm hn = hl

module _ {P : Db → Type 0} (kept : Resumes P) where
  pub reject_decided-Preserves :
      (world : World) (t : WagerTransaction) (w : Wallet) (code : Option Code)
      (reference : Option WagerTransaction) (at : Time)
      → Preserves whole P (reject_decided world t w code reference at)
  unfolding reject_decided
  reject_decided-Preserves world t w none reference at = Keeps-Preserves (Keeps-raise _)
  reject_decided-Preserves world t w (some code) reference at =
      Preserves->>= (lift (resolve_found reference t)) _ (Preserves-lift _)
        λ u. reject_pending-Preserves kept world u w code at

  expire-Preserves :
      (world : World) (t : WagerTransaction) (w : Wallet) (at : Time)
      → Preserves whole P (expire world t w at)
  unfolding expire
  expire-Preserves world t w at =
      Preserves->>=
        (or_none (find_reference world t.provider_id t.reference_external_transaction_id)) _
        (find_reference-Preserves world t.provider_id t.reference_external_transaction_id)
        λ reference.
          Preserves->>= (lift (resolve_found reference t)) _ (Preserves-lift _)
            λ u. reject_pending-Preserves kept world u w (expiry_code reference) at

  pub wait_again-Preserves :
      (world : World) (pending : PendingReferenceTransaction) (w : Wallet)
      (settings : PendingResumeSettings) (at : Time)
      → Preserves whole P (wait_again world pending w settings at)
  unfolding wait_again
  wait_again-Preserves world pending w settings at =
      Preserves-if (is_exhausted pending settings) (expire-Preserves world pending.transaction w at)
        (Preserves->>= _ _
          (kept.reschedule_kept world pending.transaction.id (pending.attempts + 1)
            settings.retry_delay)
          λ _. Preserves-pure (some pending_rescheduled))

  fail_found-Preserves :
      (world : World) (pending : Option PendingReferenceTransaction) (at : Time)
      → Preserves whole P (fail_found world pending at)
  unfolding fail_found
  fail_found-Preserves world none at = Preserves-pure tt
  fail_found-Preserves world (some pending) at =
      Preserves-if (not (is_pending_reference pending.transaction.status)) (Preserves-pure tt) (
        Preserves->>=
          (lift (
            map_err wallet_error
              (mark_failed (code_text permanent_processing_failure) at pending.transaction)))
          _ (Preserves-lift _) λ t. kept.complete_kept world t none)

  pub fail_pending-Preserves :
      (uc : UseCase) (id wallet_id : Text) (s s' : Session) (r : Result AppError (Unit {0}))
      → fail_pending uc id wallet_id s ≡ (r, s')
      → P s.db
      → P s'.db
  unfolding fail_pending
  fail_pending-Preserves uc id wallet_id s s' r = within_tx-Preserves uc.world _ s s' r (
      Preserves->>= (now uc.world) _ (now-Preserves uc.world) λ at.
        Preserves->>= (find_wallet uc.world wallet_id) _ (find_wallet-Preserves uc.world wallet_id)
          λ w.
            Preserves->>= (or_none (find_pending uc.world id)) _
              (find_pending-Preserves uc.world id)
              λ pending. fail_found-Preserves uc.world pending at)

  retry_found-Preserves :
      (world : World) (id : Text) (pending : Option PendingReferenceTransaction) (delay : Time)
      → Preserves whole P (retry_found world id pending delay)
  unfolding retry_found
  retry_found-Preserves world id none delay = Preserves-pure tt
  retry_found-Preserves world id (some pending) delay =
      Preserves-if (not (is_pending_reference pending.transaction.status)) (Preserves-pure tt)
        (kept.reschedule_kept world id (pending.attempts + 1) delay)

  pub reschedule_pending_after_failure-Preserves :
      (uc : UseCase) (id wallet_id : Text) (delay : Time) (s s' : Session)
      (r : Result AppError (Unit {0}))
      → reschedule_pending_after_failure uc id wallet_id delay s ≡ (r, s')
      → P s.db
      → P s'.db
  unfolding reschedule_pending_after_failure
  reschedule_pending_after_failure-Preserves uc id wallet_id delay s s' r =
      within_tx-Preserves uc.world _ s s' r (
        Preserves->>= (find_wallet uc.world wallet_id) _ (find_wallet-Preserves uc.world wallet_id)
          λ w.
            Preserves->>= (or_none (find_pending uc.world id)) _
              (find_pending-Preserves uc.world id)
              λ pending. retry_found-Preserves uc.world id pending delay)

module _ {P : Db → Type 0} (stable : Stable P) where
  process_decided-Preserves :
      (world : World) (t : WagerTransaction) (w : Wallet) (d : Decision)
      (reference : Option WagerTransaction) (at : Time)
      → Preserves whole P (process_decided world t w d reference at)
  unfolding process_decided
  process_decided-Preserves world t w d none at = Keeps-Preserves (Keeps-raise _)
  process_decided-Preserves world t w d (some reference) at =
      Preserves->>= (lift (resolve reference t)) _ (Preserves-lift _)
        λ u. process_pending-Preserves stable world u w d at

  resume_found-Preserves :
      (world : World) (pending : Option PendingReferenceTransaction) (w : Wallet)
      (settings : PendingResumeSettings) (at : Time)
      → Preserves whole P (resume_found world pending w settings at)
  unfolding resume_found resume_decided
  resume_found-Preserves world none w settings at = Preserves-pure none
  resume_found-Preserves world (some pending) w settings at =
      Preserves-if (not (is_pending_reference pending.transaction.status)) (Preserves-pure none) (
        Preserves->>=
          (lift (map_err operation_error (evaluate (request_of pending.transaction) none false))) _
          (Preserves-lift _)
          λ decision.
            Preserves->>= (resolve_decision world (request_of pending.transaction) decision) _
              (resolve_decision-Preserves world (request_of pending.transaction) decision)
              λ resolved.
                by_action resolved.0.action
                  (reject_decided-Preserves (Stable-Resumes stable) world pending.transaction w
                    resolved.0.error resolved.1 at)
                  (process_decided-Preserves world pending.transaction w resolved.0 resolved.1 at)
                  (wait_again-Preserves (Stable-Resumes stable) world pending w settings at))

  -- What the statements keep, a retry keeps, whatever it returns and whatever fails.
  pub resume_pending-Preserves :
      (uc : UseCase) (id wallet_id : Text) (settings : PendingResumeSettings) (s s' : Session)
      (r : Result AppError (Option PendingResumeOutcome))
      → resume_pending uc id wallet_id settings s ≡ (r, s')
      → P s.db
      → P s'.db
  unfolding resume_pending
  resume_pending-Preserves uc id wallet_id settings s s' r = within_tx-Preserves uc.world _ s s' r (
      Preserves->>= (now uc.world) _ (now-Preserves uc.world) λ at.
        Preserves->>= (find_wallet uc.world wallet_id) _ (find_wallet-Preserves uc.world wallet_id)
          λ w.
            Preserves->>= (or_none (find_pending uc.world id)) _
              (find_pending-Preserves uc.world id)
              λ pending. resume_found-Preserves uc.world pending w settings at)
