-- ===== src/Transaction/Lifecycle.antt =====
-- The lifecycle as a step relation: terminal states, at most two transitions, a fixed identity.
use gaming_go_backend.Common.{ℕ, ◌+◌, ◌≤◌, ◌≡◌, Bool, true, false, arith, ok}
use gaming_go_backend.Common.Text.{Text, is_empty}
use gaming_go_backend.Common.Time.{Time}
use gaming_go_backend.Transaction.{
  Status, pending, processed, rejected, failed, pending_reference, WagerTransaction, transition,
  mark_processed, mark_rejected, mark_failed, mark_pending_reference, resolve_reference,
}

-- One call of a method that changes a transaction, and succeeds.
pub data Step (t u : WagerTransaction) : Type 0 where
  processes : (at : Time) → mark_processed at t ≡ ok u → Step t u
  rejects : (code : Text) (at : Time) → mark_rejected code at t ≡ ok u → Step t u
  fails : (code : Text) (at : Time) → mark_failed code at t ≡ ok u → Step t u
  waits : (at : Time) → mark_pending_reference at t ≡ ok u → Step t u
  resolves : (reference : Text) → resolve_reference reference t ≡ ok u → Step t u

pub data Life (t : WagerTransaction) : WagerTransaction → Type 0 where
  here : Life t t
  next : {u v : WagerTransaction} → Life t u → Step u v → Life t v

abbrev pub is_terminal : Status → Bool
is_terminal processed = true
is_terminal rejected = true
is_terminal failed = true
is_terminal _ = false

-- No method changes a transaction that is processed, rejected or failed.
pub terminal_absorbs : {t u : WagerTransaction} → is_terminal t.status ≡ true → ¬ (Step t u)
unfolding mark_processed mark_rejected mark_failed mark_pending_reference resolve_reference
    transition
terminal_absorbs h (processes at e) = ground arith
terminal_absorbs h (rejects code at e) = ground arith
terminal_absorbs h (fails code at e) = ground arith
terminal_absorbs h (waits at e) = ground arith
terminal_absorbs h (resolves reference e) = ground arith

-- How many changes of status are still possible.
abbrev pub rank : Status → ℕ
rank pending = 2
rank pending_reference = 1
rank _ = 0

-- The changes of status in a life; resolving a reference is none.
abbrev changes : {t u : WagerTransaction} → Step t u → ℕ
changes (resolves _ _) = 0
changes _ = 1

pub status_changes : {t u : WagerTransaction} → Life t u → ℕ
status_changes here = 0
status_changes (next l s) = changes s + status_changes l

Step-rank : {t u : WagerTransaction} (s : Step t u) → changes s + rank u.status ≤ rank t.status
unfolding mark_processed mark_rejected mark_failed mark_pending_reference resolve_reference
    transition
Step-rank (processes at e) = ground arith
Step-rank (rejects code at e) = ground arith
Step-rank (fails code at e) = ground arith
Step-rank (waits at e) = ground arith
Step-rank (resolves reference e) = ground arith

-- In any life of a transaction the status changes at most as often as its rank says: twice from
-- PENDING, once from PENDING_REFERENCE, and never from any other status.
pub Life-rank :
    {t u : WagerTransaction} (l : Life t u) → status_changes l + rank u.status ≤ rank t.status
unfolding status_changes
Life-rank here = omega arith
Life-rank (next l s) = omega (arith, Life-rank l, Step-rank s)

-- What no method changes.
pub record SameRequest (t u : WagerTransaction) : Type 0 where
  pub id : u.id ≡ t.id
  pub external_transaction_id : u.external_transaction_id ≡ t.external_transaction_id
  pub provider_id : u.provider_id ≡ t.provider_id
  pub idempotency_key : u.idempotency_key ≡ t.idempotency_key
  pub payload_hash : u.payload_hash ≡ t.payload_hash
  pub wallet_id : u.wallet_id ≡ t.wallet_id
  pub player_id : u.player_id ≡ t.player_id
  pub round_id : u.round_id ≡ t.round_id
  pub game_id : u.game_id ≡ t.game_id
  pub kind : u.kind ≡ t.kind
  pub origin : u.origin ≡ t.origin
  pub money : u.money ≡ t.money
  pub reference_external : u.reference_external_transaction_id ≡ t.reference_external_transaction_id
  pub created_at : u.created_at ≡ t.created_at
  -- a reference that is resolved stays the one that it is
  pub resolved_once :
      is_empty t.reference_transaction_id ≡ false
      → u.reference_transaction_id ≡ t.reference_transaction_id

transition-SameRequest :
    {t u : WagerTransaction} (s : Status) (code : Text) (at : Time)
    → transition s code at t ≡ ok u
    → SameRequest t u
unfolding transition
transition-SameRequest s code at e = ground arith

resolve-SameRequest :
    {t u : WagerTransaction} (reference : Text)
    → resolve_reference reference t ≡ ok u
    → SameRequest t u
unfolding resolve_reference
resolve-SameRequest reference e = ground arith

pub Step-SameRequest : {t u : WagerTransaction} → Step t u → SameRequest t u
unfolding mark_processed mark_rejected mark_failed mark_pending_reference
Step-SameRequest (processes at e) = transition-SameRequest processed _ at e
Step-SameRequest (rejects code at e) = transition-SameRequest rejected code at e
Step-SameRequest (fails code at e) = transition-SameRequest failed code at e
Step-SameRequest (waits at e) = transition-SameRequest pending_reference _ at e
Step-SameRequest (resolves reference e) = resolve-SameRequest reference e

SameRequest-trans : {t u v : WagerTransaction} → SameRequest t u → SameRequest u v → SameRequest t v
SameRequest-trans a b = ground arith

-- Through any life of a transaction what the provider asked for stays as it was, and a resolved
-- reference is never replaced.
pub Life-SameRequest : {t u : WagerTransaction} → Life t u → SameRequest t u
Life-SameRequest here = ground arith
Life-SameRequest (next l s) = SameRequest-trans (Life-SameRequest l) (Step-SameRequest s)
