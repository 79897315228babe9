-- ===== src/Transaction/Validity.antt =====
-- Valid transactions: constructors give them, the lifecycle keeps them.
use gaming_go_backend.Common.{◌≡◌, refl, Bool, true, false, not, ◌&&◌, arith, ap, ◌∙◌, ok, []}
use gaming_go_backend.Common.Text.{Text, is_empty}
use gaming_go_backend.Common.Time.{Time, is_zero}
use gaming_go_backend.Transaction.{
  Origin, internal, external, Status, pending, processed, rejected, failed, pending_reference,
  WagerTransaction, ExternalTransactionInput, validate, validate_non_negative_money, wrong_metadata,
  checked, transition, mark_processed, mark_rejected, mark_failed, mark_pending_reference,
  resolve_reference, new_external_transaction, is_failure, is_kind, is_status, is_reversal,
  is_open_or_processed, differ, other_origin,
}
use gaming_go_backend.Transaction.Lifecycle.{
  Step, processes, rejects, fails, waits, resolves, Life, here, next, Life-SameRequest,
}

abbrev pub IsValid : WagerTransaction → Type 0
IsValid t = validate t ≡ ok tt

-- The tests of `validate`, one by one.
record Parts (t : WagerTransaction) : Type 0 where
  id : is_empty t.id ≡ false
  wallet : is_empty t.wallet_id ≡ false
  player : is_empty t.player_id ≡ false
  created : is_zero t.created_at ≡ false
  updated : is_zero t.updated_at ≡ false
  kind : is_kind t.kind ≡ true
  status : is_status t.status ≡ true
  money : validate_non_negative_money t.money ≡ ok tt
  metadata : wrong_metadata t.origin t ≡ false
  reversal : (is_reversal t.kind && is_empty t.reference_external_transaction_id) ≡ false
  code : is_failure t.status ≡ not (is_empty t.failure_code)
  codeless : (is_open_or_processed t.status && not (is_empty t.failure_code)) ≡ false

parts : (t : WagerTransaction) → IsValid t → Parts t
unfolding validate
parts t v = ground arith

differ_self : (b : Bool) → differ b b ≡ false
differ_self true = refl
differ_self false = refl

IsValid-of : (t : WagerTransaction) → Parts t → IsValid t
unfolding validate
IsValid-of t p = rw (
  p.id,
  p.wallet,
  p.player,
  p.created,
  p.updated,
  p.kind,
  p.status,
  p.money,
  p.metadata,
  p.reversal,
  p.code,
  p.codeless,
  differ_self (not (is_empty t.failure_code)),
)

abbrev restated : Status → Text → Time → WagerTransaction → WagerTransaction
restated s code at t = record t { status = s; failure_code = code; updated_at = at }

record Restates (s : Status) (code : Text) (at : Time) : Type 0 where
  dated : is_zero at ≡ false
  known : is_status s ≡ true
  coded : is_failure s ≡ not (is_empty code)
  codeless : (is_open_or_processed s && not (is_empty code)) ≡ false

wrong_metadata-restated :
    (o : Origin) (s : Status) (code : Text) (at : Time) (t : WagerTransaction)
    → wrong_metadata o (restated s code at t) ≡ wrong_metadata o t
unfolding wrong_metadata
wrong_metadata-restated internal s code at t = refl
wrong_metadata-restated external s code at t = refl
wrong_metadata-restated (other_origin _) s code at t = refl

module _ (s : Status) (code : Text) (at : Time) (t : WagerTransaction) where
  restated-IsValid : Restates s code at → IsValid t → IsValid (restated s code at t)
  restated-IsValid r v =
      let p = parts t v in
      IsValid-of (restated s code at t) (record {
        id = p.id;
        wallet = p.wallet;
        player = p.player;
        created = p.created;
        updated = r.dated;
        kind = p.kind;
        status = r.known;
        money = p.money;
        metadata = wrong_metadata-restated t.origin s code at t ∙ p.metadata;
        reversal = p.reversal;
        code = r.coded;
        codeless = r.codeless;
      })

  transition_value :
      {u : WagerTransaction} → transition s code at t ≡ ok u → u ≡ restated s code at t
  unfolding transition
  transition_value e = ground arith

  transition-Restates : {u : WagerTransaction} → transition s code at t ≡ ok u → Restates s code at
  unfolding transition
  transition-Restates e = ground arith

  transition-IsValid :
      {u : WagerTransaction} → transition s code at t ≡ ok u → IsValid t → IsValid u
  transition-IsValid e v = rw (transition_value e) (restated-IsValid (transition-Restates e) v)

wrong_metadata-resolved :
    (o : Origin) (reference : Text) (t : WagerTransaction)
    → o ≡ external
    → wrong_metadata o (record t { reference_transaction_id = reference }) ≡ wrong_metadata o t
unfolding wrong_metadata
wrong_metadata-resolved external reference t e = refl
wrong_metadata-resolved internal reference t e = cc
wrong_metadata-resolved (other_origin _) reference t e = cc

resolve_value :
    (reference : Text) (t : WagerTransaction) {u : WagerTransaction}
    → resolve_reference reference t ≡ ok u
    → u ≡ record t { reference_transaction_id = reference }
unfolding resolve_reference
resolve_value reference t e = ground arith

resolve-IsValid :
    (reference : Text) (t : WagerTransaction) {u : WagerTransaction}
    → t.origin ≡ external
    → resolve_reference reference t ≡ ok u
    → IsValid t
    → IsValid u
resolve-IsValid reference t o e v =
    let p = parts t v in
    rw (resolve_value reference t e) (
      IsValid-of (record t { reference_transaction_id = reference })
        (record {
          id = p.id;
          wallet = p.wallet;
          player = p.player;
          created = p.created;
          updated = p.updated;
          kind = p.kind;
          status = p.status;
          money = p.money;
          metadata = wrong_metadata-resolved t.origin reference t o ∙ p.metadata;
          reversal = p.reversal;
          code = p.code;
          codeless = p.codeless;
        }))

Step-IsValid : {t u : WagerTransaction} → t.origin ≡ external → Step t u → IsValid t → IsValid u
unfolding mark_processed mark_rejected mark_failed mark_pending_reference
Step-IsValid {t} o (processes at e) v = transition-IsValid processed [] at t e v
Step-IsValid {t} o (rejects code at e) v = transition-IsValid rejected code at t e v
Step-IsValid {t} o (fails code at e) v = transition-IsValid failed code at t e v
Step-IsValid {t} o (waits at e) v = transition-IsValid pending_reference [] at t e v
Step-IsValid {t} o (resolves reference e) v = resolve-IsValid reference t o e v

-- Through any life of a provider's transaction it stays valid: `validate` keeps accepting it.
pub Life-IsValid : {t u : WagerTransaction} → t.origin ≡ external → Life t u → IsValid t → IsValid u
Life-IsValid o here v = v
Life-IsValid o (next l s) v = Step-IsValid ((Life-SameRequest l).origin ∙ o) s (Life-IsValid o l v)

checked_lem : (x : WagerTransaction) {t : WagerTransaction} → checked x ≡ ok t → IsValid x × (t ≡ x)
unfolding checked
checked_lem x e = ground arith

-- What `NewExternalTransaction` gives is valid, pending and of external origin.
pub new_external_transaction_lem :
    (i : ExternalTransactionInput) {t : WagerTransaction}
    → new_external_transaction i ≡ ok t
    → IsValid t × (t.status ≡ pending) × (t.origin ≡ external)
unfolding new_external_transaction
new_external_transaction_lem i e =
    let (v, same) = checked_lem _ e in
    (
      rw same v,
      ap (λ (x : WagerTransaction). x.status) same,
      ap (λ (x : WagerTransaction). x.origin) same,
    )
