-- ===== src/Operation/Evaluation.antt =====
-- What a decision of `Evaluate` rests on.
use gaming_go_backend.Common.{
  ◌≡◌, inl, inr, Bool, true, false, ◌&&◌, Option, none, some, ok, arith, ap, ◌∙◌, Bool-cases,
}
use mathlib.Core.Option
use gaming_go_backend.Common.Text.{Text, text_eq_sound, text_eq_refl}
use gaming_go_backend.Money.{compare_money, same}
use gaming_go_backend.Wallet.{Direction, debit, credit}
use gaming_go_backend.Transaction.{
  WagerKind, bet, win, refund, rollback, Status, processed, other_status, WagerTransaction,
  is_pending_reference,
}
use gaming_go_backend.Operation.Rules.{
  Action, process, wait_for_reference, Decision, Request, KindRule, kind_rules, validate_request,
  validate_reference, same_currency, movement_decision, rule_direction, no_direction, evaluate,
  is_forbidden,
}

-- Without a named reference the decision is final: no reference that might be found later, and no
-- reversal, changes it.
pub evaluate_final :
    (r : Request) (x y : Option WagerTransaction) (b c : Bool)
    → r.reference_external_transaction_id ≡ none
    → evaluate r x b ≡ evaluate r y c
unfolding evaluate
evaluate_final r x y b c h = ground arith

-- What a processed operation that names a reference needs of it.
pub record IsResolved (r : Request) (rule : KindRule) (reference : WagerTransaction)
    (reversed : Bool) : Type 0 where
  pub provider : r.provider_id ≡ reference.provider_id
  pub player : r.player_id ≡ reference.player_id
  pub wallet : r.wallet_id ≡ reference.wallet_id
  pub round : r.round_id ≡ reference.round_id
  pub currency : same_currency r.money reference.money ≡ true
  pub kind : rule.reference_kinds reference.kind ≡ true
  pub amount : rule.reversal ≡ true → compare_money r.money reference.money ≡ ok same
  pub first_reversal : (rule.reversal && reversed) ≡ false

validate_reference_sound :
    (r : Request) (rule : KindRule) (reference : WagerTransaction) (b : Bool)
    → (rule.reversal && b) ≡ false
    → validate_reference r rule reference ≡ ok tt
    → IsResolved r rule reference b
unfolding validate_reference
validate_reference_sound r rule reference b first h = record {
  provider = text_eq_sound r.provider_id reference.provider_id (ground arith);
  player = text_eq_sound r.player_id reference.player_id (ground arith);
  wallet = text_eq_sound r.wallet_id reference.wallet_id (ground arith);
  round = text_eq_sound r.round_id reference.round_id (ground arith);
  currency = ground arith;
  kind = ground arith;
  amount = λ rev. ground arith;
  first_reversal = first;
}

validate_reference_complete :
    (r : Request) (rule : KindRule) (reference : WagerTransaction) (b : Bool)
    → IsResolved r rule reference b
    → validate_reference r rule reference ≡ ok tt
unfolding validate_reference
validate_reference_complete r rule reference b h = elim (Bool-cases rule.reversal) [
  | inl rev ↦ ground (
    arith,
    rev,
    h.provider,
    h.player,
    h.wallet,
    h.round,
    h.currency,
    h.kind,
    h.amount rev,
    text_eq_refl reference.provider_id,
    text_eq_refl reference.player_id,
    text_eq_refl reference.wallet_id,
    text_eq_refl reference.round_id,
  )
  | inr keep ↦ ground (
    arith,
    keep,
    h.provider,
    h.player,
    h.wallet,
    h.round,
    h.currency,
    h.kind,
    text_eq_refl reference.provider_id,
    text_eq_refl reference.player_id,
    text_eq_refl reference.wallet_id,
    text_eq_refl reference.round_id,
  )
]

-- The statuses in which a reference is neither waited for nor refused.
abbrev pub is_settled : Status → Bool
is_settled processed = true
is_settled (other_status _) = true
is_settled _ = false

abbrev pub is_process : Action → Bool
is_process process = true
is_process _ = false

-- The facts that a request with a rule, a named reference and a found one share.
module _ (r : Request) (rule : KindRule) (reference : WagerTransaction) (reversed : Bool)
    (name : Text) (valid : validate_request r ≡ ok rule)
    (named : r.reference_external_transaction_id ≡ some name) where
  evaluate_settled :
      {d : Decision}
      → evaluate r (some reference) reversed ≡ ok d
      → is_process d.action ≡ true
      → (is_settled reference.status ≡ true)
        × (validate_reference r rule reference ≡ ok tt)
        × ((rule.reversal && reversed) ≡ false)
        × (d ≡ movement_decision r.kind (some reference))
  unfolding evaluate
  evaluate_settled e p = ground (arith, valid, named)

  -- A decision to process an operation that names a reference: the reference is settled, is the same
  -- provider's, player's, wallet's and round's, is in the same currency and of a kind that the
  -- operation may refer to, has the same amount if the operation is a reversal, and has no reversal yet.
  pub evaluate_process_sound :
      {d : Decision}
      → evaluate r (some reference) reversed ≡ ok d
      → is_process d.action ≡ true
      → (is_settled reference.status ≡ true)
        × IsResolved r rule reference reversed
        × (d ≡ movement_decision r.kind (some reference))
  evaluate_process_sound e p =
      let (settled, checked, first, value) = evaluate_settled e p in
      (settled, validate_reference_sound r rule reference reversed first checked, value)

  -- Where a settled reference satisfies all of the conditions, and the kind may name a reference, a
  -- valid operation is processed.
  pub evaluate_process_complete :
      is_forbidden rule.reference ≡ false
      → is_settled reference.status ≡ true
      → IsResolved r rule reference reversed
      → evaluate r (some reference) reversed ≡ ok (movement_decision r.kind (some reference))
  unfolding evaluate
  evaluate_process_complete allowed settled v = ground (
    arith,
    valid,
    named,
    v.first_reversal,
    validate_reference_complete r rule reference reversed v,
  )

-- The direction in which a processed operation of each kind moves money; nothing for LOSS.
abbrev pub direction_of : WagerKind → Option WagerKind → Direction
direction_of bet _ = debit
direction_of win _ = credit
direction_of refund _ = credit
direction_of rollback (some bet) = credit
direction_of rollback _ = debit
direction_of _ _ = no_direction

movement_direction :
    (k : WagerKind) (ref : Option WagerTransaction)
    → (movement_decision k ref).direction
      ≡ direction_of k (Option.map (λ (t : WagerTransaction). t.kind) ref)
unfolding movement_decision rule_direction kind_rules
movement_direction k ref = ground arith

-- The reference that a decision looks at: the found one, if the request names one.
abbrev pub used : Option Text → Option WagerTransaction → Option WagerTransaction
used none _ = none
used (some _) found = found

evaluate_movement :
    (r : Request) (found : Option WagerTransaction) (b : Bool) {d : Decision}
    → evaluate r found b ≡ ok d
    → is_process d.action ≡ true
    → d ≡ movement_decision r.kind (used r.reference_external_transaction_id found)
unfolding evaluate
evaluate_movement r found b e p = ground arith

-- A decision to process moves money in the direction of the table above: out of the wallet for a
-- BET, into it for a WIN or a REFUND, against its reference for a ROLLBACK, and not at all for a LOSS.
pub evaluate_direction :
    (r : Request) (found : Option WagerTransaction) (b : Bool) {d : Decision}
    → evaluate r found b ≡ ok d
    → is_process d.action ≡ true
    → d.direction
      ≡ direction_of r.kind (
          Option.map
            (λ (t : WagerTransaction). t.kind)
            (used r.reference_external_transaction_id found))
evaluate_direction r found b e p =
    ap (λ (x : Decision). x.direction) (evaluate_movement r found b e p)
    ∙ movement_direction r.kind (used r.reference_external_transaction_id found)

abbrev pub is_wait : Action → Bool
is_wait wait_for_reference = true
is_wait _ = false

abbrev pub absent_or_waiting : Option WagerTransaction → Bool
absent_or_waiting none = true
absent_or_waiting (some t) = is_pending_reference t.status

-- A decision on a valid request that names a reference waits exactly when the reference has not been
-- found or is itself waiting for one.
pub evaluate_waits :
    (r : Request) (found : Option WagerTransaction) (b : Bool) (rule : KindRule) {name : Text}
    {d : Decision}
    → validate_request r ≡ ok rule
    → r.reference_external_transaction_id ≡ some name
    → evaluate r found b ≡ ok d
    → is_wait d.action ≡ absent_or_waiting found
unfolding evaluate movement_decision
evaluate_waits r found b rule v n e = ground arith
