-- ===== src/Operation/Reversals.antt =====
-- A reversal moves the money of its reference back.
use gaming_go_backend.Common.{
  ◌≡◌, refl, Bool, true, false, none, some, Result, ok, err, arith, ap, ◌∙◌, sym,
}
use gaming_go_backend.Common.Text.{Text}
use gaming_go_backend.Money.{compare_money, same}
use gaming_go_backend.Wallet.{Direction, debit, credit}
use gaming_go_backend.Transaction.{
  WagerKind, opening, bet, win, loss, refund, rollback, other_kind, WagerTransaction, is_reversal,
}
use gaming_go_backend.Operation.Codes.{Code}
use gaming_go_backend.Operation.Rules.{
  Decision, Request, KindRule, rule_for, validate_request, evaluate,
}
use gaming_go_backend.Operation.Evaluation.{
  is_process, evaluate_process_sound, direction_of, evaluate_direction,
}

abbrev pub opposite : Direction → Direction
opposite debit = credit
opposite credit = debit
opposite d = d

validate-rule_for :
    (r : Request) {rule : KindRule} → validate_request r ≡ ok rule → rule_for r.kind ≡ ok rule
unfolding validate_request
validate-rule_for r v = ground arith

-- What a rule says of a kind of reference, read off the table.
abbrev in_rule : WagerKind → Result Code KindRule → Bool
in_rule m (ok rule) = rule.reference_kinds m
in_rule m (err _) = false

abbrev reverses : Result Code KindRule → Bool
reverses (ok rule) = rule.reversal
reverses (err _) = false

reversal_opposes_kind :
    (k m : WagerKind)
    → is_reversal k ≡ true
    → in_rule m (rule_for k) ≡ true
    → direction_of k (some m) ≡ opposite (direction_of m none)
unfolding rule_for
reversal_opposes_kind refund m v h = ground arith
reversal_opposes_kind rollback m v h = ground arith
reversal_opposes_kind opening m v h = cc
reversal_opposes_kind bet m v h = cc
reversal_opposes_kind win m v h = cc
reversal_opposes_kind loss m v h = cc
reversal_opposes_kind (other_kind _) m v h = cc

reversal_reverses : (k : WagerKind) → is_reversal k ≡ true → reverses (rule_for k) ≡ true
unfolding rule_for
reversal_reverses refund v = refl
reversal_reverses rollback v = refl
reversal_reverses opening v = cc
reversal_reverses bet v = cc
reversal_reverses win v = cc
reversal_reverses loss v = cc
reversal_reverses (other_kind _) v = cc

-- A REFUND or ROLLBACK that is decided to be processed against a reference moves the same amount as
-- the reference in the opposite direction of the one in which the reference's kind moved it, and the
-- reference had not been reversed before.
pub reversal_opposes :
    (r : Request) (reference : WagerTransaction) (reversed : Bool) {name : Text} {d : Decision}
    {rule : KindRule}
    → is_reversal r.kind ≡ true
    → validate_request r ≡ ok rule
    → r.reference_external_transaction_id ≡ some name
    → evaluate r (some reference) reversed ≡ ok d
    → is_process d.action ≡ true
    → (d.direction ≡ opposite (direction_of reference.kind none))
      × (compare_money r.money reference.money ≡ ok same)
      × (reversed ≡ false)
reversal_opposes r reference reversed {name} {d} {rule} k v n e p =
    let chosen = validate-rule_for r v in
    let (_, resolved, _) = evaluate_process_sound r rule reference reversed name v n e p in
    let rev : rule.reversal ≡ true = ap reverses (sym chosen) ∙ reversal_reverses r.kind k in
    let allowed : in_rule reference.kind (rule_for r.kind) ≡ true =
      ap (in_rule reference.kind) chosen ∙ resolved.kind in
    let first = resolved.first_reversal in
    (
      evaluate_direction r (some reference) reversed e p
          ∙ rw n (reversal_opposes_kind r.kind reference.kind k allowed),
      resolved.amount rev,
      ground (arith, rev, first),
    )
