-- ===== src/Tests/Decisions.antt =====
-- Inputs for the theorems on internal/domain/operation and on the reads and rows of a transaction.
use gaming_go_backend.Common.{◌≡◌, refl, ◌↔◌, true, false, some, none, [], Option, ok}
use gaming_go_backend.Common.Int.{ℤ, pos}
use gaming_go_backend.Common.Text.{Text, codes, text_eq}
use gaming_go_backend.Money.{
  brl, Money, currency_of, zero_of, compare_money, same, is_supported, require_comparable, validate,
  compare_units, new,
}
use gaming_go_backend.Wallet.{credit}
use gaming_go_backend.Transaction.{WagerTransaction, WagerKind, bet, refund, external, processed}
use gaming_go_backend.Operation.Attempts.{Attempt, replay, new_attempt, classify_attempt}
use gaming_go_backend.Operation.Attempts.Classes.{IsReplay, IsNew, classify_attempt_exact}
use gaming_go_backend.Operation.Rules.{
  Request, KindRule, evaluate, validate_request, validate_input, rule_for, kind_rules,
  is_canonical_uuid, is_opaque_identifier, wrong_amount, movement_decision, rule_direction,
  validate_reference, same_currency, waiting, only_bet, reference_required, positive_amount,
}
use gaming_go_backend.Operation.Evaluation.{
  IsResolved, is_settled, is_wait, absent_or_waiting, direction_of, evaluate_process_sound,
  evaluate_process_complete, evaluate_direction, evaluate_waits, evaluate_final,
}
use gaming_go_backend.Operation.Reversals.{opposite, reversal_opposes}

abbrev reais : ℤ → Money
reais n = record { minor_units = n; currency = brl }

abbrev player : Text
player = codes "00000000-0000-0000-0000-000000000001"

abbrev wallet : Text
wallet = codes "00000000-0000-0000-0000-000000000002"

abbrev request : WagerKind → Option Text → Request
request kind reference = record {
  provider_id = codes "provider";
  external_transaction_id = codes "external";
  player_id = player;
  wallet_id = wallet;
  round_id = codes "round";
  game_id = codes "game";
  kind = kind;
  money = reais (pos 300);
  reference_external_transaction_id = reference;
}

-- The BET that a refund refers to.
abbrev placed : WagerTransaction
placed = record {
  id = codes "transaction";
  external_transaction_id = codes "placed";
  provider_id = codes "provider";
  idempotency_key = codes "key";
  payload_hash = codes "hash";
  wallet_id = wallet;
  player_id = player;
  round_id = codes "round";
  game_id = codes "game";
  kind = bet;
  origin = external;
  money = reais (pos 300);
  reference_external_transaction_id = [];
  reference_transaction_id = [];
  status = processed;
  failure_code = [];
  created_at = 2;
  updated_at = 2;
}

abbrev of_placed : Request
of_placed = request refund (some (codes "placed"))

abbrev refund_rule : KindRule
refund_rule = record {
  direction = credit;
  reference = reference_required;
  amount = positive_amount;
  reversal = true;
  reference_kinds = only_bet;
}

refund_valid : validate_request of_placed ≡ ok refund_rule
unfolding validate_request validate_input is_canonical_uuid is_opaque_identifier rule_for kind_rules
    currency_of zero_of new compare_money require_comparable validate is_supported compare_units
    wrong_amount
refund_valid = refl

refunds : evaluate of_placed (some placed) false ≡ ok (movement_decision refund (some placed))
unfolding evaluate validate_request validate_input is_canonical_uuid is_opaque_identifier rule_for
    kind_rules currency_of zero_of new compare_money require_comparable validate is_supported
    compare_units wrong_amount validate_reference same_currency movement_decision rule_direction
    text_eq
refunds = refl

sound_refund :
    (is_settled processed ≡ true)
    × IsResolved of_placed refund_rule placed false
    × (movement_decision refund (some placed) ≡ movement_decision refund (some placed))
unfolding movement_decision
sound_refund =
    evaluate_process_sound of_placed refund_rule placed false (codes "placed") refund_valid refl
      refunds refl

evaluate_process_sound_example :
    (is_settled processed ≡ true)
    × IsResolved of_placed refund_rule placed false
    × (movement_decision refund (some placed) ≡ movement_decision refund (some placed))
unfolding movement_decision
evaluate_process_sound_example =
    evaluate_process_sound of_placed refund_rule placed false (codes "placed") refund_valid refl
      refunds refl

evaluate_process_complete_example :
    evaluate of_placed (some placed) false ≡ ok (movement_decision refund (some placed))
evaluate_process_complete_example =
    evaluate_process_complete of_placed refund_rule placed false (codes "placed") refund_valid refl
      refl refl sound_refund.1

evaluate_direction_example :
    (movement_decision refund (some placed)).direction ≡ direction_of refund (some bet)
unfolding movement_decision
evaluate_direction_example = evaluate_direction of_placed (some placed) false refunds refl

waits_for_bet : evaluate of_placed none false ≡ ok waiting
unfolding evaluate validate_request validate_input is_canonical_uuid is_opaque_identifier rule_for
    kind_rules currency_of zero_of new compare_money require_comparable validate is_supported
    compare_units wrong_amount
waits_for_bet = refl

evaluate_waits_example : is_wait waiting.action ≡ absent_or_waiting none
evaluate_waits_example =
    evaluate_waits of_placed none false refund_rule refund_valid refl waits_for_bet

evaluate_final_example :
    evaluate (request bet none) none false ≡ evaluate (request bet none) (some placed) true
evaluate_final_example = evaluate_final (request bet none) none (some placed) false true refl

reversal_opposes_example :
    ((movement_decision refund (some placed)).direction ≡ opposite (direction_of bet none))
    × (compare_money (reais (pos 300)) (reais (pos 300)) ≡ ok same)
    × (false ≡ false)
unfolding movement_decision
reversal_opposes_example =
    reversal_opposes of_placed placed false refl refund_valid refl refunds refl

abbrev stored : Attempt
stored = record {
  idempotency_key = codes "key";
  payload_hash = codes "hash";
  external_transaction_id = codes "external";
}

classify_attempt_exact_example :
    ((classify_attempt stored (some stored) none ≡ replay) ↔ IsReplay stored (some stored))
    × ((classify_attempt stored (some stored) none ≡ new_attempt) ↔ IsNew stored (some stored) none)
classify_attempt_exact_example = classify_attempt_exact stored (some stored) none
