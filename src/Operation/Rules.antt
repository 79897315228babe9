-- ===== src/Operation/Rules.antt =====
-- internal/domain/operation/rules.go: what each kind of operation wants, and the decision on a
-- request.
use gaming_go_backend.Common.{
  ℕ, ◌+◌, Bool, true, false, not, ◌&&◌, ◌||◌, Option, none, some, [], ◌∷◌, length, ltb, leb, ◌==◌,
  if◌then◌else◌, Result, ok, err, ◌>>=◌, ◌>>◌, fail_if, map_err,
}
use gaming_go_backend.Common.Text.{Text, text_eq}
use gaming_go_backend.Money
use gaming_go_backend.Money.{
  Currency, currency_eq, MoneyError, Money, zero_of, currency_of, Order, less, greater, same,
  compare_money,
}
use gaming_go_backend.Wallet.{Direction, debit, credit, other_direction, is_same}
use gaming_go_backend.Transaction.{
  WagerKind, opening, bet, win, loss, refund, rollback, Status, pending, processed, rejected,
  failed, pending_reference, WagerTransaction,
}
use gaming_go_backend.Operation.Codes
use gaming_go_backend.Operation.Codes.{Code}

pub data Action : Type 0 where
  process wait_for_reference reject : Action

pub record Decision : Type 0 where
  pub action : Action
  pub direction : Direction
  pub error : Option Code

pub record Request : Type 0 where
  pub provider_id : Text
  pub external_transaction_id : Text
  pub player_id : Text
  pub wallet_id : Text
  pub round_id : Text
  pub game_id : Text
  pub kind : WagerKind
  pub money : Money
  pub reference_external_transaction_id : Option Text

pub data ReferencePolicy : Type 0 where
  reference_forbidden reference_optional reference_required : ReferencePolicy

pub data AmountPolicy : Type 0 where
  positive_amount zero_amount : AmountPolicy

-- `reference_kinds` is the set of kinds that the map holds.
pub record KindRule : Type 0 where
  pub direction : Direction
  pub reference : ReferencePolicy
  pub amount : AmountPolicy
  pub reversal : Bool
  pub reference_kinds : WagerKind → Bool

abbrev pub no_direction : Direction
no_direction = other_direction []

abbrev pub no_kinds : WagerKind → Bool
no_kinds _ = false

abbrev pub only_bet : WagerKind → Bool
only_bet bet = true
only_bet _ = false

abbrev pub bet_win_refund : WagerKind → Bool
bet_win_refund bet = true
bet_win_refund win = true
bet_win_refund refund = true
bet_win_refund _ = false

-- `kindRules`, and `none` for a kind that is no key of it.
unfoldable pub kind_rules : WagerKind → Option KindRule
kind_rules bet = some (record {
  direction = debit;
  reference = reference_forbidden;
  amount = positive_amount;
  reversal = false;
  reference_kinds = no_kinds;
})
kind_rules win = some (record {
  direction = credit;
  reference = reference_optional;
  amount = positive_amount;
  reversal = false;
  reference_kinds = only_bet;
})
kind_rules loss = some (record {
  direction = no_direction;
  reference = reference_forbidden;
  amount = zero_amount;
  reversal = false;
  reference_kinds = no_kinds;
})
kind_rules refund = some (record {
  direction = credit;
  reference = reference_required;
  amount = positive_amount;
  reversal = true;
  reference_kinds = only_bet;
})
kind_rules rollback = some (record {
  direction = no_direction;
  reference = reference_required;
  amount = positive_amount;
  reversal = true;
  reference_kinds = bet_win_refund;
})
kind_rules _ = none

unfoldable pub is_opaque_identifier : Text → Bool
is_opaque_identifier s = ltb 0 (length s) && leb (length s) 255

-- One round of the loop of `IsCanonicalUUID`.
uuid_byte : ℕ → ℕ → Bool
uuid_byte index c =
    if index == 8 || index == 13 || index == 18 || index == 23
    then c == b'-'
    else leb b'0' c && leb c b'9' || leb b'a' c && leb c b'f'

-- The source ranges over the runes of the text. It leaves at the first byte that is not ASCII, so up
-- to there each rune is one byte, and the walk is over the bytes.
uuid_from : ℕ → Text → Bool
unfolding uuid_byte
uuid_from index [] = true
uuid_from index (c ∷ s) = uuid_byte index c && uuid_from (index + 1) s

unfoldable pub is_canonical_uuid : Text → Bool
unfolding uuid_from
is_canonical_uuid s = length s == 36 && uuid_from 0 s

abbrev bad_reference : Option Text → Bool
bad_reference none = false
bad_reference (some s) = not (is_opaque_identifier s)

unfoldable pub validate_input : Request → Result Code (Unit {0})
validate_input r =
    fail_if
      (not (is_canonical_uuid r.player_id)
        || not (is_canonical_uuid r.wallet_id)
        || not (is_opaque_identifier r.provider_id)
        || not (is_opaque_identifier r.external_transaction_id)
        || not (is_opaque_identifier r.round_id)
        || not (is_opaque_identifier r.game_id)
        || bad_reference r.reference_external_transaction_id)
      Codes.invalid_request

-- The rule of a kind, or the error for one that has none.
unfoldable pub rule_for : WagerKind → Result Code KindRule
unfolding kind_rules
rule_for kind = elim (kind_rules kind) [
  | some rule ↦ ok rule
  | none ↦ elim kind [ opening ↦ err Codes.kind_not_allowed | _ ↦ err Codes.invalid_request ]
]

abbrev currency_error : MoneyError → Code
currency_error Money.unsupported_currency = Codes.unsupported_currency
currency_error _ = Codes.invalid_money

-- `(zeroAmount && comparison != 0) || (positiveAmount && comparison <= 0)`
unfoldable pub wrong_amount : AmountPolicy → Order → Bool
wrong_amount zero_amount same = false
wrong_amount zero_amount _ = true
wrong_amount positive_amount greater = false
wrong_amount positive_amount _ = true

unfoldable pub validate_request : Request → Result Code KindRule
validate_request r = do
  validate_input r
  rule ← rule_for r.kind
  currency ← map_err currency_error (currency_of r.money)
  zero ← map_err (λ _. Codes.unsupported_currency) (zero_of currency)
  comparison ← map_err (λ _. Codes.invalid_money) (compare_money r.money zero)
  fail_if (wrong_amount rule.amount comparison) Codes.invalid_amount_for_kind
  ok rule

-- `kindRules[kind].direction`, the zero value for a kind that is no key.
unfoldable pub rule_direction : WagerKind → Direction
unfolding kind_rules
rule_direction kind = elim (kind_rules kind) [ some rule ↦ rule.direction | none ↦ no_direction ]

abbrev rollback_direction : Option WagerTransaction → Direction
rollback_direction none = debit
rollback_direction (some reference) = if only_bet reference.kind then credit else debit

unfoldable pub movement_decision : WagerKind → Option WagerTransaction → Decision
movement_decision kind reference = record {
  action = process;
  direction = elim kind [ rollback ↦ rollback_direction reference | other ↦ rule_direction other ];
  error = none;
}

abbrev pub rejection : Code → Decision
rejection code = record { action = reject; direction = no_direction; error = some code }

abbrev pub waiting : Decision
waiting = record { action = wait_for_reference; direction = no_direction; error = none }

-- The two currencies are there and equal.
unfoldable pub same_currency : Money → Money → Bool
same_currency m n = elim (currency_of m) [
  | err _ ↦ false
  | ok c ↦ elim (currency_of n) [ err _ ↦ false | ok d ↦ currency_eq c d ]
]

unfoldable pub validate_reference : Request → KindRule → WagerTransaction → Result Code (Unit {0})
validate_reference r rule reference = do
  fail_if
      (not (text_eq r.provider_id reference.provider_id)
        || not (text_eq r.player_id reference.player_id)
        || not (text_eq r.wallet_id reference.wallet_id)
        || not (text_eq r.round_id reference.round_id))
      Codes.reference_mismatch
  fail_if (not (same_currency r.money reference.money)) Codes.reference_mismatch
  fail_if (not (rule.reference_kinds reference.kind)) Codes.reference_kind_not_reversible
  fail_if (rule.reversal && not (is_same (compare_money r.money reference.money)))
      Codes.reference_amount_mismatch

-- A reference that has been found, by its status. A status outside the constants passes, as it
-- does in the source.
evaluate_found : Request → KindRule → WagerTransaction → Bool → Status → Decision
evaluate_found r rule reference reversed pending_reference = waiting
evaluate_found r rule reference reversed pending = rejection Codes.reference_not_processed
evaluate_found r rule reference reversed rejected = rejection Codes.reference_not_processed
evaluate_found r rule reference reversed failed = rejection Codes.reference_not_processed
evaluate_found r rule reference reversed _ = elim (validate_reference r rule reference) [
  | err code ↦ rejection code
  | ok _ ↦
      if rule.reversal && reversed
      then rejection Codes.reference_already_reversed
      else movement_decision r.kind (some reference)
]

evaluate_reference : Request → KindRule → Option WagerTransaction → Bool → Decision
unfolding evaluate_found
evaluate_reference r rule none reversed = waiting
evaluate_reference r rule (some reference) reversed =
    evaluate_found r rule reference reversed reference.status

abbrev pub is_required : ReferencePolicy → Bool
is_required reference_required = true
is_required _ = false

abbrev pub is_forbidden : ReferencePolicy → Bool
is_forbidden reference_forbidden = true
is_forbidden _ = false

-- What follows `validateRequest`: first whether the request names a reference.
evaluate_rule :
    Request → KindRule → Option WagerTransaction → Bool → Option Text → Result Code Decision
unfolding evaluate_reference
evaluate_rule r rule reference reversed none =
    if is_required rule.reference
    then err Codes.reference_required
    else ok (movement_decision r.kind none)
evaluate_rule r rule reference reversed (some _) =
    if is_forbidden rule.reference
    then err Codes.reference_not_allowed
    else ok (evaluate_reference r rule reference reversed)

unfoldable pub evaluate : Request → Option WagerTransaction → Bool → Result Code Decision
unfolding evaluate_rule
evaluate r reference reversed = do
  rule ← validate_request r
  evaluate_rule r rule reference reversed r.reference_external_transaction_id

abbrev is_processed : Status → Bool
is_processed processed = true
is_processed _ = false

unfoldable pub expire_pending_reference :
    Request → Option WagerTransaction → Bool → Result Code Decision
expire_pending_reference r none reversed = ok (rejection Codes.reference_not_found)
expire_pending_reference r (some reference) reversed =
    if not (is_processed reference.status)
    then ok (rejection Codes.reference_not_processed)
    else evaluate r (some reference) reversed

unfoldable pub insufficient_funds_for : WagerKind → Code
unfolding kind_rules
insufficient_funds_for kind = elim (kind_rules kind) [
  | none ↦ Codes.insufficient_funds
  | some rule ↦
      if rule.reversal then Codes.reversal_insufficient_funds else Codes.insufficient_funds
]
