-- ===== src/Money.antt =====
-- internal/domain/money/money.go: construction, checks and arithmetic of Money. The children hold
-- its decimal text (Decimal) and the proofs about its arithmetic (Arithmetic).
-- An amount is an int64, so `minor_units` is an integer that `IsMoney` bounds.
pub mod Decimal
pub mod Arithmetic
use gaming_go_backend.Common.{
  ◌≡◌, Bool, true, false, not, ◌&&◌, ◌||◌, if◌then◌else◌, Result, ok, err, ◌>>=◌, ◌>>◌, fail_if,
}
use gaming_go_backend.Common.Int.{ℤ, pos, ◌≤ℤ◌, ◌<ℤ◌, ltb_ℤ, leb_ℤ, eqb_ℤ}
use gaming_go_backend.Common.Int64.{min_int64, max_int64, add64, sub64}
use gaming_go_backend.Common.Text.{Text, text_eq}

-- `other` is every code that is none of the three constants, the zero value "" among them.
pub data Currency : Type 0 where
  brl usd eur : Currency
  other : Text → Currency

abbrev pub currency_eq : Currency → Currency → Bool
currency_eq brl brl = true
currency_eq usd usd = true
currency_eq eur eur = true
currency_eq (other s) (other t) = text_eq s t
currency_eq _ _ = false

pub data MoneyError : Type 0 where
  invalid_money invalid_amount unsupported_currency currency_mismatch overflow : MoneyError

pub record Money : Type 0 where
  pub minor_units : ℤ
  pub currency : Currency

unfoldable pub is_supported : Currency → Bool
is_supported c = currency_eq c brl || currency_eq c usd || currency_eq c eur

unfoldable pub new : ℤ → Currency → Result MoneyError Money
new amount c =
    if not (is_supported c)
    then err unsupported_currency
    else if eqb_ℤ amount min_int64
    then err overflow
    else ok (record { minor_units = amount; currency = c })

unfoldable pub zero_of : Currency → Result MoneyError Money
zero_of c = new (pos 0) c

unfoldable pub validate : Money → Result MoneyError (Unit {0})
validate m = fail_if (not (is_supported m.currency)) invalid_money

unfoldable pub minor_units_of : Money → Result MoneyError ℤ
minor_units_of m = do validate m; ok m.minor_units

unfoldable pub currency_of : Money → Result MoneyError Currency
currency_of m = do validate m; ok m.currency

unfoldable pub require_comparable : Money → Money → Result MoneyError (Unit {0})
require_comparable m n = do
  validate m
  validate n
  fail_if (not (currency_eq m.currency n.currency)) currency_mismatch

-- The two guards compute in int64, as the source does, so they may wrap where `&&` has already
-- settled the test.
unfoldable pub add_overflows : ℤ → ℤ → Bool
add_overflows a b =
    ltb_ℤ (pos 0) b && ltb_ℤ (sub64 max_int64 b) a || ltb_ℤ b (pos 0) && leb_ℤ a (sub64 min_int64 b)

unfoldable pub subtract_overflows : ℤ → ℤ → Bool
subtract_overflows a b =
    ltb_ℤ (pos 0) b && leb_ℤ a (add64 min_int64 b) || ltb_ℤ b (pos 0) && ltb_ℤ (add64 max_int64 b) a

unfoldable pub add : Money → Money → Result MoneyError Money
unfolding add_overflows
add m n = do
  require_comparable m n
  fail_if (add_overflows m.minor_units n.minor_units) overflow
  ok (record m { minor_units = add64 m.minor_units n.minor_units })

unfoldable pub subtract : Money → Money → Result MoneyError Money
unfolding subtract_overflows
subtract m n = do
  require_comparable m n
  fail_if (subtract_overflows m.minor_units n.minor_units) overflow
  ok (record m { minor_units = sub64 m.minor_units n.minor_units })

unfoldable pub negate : Money → Result MoneyError Money
negate m = do
  validate m
  fail_if (eqb_ℤ m.minor_units min_int64) overflow
  ok (record m { minor_units = sub64 (pos 0) m.minor_units })

-- The int that `Compare` returns: -1, 1 and 0.
pub data Order : Type 0 where
  less greater same : Order

unfoldable pub compare_units : ℤ → ℤ → Order
compare_units a b = if ltb_ℤ a b then less else if ltb_ℤ b a then greater else same

unfoldable pub compare_money : Money → Money → Result MoneyError Order
unfolding compare_units
compare_money m n = do require_comparable m n; ok (compare_units m.minor_units n.minor_units)

-- What `New` and the operations give: a supported currency, and an amount that can be negated.
pub record IsMoney (m : Money) : Type 0 where
  pub supported : is_supported m.currency ≡ true
  pub above_min : min_int64 <ℤ m.minor_units
  pub below_max : m.minor_units ≤ℤ max_int64
