-- ===== src/Money/Decimal.antt =====
-- internal/domain/money/money.go: the canonical decimal text of an amount, read and written.
pub mod RoundTrip
pub mod Exact
use gaming_go_backend.Common.{
  ℕ, zero, suc, ◌+◌, ◌-◌, ◌*◌, ◌/◌, ◌%◌, ◌^◌, Bool, true, false, not, ◌&&◌, Option, none, some, [],
  ◌∷◌, ◌++◌, ltb, leb, ◌==◌, if◌then◌else◌, Result, ok, err, ◌>>=◌, ◌>>◌,
}
use gaming_go_backend.Common.Int.{ℤ, pos, ltb_ℤ}
use gaming_go_backend.Common.Int64.{to_uint64, sub64}
use gaming_go_backend.Common.Text.{Text}
use gaming_go_backend.Money.{Currency, MoneyError, invalid_amount, overflow, Money, new, validate}

abbrev pub is_digit : ℕ → Bool
is_digit c = leb b'0' c && leb c b'9'

-- `\d{2}$`
two_digits : Text → Bool
two_digits (a ∷ b ∷ []) = is_digit a && is_digit b
two_digits _ = false

-- `\.\d{2}$`
fraction : Text → Bool
unfolding two_digits
fraction [] = false
fraction (c ∷ s) = c == b'.' && two_digits s

-- `\d*\.\d{2}$`
more_digits : Text → Bool
unfolding fraction
more_digits [] = false
more_digits (c ∷ s) = let rest = more_digits s in if is_digit c then rest else fraction (c ∷ s)

-- `^(0|[1-9]\d*)\.\d{2}$`
unfoldable pub canonical_amount : Text → Bool
unfolding more_digits
canonical_amount [] = false
canonical_amount (c ∷ s) =
    if c == b'0' then fraction s else if leb b'1' c && leb c b'9' then more_digits s else false

-- One round of the loop of `parseMinorUnits`; `none` is its early return. The difference
-- `amount[i] - '0'` is taken in uint8. The total starts at 0 and the test keeps it in int64.
unfoldable pub parse_byte : ℕ → ℕ → Option ℕ
parse_byte total c =
    let digit = (c + 256 - b'0') % 256 in
    if c == b'.'
    then some total
    else if ltb ((2 ^ 63 - 1 - digit) / 10) total
    then none
    else some (total * 10 + digit)

unfoldable pub parse_loop : ℕ → Text → Option ℕ
unfolding parse_byte
parse_loop total [] = some total
parse_loop total (c ∷ s) = elim (parse_byte total c) [ none ↦ none | some next ↦ parse_loop next s ]

unfoldable pub parse_minor_units : Text → Option ℕ
unfolding parse_loop
parse_minor_units s = parse_loop 0 s

or_overflow : Option ℕ → Currency → Result MoneyError Money
or_overflow none c = err overflow
or_overflow (some units) c = new (pos units) c

unfoldable pub parse : Text → Currency → Result MoneyError Money
unfolding or_overflow
parse s c =
    if not (canonical_amount s) then err invalid_amount else or_overflow (parse_minor_units s) c

-- `strconv.FormatUint(n, 10)`: the last digit is written first. A uint64 has at most 20 digits.
unfoldable pub format_digits : ℕ → ℕ → Text → Text
format_digits zero n acc = acc
format_digits (suc fuel) n acc =
    let rest = format_digits fuel (n / 10) ((b'0' + n % 10) ∷ acc) in
    if ltb n 10 then (b'0' + n) ∷ acc else rest

unfoldable pub format_uint : ℕ → Text
unfolding format_digits
format_uint n = format_digits 20 n []

-- `fmt.Sprintf("%02d", n)` below 100.
abbrev pub two_places : ℕ → Text
two_places n = (b'0' + n / 10) ∷ (b'0' + n % 10) ∷ []

unfoldable pub decimal : Money → Result MoneyError Text
decimal m = do
  validate m
  let negative = ltb_ℤ m.minor_units (pos 0)
  let magnitude = to_uint64 (if negative then sub64 (pos 0) m.minor_units else m.minor_units)
  let sign = if negative then b'-' ∷ [] else []
  ok (sign ++ (format_uint (magnitude / 100) ++ (b'.' ∷ two_places (magnitude % 100))))
