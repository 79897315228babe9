-- ===== src/Money/Decimal/Exact.antt =====
-- What `Parse` computes of a canonical text, at every size: the amount or an overflow.
use gaming_go_backend.Common.{
  ℕ, ◌+◌, ◌-◌, ◌*◌, ◌^◌, ◌≤◌, ◌<◌, ◌≡◌, true, ◌||◌, Option, none, some, [], ◌∷◌, arith, ltb, ◌==◌,
  if◌then◌else◌, ok, err,
}
use gaming_go_backend.Common.Int.{pos}
use gaming_go_backend.Common.Text.{Text}
use gaming_go_backend.Money.{Currency, overflow, invalid_amount, is_supported, new}
use gaming_go_backend.Money.Decimal.{
  is_digit, parse, two_digits, fraction, more_digits, canonical_amount, parse_loop,
  parse_minor_units,
}

-- The number that the digits of a text write, its points skipped: hundredths, for an amount.
pub minor_units_in : ℕ → Text → ℕ
minor_units_in total [] = total
minor_units_in total (c ∷ s) =
    minor_units_in (if c == b'.' then total else total * 10 + (c - b'0')) s

minor_units_in-ge : (total : ℕ) (s : Text) → total ≤ minor_units_in total s
unfolding minor_units_in
minor_units_in-ge total [] = omega arith
minor_units_in-ge total (c ∷ s) =
    ground (arith, minor_units_in-ge (if c == b'.' then total else total * 10 + (c - b'0')) s)

abbrev AllAmount : Text → Type 0
AllAmount [] = Unit
AllAmount (c ∷ s) = ((is_digit c || c == b'.') ≡ true) × AllAmount s

two_digits-AllAmount : (s : Text) → two_digits s ≡ true → AllAmount s
unfolding two_digits
two_digits-AllAmount (a ∷ b ∷ []) h = ground arith
two_digits-AllAmount [] h = ground arith
two_digits-AllAmount (a ∷ []) h = ground arith
two_digits-AllAmount (a ∷ b ∷ c ∷ s) h = ground arith

fraction-AllAmount : (s : Text) → fraction s ≡ true → AllAmount s
unfolding fraction
fraction-AllAmount [] h = ground arith
fraction-AllAmount (c ∷ s) h = ground (arith, two_digits-AllAmount s)

more_digits-AllAmount : (s : Text) → more_digits s ≡ true → AllAmount s
unfolding more_digits
more_digits-AllAmount [] h = ground arith
more_digits-AllAmount (c ∷ s) h =
    ground (arith, fraction-AllAmount (c ∷ s), more_digits-AllAmount s)

canonical-AllAmount : (s : Text) → canonical_amount s ≡ true → AllAmount s
unfolding canonical_amount
canonical-AllAmount [] h = ground arith
canonical-AllAmount (c ∷ s) h = ground (arith, fraction-AllAmount s, more_digits-AllAmount s)

abbrev bounded : ℕ → Option ℕ
bounded n = if ltb n (2 ^ 63) then some n else none

parse_loop-exact :
    (total : ℕ) (s : Text)
    → total < 2 ^ 63
    → AllAmount s
    → parse_loop total s ≡ bounded (minor_units_in total s)
unfolding parse_loop minor_units_in
parse_loop-exact total [] h d = ground arith
parse_loop-exact total (c ∷ s) h d =
    let next = if c == b'.' then total else total * 10 + (c - b'0') in
    ground (arith, minor_units_in-ge next s, parse_loop-exact next s)

-- A canonical text in a supported currency parses to the number of minor units that its digits
-- write where that is below 2^63, and is refused as an overflow from there on. A text that is
-- not canonical is refused as an invalid amount.
pub parse_exact :
    (s : Text) (c : Currency)
    → is_supported c ≡ true
    → parse s c ≡ (
        if canonical_amount s
        then if ltb (minor_units_in 0 s) (2 ^ 63)
          then ok (record { minor_units = pos (minor_units_in 0 s); currency = c })
          else err overflow
        else err invalid_amount)
unfolding parse parse_minor_units new
parse_exact s c h = ground (arith, h, canonical-AllAmount s, parse_loop-exact 0 s)
