-- ===== src/Money/Decimal/RoundTrip.antt =====
-- The text that `decimal` writes is the text that `Parse` accepts, with the same amount.
use gaming_go_backend.Common.{
  ℕ, zero, suc, ◌+◌, ◌-◌, ◌*◌, ◌/◌, ◌%◌, ◌^◌, ◌≤◌, ◌<◌, ◌≡◌, refl, true, some, [], ◌∷◌, ◌++◌, arith,
  Bool-cases, inl, inr, ap, ◌∙◌, leb, ◌==◌, ltb, ok, ◌>>=◌,
}
use native.Mathlib.Nat.{pow-succ'}
use gaming_go_backend.Common.Int.{ℤ, pos, negsuc, ◌≤ℤ◌}
use gaming_go_backend.Common.Text.{Text}
use gaming_go_backend.Money.{Currency, Money, IsMoney, new, validate}
use gaming_go_backend.Money.Decimal.{
  is_digit, parse, decimal, format_digits, format_uint, two_places, more_digits, fraction,
  canonical_amount, parse_byte, parse_loop, parse_minor_units,
}

abbrev AllDigits : Text → Type 0
AllDigits [] = Unit
AllDigits (c ∷ s) = (is_digit c ≡ true) × AllDigits s

-- The number that decimal digits write, behind the digits of `total`.
value : ℕ → Text → ℕ
value total [] = total
value total (c ∷ s) = value (total * 10 + (c - b'0')) s

value-ge : (total : ℕ) (s : Text) → total ≤ value total s
unfolding value
value-ge total [] = omega arith
value-ge total (c ∷ s) = omega (arith, value-ge (total * 10 + (c - b'0')) s)

parse_byte-digit :
    (total c : ℕ)
    → is_digit c ≡ true
    → total * 10 + (c - b'0') < 2 ^ 63
    → parse_byte total c ≡ some (total * 10 + (c - b'0'))
unfolding parse_byte
parse_byte-digit total c d h = ground arith

parse_loop-digit :
    (total c : ℕ) (t : Text)
    → is_digit c ≡ true
    → total * 10 + (c - b'0') < 2 ^ 63
    → parse_loop total (c ∷ t) ≡ parse_loop (total * 10 + (c - b'0')) t
unfolding parse_loop
parse_loop-digit total c t d h = rw (parse_byte-digit total c d h, parse_loop)

-- The loop reads digits whose value is an int64 without its early return.
parse_loop-digits :
    (total : ℕ) (s t : Text)
    → AllDigits s
    → value total s < 2 ^ 63
    → parse_loop total (s ++ t) ≡ parse_loop (value total s) t
unfolding value
parse_loop-digits total [] t d h = refl
parse_loop-digits total (c ∷ s) t d h =
    let next = total * 10 + (c - b'0') in
    parse_loop-digit total c (s ++ t) d.0 (omega (arith, value-ge next s))
    ∙ parse_loop-digits next s t d.1 h

format_digits-AllDigits : (f n : ℕ) (acc : Text) → AllDigits acc → AllDigits (format_digits f n acc)
unfolding format_digits
format_digits-AllDigits zero n acc d = d
format_digits-AllDigits (suc f) n acc d = elim (Bool-cases (ltb n 10)) [
  | inl small ↦ rw small (ground arith, d)
  | inr large ↦
      rw large (format_digits-AllDigits f (n / 10) ((b'0' + n % 10) ∷ acc) (ground arith, d))
]

value-format_digits :
    (f n : ℕ) (acc : Text) → n < 10 ^ f → value 0 (format_digits f n acc) ≡ value n acc
unfolding format_digits value
value-format_digits zero n acc h = ap (λ (t : ℕ). value t acc) (omega arith)
value-format_digits (suc f) n acc h = elim (Bool-cases (ltb n 10)) [
  | inl small ↦ rw small (ap (λ (t : ℕ). value t acc) (omega arith))
  | inr large ↦ rw large (
      value-format_digits f (n / 10) ((b'0' + n % 10) ∷ acc) (omega (arith, pow-succ' 10 f))
      ∙ ap (λ (t : ℕ). value t acc) (omega arith))
]

-- A digit that is not zero, in front of digits.
abbrev Leads : Text → Type 0
Leads [] = ⊥
Leads (c ∷ s) = (leb b'1' c ≡ true) × (is_digit c ≡ true) × AllDigits s

format_digits-Leads :
    (f n : ℕ) (acc : Text) → 0 < n → n < 10 ^ f → AllDigits acc → Leads (format_digits f n acc)
unfolding format_digits
format_digits-Leads zero n acc p h d = absurd (omega arith)
format_digits-Leads (suc f) n acc p h d = elim (Bool-cases (ltb n 10)) [
  | inl small ↦ rw small (ground arith, ground arith, d)
  | inr large ↦ rw large (
      format_digits-Leads f (n / 10) ((b'0' + n % 10) ∷ acc) (ground arith)
        (omega (arith, pow-succ' 10 f)) (ground arith, d))
]

more_digits-digits : (s t : Text) → AllDigits s → more_digits (s ++ t) ≡ more_digits t
unfolding more_digits
more_digits-digits [] t d = refl
more_digits-digits (c ∷ s) t d = rw d.0 (more_digits-digits s t d.1)

-- What stands behind the whole units: the point and two digits.
abbrev tail_of : ℕ → Text
tail_of k = b'.' ∷ two_places k

fraction-tail : (k : ℕ) → k < 100 → fraction (tail_of k) ≡ true
unfolding fraction
fraction-tail k h = ground arith

canonical-Leads : (s : Text) (k : ℕ) → Leads s → k < 100 → canonical_amount (s ++ tail_of k) ≡ true
unfolding canonical_amount
canonical-Leads [] k l h = absurd l
canonical-Leads (c ∷ s) k l h =
    ground (arith, more_digits-digits s (tail_of k) l.2, fraction-tail k h)

parse_loop-point : (total : ℕ) (t : Text) → parse_loop total (b'.' ∷ t) ≡ parse_loop total t
unfolding parse_loop
parse_loop-point total t = refl

parse_loop-tail :
    (total k : ℕ)
    → k < 100
    → total * 100 + k < 2 ^ 63
    → parse_loop total (tail_of k) ≡ some (total * 100 + k)
unfolding parse_loop
parse_loop-tail total k h m =
    let tens = b'0' + k / 10 in
    let units = b'0' + k % 10 in
    let next = total * 10 + (tens - b'0') in
    parse_loop-point total (two_places k)
    ∙ parse_loop-digit total tens (units ∷ []) (ground arith) (omega arith)
    ∙ parse_loop-digit next units [] (ground arith) (omega arith)
    ∙ ap some (omega arith)

-- What the decimal text of a whole number of minor units is.
abbrev text_of : ℕ → Text
text_of n = format_uint (n / 100) ++ tail_of (n % 100)

canonical-zero : (k : ℕ) → k < 100 → canonical_amount (format_uint 0 ++ tail_of k) ≡ true
unfolding canonical_amount format_uint
canonical-zero k h = fraction-tail k h

canonical-text_of : (n : ℕ) → n < 2 ^ 63 → canonical_amount (text_of n) ≡ true
unfolding format_uint
canonical-text_of n h = elim (Bool-cases (n / 100 == 0)) [
  | inl none_whole ↦
      let e : n / 100 ≡ 0 = ground arith in rw e (canonical-zero (n % 100) (omega arith))
  | inr whole ↦
      canonical-Leads (format_uint (n / 100)) (n % 100)
        (format_digits-Leads 20 (n / 100) [] (ground arith) (omega arith) tt) (omega arith)
]

parse-text_of : (n : ℕ) → n < 2 ^ 63 → parse_minor_units (text_of n) ≡ some n
unfolding parse_minor_units format_uint value
parse-text_of n h =
    let digits = format_digits 20 (n / 100) [] in
    let v : value 0 digits ≡ n / 100 = value-format_digits 20 (n / 100) [] (omega arith) in
    parse_loop-digits 0 digits (tail_of (n % 100)) (format_digits-AllDigits 20 (n / 100) [] tt)
      (omega (arith, v))
    ∙ ap (λ (t : ℕ). parse_loop t (tail_of (n % 100))) v
    ∙ parse_loop-tail (n / 100) (n % 100) (omega arith) (omega arith)
    ∙ ap some (omega arith)

decimal-pos :
    (n : ℕ) (c : Currency)
    → IsMoney (record { minor_units = pos n; currency = c })
    → decimal (record { minor_units = pos n; currency = c }) ≡ ok (text_of n)
unfolding decimal validate
decimal-pos n c h = ground (arith, h.supported)

parse-text_of_lem :
    (n : ℕ) (c : Currency)
    → IsMoney (record { minor_units = pos n; currency = c })
    → parse (text_of n) c ≡ ok (record { minor_units = pos n; currency = c })
unfolding parse new
parse-text_of_lem n c h = ground (arith, canonical-text_of n, parse-text_of n, h.supported)

round_trip :
    (u : ℤ) (c : Currency)
    → IsMoney (record { minor_units = u; currency = c })
    → pos 0 ≤ℤ u
    → (decimal (record { minor_units = u; currency = c }) >>= λ s. parse s c)
      ≡ ok (record { minor_units = u; currency = c })
round_trip (pos n) c h p = rw (decimal-pos n c h) (parse-text_of_lem n c h)
round_trip (negsuc n) c h p = absurd (omega arith)

-- Of an amount that is not negative the decimal text is canonical, and parsing it in the amount's
-- own currency gives the amount back.
pub parse-decimal :
    (m : Money)
    → IsMoney m
    → pos 0 ≤ℤ m.minor_units
    → (decimal m >>= λ s. parse s m.currency) ≡ ok m
parse-decimal m h p = round_trip m.minor_units m.currency h p
