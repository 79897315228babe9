-- ===== src/Money/Arithmetic.antt =====
-- Sums and differences of amounts are exact or are refused: int64 arithmetic never wraps.
use gaming_go_backend.Common.{
  ◌≡◌, Bool, true, not, arith, ◌&&◌, if◌then◌else◌, ok, err, refl, ap, ◌∙◌,
}
use gaming_go_backend.Common.Int.{ℤ, ◌+ℤ◌, ◌-ℤ◌, ◌<ℤ◌, ltb_ℤ, leb_ℤ}
use gaming_go_backend.Common.Int64.{
  min_int64, max_int64, add64, sub64, add64_fits, sub64_fits, wrap64,
}
use gaming_go_backend.Common.Text.{text_eq_refl, text_eq_sound}
use gaming_go_backend.Money.{
  Order, less, greater, same, compare_money, compare_units, Currency, brl, usd, eur, other,
  currency_eq, validate, Money, overflow, require_comparable, add, subtract, add_overflows,
  subtract_overflows, IsMoney,
}

-- An amount that `New` accepts: above the lower end of int64, at most the upper one.
abbrev pub fits : ℤ → Bool
fits a = ltb_ℤ min_int64 a && leb_ℤ a max_int64

pub fits_of_IsMoney : {m : Money} → IsMoney m → fits m.minor_units ≡ true
fits_of_IsMoney h = ground arith

module _ (a b : ℤ) (ha : fits a ≡ true) (hb : fits b ≡ true) where
  add_overflows_exact : add_overflows a b ≡ not (fits (a +ℤ b))
  unfolding add_overflows add64 sub64 ◌+ℤ◌ ◌-ℤ◌ wrap64
  add_overflows_exact = ground arith

  subtract_overflows_exact : subtract_overflows a b ≡ not (fits (a -ℤ b))
  unfolding subtract_overflows add64 sub64 ◌+ℤ◌ ◌-ℤ◌ wrap64
  subtract_overflows_exact = ground arith

  add64_exact : fits (a +ℤ b) ≡ true → add64 a b ≡ a +ℤ b
  add64_exact h = add64_fits a b (ground arith)

  sub64_exact : fits (a -ℤ b) ≡ true → sub64 a b ≡ a -ℤ b
  sub64_exact h = sub64_fits a b (ground arith)

pub currency_eq_refl : (c : Currency) → currency_eq c c ≡ true
currency_eq_refl brl = refl
currency_eq_refl usd = refl
currency_eq_refl eur = refl
currency_eq_refl (other s) = text_eq_refl s

pub currency_eq_sound : (c d : Currency) → currency_eq c d ≡ true → c ≡ d
currency_eq_sound brl d h = ground arith
currency_eq_sound usd d h = ground arith
currency_eq_sound eur d h = ground arith
currency_eq_sound (other s) brl h = ground arith
currency_eq_sound (other s) usd h = ground arith
currency_eq_sound (other s) eur h = ground arith
currency_eq_sound (other s) (other t) h = ap other (text_eq_sound s t h)

-- Two amounts of one supported currency can be combined and compared.
pub comparable :
    (m n : Money) → IsMoney m → IsMoney n → m.currency ≡ n.currency → require_comparable m n ≡ ok tt
unfolding require_comparable validate
comparable m n hm hn e = ground (arith, currency_eq_refl n.currency)

module _ (m n : Money) (hm : IsMoney m) (hn : IsMoney n)
    (same_currency : m.currency ≡ n.currency) where
  -- Of two amounts in one currency the sum is exact where it is an amount again, and is refused
  -- as an overflow everywhere else.
  pub add_exact : add m n ≡ (
      if fits (m.minor_units +ℤ n.minor_units)
      then ok (record m { minor_units = m.minor_units +ℤ n.minor_units })
      else err overflow)
  unfolding add
  add_exact = ground (
    arith,
    comparable m n hm hn same_currency,
    add_overflows_exact m.minor_units n.minor_units (fits_of_IsMoney hm) (fits_of_IsMoney hn),
    add64_exact m.minor_units n.minor_units (fits_of_IsMoney hm) (fits_of_IsMoney hn),
  )

  -- Of two amounts in one currency the difference is exact where it is an amount again, and is
  -- refused as an overflow everywhere else.
  pub subtract_exact : subtract m n ≡ (
      if fits (m.minor_units -ℤ n.minor_units)
      then ok (record m { minor_units = m.minor_units -ℤ n.minor_units })
      else err overflow)
  unfolding subtract
  subtract_exact = ground (
    arith,
    comparable m n hm hn same_currency,
    subtract_overflows_exact m.minor_units n.minor_units (fits_of_IsMoney hm) (fits_of_IsMoney hn),
    sub64_exact m.minor_units n.minor_units (fits_of_IsMoney hm) (fits_of_IsMoney hn),
  )

pub comparable_same_currency :
    (m n : Money) → require_comparable m n ≡ ok tt → m.currency ≡ n.currency
unfolding require_comparable validate
comparable_same_currency m n h = ground (arith, currency_eq_sound m.currency n.currency)

pub fits-IsMoney :
    (m : Money) (a : ℤ) → IsMoney m → fits a ≡ true → IsMoney (record m { minor_units = a })
fits-IsMoney m a h f = record {
  supported = h.supported;
  above_min = ground arith;
  below_max = ground arith;
}

add-comparable : (m n : Money) {s : Money} → add m n ≡ ok s → require_comparable m n ≡ ok tt
unfolding add
add-comparable m n h = ground arith

subtract-comparable :
    (m n : Money) {s : Money} → subtract m n ≡ ok s → require_comparable m n ≡ ok tt
unfolding subtract
subtract-comparable m n h = ground arith

-- What a successful sum or difference says of its parts and its value `a`.
abbrev pub IsExact : Money → Money → Money → ℤ → Type 0
IsExact m n s a = (m.currency ≡ n.currency) × IsMoney s × (s ≡ record m { minor_units = a })

module _ (m n : Money) {s : Money} (hm : IsMoney m) (hn : IsMoney n) where
  pub add-eq_ok : add m n ≡ ok s → IsExact m n s (m.minor_units +ℤ n.minor_units)
  add-eq_ok h =
      let alike = comparable_same_currency m n (add-comparable m n h) in
      let f : fits (m.minor_units +ℤ n.minor_units) ≡ true =
        ground (arith, h, add_exact m n hm hn alike) in
      let e : s ≡ record m { minor_units = m.minor_units +ℤ n.minor_units } =
        ground (arith, h, add_exact m n hm hn alike) in
      (alike, rw e (fits-IsMoney m (m.minor_units +ℤ n.minor_units) hm f), e)

  pub subtract-eq_ok : subtract m n ≡ ok s → IsExact m n s (m.minor_units -ℤ n.minor_units)
  subtract-eq_ok h =
      let alike = comparable_same_currency m n (subtract-comparable m n h) in
      let f : fits (m.minor_units -ℤ n.minor_units) ≡ true =
        ground (arith, h, subtract_exact m n hm hn alike) in
      let e : s ≡ record m { minor_units = m.minor_units -ℤ n.minor_units } =
        ground (arith, h, subtract_exact m n hm hn alike) in
      (alike, rw e (fits-IsMoney m (m.minor_units -ℤ n.minor_units) hm f), e)

pub sub-add_ℤ : (a b : ℤ) → (a +ℤ b) -ℤ b ≡ a
unfolding ◌+ℤ◌ ◌-ℤ◌
sub-add_ℤ a b = ground arith

pub add-sub_ℤ : (a b : ℤ) → (a -ℤ b) +ℤ b ≡ a
unfolding ◌+ℤ◌ ◌-ℤ◌
add-sub_ℤ a b = ground arith

-- Taking away what was just added gives the first amount back.
pub subtract-add : (m n s : Money) → IsMoney m → IsMoney n → add m n ≡ ok s → subtract s n ≡ ok m
subtract-add m n s hm hn h =
    let (alike, hs, e) = add-eq_ok m n hm hn h in
    let su : s.minor_units ≡ m.minor_units +ℤ n.minor_units = ap (λ (x : Money). x.minor_units) e in
    let sc : s.currency ≡ m.currency = ap (λ (x : Money). x.currency) e in
    let back : s.minor_units -ℤ n.minor_units ≡ m.minor_units =
      rw su (sub-add_ℤ m.minor_units n.minor_units) in
    ground (arith, subtract_exact s n hs hn (sc ∙ alike), back, sc, fits_of_IsMoney hm)

-- The order that Compare reports, as a relation of the amounts.
abbrev pub Reports : ℤ → ℤ → Order → Type 0
Reports a b less = a <ℤ b
Reports a b greater = b <ℤ a
Reports a b same = a ≡ b

pub compare_units-Reports : (a b : ℤ) → Reports a b (compare_units a b)
unfolding compare_units
compare_units-Reports a b = ground arith

pub compare-eq_ok :
    (m n : Money) {o : Order}
    → compare_money m n ≡ ok o
    → (m.currency ≡ n.currency) × Reports m.minor_units n.minor_units o
unfolding compare_money
compare-eq_ok m n h =
    ground (arith, comparable_same_currency m n, compare_units-Reports m.minor_units n.minor_units)

-- Comparing amounts of one currency succeeds.
pub compare_exact :
    (m n : Money)
    → IsMoney m
    → IsMoney n
    → m.currency ≡ n.currency
    → compare_money m n ≡ ok (compare_units m.minor_units n.minor_units)
unfolding compare_money
compare_exact m n hm hn e = ground (arith, comparable m n hm hn e)
