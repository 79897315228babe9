-- ===== src/Backoff.antt =====
-- internal/backoff/backoff.go: the retry schedule that the workers share. A duration is an int64.
use gaming_go_backend.Common.{
  ℕ, zero, suc, ◌+◌, ◌*◌, ◌/◌, ◌^◌, ◌≤◌, ◌≡◌, ltb, leb, if◌then◌else◌, arith, ap, ◌∙◌, Bool-cases,
  inl, inr,
}
use gaming_go_backend.Common.Int.{ℤ, pos, negsuc, ltb_ℤ, leb_ℤ, ◌≤ℤ◌, ◌+ℤ◌}
use native.Mathlib.Nat.{mul_comm}
use native.Mathlib.Numerals.{unary_clauses}
use gaming_go_backend.Common.Int64.{add64, max_int64, wrap64}

-- `d / 2`, which rounds towards 0.
abbrev pub half : ℤ → ℤ
half (pos n) = pos (n / 2)
half (negsuc zero) = pos 0
half (negsuc (suc n)) = negsuc (n / 2)

-- The loop: the rounds that are left, and the delay.
doubled : ℕ → ℤ → ℤ → ℤ
doubled zero delay max = delay
doubled (suc n) delay max =
    let rest = doubled n (add64 delay delay) max in if ltb_ℤ (half max) delay then max else rest

abbrev rounds : ℤ → ℕ
rounds (pos n) = n
rounds (negsuc _) = 0

-- `Exponential`
unfoldable pub exponential : ℤ → ℤ → ℤ → ℤ
unfolding doubled
exponential attempt base max =
    if leb_ℤ max base
    then max
    else if leb_ℤ attempt (pos 0)
    then base
    else doubled (rounds attempt) base max

abbrev pub min : ℕ → ℕ → ℕ
min a b = if leb a b then a else b

pow_suc : (n : ℕ) → 2 ^ suc n ≡ 2 * 2 ^ n
pow_suc n = simp unary_clauses (omega arith)

pow_pos : (n : ℕ) → 1 ≤ 2 ^ n
pow_pos zero = omega arith
pow_pos (suc n) = omega (arith, pow_suc n, pow_pos n)

le_mul : (a b : ℕ) → 1 ≤ b → a ≤ a * b
le_mul a zero h = omega arith
le_mul a (suc b) h = simp unary_clauses (omega arith)

double_mul : (a b : ℕ) → (a + a) * b ≡ 2 * (a * b)
double_mul a b = omega arith

mul_two : (a b : ℕ) → a * (2 * b) ≡ 2 * (a * b)
mul_two a b =
    ap (λ x. a * x) (omega arith)
    ∙ mul_comm a (b + b)
    ∙ double_mul b a
    ∙ ap (λ x. 2 * x) (mul_comm b a)

double_fits :
    (delay max : ℕ)
    → pos max ≤ℤ max_int64
    → delay ≤ max / 2
    → add64 (pos delay) (pos delay) ≡ pos (delay + delay)
unfolding add64 wrap64 ◌+ℤ◌
double_fits delay max h le = ground arith

doubled_exact :
    (n delay max : ℕ)
    → pos max ≤ℤ max_int64
    → delay ≤ max
    → doubled n (pos delay) (pos max) ≡ pos (min (delay * 2 ^ n) max)
unfolding doubled
doubled_exact zero delay max h le = ground arith
doubled_exact (suc n) delay max h le = elim (Bool-cases (ltb (max / 2) delay)) [
  | inl big ↦ ground (arith, pow_suc n, mul_two delay (2 ^ n), le_mul delay (2 ^ n) (pow_pos n))
  | inr small ↦ ground (
    arith,
    pow_suc n,
    mul_two delay (2 ^ n),
    double_mul delay (2 ^ n),
    double_fits delay max h (ground arith),
    doubled_exact n (delay + delay) max h (ground arith),
  )
]

-- The delay of an attempt that is not negative is the base doubled once per prior attempt, or the
-- maximum if that is less, for a base that is not negative and a maximum that fits an int64.
pub exponential_exact :
    (n base max : ℕ)
    → pos max ≤ℤ max_int64
    → exponential (pos n) (pos base) (pos max) ≡ pos (min (base * 2 ^ n) max)
unfolding exponential
exponential_exact n base max h =
    ground (arith, doubled_exact n base max h, le_mul base (2 ^ n) (pow_pos n))
