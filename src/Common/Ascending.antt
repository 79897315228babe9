-- ===== src/Common/Ascending.antt =====
-- Lists that a key orders.
use Prim.Native.Nat.{ℕ, zero, suc, ◌<◌, ◌≤◌}
use mathlib.Core.Path.{◌≡◌, refl, ap}
use mathlib.Core.Logic.{◌≢◌, inl, inr}
use mathlib.Core.Bool.{Bool}
use mathlib.Core.Option.{Option, none, some}
use mathlib.Core.List.{List, [], ◌∷◌, ◌++◌}
use native.Mathlib.Omega.{arith}
use gaming_go_backend.Common.Tests.{ltb, leb, Bool-cases}
use gaming_go_backend.Common.Lists.{length, keep_where, take, insert_by, sort_by}
use gaming_go_backend.Common.All.{All, All-mono, All-insert_by, All-sort_by, All-keep_where}

module _ {A : Type 0} (key : A → ℕ) where
  abbrev pub Distinct : List A → Type 0
  Distinct [] = Unit
  Distinct (x ∷ xs) = All (λ y. key x ≢ key y) xs × Distinct xs

  abbrev pub Ascending : List A → Type 0
  Ascending [] = Unit
  Ascending (x ∷ xs) = All (λ y. key x < key y) xs × Ascending xs

  -- Every key lies above a number.
  abbrev pub Above : ℕ → List A → Type 0
  Above n xs = All (λ y. n < key y) xs

  insert_by-Ascending :
      (x : A) (xs : List A)
      → All (λ y. key x ≢ key y) xs
      → Ascending xs
      → Ascending (insert_by key x xs)
  unfolding insert_by
  insert_by-Ascending x [] apart up = (tt, tt)
  insert_by-Ascending x (y ∷ ys) apart up = elim (Bool-cases (leb (key x) (key y))) [
    | inl e ↦ rw e (
        let first : key x < key y = ground (arith, e, apart.0) in
        (
          (first, All-mono (λ z. key y < key z) (λ z. key x < key z) ys (λ z h. omega arith) up.0),
          up,
        ))
    | inr e ↦ rw e (
      All-insert_by (λ z. key y < key z) key x ys (ground (arith, e)) up.0,
      insert_by-Ascending x ys apart.1 up.1,
    )
  ]

  pub sort_by-Ascending : (xs : List A) → Distinct xs → Ascending (sort_by key xs)
  unfolding sort_by
  sort_by-Ascending [] d = tt
  sort_by-Ascending (x ∷ xs) d =
      insert_by-Ascending x (sort_by key xs) (All-sort_by (λ y. key x ≢ key y) key xs d.0)
        (sort_by-Ascending xs d.1)

  pub keep_where-Ascending :
      (p : A → Bool) (xs : List A) → Ascending xs → Ascending (keep_where p xs)
  unfolding keep_where
  keep_where-Ascending p [] up = tt
  keep_where-Ascending p (x ∷ xs) up = elim (Bool-cases (p x)) [
    | inl e ↦ rw e (
      All-keep_where (λ y. key x < key y) (λ y. key x < key y) p xs (λ _ _ h. h) up.0,
      keep_where-Ascending p xs up.1,
    )
    | inr e ↦ rw e (keep_where-Ascending p xs up.1)
  ]

  -- The key at an index.
  unfoldable pub nth_key : ℕ → List A → Option ℕ
  nth_key n [] = none
  nth_key zero (x ∷ xs) = some (key x)
  nth_key (suc n) (x ∷ xs) = nth_key n xs

  pub nth_key-Above : (n k x : ℕ) (xs : List A) → Above n xs → nth_key k xs ≡ some x → n < x
  unfolding nth_key
  nth_key-Above n k x [] above e = ground (arith, e)
  nth_key-Above n zero x (y ∷ xs) above e = ground (arith, e, above.0)
  nth_key-Above n (suc k) x (y ∷ xs) above e = nth_key-Above n k x xs above.1 e

  keep_where-Above : (n : ℕ) (xs : List A) → Above n xs → keep_where (λ y. ltb n (key y)) xs ≡ xs
  unfolding keep_where
  keep_where-Above n [] above = refl
  keep_where-Above n (x ∷ xs) above = ground (arith, above.0, keep_where-Above n xs above.1)

module _ {A : Type 0} where
  unfoldable pub drop : ℕ → List A → List A
  drop zero xs = xs
  drop (suc n) [] = []
  drop (suc n) (x ∷ xs) = drop n xs

  pub take-append-drop : (n : ℕ) (xs : List A) → take n xs ++ drop n xs ≡ xs
  unfolding take drop
  take-append-drop zero xs = refl
  take-append-drop (suc n) [] = refl
  take-append-drop (suc n) (x ∷ xs) = ap (λ l. x ∷ l) (take-append-drop n xs)

  pub take-take : (n : ℕ) (xs : List A) → take n (take (suc n) xs) ≡ take n xs
  unfolding take
  take-take zero xs = refl
  take-take (suc n) [] = refl
  take-take (suc n) (x ∷ xs) = ap (λ l. x ∷ l) (take-take n xs)

  pub take_all : (n : ℕ) (xs : List A) → length (take (suc n) xs) ≤ n → take (suc n) xs ≡ xs
  unfolding take
  take_all n [] h = refl
  take_all zero (x ∷ xs) h = ground (arith, h)
  take_all (suc n) (x ∷ xs) h = ap (λ l. x ∷ l) (take_all n xs (omega arith))

  pub length-take-le : (n : ℕ) (xs : List A) → length (take n xs) ≤ length xs
  unfolding take
  length-take-le zero xs = omega arith
  length-take-le (suc n) [] = omega arith
  length-take-le (suc n) (x ∷ xs) = omega (arith, length-take-le n xs)

  pub length-drop : (n : ℕ) (xs : List A) → n < length xs → length (drop (suc n) xs) < length xs
  unfolding drop
  length-drop n [] h = ground (arith, h)
  length-drop zero (x ∷ xs) h = omega arith
  length-drop (suc n) (x ∷ xs) h = omega (arith, length-drop n xs (omega arith))

module _ {A : Type 0} (key : A → ℕ) where
  -- What follows the element at an index, by its key.
  pub keep_where-drop :
      (n : ℕ) (xs : List A)
      → Ascending key xs
      → n < length xs
      → (x : ℕ) × (nth_key key n xs ≡ some x)
        × (keep_where (λ y. ltb x (key y)) xs ≡ drop (suc n) xs)
  unfolding keep_where drop nth_key
  keep_where-drop n [] up h = ground (arith, h)
  keep_where-drop zero (y ∷ xs) up h =
      (key y, refl, ground (arith, keep_where-Above key (key y) xs up.0))
  keep_where-drop (suc n) (y ∷ xs) up h =
      let (x, at, rest) = keep_where-drop n xs up.1 (ground (arith, h)) in
      (x, at, ground (arith, nth_key-Above key (key y) n x xs up.0 at, rest))
