-- ===== src/Common/All.antt =====
-- A property of every element of a list.
use Prim.Native.Nat.{ℕ, zero, suc}
use mathlib.Core.Path.{◌≡◌, refl}
use mathlib.Core.Logic.{inl, inr}
use mathlib.Core.Bool.{Bool, true, false}
use mathlib.Core.List.{List, [], ◌∷◌, map, Memᴰ}
use mathlib.Core.List.Memᴰ.{head, tail}
use gaming_go_backend.Common.Tests.{leb, Bool-cases}
use mathlib.Core.Option.{some}
use native.Mathlib.Omega.{arith}
use gaming_go_backend.Common.Lists.{find?, update_where, keep_where, take, insert_by, sort_by}
use mathlib.Core.Path.{subst, sym}

module _ {ℓ κ} {A : Type ℓ} where
  abbrev pub All : (A → Type κ) → List A → Type κ
  All P [] = Unit
  All P (x ∷ xs) = P x × All P xs

module _ {ℓ κ} {A : Type ℓ} (P : A → Type κ) where
  pub All-of : (xs : List A) → ((x : A) → Memᴰ x xs → P x) → All P xs
  All-of [] f = tt
  All-of (x ∷ xs) f = (f x (head refl), All-of xs (λ y m. f y (tail m)))

  pub All-mem : (xs : List A) (x : A) → All P xs → Memᴰ x xs → P x
  All-mem [] x all m = elim m [ ]
  All-mem (y ∷ xs) x all (head e) = subst P (sym e) all.0
  All-mem (y ∷ xs) x all (tail m) = All-mem xs x all.1 m

  pub All-take : (n : ℕ) (xs : List A) → All P xs → All P (take n xs)
  unfolding take
  All-take zero xs all = tt
  All-take (suc n) [] all = tt
  All-take (suc n) (x ∷ xs) all = (all.0, All-take n xs all.1)

  pub All-insert_by :
      (key : A → ℕ) (x : A) (xs : List A) → P x → All P xs → All P (insert_by key x xs)
  unfolding insert_by
  All-insert_by key x [] p all = (p, tt)
  All-insert_by key x (y ∷ ys) p all = elim (Bool-cases (leb (key x) (key y))) [
    | inl e ↦ rw e (p, all)
    | inr e ↦ rw e (all.0, All-insert_by key x ys p all.1)
  ]

  pub All-sort_by : (key : A → ℕ) (xs : List A) → All P xs → All P (sort_by key xs)
  unfolding sort_by
  All-sort_by key [] all = tt
  All-sort_by key (x ∷ xs) all =
      All-insert_by key x (sort_by key xs) all.0 (All-sort_by key xs all.1)

module _ {ℓ κ} {A : Type ℓ} (P : A → Type κ) where
  -- The element that a search finds has the property.
  pub All-find? : (p : A → Bool) (xs : List A) (x : A) → All P xs → find? p xs ≡ some x → P x
  unfolding find?
  All-find? p [] x all h = ground arith
  All-find? p (y ∷ ys) x all h = elim (Bool-cases (p y)) [
    | inl e ↦ subst P (ground (arith, e, h)) all.0
    | inr e ↦ All-find? p ys x all.1 (ground (arith, e, h))
  ]

module _ {ℓ κ μ} {A : Type ℓ} (P : A → Type κ) (Q : A → Type μ) where
  pub All-mono : (xs : List A) → ((x : A) → P x → Q x) → All P xs → All Q xs
  All-mono [] f all = tt
  All-mono (x ∷ xs) f all = (f x all.0, All-mono xs f all.1)

  pub All-keep_where :
      (p : A → Bool) (xs : List A)
      → ((x : A) → p x ≡ true → P x → Q x)
      → All P xs
      → All Q (keep_where p xs)
  unfolding keep_where
  All-keep_where p [] f all = tt
  All-keep_where p (x ∷ xs) f all = elim (Bool-cases (p x)) [
    | inl e ↦ rw e (f x e all.0, All-keep_where p xs f all.1)
    | inr e ↦ rw e (All-keep_where p xs f all.1)
  ]

  pub All-update_where :
      (p : A → Bool) (f : A → A) (xs : List A)
      → ((x : A) → p x ≡ true → P x → Q (f x))
      → ((x : A) → p x ≡ false → P x → Q x)
      → All P xs
      → All Q (update_where p f xs)
  unfolding update_where
  All-update_where p f [] changed same all = tt
  All-update_where p f (x ∷ xs) changed same all = elim (Bool-cases (p x)) [
    | inl e ↦ rw e (changed x e all.0, All-update_where p f xs changed same all.1)
    | inr e ↦ rw e (same x e all.0, All-update_where p f xs changed same all.1)
  ]

module _ {ℓ κ} {A : Type ℓ} {B : Type κ} where
  pub map-update_where :
      (g : A → B) (p : A → Bool) (f : A → A) (xs : List A)
      → ((x : A) → g (f x) ≡ g x)
      → map g (update_where p f xs) ≡ map g xs
  unfolding update_where
  map-update_where g p f [] same = refl
  map-update_where g p f (x ∷ xs) same = elim (Bool-cases (p x)) [
    | inl e ↦ rw e (rw (same x, map-update_where g p f xs same))
    | inr e ↦ rw e (rw (map-update_where g p f xs same))
  ]

module _ {ℓ κ μ} {A : Type ℓ} {B : Type κ} (P : B → Type μ) where
  pub All-map : (f : A → B) (xs : List A) → All (λ x. P (f x)) xs → All P (map f xs)
  All-map f [] all = tt
  All-map f (x ∷ xs) all = (all.0, All-map f xs all.1)

  pub All-of-map : (f : A → B) (xs : List A) → All P (map f xs) → All (λ x. P (f x)) xs
  All-of-map f [] all = tt
  All-of-map f (x ∷ xs) all = (all.0, All-of-map f xs all.1)

module _ {ℓ κ μ} {A : Type ℓ} (P : A → Type κ) (Q : A → Type μ) where
  pub All-both : (xs : List A) → All P xs → All Q xs → All (λ x. P x × Q x) xs
  All-both [] p q = tt
  All-both (x ∷ xs) p q = ((p.0, q.0), All-both xs p.1 q.1)

module _ {ℓ κ} {A : Type ℓ} {B : Type κ} where
  pub mem-map : (f : A → B) (xs : List A) (x : A) → Memᴰ x xs → Memᴰ (f x) (map f xs)
  mem-map f [] x m = elim m [ ]
  mem-map f (y ∷ xs) x (head e) = head (λ i. f (e i))
  mem-map f (y ∷ xs) x (tail m) = tail (mem-map f xs x m)
