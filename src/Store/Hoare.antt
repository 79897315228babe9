-- ===== src/Store/Hoare.antt =====
-- Reasoning on transactions: what a computation that returns makes of the tables, from what they were.
use gaming_go_backend.Common.{
  ◌≡◌, refl, inl, inr, Bool, true, false, Result, if◌then◌else◌, ok, err, arith, Bool-cases,
}
use mathlib.Core.Path.{subst}
use gaming_go_backend.Store.Base.{
  AppError, Db, World, Session, Tx, pure, raise, lift, query, statement, wrote, called, ◌>>=◌,
}
use gaming_go_backend.Store.Logic.{>>=-ok}
use gaming_go_backend.Store.Preservation.{Preserves, whole}

pub record Ensures {A : Type 0} (P : Db → Type 0) (m : Tx A) (Q : A → Db → Type 0) : Type 0 where
  pub ensures : (s : Session) (a : A) (t : Session) → m s ≡ (ok a, t) → P s.db → Q a t.db

module _ {A : Type 0} where
  pub Ensures-pure : (Q : A → Db → Type 0) (a : A) → Ensures (Q a) (pure a) Q
  Ensures-pure Q a = record { ensures = λ s b t h p. ground (arith, h, p) }

  pub Preserves-Ensures : {P : Db → Type 0} {m : Tx A} → Preserves whole P m → Ensures P m (λ _. P)
  Preserves-Ensures h = record { ensures = h.preserved }

  pub Ensures-if :
      {P : Db → Type 0} {Q : A → Db → Type 0} {m n : Tx A} (b : Bool)
      → Ensures P m Q
      → Ensures P n Q
      → Ensures P (if b then m else n) Q
  Ensures-if true hm hn = hm
  Ensures-if false hm hn = hn

  pub Ensures-from :
      {P P' : Db → Type 0} {m : Tx A} {Q : A → Db → Type 0}
      → ((db : Db) → P db → P' db)
      → Ensures P' m Q
      → Ensures P m Q
  Ensures-from f h = record { ensures = λ s a t run p. h.ensures s a t run (f s.db p) }

  -- A fact of the tables at the start.
  pub Ensures-at :
      {P : Db → Type 0} {m : Tx A} {Q : A → Db → Type 0}
      → ((db : Db) → P db → Ensures P m Q)
      → Ensures P m Q
  Ensures-at f = record { ensures = λ s a t run p. (f s.db p).ensures s a t run p }

  pub Ensures-raise :
      {P : Db → Type 0} {Q : A → Db → Type 0} (e : AppError) → Ensures P (raise {A = A} e) Q
  Ensures-raise e = record { ensures = λ s a t run p. ground arith }

  -- A fact that does not speak of the tables.
  pub Ensures-knowing :
      {I : Type 0} {P : Db → Type 0} {m : Tx A} {Q : A → Db → Type 0}
      → (I → Ensures P m Q)
      → Ensures (λ db. I × P db) m Q
  Ensures-knowing f = record { ensures = λ s a t run p. (f p.0).ensures s a t run p.1 }

  written :
      (Q : A → Db → Type 0) (s : Session) (r : Result AppError (A × Db)) (a : A) (t : Session)
      → ((db : Db) (a : A) → r ≡ ok (a, db) → Q a db)
      → wrote s r ≡ (ok a, t)
      → Q a t.db
  written Q s (ok (b, db)) a t keep h = ground (arith, h, keep db b refl)
  written Q s (err e) a t keep h = ground arith

  pub Ensures-statement :
      (world : World) (g : Db → Result AppError (A × Db)) (P : Db → Type 0) (Q : A → Db → Type 0)
      → ((db db' : Db) (a : A) → g db ≡ ok (a, db') → P db → Q a db')
      → Ensures P (statement world g) Q
  unfolding statement
  Ensures-statement world g P Q step = record {
    ensures = λ s a t h p. elim (Bool-cases (world.fails s.calls)) [
      | inl bad ↦ ground (arith, bad, h)
      | inr up ↦ written Q s (g s.db) a t (λ db b e. step s.db db b e p) (ground (arith, up, h))
    ];
  }

  pub Ensures-query :
      (world : World) (f : Db → Result AppError A) (P : Db → Type 0) (Q : A → Db → Type 0)
      → ((db : Db) (a : A) → f db ≡ ok a → P db → Q a db)
      → Ensures P (query world f) Q
  unfolding query
  Ensures-query world f P Q step = record {
    ensures = λ s a t h p. elim (Bool-cases (world.fails s.calls)) [
      | inl bad ↦ ground (arith, bad, h)
      | inr up ↦
          let e : called s ≡ t = ground (arith, up, h) in
          subst (λ (u : Session). Q a u.db) e (step s.db a (ground (arith, up, h)) p)
    ];
  }

module _ {A B : Type 0} {P : Db → Type 0} {Q : B → Db → Type 0} where
  pub Ensures->>= :
      (R : A → Db → Type 0) (m : Tx A) (k : A → Tx B)
      → Ensures P m R
      → ((a : A) → Ensures (R a) (k a) Q)
      → Ensures P (m >>= k) Q
  Ensures->>= R m k hm hk = record {
    ensures = λ s b t h p.
        let (a, u, run, rest) = >>=-ok m k s b t h in
        (hk a).ensures u b t rest (hm.ensures s a u run p);
  }

  pub Ensures-next :
      (m : Tx A) (k : A → Tx B)
      → Preserves whole P m
      → ((a : A) → Ensures P (k a) Q)
      → Ensures P (m >>= k) Q
  Ensures-next m k hm hk = Ensures->>= (λ _. P) m k (Preserves-Ensures hm) hk

  pub Ensures-lift->>= :
      (r : Result AppError A) (k : A → Tx B)
      → ((a : A) → r ≡ ok a → Ensures P (k a) Q)
      → Ensures P (lift r >>= k) Q
  Ensures-lift->>= (ok a) k next = next a refl
  Ensures-lift->>= (err e) k next = record { ensures = λ s b t h p. ground arith }
