-- ===== src/Store/Logic.antt =====
-- Reasoning on transactions: what a computation that returns leaves of the tables.
use gaming_go_backend.Common.{
  if◌then◌else◌, ◌≡◌, refl, ◌∙◌, inl, inr, Bool, true, false, Result, ok, err, arith, Bool-cases,
  Option-cases,
}
use gaming_go_backend.Store.Base.{
  AppError, Db, World, Session, Tx, pure, raise, lift, query, statement, wrote, fail_if, new_id,
  ◌>>=◌, ◌>>◌,
}

module _ {A B : Type 0} where
  bind_case :
      (f : A → Tx B) (p : Result AppError A × Session) (b : B) (s' : Session)
      → (elim p.0 [ ok a ↦ f a p.1 | err e ↦ (err e, p.1) ]) ≡ (ok b, s')
      → (a : A) × (t : Session) × (p ≡ (ok a, t)) × (f a t ≡ (ok b, s'))
  bind_case f (ok a, t) b s' h = (a, t, refl, h)
  bind_case f (err e, t) b s' h = ground arith

  pub >>=-ok :
      (m : Tx A) (f : A → Tx B) (s : Session) (b : B) (s' : Session)
      → (m >>= f) s ≡ (ok b, s')
      → (a : A) × (t : Session) × (m s ≡ (ok a, t)) × (f a t ≡ (ok b, s'))
  >>=-ok m f s b s' h = bind_case f (m s) b s' h

-- A computation that returns leaves a view of the tables as it was.
pub record Keeps {X A : Type 0} (f : Db → X) (m : Tx A) : Type 0 where
  pub kept : (s : Session) (a : A) (t : Session) → m s ≡ (ok a, t) → f t.db ≡ f s.db

module _ {X : Type 0} {f : Db → X} where
  module _ {A : Type 0} where
    pub Keeps-pure : (a : A) → Keeps f (pure a)
    Keeps-pure a = record { kept = λ s b t h. ground arith }

    pub Keeps-raise : (e : AppError) → Keeps f (raise {A = A} e)
    Keeps-raise e = record { kept = λ s b t h. ground arith }

    pub Keeps-lift : (r : Result AppError A) → Keeps f (lift r)
    Keeps-lift r = record { kept = λ s b t h. ground arith }

    pub Keeps-query : (world : World) (g : Db → Result AppError A) → Keeps f (query world g)
    unfolding query
    Keeps-query world g = record { kept = λ s b t h. ground arith }

    wrote_keeps :
        (s : Session) (r : Result AppError (A × Db)) (b : A) (t : Session)
        → ((db' : Db) (a : A) → r ≡ ok (a, db') → f db' ≡ f s.db)
        → wrote s r ≡ (ok b, t)
        → f t.db ≡ f s.db
    wrote_keeps s (ok (a, db)) b t keep h = ground (arith, keep db a refl)
    wrote_keeps s (err e) b t keep h = ground arith

    pub Keeps-statement :
        (world : World) (g : Db → Result AppError (A × Db))
        → ((db db' : Db) (a : A) → g db ≡ ok (a, db') → f db' ≡ f db)
        → Keeps f (statement world g)
    unfolding statement
    Keeps-statement world g keep = record {
      kept = λ s b t h. elim (Bool-cases (world.fails s.calls)) [
        | inl bad ↦ ground arith
        | inr good ↦ wrote_keeps s (g s.db) b t (keep s.db) (ground arith)
      ];
    }

  pub Keeps-new_id : (world : World) → Keeps f (new_id world)
  unfolding new_id
  Keeps-new_id world = record {
    kept = λ s b t h. elim (Option-cases (world.fresh_id s.calls)) [
      | inl _ ↦ ground arith
      | inr _ ↦ ground arith
    ];
  }

  pub Keeps->>= :
      {A B : Type 0} (m : Tx A) (k : A → Tx B)
      → Keeps f m
      → ((a : A) → Keeps f (k a))
      → Keeps f (m >>= k)
  Keeps->>= m k hm hk = record {
    kept = λ s b t h.
        let (a, u, run, rest) = >>=-ok m k s b t h in (hk a).kept u b t rest ∙ hm.kept s a u run;
  }

  pub Keeps-if :
      {A : Type 0} {m n : Tx A} (b : Bool) → Keeps f m → Keeps f n → Keeps f (if b then m else n)
  Keeps-if true hm hn = hm
  Keeps-if false hm hn = hn

-- What a computation that returns establishes, from one session.
pub record Post {A : Type 0} (m : Tx A) (s : Session) (Q : A → Session → Type 0) : Type 0 where
  pub holds : (a : A) (t : Session) → m s ≡ (ok a, t) → Q a t

module _ {B : Type 0} {Q : B → Session → Type 0} where
  pub Post-pure : (s : Session) (b : B) → Q b s → Post (pure b) s Q
  Post-pure s b q = record { holds = λ a t h. ground (arith, h, q) }

  pub Post->>= :
      {A : Type 0} (m : Tx A) (k : A → Tx B) (s : Session)
      → ((a : A) (t : Session) → m s ≡ (ok a, t) → Post (k a) t Q)
      → Post (m >>= k) s Q
  Post->>= m k s next = record {
    holds = λ b t h. let (a, u, run, rest) = >>=-ok m k s b t h in (next a u run).holds b t rest;
  }

  pub Post-lift->>= :
      {A : Type 0} (r : Result AppError A) (k : A → Tx B) (s : Session)
      → ((a : A) → r ≡ ok a → Post (k a) s Q)
      → Post (lift r >>= k) s Q
  Post-lift->>= (ok a) k s next = next a refl
  Post-lift->>= (err e) k s next = record { holds = λ b t h. ground arith }

  pub Post-fail_if->> :
      (b : Bool) (e : AppError) (k : Tx B) (s : Session)
      → (b ≡ false → Post k s Q)
      → Post (fail_if b e >> k) s Q
  Post-fail_if->> true e k s next = record { holds = λ b t h. ground arith }
  Post-fail_if->> false e k s next = next refl
