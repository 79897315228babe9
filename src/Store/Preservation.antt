-- ===== src/Store/Preservation.antt =====
-- Reasoning on transactions: properties of the tables that a computation keeps.
use mathlib.Core.Path.{subst}
use gaming_go_backend.Common.{
  ℕ, ◌≡◌, refl, sym, ap, inl, inr, Bool, true, false, Option, Result, if◌then◌else◌, ok, err, arith,
  Bool-cases,
}
use gaming_go_backend.Common.Int.{ℤ}
use gaming_go_backend.Common.Text.{Text}
use gaming_go_backend.Common.Time.{Time}
use gaming_go_backend.Wallet.{Wallet, LedgerEntry}
use gaming_go_backend.Transaction.{WagerTransaction}
use gaming_go_backend.Store.Base.{
  AppError, OutboxRecord, Db, World, Session, Tx, lift, pure, statement, query, wrote, new_id,
  ◌>>=◌,
}
use gaming_go_backend.Store.Wallets.{update_balance}
use gaming_go_backend.Store.Transactions.{insert_new, insert_pending}
use gaming_go_backend.Store.Pending.{complete_pending, reschedule_pending}
use gaming_go_backend.Store.Ledger.{insert_ledger_entry, insert_outbox}
use gaming_go_backend.Store.Logic.{Keeps, >>=-ok, Keeps-lift, Keeps-pure, Keeps-query, Keeps-new_id}

-- A computation that returns keeps a property of a view of the tables.
pub record Preserves {X A : Type 0} (f : Db → X) (P : X → Type 0) (m : Tx A) : Type 0 where
  pub preserved : (s : Session) (a : A) (t : Session) → m s ≡ (ok a, t) → P (f s.db) → P (f t.db)

module _ {X : Type 0} {f : Db → X} {P : X → Type 0} where
  pub Keeps-Preserves : {A : Type 0} {m : Tx A} → Keeps f m → Preserves f P m
  Keeps-Preserves keeps = record { preserved = λ s a t h p. subst P (sym (keeps.kept s a t h)) p }

  pub Preserves->>= :
      {A B : Type 0} (m : Tx A) (k : A → Tx B)
      → Preserves f P m
      → ((a : A) → Preserves f P (k a))
      → Preserves f P (m >>= k)
  Preserves->>= m k hm hk = record {
    preserved = λ s b t h p.
        let (a, u, run, rest) = >>=-ok m k s b t h in
        (hk a).preserved u b t rest (hm.preserved s a u run p);
  }

  pub Preserves-if :
      {A : Type 0} {m n : Tx A} (b : Bool)
      → Preserves f P m
      → Preserves f P n
      → Preserves f P (if b then m else n)
  Preserves-if true hm hn = hm
  Preserves-if false hm hn = hn

-- Properties of all the tables.
abbrev pub whole : Db → Db
whole db = db

module _ {P : Db → Type 0} where
  module _ {A : Type 0} where
    written :
        (s : Session) (r : Result AppError (A × Db)) (a : A) (t : Session)
        → ((db : Db) (a : A) → r ≡ ok (a, db) → P db)
        → wrote s r ≡ (ok a, t)
        → P t.db
    written s (ok (b, db)) a t keep h =
        subst P (ap (λ (p : Result AppError A × Session). p.1.db) h) (keep db b refl)
    written s (err e) a t keep h = ground arith

    pub Preserves-statement :
        (world : World) (g : Db → Result AppError (A × Db))
        → ((db db' : Db) (a : A) → g db ≡ ok (a, db') → P db → P db')
        → Preserves whole P (statement world g)
    unfolding statement
    Preserves-statement world g keep = record {
      preserved = λ s a t h p. elim (Bool-cases (world.fails s.calls)) [
        | inl bad ↦ ground (arith, bad, h)
        | inr up ↦ written s (g s.db) a t (λ db b e. keep s.db db b e p) (ground (arith, up, h))
      ];
    }

    pub Preserves-pure : (a : A) → Preserves whole P (pure a)
    Preserves-pure a = Keeps-Preserves (Keeps-pure a)

    pub Preserves-lift : (r : Result AppError A) → Preserves whole P (lift r)
    Preserves-lift r = Keeps-Preserves (Keeps-lift r)

    pub Preserves-query :
        (world : World) (g : Db → Result AppError A) → Preserves whole P (query world g)
    Preserves-query world g = Keeps-Preserves (Keeps-query world g)

  pub Preserves-new_id : (world : World) → Preserves whole P (new_id world)
  Preserves-new_id world = Keeps-Preserves (Keeps-new_id world)

-- The statements that a new operation makes keep a property.
pub record Inserts (P : Db → Type 0) : Type 0 where
  pub new_kept :
      (world : World) (t : WagerTransaction) (resulting : Option ℤ)
      → Preserves whole P (insert_new world t resulting)
  pub pending_kept :
      (world : World) (t : WagerTransaction) (next ttl : Time)
      → Preserves whole P (insert_pending world t next ttl)
  pub entry_kept :
      (world : World) (e : LedgerEntry) → Preserves whole P (insert_ledger_entry world e)
  pub event_kept : (world : World) (r : OutboxRecord) → Preserves whole P (insert_outbox world r)
  pub balance_kept :
      (world : World) (w : Wallet) (previous : ℤ)
      → Preserves whole P (update_balance world w previous)

-- The statements that end or delay a pending operation without a movement keep a property.
pub record Resumes (P : Db → Type 0) : Type 0 where
  pub complete_kept :
      (world : World) (t : WagerTransaction) (resulting : Option ℤ)
      → Preserves whole P (complete_pending world t resulting)
  pub reschedule_kept :
      (world : World) (id : Text) (attempts : ℕ) (delay : Time)
      → Preserves whole P (reschedule_pending world id attempts delay)
  pub event_kept : (world : World) (r : OutboxRecord) → Preserves whole P (insert_outbox world r)
