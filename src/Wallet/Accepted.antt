-- ===== src/Wallet/Accepted.antt =====
-- internal/domain/wallet/wallet.go: what an accepted movement says of the wallet and of the entry.
use gaming_go_backend.Common.{◌≡◌, sym, ap, ◌∙◌, true, arith, ok, inl, inr, Result-cases}
use mathlib.Core.Path.{subst}
use gaming_go_backend.Common.Int.{ℤ, pos, ◌≤ℤ◌, ◌<ℤ◌, ◌+ℤ◌, ◌-ℤ◌}
use gaming_go_backend.Common.Int64.{IsInt64, add64}
use gaming_go_backend.Money.{
  currency_of, Money, IsMoney, compare_money, zero_of, is_supported, validate, add, subtract,
  require_comparable, new, Currency,
}
use gaming_go_backend.Money.Arithmetic.{compare-eq_ok, add-eq_ok, subtract-eq_ok}
use gaming_go_backend.Wallet.{
  Direction, debit, credit, Wallet, MovementInput, LedgerEntry, is_at_least, is_greater,
  zero_or_empty, new_ledger_entry, balance_after_move, move, debit_wallet, credit_wallet,
}
use gaming_go_backend.Wallet.Movements.{entry_of, moved}

zero_or_empty-zero : (c : Currency) → (zero_or_empty c).minor_units ≡ pos 0
unfolding zero_or_empty zero_of new
zero_or_empty-zero c = ground arith

greater_lem :
    (m : Money) (c : Currency)
    → is_greater (compare_money m (zero_or_empty c)) ≡ true
    → pos 0 <ℤ m.minor_units
greater_lem m c h = elim (Result-cases (compare_money m (zero_or_empty c))) [
  | inr (e, bad) ↦ ground (arith, bad, h)
  | inl (o, good) ↦
      ground (arith, good, h, compare-eq_ok m (zero_or_empty c) good, zero_or_empty-zero c)
]

pub at_least_lem :
    (m : Money) (c : Currency)
    → is_at_least (compare_money m (zero_or_empty c)) ≡ true
    → pos 0 ≤ℤ m.minor_units
at_least_lem m c h = elim (Result-cases (compare_money m (zero_or_empty c))) [
  | inr (e, bad) ↦ ground (arith, bad, h)
  | inl (o, good) ↦
      ground (arith, good, h, compare-eq_ok m (zero_or_empty c) good, zero_or_empty-zero c)
]

-- The balance after an entry that is accepted is not negative.
pub new_ledger_entry_nonneg :
    (x e : LedgerEntry) → new_ledger_entry x ≡ ok e → pos 0 ≤ℤ x.balance_after.minor_units
unfolding new_ledger_entry
new_ledger_entry_nonneg x e h = elim (Result-cases (currency_of x.money)) [
  | inr (y, bad) ↦ ground (arith, bad, h)
  | inl (c, good) ↦ at_least_lem x.balance_after c (ground (arith, good, h))
]

-- The guards that an accepted movement has passed.
record IsAccepted (d : Direction) (w : Wallet) (i : MovementInput) (e : LedgerEntry) (w' : Wallet)
    : Type 0 where
  pub after : Money
  pub positive : is_greater (compare_money i.money (zero_or_empty w.currency)) ≡ true
  pub computed : balance_after_move d w.balance i.money ≡ ok after
  pub entry : e ≡ entry_of d w i after
  pub covered : pos 0 ≤ℤ after.minor_units
  pub wallet : w' ≡ moved w i after

pub new_ledger_entry_same : (x e : LedgerEntry) → new_ledger_entry x ≡ ok e → e ≡ x
unfolding new_ledger_entry
new_ledger_entry_same x e h = ground arith

accepted :
    (d : Direction) (w : Wallet) (i : MovementInput) (e : LedgerEntry) (w' : Wallet)
    → move d w i ≡ ok (e, w')
    → IsAccepted d w i e w'
unfolding move
accepted d w i e w' h = elim (Result-cases (balance_after_move d w.balance i.money)) [
  | inr (x, bad) ↦ ground (arith, bad, h)
  | inl (after, good) ↦ elim (Result-cases (new_ledger_entry (entry_of d w i after))) [
    | inr (x, bad) ↦ ground (arith, good, bad, h)
    | inl (x, entered) ↦
        let same : x ≡ entry_of d w i after =
          new_ledger_entry_same (entry_of d w i after) x entered in
        record {
          after = after;
          positive = ground (arith, good, entered, h);
          computed = good;
          entry = ground (arith, good, entered, same, h);
          covered = new_ledger_entry_nonneg (entry_of d w i after) x entered;
          wallet = ground (arith, good, entered, h);
        }
  ]
]

supported :
    (m n : Money)
    → require_comparable m n ≡ ok tt
    → (is_supported m.currency ≡ true) × (is_supported n.currency ≡ true)
unfolding require_comparable validate
supported m n h = (ground arith, ground arith)

add_supported :
    (m n s : Money)
    → add m n ≡ ok s
    → (is_supported m.currency ≡ true) × (is_supported n.currency ≡ true)
unfolding add
add_supported m n s h = supported m n (ground arith)

subtract_supported :
    (m n s : Money)
    → subtract m n ≡ ok s
    → (is_supported m.currency ≡ true) × (is_supported n.currency ≡ true)
unfolding subtract
subtract_supported m n s h = supported m n (ground arith)

credited : (b a s : Money) → balance_after_move credit b a ≡ ok s → add b a ≡ ok s
unfolding balance_after_move
credited b a s h = ground arith

debited : (b a s : Money) → balance_after_move debit b a ≡ ok s → subtract b a ≡ ok s
unfolding balance_after_move
debited b a s h = ground arith

-- An amount from 0 up, of a supported currency.
nonneg-IsMoney :
    (m : Money)
    → is_supported m.currency ≡ true
    → pos 0 ≤ℤ m.minor_units
    → IsInt64 m.minor_units
    → IsMoney m
nonneg-IsMoney m s p f = record {
  supported = s;
  above_min = omega arith;
  below_max = omega (arith, f.1);
}

IsMoney-IsInt64 : (m : Money) → IsMoney m → IsInt64 m.minor_units
IsMoney-IsInt64 m h = (omega (arith, h.above_min), omega (arith, h.below_max))

-- The amount that a movement adds.
abbrev pub signed : Direction → ℤ → ℤ
signed credit a = a
signed _ a = pos 0 -ℤ a

add_negated : (a b : ℤ) → a -ℤ b ≡ a +ℤ (pos 0 -ℤ b)
unfolding ◌+ℤ◌ ◌-ℤ◌
add_negated a b = ground arith

module _ (b a s : Money) (nonneg : pos 0 ≤ℤ b.minor_units) (positive : pos 0 <ℤ a.minor_units)
    (fb : IsInt64 b.minor_units) (fa : IsInt64 a.minor_units) where
  credit_adds :
      add b a ≡ ok s → (s.minor_units ≡ b.minor_units +ℤ a.minor_units) × IsInt64 s.minor_units
  credit_adds h =
      let (sb, sa) = add_supported b a s h in
      let (_, hs, e) =
        add-eq_ok b a (nonneg-IsMoney b sb nonneg fb) (nonneg-IsMoney a sa (omega arith) fa) h in
      (ap (λ (m : Money). m.minor_units) e, IsMoney-IsInt64 s hs)

  debit_adds :
      subtract b a ≡ ok s
      → (s.minor_units ≡ b.minor_units +ℤ (pos 0 -ℤ a.minor_units)) × IsInt64 s.minor_units
  debit_adds h =
      let (sb, sa) = subtract_supported b a s h in
      let (_, hs, e) =
        subtract-eq_ok b a (nonneg-IsMoney b sb nonneg fb) (nonneg-IsMoney a sa (omega arith) fa)
          h in
      (
        ap (λ (m : Money). m.minor_units) e ∙ add_negated b.minor_units a.minor_units,
        IsMoney-IsInt64 s hs,
      )

-- What a movement of a wallet adds: an entry, and the balance that it leaves.
pub record Moves (w w' : Wallet) (amount : ℤ) : Type 0 where
  pub same_wallet : w'.id ≡ w.id
  pub raised : w'.version ≡ add64 w.version (pos 1)
  pub adds : w'.balance.minor_units ≡ w.balance.minor_units +ℤ amount
  pub fits : IsInt64 w'.balance.minor_units
  pub nonneg : pos 0 ≤ℤ w'.balance.minor_units

-- The entry of a movement is of the wallet and tells what the movement adds.
pub record Moved (w : Wallet) (e : LedgerEntry) (w' : Wallet) : Type 0 where
  pub same_owner : e.wallet_id ≡ w.id
  pub moves : Moves w w' (signed e.direction e.money.minor_units)

module _ (w : Wallet) (i : MovementInput) (e : LedgerEntry) (w' : Wallet)
    (nonneg : pos 0 ≤ℤ w.balance.minor_units) (fw : IsInt64 w.balance.minor_units)
    (fi : IsInt64 i.money.minor_units) where
  accepted-Moved :
      (d : Direction) (a : IsAccepted d w i e w')
      → (a.after.minor_units ≡ w.balance.minor_units +ℤ signed d i.money.minor_units)
        × IsInt64 a.after.minor_units
      → Moved w e w'
  accepted-Moved d a (adds, fits) = record {
    same_owner = ap (λ (x : LedgerEntry). x.wallet_id) a.entry;
    moves = record {
      same_wallet = ap (λ (x : Wallet). x.id) a.wallet;
      raised = ap (λ (x : Wallet). x.version) a.wallet;
      adds =
          ap (λ (x : Wallet). x.balance.minor_units) a.wallet
          ∙ adds
          ∙ ap
              (λ (x : LedgerEntry). w.balance.minor_units +ℤ signed x.direction x.money.minor_units)
              (sym a.entry);
      fits = subst (λ (x : Wallet). IsInt64 x.balance.minor_units) (sym a.wallet) fits;
      nonneg = subst (λ (x : Wallet). pos 0 ≤ℤ x.balance.minor_units) (sym a.wallet) a.covered;
    };
  }

  pub debit-Moved : debit_wallet w i ≡ ok (e, w') → Moved w e w'
  unfolding debit_wallet
  debit-Moved h =
      let a = accepted debit w i e w' h in
      accepted-Moved debit a (
        debit_adds w.balance i.money a.after nonneg (greater_lem i.money w.currency a.positive) fw
          fi (debited w.balance i.money a.after a.computed))

  pub credit-Moved : credit_wallet w i ≡ ok (e, w') → Moved w e w'
  unfolding credit_wallet
  credit-Moved h =
      let a = accepted credit w i e w' h in
      accepted-Moved credit a (
        credit_adds w.balance i.money a.after nonneg (greater_lem i.money w.currency a.positive) fw
          fi (credited w.balance i.money a.after a.computed))
