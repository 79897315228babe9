-- ===== src/Wallet/History.antt =====
-- Sequences of accepted movements: the wallet they leave and the ledger they write agree.
use gaming_go_backend.Common.{◌≡◌, refl, ◌∙◌, true, List, [], ◌∷◌, length, arith, ok, if◌then◌else◌}
use gaming_go_backend.Common.Int.{ℤ, pos, ◌≤ℤ◌, ◌<ℤ◌, ◌+ℤ◌, ◌-ℤ◌, leb_ℤ, int_laws}
use gaming_go_backend.Common.Int64.{max_int64, add64, add64_fits}
use gaming_go_backend.Money.{
  Currency, Money, IsMoney, compare_money, compare_units, validate, currency_of,
}
use gaming_go_backend.Money.Arithmetic.{fits, fits-IsMoney, currency_eq_sound}
use gaming_go_backend.Wallet.{
  Direction, debit, credit, is_debit, Wallet, MovementInput, LedgerEntry, zero_or_empty, is_greater,
  require_currency, move, debit_wallet, credit_wallet,
}
use gaming_go_backend.Wallet.Entries.{IsWallet, IsMovement, compare-zero}
use gaming_go_backend.Wallet.Movements.{
  debit_exact, credit_exact, debit_fits, debit_nonneg, credit_nonneg, entry_of, moved, with_units,
}

currency_of_require : (m : Money) (c : Currency) → require_currency m c ≡ ok tt → m.currency ≡ c
unfolding require_currency currency_of validate
currency_of_require m c h = ground (arith, currency_eq_sound m.currency c)

positive_of_is_greater :
    (m : Money) (c : Currency)
    → IsMoney m
    → m.currency ≡ c
    → is_greater (compare_money m (zero_or_empty c)) ≡ true
    → pos 0 <ℤ m.minor_units
unfolding compare_units
positive_of_is_greater m c h e g =
    let g' : is_greater (ok (compare_units m.minor_units (pos 0))) ≡ true =
      rw (← e, compare-zero m h) at g in
    ground arith

module _ (d : Direction) (w : Wallet) (i : MovementInput) {r : LedgerEntry × Wallet}
    (accepted : move d w i ≡ ok r) where
  move_currency : require_currency i.money w.currency ≡ ok tt
  unfolding move
  move_currency = ground arith

  move_positive : is_greater (compare_money i.money (zero_or_empty w.currency)) ≡ true
  unfolding move
  move_positive = ground arith

  -- Whatever `move` accepts is a movement of a positive amount in the wallet's currency.
  pub move-IsMovement : IsMoney i.money → IsMovement w i
  unfolding move
  move-IsMovement hm =
      let c = currency_of_require i.money w.currency move_currency in
      record {
        entry_named = ground arith;
        transaction_named = ground arith;
        dated = ground arith;
        amount_money = hm;
        one_currency = c;
        positive = positive_of_is_greater i.money w.currency hm c move_positive;
      }

abbrev pub signed : LedgerEntry → ℤ
signed e = if is_debit e.direction then pos 0 -ℤ e.money.minor_units else e.money.minor_units

-- What an accepted movement does: the entry stands between the two balances, the balance changes
-- by the entry's signed amount, the version goes up by one, and nothing else of the wallet's
-- identity changes.
pub record IsStep (w : Wallet) (e : LedgerEntry) (w' : Wallet) : Type 0 where
  pub same_wallet : e.wallet_id ≡ w.id
  pub before : e.balance_before ≡ w.balance
  pub after : e.balance_after ≡ w'.balance
  pub balance : w'.balance.minor_units ≡ w.balance.minor_units +ℤ signed e
  pub version : w'.version ≡ add64 w.version (pos 1)
  pub id : w'.id ≡ w.id
  pub player : w'.player_id ≡ w.player_id
  pub currency : w'.currency ≡ w.currency

sub_as_add : (a b : ℤ) → a -ℤ b ≡ a +ℤ (pos 0 -ℤ b)
sub_as_add a b = omega int_laws

-- An accepted movement, as a step and as the fact that the wallet stays well formed.
abbrev pub Advances : Wallet → LedgerEntry × Wallet → Type 0
Advances w (e, w') = IsStep w e w' × (w.version <ℤ max_int64 → IsWallet w')

version_up :
    (w : Wallet)
    → IsWallet w
    → w.version <ℤ max_int64
    → add64 w.version (pos 1) ≡ w.version +ℤ pos 1
version_up w hw h =
    add64_fits w.version (pos 1) (omega (int_laws, hw.versioned), omega (int_laws, hw.versioned))

module _ (d : Direction) (w : Wallet) (i : MovementInput) (a : ℤ) (hw : IsWallet w)
    (hi : IsMovement w i) where
  abbrev outcome : LedgerEntry × Wallet
  outcome = (entry_of d w i (with_units w.balance a), moved w i (with_units w.balance a))

  outcome-IsStep :
      a ≡ w.balance.minor_units +ℤ signed (entry_of d w i (with_units w.balance a))
      → IsStep w (outcome).0 (outcome).1
  outcome-IsStep e = record {
    same_wallet = refl;
    before = refl;
    after = refl;
    balance = e;
    version = refl;
    id = refl;
    player = refl;
    currency = refl;
  }

  outcome-IsWallet : fits a ≡ true → pos 0 ≤ℤ a → w.version <ℤ max_int64 → IsWallet (outcome).1
  outcome-IsWallet f p v = record {
    named = hw.named;
    owned = hw.owned;
    created = hw.created;
    updated = hi.dated;
    balance_money = fits-IsMoney w.balance a hw.balance_money f;
    one_currency = hw.one_currency;
    nonneg = p;
    versioned = rw (version_up w hw v) (omega (int_laws, hw.versioned));
    version_fits = rw (version_up w hw v) (omega (int_laws, hw.versioned));
  }

module _ (w : Wallet) (i : MovementInput) {r : LedgerEntry × Wallet} (hw : IsWallet w)
    (hm : IsMoney i.money) where
  -- A debit that is accepted is a step that takes the amount off.
  debit-Advances : debit_wallet w i ≡ ok r → Advances w r
  unfolding debit_wallet
  debit-Advances h =
      let hi = move-IsMovement debit w i h hm in
      let a = w.balance.minor_units -ℤ i.money.minor_units in
      let funded : leb_ℤ i.money.minor_units w.balance.minor_units ≡ true =
        ground (arith, debit_exact w i hw hi, h) in
      let e : r ≡ outcome debit w i a hw hi = ground (arith, debit_exact w i hw hi, h, funded) in
      rw e (
        outcome-IsStep debit w i a hw hi (sub_as_add w.balance.minor_units i.money.minor_units),
        outcome-IsWallet debit w i a hw hi (debit_fits w i hw hi funded)
            (debit_nonneg w i hw hi funded),
      )

  -- A credit that is accepted is a step that adds the amount.
  credit-Advances : credit_wallet w i ≡ ok r → Advances w r
  unfolding credit_wallet
  credit-Advances h =
      let hi = move-IsMovement credit w i h hm in
      let a = w.balance.minor_units +ℤ i.money.minor_units in
      let f : fits a ≡ true = ground (arith, credit_exact w i hw hi, h) in
      let e : r ≡ outcome credit w i a hw hi = ground (arith, credit_exact w i hw hi, h, f) in
      rw e (
        outcome-IsStep credit w i a hw hi refl,
        outcome-IsWallet credit w i a hw hi f (credit_nonneg w i hw hi),
      )

-- One accepted call of `Debit` or `Credit`.
pub data Call (w : Wallet) (r : LedgerEntry × Wallet) : Type 0 where
  debited : (i : MovementInput) → IsMoney i.money → debit_wallet w i ≡ ok r → Call w r
  credited : (i : MovementInput) → IsMoney i.money → credit_wallet w i ≡ ok r → Call w r

-- The calls that lead from one wallet to another, with the entries that they give, oldest first.
pub data History : Wallet → List LedgerEntry → Wallet → Type 0 where
  start : {w : Wallet} → History w [] w
  call :
      {w u v : Wallet} {e : LedgerEntry} {es : List LedgerEntry}
      → Call w (e, u)
      → History u es v
      → History w (e ∷ es) v

pub Call-Advances : {w : Wallet} {r : LedgerEntry × Wallet} → IsWallet w → Call w r → Advances w r
Call-Advances hw (debited i hm h) = debit-Advances _ i hw hm h
Call-Advances hw (credited i hm h) = credit-Advances _ i hw hm h

pub total : List LedgerEntry → ℤ
total [] = pos 0
total (e ∷ es) = signed e +ℤ total es

-- Each entry begins at the balance that the one before it left.
abbrev pub IsChain : Money → List LedgerEntry → Money → Type 0
IsChain b [] a = b ≡ a
IsChain b (e ∷ es) a = (e.balance_before ≡ b) × IsChain e.balance_after es a

-- What a ledger says of the wallet before and after it.
pub record Reconciles (w : Wallet) (es : List LedgerEntry) (v : Wallet) : Type 0 where
  pub well_formed : IsWallet v
  pub balance : v.balance.minor_units ≡ w.balance.minor_units +ℤ total es
  pub chained : IsChain w.balance es v.balance
  pub version : v.version ≡ w.version +ℤ pos (length es)
  pub identity : (v.id ≡ w.id) × (v.player_id ≡ w.player_id) × (v.currency ≡ w.currency)

-- After any calls of Debit and Credit on a well-formed wallet, while the version stays an int64, the
-- wallet is well formed, its balance is the first balance plus the signed sum of the entries, the
-- entries chain the two balances together, the version has grown by the number of entries, and the
-- identity, the owner and the currency are as they were.
pub History-Reconciles :
    {w v : Wallet} {es : List LedgerEntry}
    → IsWallet w
    → w.version +ℤ pos (length es) ≤ℤ max_int64
    → History w es v
    → Reconciles w es v
unfolding total
History-Reconciles hw b start = record {
  well_formed = hw;
  balance = omega int_laws;
  chained = refl;
  version = omega int_laws;
  identity = (refl, refl, refl);
}
History-Reconciles {w} {v} hw b (call {u = u} {e = e} {es = es} c h) =
    let (step, keep) = Call-Advances hw c in
    let room : w.version <ℤ max_int64 = omega (int_laws, b) in
    let up : u.version ≡ w.version +ℤ pos 1 = step.version ∙ version_up w hw room in
    let rest = History-Reconciles (keep room) (rw up (omega (int_laws, b))) h in
    record {
      well_formed = rest.well_formed;
      balance = rw (rest.balance, step.balance) (omega int_laws);
      chained = (step.before, rw step.after rest.chained);
      version = rw (rest.version, up) (omega int_laws);
      identity = (
        rest.identity.0 ∙ step.id,
        rest.identity.1 ∙ step.player,
        rest.identity.2 ∙ step.currency,
      );
    }
