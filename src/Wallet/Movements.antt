-- ===== src/Wallet/Movements.antt =====
-- Debits and credits: what they do on every branch, and that they keep a wallet well formed.
use gaming_go_backend.Common.{
  ◌≡◌, refl, sym, ◌∙◌, true, arith, ok, err, if◌then◌else◌, Bool-cases, inl, inr,
}
use gaming_go_backend.Common.Int.{ℤ, pos, ◌≤ℤ◌, ◌+ℤ◌, ◌-ℤ◌, leb_ℤ, leb_ℤ→≤ℤ, int_laws}
use gaming_go_backend.Common.Int64.{add64}
use gaming_go_backend.Money.{Money, add, subtract, overflow, compare_money, compare_units}
use gaming_go_backend.Money.Arithmetic.{
  fits, compare_exact, add_exact, subtract_exact, fits-IsMoney,
}
use gaming_go_backend.Wallet.{
  insufficient_funds, of_money, Direction, debit, credit, is_debit, is_movement, Wallet,
  MovementInput, LedgerEntry, is_at_least, require_currency, new_ledger_entry, balance_after_move,
  move, debit_wallet, credit_wallet,
}
use gaming_go_backend.Wallet.Entries.{
  IsWallet, IsMovement, IsEntry, is_greater-zero, require_currency_ok, new_ledger_entry_ok,
}

-- The entry and the wallet that a movement to the balance `after` gives.
abbrev pub entry_of : Direction → Wallet → MovementInput → Money → LedgerEntry
entry_of d w i after = record {
  id = i.ledger_entry_id;
  wallet_id = w.id;
  transaction_id = i.transaction_id;
  direction = d;
  money = i.money;
  balance_before = w.balance;
  balance_after = after;
  occurred_at = i.occurred_at;
}

abbrev pub moved : Wallet → MovementInput → Money → Wallet
moved w i after = record w {
  balance = after;
  version = add64 w.version (pos 1);
  updated_at = i.occurred_at;
}

abbrev pub with_units : Money → ℤ → Money
with_units m a = record m { minor_units = a }

module _ (w : Wallet) (i : MovementInput) (hw : IsWallet w) (hi : IsMovement w i) where
  abbrev before : ℤ
  before = w.balance.minor_units

  abbrev amount : ℤ
  amount = i.money.minor_units

  one_currency : w.balance.currency ≡ i.money.currency
  one_currency = hw.one_currency ∙ sym hi.one_currency

  module _ (d : Direction) (directed : is_movement d ≡ true) (after : Money) where
    -- Past the guards a movement to a balance that adds up is accepted.
    move_to :
        IsEntry (entry_of d w i after)
        → balance_after_move d w.balance i.money ≡ ok after
        → move d w i ≡ ok (entry_of d w i after, moved w i after)
    unfolding move
    move_to h e = rw (
      hi.entry_named,
      hi.transaction_named,
      hi.dated,
      require_currency_ok i.money w.currency hi.amount_money hi.one_currency,
      is_greater-zero i.money w.currency hi.amount_money hi.one_currency hi.positive,
      e,
      new_ledger_entry_ok (entry_of d w i after) h,
    )

  move_err :
      (d : Direction) {e : gaming_go_backend.Wallet.WalletError}
      → balance_after_move d w.balance i.money ≡ err e
      → move d w i ≡ err e
  unfolding move
  move_err d h = rw (
    hi.entry_named,
    hi.transaction_named,
    hi.dated,
    require_currency_ok i.money w.currency hi.amount_money hi.one_currency,
    is_greater-zero i.money w.currency hi.amount_money hi.one_currency hi.positive,
    h,
  )

  module _ (d : Direction) (directed : is_movement d ≡ true) (a : ℤ) where
    entry_of-IsEntry :
        fits a ≡ true
        → pos 0 ≤ℤ a
        → (if is_debit d then subtract w.balance i.money else add w.balance i.money)
          ≡ ok (with_units w.balance a)
        → IsEntry (entry_of d w i (with_units w.balance a))
    entry_of-IsEntry f p e = record {
      named = hi.entry_named;
      wallet_named = hw.named;
      transaction_named = hi.transaction_named;
      dated = hi.dated;
      directed = directed;
      amount_money = hi.amount_money;
      before_money = hw.balance_money;
      after_money = fits-IsMoney w.balance a hw.balance_money f;
      before_currency = one_currency;
      after_currency = one_currency;
      positive = hi.positive;
      before_nonneg = hw.nonneg;
      after_nonneg = p;
      adds_up = e;
    }

  pub debit_fits : leb_ℤ amount before ≡ true → fits (before -ℤ amount) ≡ true
  unfolding ◌-ℤ◌
  debit_fits h = ground (arith, hw.balance_money, hi.positive, hw.nonneg)

  pub debit_nonneg : leb_ℤ amount before ≡ true → pos 0 ≤ℤ before -ℤ amount
  debit_nonneg h = omega (int_laws, leb_ℤ→≤ℤ amount before h)

  subtract_funded :
      leb_ℤ amount before ≡ true
      → subtract w.balance i.money ≡ ok (with_units w.balance (before -ℤ amount))
  subtract_funded h =
      subtract_exact w.balance i.money hw.balance_money hi.amount_money one_currency
      ∙ rw (debit_fits h)

  funds : is_at_least (compare_money w.balance i.money) ≡ leb_ℤ amount before
  unfolding compare_units
  funds =
      rw (compare_exact w.balance i.money hw.balance_money hi.amount_money one_currency)
        (ground arith)

  -- A debit of a positive amount in the currency of a well-formed wallet, with ids and a date, takes
  -- the amount off the balance, raises the version and gives the entry that records both balances
  -- where the balance covers the amount, and is refused for insufficient funds where it does not.
  pub debit_exact : debit_wallet w i ≡ (
      let after = with_units w.balance (before -ℤ amount) in
      if leb_ℤ amount before
      then ok (entry_of debit w i after, moved w i after)
      else err insufficient_funds)
  unfolding debit_wallet balance_after_move
  debit_exact = elim (Bool-cases (leb_ℤ amount before)) [
    | inl funded ↦ rw funded (
        move_to debit refl (with_units w.balance (before -ℤ amount))
          (entry_of-IsEntry debit refl (before -ℤ amount) (debit_fits funded) (debit_nonneg funded)
            (subtract_funded funded))
          (rw (funds, funded, subtract_funded funded)))
    | inr short ↦ rw short (move_err debit (rw (funds, short)))
  ]

  pub credit_nonneg : pos 0 ≤ℤ before +ℤ amount
  credit_nonneg = omega (int_laws, hw.nonneg, hi.positive)

  -- A credit of a positive amount in the currency of a well-formed wallet, with ids and a date, adds
  -- the amount to the balance, raises the version and gives the entry that records both balances
  -- where the sum is an int64, and is refused as a money overflow where it is not.
  pub credit_exact : credit_wallet w i ≡ (
      let after = with_units w.balance (before +ℤ amount) in
      if fits (before +ℤ amount)
      then ok (entry_of credit w i after, moved w i after)
      else err (of_money overflow))
  unfolding credit_wallet balance_after_move
  credit_exact =
      let sum = add_exact w.balance i.money hw.balance_money hi.amount_money one_currency in
      elim (Bool-cases (fits (before +ℤ amount))) [
        | inl f ↦ rw f (
            move_to credit refl (with_units w.balance (before +ℤ amount))
              (entry_of-IsEntry credit refl (before +ℤ amount) f credit_nonneg (sum ∙ rw f))
              (rw (sum, f)))
        | inr over ↦ rw over (move_err credit (rw (sum, over)))
      ]
