-- ===== src/Wallet/Entries.antt =====
-- What makes a wallet, a movement and a ledger entry well formed, and the checks on them.
use gaming_go_backend.Common.{◌≡◌, refl, true, false, arith, ok, if◌then◌else◌}
use gaming_go_backend.Common.Int.{pos, ◌≤ℤ◌, ◌<ℤ◌}
use gaming_go_backend.Common.Int64.{max_int64}
use gaming_go_backend.Common.Text.{is_empty}
use gaming_go_backend.Common.Time.{is_zero}
use gaming_go_backend.Money.{
  Currency, Money, IsMoney, new, zero_of, currency_of, validate, compare_money, compare_units, add,
  subtract,
}
use gaming_go_backend.Money.Arithmetic.{compare_exact, currency_eq_refl}
use gaming_go_backend.Wallet.{
  is_debit, is_movement, Wallet, MovementInput, LedgerEntry, zero_or_empty, is_greater, is_at_least,
  is_same, require_currency, new_ledger_entry,
}

-- A wallet as the constructors leave it.
pub record IsWallet (w : Wallet) : Type 0 where
  pub named : is_empty w.id ≡ false
  pub owned : is_empty w.player_id ≡ false
  pub created : is_zero w.created_at ≡ false
  pub updated : is_zero w.updated_at ≡ false
  pub balance_money : IsMoney w.balance
  pub one_currency : w.balance.currency ≡ w.currency
  pub nonneg : pos 0 ≤ℤ w.balance.minor_units
  pub versioned : pos 1 ≤ℤ w.version
  pub version_fits : w.version ≤ℤ max_int64

-- A movement that names itself, in the wallet's currency and of a positive amount.
pub record IsMovement (w : Wallet) (i : MovementInput) : Type 0 where
  pub entry_named : is_empty i.ledger_entry_id ≡ false
  pub transaction_named : is_empty i.transaction_id ≡ false
  pub dated : is_zero i.occurred_at ≡ false
  pub amount_money : IsMoney i.money
  pub one_currency : i.money.currency ≡ w.currency
  pub positive : pos 0 <ℤ i.money.minor_units

abbrev zero_in : Currency → Money
zero_in c = record { minor_units = pos 0; currency = c }

pub zero_in-IsMoney : (m : Money) → IsMoney m → IsMoney (zero_in m.currency)
zero_in-IsMoney m h = record {
  supported = h.supported;
  above_min = omega arith;
  below_max = omega arith;
}

pub zero_or_empty_supported :
    (m : Money) → IsMoney m → zero_or_empty m.currency ≡ zero_in m.currency
unfolding zero_or_empty zero_of new
zero_or_empty_supported m h = ground (arith, h.supported)

pub compare-zero :
    (m : Money)
    → IsMoney m
    → compare_money m (zero_or_empty m.currency) ≡ ok (compare_units m.minor_units (pos 0))
compare-zero m h =
    rw (zero_or_empty_supported m h)
      (compare_exact m (zero_in m.currency) h (zero_in-IsMoney m h) refl)

pub is_greater-zero :
    (m : Money) (c : Currency)
    → IsMoney m
    → m.currency ≡ c
    → pos 0 <ℤ m.minor_units
    → is_greater (compare_money m (zero_or_empty c)) ≡ true
unfolding compare_units
is_greater-zero m c h e p = rw (← e, compare-zero m h) (ground arith)

pub is_at_least-zero :
    (m : Money) (c : Currency)
    → IsMoney m
    → m.currency ≡ c
    → pos 0 ≤ℤ m.minor_units
    → is_at_least (compare_money m (zero_or_empty c)) ≡ true
unfolding compare_units
is_at_least-zero m c h e p = rw (← e, compare-zero m h) (ground arith)

pub is_same_self : (m : Money) → IsMoney m → is_same (compare_money m m) ≡ true
unfolding compare_units
is_same_self m h = rw (compare_exact m m h h refl) (ground arith)

pub currency_of_ok : (m : Money) → IsMoney m → currency_of m ≡ ok m.currency
unfolding currency_of validate
currency_of_ok m h = ground (arith, h.supported)

pub require_currency_ok :
    (m : Money) (c : Currency) → IsMoney m → m.currency ≡ c → require_currency m c ≡ ok tt
unfolding require_currency
require_currency_ok m c h e = ground (arith, currency_of_ok m h, currency_eq_refl m.currency)

-- A ledger entry that adds up is accepted as it is.
pub record IsEntry (e : LedgerEntry) : Type 0 where
  pub named : is_empty e.id ≡ false
  pub wallet_named : is_empty e.wallet_id ≡ false
  pub transaction_named : is_empty e.transaction_id ≡ false
  pub dated : is_zero e.occurred_at ≡ false
  pub directed : is_movement e.direction ≡ true
  pub amount_money : IsMoney e.money
  pub before_money : IsMoney e.balance_before
  pub after_money : IsMoney e.balance_after
  pub before_currency : e.balance_before.currency ≡ e.money.currency
  pub after_currency : e.balance_after.currency ≡ e.money.currency
  pub positive : pos 0 <ℤ e.money.minor_units
  pub before_nonneg : pos 0 ≤ℤ e.balance_before.minor_units
  pub after_nonneg : pos 0 ≤ℤ e.balance_after.minor_units
  pub adds_up :
      (if is_debit e.direction
        then subtract e.balance_before e.money
        else add e.balance_before e.money)
      ≡ ok e.balance_after

pub new_ledger_entry_ok : (e : LedgerEntry) → IsEntry e → new_ledger_entry e ≡ ok e
unfolding new_ledger_entry
new_ledger_entry_ok e h = rw (
  h.named,
  h.wallet_named,
  h.transaction_named,
  h.dated,
  h.directed,
  currency_of_ok e.money h.amount_money,
  require_currency_ok e.balance_before e.money.currency h.before_money h.before_currency,
  require_currency_ok e.balance_after e.money.currency h.after_money h.after_currency,
  is_greater-zero e.money e.money.currency h.amount_money refl h.positive,
  is_at_least-zero e.balance_before e.money.currency h.before_money h.before_currency
      h.before_nonneg,
  is_at_least-zero e.balance_after e.money.currency h.after_money h.after_currency h.after_nonneg,
  h.adds_up,
  is_same_self e.balance_after h.after_money,
)
