-- ===== src/Wallet/Opened.antt =====
-- `Open` of internal/domain/wallet/wallet.go: the wallet that opens and its entry.
use gaming_go_backend.Common.{
  ◌≡◌, refl, sym, Option, none, some, ok, arith, inl, inr, Bool-cases, Result-cases,
}
use mathlib.Core.Path.{subst}
use gaming_go_backend.Common.Int.{pos, ◌≤ℤ◌}
use gaming_go_backend.Common.Int64.{IsInt64}
use gaming_go_backend.Money
use gaming_go_backend.Money.{Money, Currency, zero_of, compare_money}
use gaming_go_backend.Wallet.{
  credit, Wallet, NewInput, OpenInput, LedgerEntry, new, new_ledger_entry, zero_or_empty, is_same,
  opening_credit, open_wallet,
}
use gaming_go_backend.Wallet.Accepted.{new_ledger_entry_same, new_ledger_entry_nonneg}

-- The entry accounts for the balance, which is 0 where there is none.
abbrev pub Accounts : Wallet → Option LedgerEntry → Type 0
Accounts w none = w.balance.minor_units ≡ pos 0
Accounts w (some e) = (e.wallet_id ≡ w.id) × (e.direction ≡ credit) × (e.money ≡ w.balance)

pub record IsOpened (w : Wallet) (entry : Option LedgerEntry) : Type 0 where
  pub version_one : w.version ≡ pos 1
  pub balance_fits : IsInt64 w.balance.minor_units
  pub nonneg : pos 0 ≤ℤ w.balance.minor_units
  pub accounts : Accounts w entry

record IsNew (i : NewInput) (w : Wallet) : Type 0 where
  pub same_id : w.id ≡ i.id
  pub version_one : w.version ≡ pos 1
  pub empty : w.balance.minor_units ≡ pos 0

new-IsNew : (i : NewInput) (w : Wallet) → new i ≡ ok w → IsNew i w
unfolding new zero_of gaming_go_backend.Money.new
new-IsNew i w h = record {
  same_id = ground arith;
  version_one = ground arith;
  empty = ground arith;
}

abbrev opening_entry : OpenInput → LedgerEntry
opening_entry i = record {
  id = i.ledger_entry_id;
  wallet_id = i.id;
  transaction_id = i.opening_transaction_id;
  direction = credit;
  money = i.initial_balance;
  balance_before = zero_or_empty i.currency;
  balance_after = i.initial_balance;
  occurred_at = i.occurred_at;
}

opening_credit-IsOpened :
    (i : OpenInput) (w w' : Wallet) (entry : Option LedgerEntry)
    → w.id ≡ i.id
    → w.version ≡ pos 1
    → IsInt64 i.initial_balance.minor_units
    → opening_credit i w ≡ ok (w', entry)
    → IsOpened w' entry
unfolding opening_credit
opening_credit-IsOpened i w w' entry same_id one fits h =
    elim (Result-cases (new_ledger_entry (opening_entry i))) [
      | inr (e, bad) ↦ ground (arith, bad, h)
      | inl (e, made) ↦
          let same = new_ledger_entry_same (opening_entry i) e made in
          let w_same : record w { balance = i.initial_balance } ≡ w' = ground (arith, made, h) in
          let e_same : some (opening_entry i) ≡ entry = ground (arith, made, same, h) in
          subst (λ x. IsOpened x entry) w_same
            (subst (λ x. IsOpened (record w { balance = i.initial_balance }) x) e_same
              (record {
                version_one = one;
                balance_fits = fits;
                nonneg = new_ledger_entry_nonneg (opening_entry i) e made;
                accounts = (sym same_id, refl, refl);
              }))
    ]

pub open_wallet-IsOpened :
    (i : OpenInput) (w : Wallet) (entry : Option LedgerEntry)
    → IsInt64 i.initial_balance.minor_units
    → open_wallet i ≡ ok (w, entry)
    → IsOpened w entry
unfolding open_wallet
open_wallet-IsOpened i w entry fits h =
    let input : NewInput = record {
      id = i.id;
      player_id = i.player_id;
      currency = i.currency;
      occurred_at = i.occurred_at;
    } in
    elim (Result-cases (new input)) [
      | inr (e, bad) ↦ ground (arith, bad, h)
      | inl (x, made) ↦
          let n = new-IsNew input x made in
          elim (Bool-cases (is_same (compare_money i.initial_balance (zero_or_empty i.currency)))) [
            | inr positive ↦
                opening_credit-IsOpened i x w entry n.same_id n.version_one fits
                  (ground (arith, made, positive, h))
            | inl zero ↦
                let w_same : x ≡ w = ground (arith, made, zero, h) in
                let e_same : none ≡ entry = ground (arith, made, zero, h) in
                subst (λ y. IsOpened y entry) w_same
                  (subst (IsOpened x) e_same (record {
                    version_one = n.version_one;
                    balance_fits = subst IsInt64 (sym n.empty) (omega arith, omega arith);
                    nonneg = subst (λ a. pos 0 ≤ℤ a) (sym n.empty) (omega arith);
                    accounts = n.empty;
                  }))
          ]
    ]
