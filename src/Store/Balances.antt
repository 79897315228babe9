-- ===== src/Store/Balances.antt =====
-- The balances of internal/walletpg's wallets as their users see them, and what one use case may do to
-- them.
use gaming_go_backend.Common.{ℕ, suc, ◌≡◌, false, Option, none, some, List, find?}
use gaming_go_backend.Common.Int.{ℤ, pos, ◌≤ℤ◌}
use gaming_go_backend.Common.Text.{Text, text_eq}
use gaming_go_backend.Store.Base.{WalletRow, Db}
use gaming_go_backend.Store.Wallets.{has_id}

-- The balance under an id; `none` where there is no wallet.
abbrev pub Balances : Type 0
Balances = Text → Option ℤ

abbrev pub balance_in : Option WalletRow → Option ℤ
balance_in none = none
balance_in (some row) = some row.balance

abbrev pub balances_of : List WalletRow → Balances
balances_of rows id = balance_in (find? (has_id id) rows)

abbrev pub balances : Db → Balances
balances db = balances_of db.wallets

-- The balances under all ids but one are as before.
abbrev pub Elsewhere : Text → Balances → Balances → Type 0
Elsewhere id before after = (other : Text) → text_eq id other ≡ false → after other ≡ before other

-- One step of the abstract account: nothing changes, or one balance changes to one that is not
-- negative, or one wallet is new, with a balance that is not negative.
pub data Transfer (before after : Balances) : Type 0 where
  unchanged : ((id : Text) → after id ≡ before id) → Transfer before after
  moved :
      (id : Text) (a b : ℤ)
      → before id ≡ some a
      → after id ≡ some b
      → pos 0 ≤ℤ b
      → Elsewhere id before after
      → Transfer before after
  added :
      (id : Text) (b : ℤ)
      → before id ≡ none
      → after id ≡ some b
      → pos 0 ≤ℤ b
      → Elsewhere id before after
      → Transfer before after

-- As many steps in a row as the number says.
pub data Transfers : ℕ → Balances → Balances → Type 0 where
  stop : {b : Balances} → Transfers 0 b b
  next : {n : ℕ} {a b c : Balances} → Transfer a b → Transfers n b c → Transfers (suc n) a c
