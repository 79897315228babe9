-- ===== src/Tests/Rows.antt =====
-- Inputs for the theorems on the rows and the reads of a transaction.
use gaming_go_backend.Common.{◌≡◌, refl, false, some, none, [], ◌∷◌, ok, err, arith}
use gaming_go_backend.Common.Int.{ℤ, pos}
use gaming_go_backend.Common.Text.{codes, text_eq}
use gaming_go_backend.Money.{
  brl, Money, IsMoney, currency_of, minor_units_of, zero_of, compare_money, is_supported,
  require_comparable, validate, compare_units, new,
}
use gaming_go_backend.Wallet.{zero_or_empty}
use gaming_go_backend.Transaction
use gaming_go_backend.Transaction.{
  WagerTransaction, bet, Origin, external, processed, rejected, checked, rehydrate_transaction,
  validate_non_negative_money, wrong_metadata,
}
use gaming_go_backend.Store.Base.{TransactionRow, World, Session, infrastructure, query}
use gaming_go_backend.Store.Rows.{row_of, transaction_of_row}
use gaming_go_backend.Store.Lookups.{select_row}
use gaming_go_backend.Store.Pending.{pending_of_row, completed_row}
use gaming_go_backend.Store.RoundTrip.{transaction_of_row-row_of, completed_row-unreadable}
use gaming_go_backend.App.Read.{
  Caller, TransactionDetail, by_id, detail_of_row, find_detail, is_visible,
}
use gaming_go_backend.App.Read.Isolation.{by_id_isolates}
use gaming_go_backend.Common.{find?}

abbrev reais : ℤ → Money
reais n = record { minor_units = n; currency = brl }

reais_300-IsMoney : IsMoney (reais (pos 300))
unfolding is_supported
reais_300-IsMoney = record { supported = refl; above_min = ground arith; below_max = ground arith }

abbrev placed : WagerTransaction
placed = record {
  id = codes "transaction";
  external_transaction_id = codes "external";
  provider_id = codes "provider";
  idempotency_key = codes "key";
  payload_hash = codes "hash";
  wallet_id = codes "wallet";
  player_id = codes "player";
  round_id = codes "round";
  game_id = codes "game";
  kind = bet;
  origin = external;
  money = reais (pos 300);
  reference_external_transaction_id = [];
  reference_transaction_id = [];
  status = processed;
  failure_code = [];
  created_at = 2_000;
  updated_at = 2_000;
}

abbrev placed_row : TransactionRow
placed_row = record {
  id = codes "transaction";
  external_transaction_id = some (codes "external");
  provider_id = some (codes "provider");
  idempotency_key = some (codes "key");
  payload_hash = some (codes "hash");
  wallet_id = codes "wallet";
  player_id = codes "player";
  round_id = some (codes "round");
  game_id = some (codes "game");
  kind = bet;
  origin = external;
  amount = pos 300;
  currency = brl;
  reference_external_transaction_id = none;
  reference_transaction_id = none;
  status = processed;
  failure_code = none;
  resulting_balance = some (pos 700);
  attempts = 0;
  next_attempt_at = none;
  pending_expires_at = none;
  created_at = 2_000;
  updated_at = 2_000;
}

written : row_of placed (some (pos 700)) ≡ ok placed_row
unfolding row_of minor_units_of currency_of validate is_supported
written = refl

valid : rehydrate_transaction placed ≡ ok placed
unfolding rehydrate_transaction checked Transaction.validate validate_non_negative_money
    wrong_metadata currency_of zero_or_empty zero_of new compare_money require_comparable validate
    is_supported compare_units
valid = refl

transaction_of_row-row_of_example : transaction_of_row placed_row ≡ ok placed
transaction_of_row-row_of_example =
    transaction_of_row-row_of placed (some (pos 700)) placed_row refl reais_300-IsMoney refl refl
      valid written

completed_row-unreadable_example :
    pending_of_row 9 (completed_row placed (some (pos 700)) placed_row) ≡ err infrastructure
completed_row-unreadable_example = completed_row-unreadable placed (some (pos 700)) placed_row 9

abbrev world : World
world = record {
  fails = λ n. false;
  applied = λ n. false;
  fresh_id = λ n. none;
  clock = λ n. 5;
  db_clock = λ n. 6;
}

abbrev before : Session
before = record {
  db = record { wallets = []; transactions = placed_row ∷ []; ledger = []; outbox = [] };
  calls = 0;
}

abbrev provider : Caller
provider = record { provider_id = codes "provider"; is_admin = false }

abbrev detail : TransactionDetail
detail = record {
  transaction_id = codes "transaction";
  external_transaction_id = codes "external";
  provider_id = codes "provider";
  player_id = codes "player";
  wallet_id = codes "wallet";
  round_id = codes "round";
  game_id = codes "game";
  kind = bet;
  origin = external;
  money = reais (pos 300);
  reference_external_transaction_id = [];
  reference_transaction_id = [];
  status = processed;
  failure_code = [];
  resulting_balance = some (reais (pos 700));
  attempts = 0;
  next_attempt_at = none;
  pending_expires_at = none;
  created_at = 2_000;
  updated_at = 2_000;
}

read_run :
    by_id world (codes "transaction") provider before
    ≡ (ok detail, (by_id world (codes "transaction") provider before).1)
unfolding by_id find_detail query detail_of_row select_row find? text_eq is_visible new is_supported
read_run = refl

by_id_isolates_example : (external ≡ external) × (codes "provider" ≡ codes "provider")
by_id_isolates_example =
    by_id_isolates world (codes "transaction") provider before
      (by_id world (codes "transaction") provider before).1 detail refl read_run
