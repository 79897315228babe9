-- ===== src/App/Open/Books.antt =====
-- internal/walletapp/open_wallet.go keeps every balance the sum of its entries.
use gaming_go_backend.Common.{
  ◌≡◌, refl, sym, ap, Option, none, some, [], Result, ok, err, map_err, map_err-ok, arith, inl, inr,
  Result-cases, ◌∙◌,
}
use mathlib.Core.Path.{subst}
use gaming_go_backend.Common.Int64.{IsInt64}
use gaming_go_backend.Common.Text.{Text}
use gaming_go_backend.Common.Time.{Time}
use gaming_go_backend.Money.{Money, Currency, minor_units_of, zero_of, currency_of, compare_money}
use gaming_go_backend.Wallet.{Wallet, LedgerEntry, is_greater}
use gaming_go_backend.Wallet.Opened.{Accounts, open_wallet-IsOpened}
use gaming_go_backend.Transaction.{
  WagerTransaction, OpeningTransactionInput, new_opening_transaction, mark_processed,
}
use gaming_go_backend.Transaction.Amounts.{new_opening_transaction-money, mark_processed-money}
use gaming_go_backend.Events.{new_processed_event, new_balance_changed_event}
use gaming_go_backend.Store.Base.{
  AppError, wallet_error, money_error, Db, World, Session, Tx, pure, lift, within_tx, new_id, now,
  ◌>>=◌, ◌>>◌,
}
use gaming_go_backend.Store.Wallets.{insert_wallet}
use gaming_go_backend.Store.Transactions.{insert_transaction}
use gaming_go_backend.Store.Ledger.{insert_ledger_entry}
use gaming_go_backend.Store.Preservation.{
  whole, Preserves, Preserves->>=, Preserves-lift, Preserves-new_id,
}
use gaming_go_backend.Store.Hoare.{
  Ensures, Ensures-pure, Ensures->>=, Ensures-lift->>=, Ensures-from, Preserves-Ensures,
}
use gaming_go_backend.Store.Balances.{Balances, balances}
use gaming_go_backend.Store.Books.Sound.{
  Sound, Started, Ended, Ended-Bookkeeping, event_kept, insert_transaction-kept, idle, at_start,
}
use gaming_go_backend.Store.Books.Opening.{
  Inserted, Inserted-Bookkeeping, Inserted-empty, insert_wallet-Inserted, insert_ledger_entry-Ended,
}
use gaming_go_backend.App.{rename_error}
use gaming_go_backend.App.Process.Outbox.{publish, metadata, wager_aggregate, wallet_aggregate}
use gaming_go_backend.App.Process.Preservation.{publish-Preserves}
use gaming_go_backend.App.Process.Retry.{within_tx-Ensures}
use gaming_go_backend.App.Open.Preservation.{Safe, renamed, Safe-new_id, Safe-now, opening_ids-Safe}
use gaming_go_backend.App.Open.{
  OpenWalletInput, classified, opening_of, opening_ids, opening_transaction, persist_opening,
  wallet_exists, open_player_wallet,
}

abbrev opening_input : OpenWalletInput → Text → Text → Time → OpeningTransactionInput
opening_input i wallet_id id at = record {
  id = id;
  wallet_id = wallet_id;
  player_id = i.player_id;
  money = i.initial_balance;
  created_at = at;
}

-- A wallet with an entry opens with a transaction, of the amount of the input.
opening_transaction_lem :
    (i : OpenWalletInput) (wallet_id id : Text) (at : Time) (e : LedgerEntry)
    (t : Option WagerTransaction)
    → opening_transaction i wallet_id id at (some e) ≡ ok t
    → (u : WagerTransaction) × (t ≡ some u) × (u.money ≡ i.initial_balance)
unfolding opening_transaction
opening_transaction_lem i wallet_id id at e t h =
    elim (Result-cases (new_opening_transaction (opening_input i wallet_id id at))) [
      | inr (x, bad) ↦ ground (arith, bad, h)
      | inl (v, made) ↦ elim (Result-cases (mark_processed at v)) [
        | inr (x, bad) ↦ ground (arith, made, bad, h)
        | inl (u, mark) ↦ (
          u,
          ground (arith, made, mark, h),
          mark_processed-money at v u mark
              ∙ new_opening_transaction-money (opening_input i wallet_id id at) v made,
        )
      ]
    ]

module _ (start : Balances) (world : World) (i : OpenWalletInput)
    (fits : IsInt64 i.initial_balance.minor_units) where
  announced-Ended :
      (c : Text) (w : Wallet) (at : Time) (e : LedgerEntry) (t : WagerTransaction)
      → Preserves whole (Ended start) (
          new_id world >>= λ id.
          lift (map_err wallet_error (new_processed_event (metadata id c [] at) t)) >>= λ event.
          publish world wager_aggregate at event >>= λ _. new_id world >>= λ id.
          lift (map_err wallet_error (new_balance_changed_event (metadata id c [] at) w e))
          >>= λ event. publish world wallet_aggregate at event)
  announced-Ended c w at e t = Preserves->>= (new_id world) _ (Preserves-new_id world) λ id.
      Preserves->>= (lift (map_err wallet_error (new_processed_event (metadata id c [] at) t))) _
        (Preserves-lift _)
        λ event.
          Preserves->>= (publish world wager_aggregate at event) _
            (publish-Preserves (event_kept (Ended-Bookkeeping start)) world wager_aggregate at
              event)
            λ _. Preserves->>= (new_id world) _ (Preserves-new_id world) λ id.
              Preserves->>=
                (lift (map_err wallet_error (new_balance_changed_event (metadata id c [] at) w e)))
                _ (Preserves-lift _)
                λ event.
                  publish-Preserves (event_kept (Ended-Bookkeeping start)) world wallet_aggregate at
                    event

  persist_opening-Ended :
      (c : Text) (w : Wallet) (at : Time) (wallet_id id : Text) (entry : Option LedgerEntry)
      (t : Option WagerTransaction)
      → Accounts w entry
      → opening_transaction i wallet_id id at entry ≡ ok t
      → Ensures (Inserted start w) (persist_opening world c w at entry t) (λ _. Ended start)
  unfolding persist_opening
  persist_opening-Ended c w at wallet_id id none t accounts h =
      Ensures-from (Inserted-empty start w accounts) (Ensures-pure (λ _. Ended start) tt)
  persist_opening-Ended c w at wallet_id id (some e) none accounts h =
      let (u, bad, _) = opening_transaction_lem i wallet_id id at e none h in ground (arith, bad)
  persist_opening-Ended c w at wallet_id id (some e) (some t) accounts h =
      let (u, same, money) = opening_transaction_lem i wallet_id id at e (some t) h in
      let same_t : t ≡ u = ground (arith, same) in
      let amount : IsInt64 t.money.minor_units =
        subst (λ (m : Money). IsInt64 m.minor_units)
          (sym (ap (λ (x : WagerTransaction). x.money) same_t ∙ money)) fits in
      Ensures-lift->>= (map_err money_error (minor_units_of w.balance)) _ λ balance _.
        Ensures->>= (λ _. Inserted start w) (insert_transaction world t (some balance)) _
          (insert_transaction-kept (Inserted-Bookkeeping start w) world t amount (some balance))
          λ _.
            Ensures->>= (λ _. Ended start) (insert_ledger_entry world e) _
              (insert_ledger_entry-Ended start world w e accounts)
              λ _. Preserves-Ensures (announced-Ended c w at e t)

-- What a computation makes of the tables, whatever it returns.
record Concludes {A : Type 0} (P Q : Db → Type 0) (m : Tx A) : Type 0 where
  pub concludes : (s s' : Session) (r : Result AppError A) → m s ≡ (r, s') → P s.db → Q s'.db

last_db :
    {A B : Type 0} (f : A → B) (s' : Session) (r : Result AppError B)
    (p : Result AppError A × Session)
    → (elim p.0 [ ok a ↦ pure (f a) p.1 | err e ↦ (err e, p.1) ]) ≡ (r, s')
    → p.1.db ≡ s'.db
last_db f s' r (ok a, t) h = ap (λ (q : Result AppError _ × Session). q.1.db) h
last_db f s' r (err x, t) h = ap (λ (q : Result AppError _ × Session). q.1.db) h

module _ {A B : Type 0} {P Q : Db → Type 0} where
  concluded :
      (k : A → Tx B) (s' : Session) (r : Result AppError B) (p : Result AppError A × Session)
      → ((db : Db) → P db → Q db)
      → ((a : A) → Concludes P Q (k a))
      → (elim p.0 [ ok a ↦ k a p.1 | err e ↦ (err e, p.1) ]) ≡ (r, s')
      → P p.1.db
      → Q s'.db
  concluded k s' r (ok a, t) stop next h p = (next a).concludes t s' r h p
  concluded k s' r (err e, t) stop next h p =
      stop s'.db (subst P (ap (λ (q : Result AppError _ × Session). q.1.db) h) p)

  Concludes->>= :
      (m : Tx A) (k : A → Tx B)
      → ((db : Db) → P db → Q db)
      → Safe P m
      → ((a : A) → Concludes P Q (k a))
      → Concludes P Q (m >>= k)
  Concludes->>= m k stop first next = record {
    concludes =
        λ s s' r h p. concluded k s' r (m s) stop next h (first.safe s (m s).1 (m s).0 refl p);
  }

  Concludes-lift->>= :
      (r : Result AppError A) (k : A → Tx B)
      → ((db : Db) → P db → Q db)
      → ((a : A) → r ≡ ok a → Concludes P Q (k a))
      → Concludes P Q (lift r >>= k)
  Concludes-lift->>= (ok a) k stop next = next a refl
  Concludes-lift->>= (err e) k stop next = record {
    concludes =
        λ s s' r h p. stop s'.db (subst P (ap (λ (q : Result AppError _ × Session). q.1.db) h) p);
  }

  Concludes-last : (m : Tx A) (f : A → B) → Concludes P Q m → Concludes P Q (m >>= λ a. pure (f a))
  Concludes-last m f first = record {
    concludes =
        λ s s' r h p. subst Q (last_db f s' r (m s) h) (first.concludes s (m s).1 (m s).0 refl p);
  }

-- The transaction of an opening, in which the wallet and its entry are written.
written-Ended :
    {A : Type 0} (start : Balances) (world : World) (f : AppError → AppError) (m : Tx A)
    → Ensures (Started start) m (λ _. Ended start)
    → Concludes (Started start) (Ended start) (rename_error f (within_tx world m))
written-Ended start world f m keep = record {
  concludes = λ s s' r h p. subst (Ended start) (renamed f s' r (within_tx world m s) h) (
      within_tx-Ensures world m s (within_tx world m s).1 (within_tx world m s).0 (λ _. idle) keep
        refl p);
}

-- The transaction of an opening that has been decided.
opened-Ended :
    (start : Balances) (world : World) (i : OpenWalletInput)
    → IsInt64 i.initial_balance.minor_units
    → (currency : Currency) (wallet_id : Text) (ids : Text × Text) (at : Time)
      (opened : Wallet × Option LedgerEntry)
    → opening_of i currency wallet_id ids at ≡ ok opened
    → (t : Option WagerTransaction) → opening_transaction i wallet_id ids.0 at opened.1 ≡ ok t
    → Concludes (Started start) (Ended start) (
        rename_error wallet_exists (
          within_tx world (
            insert_wallet world opened.0
            >> persist_opening world i.correlation_id opened.0 at opened.1 t))
        >>= λ _. pure opened.0)
opened-Ended start world i fits currency wallet_id ids at opened made t h =
    let is_opened = open_wallet-IsOpened _ opened.0 opened.1 fits (map_err-ok _ _ opened made) in
    Concludes-last
      (rename_error wallet_exists (
        within_tx world (
          insert_wallet world opened.0
          >> persist_opening world i.correlation_id opened.0 at opened.1 t)))
      (λ _. opened.0)
      (written-Ended start world wallet_exists _ (
        Ensures->>= (λ _. Inserted start opened.0) (insert_wallet world opened.0) _
          (insert_wallet-Inserted start world opened.0 opened.1 is_opened)
          λ _.
            persist_opening-Ended start world i fits i.correlation_id opened.0 at wallet_id ids.0
              opened.1 t is_opened.accounts h))

opens-Ended :
    (start : Balances) (world : World) (i : OpenWalletInput)
    → IsInt64 i.initial_balance.minor_units
    → Concludes (Started start) (Ended start) (open_player_wallet world i)
unfolding open_player_wallet
opens-Ended start world i fits =
    Concludes-lift->>= (classified (currency_of i.initial_balance)) _ (λ _. idle)
      λ currency _.
        Concludes->>= (now world) _ (λ _. idle) (Safe-now world)
          λ at.
            Concludes->>= (new_id world) _ (λ _. idle) (Safe-new_id world)
              λ wallet_id.
                Concludes-lift->>= (classified (zero_of currency)) _ (λ _. idle)
                  λ zero _.
                    Concludes-lift->>= (classified (compare_money i.initial_balance zero)) _
                      (λ _. idle)
                      λ comparison _.
                        Concludes->>= (opening_ids world (is_greater (ok comparison))) _ (λ _. idle)
                          (opening_ids-Safe world (is_greater (ok comparison)))
                          λ ids.
                            Concludes-lift->>= (opening_of i currency wallet_id ids at) _
                              (λ _. idle)
                              λ opened made.
                                Concludes-lift->>=
                                  (opening_transaction i wallet_id ids.0 at opened.1) _ (λ _. idle)
                                  (opened-Ended start world i fits currency wallet_id ids at opened
                                    made)

-- An opening with an int64 balance keeps the tables sound and moves the balances by at most one step,
-- whatever it returns and whatever fails.
pub open_player_wallet-Ended :
    (world : World) (i : OpenWalletInput) (s s' : Session) (r : Result AppError Wallet)
    → IsInt64 i.initial_balance.minor_units
    → open_player_wallet world i s ≡ (r, s')
    → Sound s.db
    → Ended (balances s.db) s'.db
open_player_wallet-Ended world i s s' r fits h p =
    (opens-Ended (balances s.db) world i fits).concludes s s' r h (at_start s.db p)
