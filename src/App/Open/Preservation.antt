-- ===== src/App/Open/Preservation.antt =====
-- A property that every statement keeps is kept by the opening of a wallet of
-- internal/walletapp/open_wallet.go.
use mathlib.Core.Path.{subst}
use gaming_go_backend.Common.{
  ◌≡◌, refl, ap, Bool, true, false, Option, none, some, [], Result, ok, err, map_err, arith,
  Option-cases, inl, inr,
}
use gaming_go_backend.Common.Text.{Text}
use gaming_go_backend.Common.Time.{Time}
use gaming_go_backend.Money.{zero_of, minor_units_of, currency_of, compare_money}
use gaming_go_backend.Wallet.{Wallet, LedgerEntry, is_greater}
use gaming_go_backend.Transaction.{WagerTransaction}
use gaming_go_backend.Events.{new_processed_event, new_balance_changed_event}
use gaming_go_backend.Store.Base.{
  AppError, wallet_error, money_error, Db, World, Session, Tx, lift, within_tx, new_id, now, ◌>>=◌,
  ◌>>◌,
}
use gaming_go_backend.Store.Wallets.{insert_wallet}
use gaming_go_backend.Store.Transactions.{insert_transaction}
use gaming_go_backend.Store.Ledger.{insert_ledger_entry}
use gaming_go_backend.Store.Preservation.{
  whole, Preserves, Preserves->>=, Preserves-pure, Preserves-lift, Preserves-new_id,
}
use gaming_go_backend.Store.Stability.{
  Stable, Stable-Inserts, insert_wallet-Preserves, insert_transaction-Preserves,
  insert_ledger_entry-Preserves,
}
use gaming_go_backend.App.{rename_error}
use gaming_go_backend.App.Process.Outbox.{publish, metadata, wager_aggregate, wallet_aggregate}
use gaming_go_backend.App.Process.Preservation.{publish-Preserves}
use gaming_go_backend.App.Resume.Preservation.{within_tx-Preserves}
use gaming_go_backend.App.Open.{
  OpenWalletInput, classified, opening_of, opening_ids, opening_transaction, persist_opening,
  wallet_exists, open_player_wallet,
}

-- A computation keeps a property of the tables, whether it returns or fails.
pub record Safe {A : Type 0} (P : Db → Type 0) (m : Tx A) : Type 0 where
  pub safe : (s s' : Session) (r : Result AppError A) → m s ≡ (r, s') → P s.db → P s'.db

pub renamed :
    {A : Type 0} (f : AppError → AppError) (s' : Session) (r : Result AppError A)
    (p : Result AppError A × Session)
    → ◌≡◌ {A = Result AppError A × Session}
        (elim p.0 [ ok a ↦ (ok a, p.1) | err e ↦ (err (f e), p.1) ])
        (r, s')
    → p.1.db ≡ s'.db
renamed f s' r (ok a, t) h = ap (λ (q : Result AppError _ × Session). q.1.db) h
renamed f s' r (err e, t) h = ap (λ (q : Result AppError _ × Session). q.1.db) h

module _ {P : Db → Type 0} where
  bound :
      {A B : Type 0} (k : A → Tx B) (s' : Session) (r : Result AppError B)
      (p : Result AppError A × Session)
      → ((a : A) → Safe P (k a))
      → (elim p.0 [ ok a ↦ k a p.1 | err e ↦ (err e, p.1) ]) ≡ (r, s')
      → P p.1.db
      → P s'.db
  bound k s' r (ok a, t) next h p = (next a).safe t s' r h p
  bound k s' r (err e, t) next h p = subst P (ap (λ (q : Result AppError _ × Session). q.1.db) h) p

  Safe->>= :
      {A B : Type 0} (m : Tx A) (k : A → Tx B)
      → Safe P m
      → ((a : A) → Safe P (k a))
      → Safe P (m >>= k)
  Safe->>= m k first next = record {
    safe = λ s s' r h p. bound k s' r (m s) next h (first.safe s (m s).1 (m s).0 refl p);
  }

  Safe-lift : {A : Type 0} (r : Result AppError A) → Safe P (lift r)
  Safe-lift r = record {
    safe = λ s s' q h p. subst P (ap (λ (x : Result AppError _ × Session). x.1.db) h) p;
  }

  lifted :
      {A B : Type 0} (r : Result AppError A) (k : A → Tx B)
      → ((a : A) → Safe P (k a))
      → Safe P (lift r >>= k)
  lifted r k next = Safe->>= (lift r) k (Safe-lift r) next

  pub Safe-new_id : (world : World) → Safe P (new_id world)
  unfolding new_id
  Safe-new_id world = record {
    safe = λ s s' r h p. elim (Option-cases (world.fresh_id s.calls)) [
      | inl e ↦ subst P (ground (arith, e, h)) p
      | inr (id, e) ↦ subst P (ground (arith, e, h)) p
    ];
  }

  pub Safe-now : (world : World) → Safe P (now world)
  unfolding now
  Safe-now world = record { safe = λ s s' r h p. subst P (ground (arith, h)) p }

  Safe-rename_error :
      {A : Type 0} (f : AppError → AppError) (m : Tx A) → Safe P m → Safe P (rename_error f m)
  Safe-rename_error f m keep = record {
    safe = λ s s' r h p. subst P (renamed f s' r (m s) h) (keep.safe s (m s).1 (m s).0 refl p);
  }

  pub opening_ids-Safe : (world : World) (positive : Bool) → Safe P (opening_ids world positive)
  unfolding opening_ids
  opening_ids-Safe world false = Safe-lift (ok ([], []))
  opening_ids-Safe world true = Safe->>= (new_id world) _ (Safe-new_id world) λ transaction_id.
      Safe->>= (new_id world) _ (Safe-new_id world)
        λ entry_id. Safe-lift (ok (transaction_id, entry_id))

module _ {P : Db → Type 0} (stable : Stable P) where
  persist_opening-Preserves :
      (world : World) (correlation_id : Text) (w : Wallet) (at : Time) (entry : Option LedgerEntry)
      (t : Option WagerTransaction)
      → Preserves whole P (persist_opening world correlation_id w at entry t)
  unfolding persist_opening
  persist_opening-Preserves world c w at none t = Preserves-pure tt
  persist_opening-Preserves world c w at (some entry) none = Preserves-pure tt
  persist_opening-Preserves world c w at (some entry) (some t) =
      Preserves->>= (lift (map_err money_error (minor_units_of w.balance))) _ (Preserves-lift _)
        λ balance.
          Preserves->>= (insert_transaction world t (some balance)) _
            (insert_transaction-Preserves stable world t (some balance))
            λ _.
              Preserves->>= (insert_ledger_entry world entry) _
                (insert_ledger_entry-Preserves stable world entry)
                λ _. Preserves->>= (new_id world) _ (Preserves-new_id world) λ event_id.
                  Preserves->>=
                    (lift
                      (map_err wallet_error (new_processed_event (metadata event_id c [] at) t)))
                    _ (Preserves-lift _)
                    λ event.
                      Preserves->>= (publish world wager_aggregate at event) _
                        (publish-Preserves (Stable-Inserts stable).event_kept world wager_aggregate
                          at event)
                        λ _. Preserves->>= (new_id world) _ (Preserves-new_id world) λ event_id.
                          Preserves->>=
                            (lift (
                              map_err wallet_error
                                (new_balance_changed_event (metadata event_id c [] at) w entry)))
                            _ (Preserves-lift _)
                            λ event.
                              publish-Preserves (Stable-Inserts stable).event_kept world
                                wallet_aggregate at event

  persisted-Safe :
      (world : World) (correlation_id : Text) (w : Wallet) (at : Time) (entry : Option LedgerEntry)
      (t : Option WagerTransaction)
      → Safe P (
          rename_error wallet_exists (
            within_tx world
              (insert_wallet world w >> persist_opening world correlation_id w at entry t)))
  persisted-Safe world c w at entry t =
      Safe-rename_error wallet_exists
        (within_tx world (insert_wallet world w >> persist_opening world c w at entry t))
        (record {
          safe = λ s s' r h p.
              within_tx-Preserves world
                (insert_wallet world w >> persist_opening world c w at entry t) s s' r
                (Preserves->>= (insert_wallet world w) _ (insert_wallet-Preserves stable world w)
                  λ _. persist_opening-Preserves world c w at entry t)
                h p;
        })

  pub open_player_wallet-Safe :
      (world : World) (i : OpenWalletInput) → Safe P (open_player_wallet world i)
  unfolding open_player_wallet
  open_player_wallet-Safe world i =
      lifted (classified (currency_of i.initial_balance)) _ λ currency.
        Safe->>= (now world) _ (Safe-now world) λ at.
          Safe->>= (new_id world) _ (Safe-new_id world) λ wallet_id.
            lifted (classified (zero_of currency)) _ λ zero.
              lifted (classified (compare_money i.initial_balance zero)) _ λ comparison.
                Safe->>= (opening_ids world (is_greater (ok comparison))) _
                  (opening_ids-Safe world (is_greater (ok comparison)))
                  λ ids. lifted (opening_of i currency wallet_id ids at) _ λ opened.
                    lifted (opening_transaction i wallet_id ids.0 at opened.1) _ λ t.
                      Safe->>=
                        (rename_error wallet_exists (
                          within_tx world (
                            insert_wallet world opened.0
                            >> persist_opening world i.correlation_id opened.0 at opened.1 t)))
                        _ (persisted-Safe world i.correlation_id opened.0 at opened.1 t)
                        λ _. Safe-lift (ok opened.0)
