-- ===== src/Outbox/Progress.antt =====
-- internal/outbox/publisher.go: what a batch achieves where no call fails.
use mathlib.Core.List.{Memᴰ}
use mathlib.Core.List.Memᴰ
use mathlib.Core.List.Memᴰ.{head, tail}
use mathlib.Core.Path.{subst}
use gaming_go_backend.Common.{
  ℕ, suc, ◌≡◌, refl, sym, ap, ◌∙◌, inl, inr, true, false, Option, none, some, List, [], ◌∷◌, map,
  update_where, if◌then◌else◌, Result, ok, err, arith, Bool-cases,
}
use gaming_go_backend.Common.All.{All, All-of, All-update_where, mem-map}
use gaming_go_backend.Common.Int.{pos}
use gaming_go_backend.Common.Text.{Text, text_eq, is_empty}
use gaming_go_backend.Common.Time.{Time}
use gaming_go_backend.Backoff.{exponential}
use gaming_go_backend.Outbox.Table.{
  PublishError, invalid_payload, invalid_wallet_id, OutboxRow, Record, Message, Plant, State, Io,
  StoreError, bump, candidates, record_of, claimed, claim, is_null, is_open, confirmed, retried,
  ◌>>◌,
}
use gaming_go_backend.Outbox
use gaming_go_backend.Outbox.{OutboxConfig}
use gaming_go_backend.Outbox.Calls.{
  message_of, following, refresh_metrics_up, retry_up, publish_to_up, claim_up,
}

-- Every row of an event counts as published.
abbrev pub Shut : Text → OutboxRow → Type 0
Shut id row = text_eq row.event_id id ≡ true → is_null row.published_at ≡ false

-- What is published stays so, and what is sent stays sent.
record Grows (s t : State) : Type 0 where
  pub shut : (id : Text) → All (Shut id) s.rows → All (Shut id) t.rows
  pub kept : (m : Message) → Memᴰ m s.sent → Memᴰ m t.sent

-- The record has been delivered, if it names its wallet.
abbrev Done : Record → State → Type 0
Done r t =
    (group : Text)
    → r.payload.wallet_id ≡ some group
    → is_empty group ≡ false
    → All (Shut r.event_id) t.rows × Memᴰ (message_of r group) t.sent

Done-later : (r : Record) (s t : State) → Grows s t → Done r s → Done r t
Done-later r s t g d group addressed full =
    let (shut, sent) = d group addressed full in (g.shut r.event_id shut, g.kept _ sent)

Grows-trans : (s t u : State) → Grows s t → Grows t u → Grows s u
Grows-trans s t u g h = record {
  shut = λ id a. h.shut id (g.shut id a);
  kept = λ m a. h.kept m (g.kept m a);
}

confirmed-Shut :
    (id : Text) (now : Time) (rows : List OutboxRow)
    → All (Shut id) (update_where (is_open id) (confirmed now) rows)
confirmed-Shut id now rows =
    All-update_where (λ _. Unit {0}) (Shut id) (is_open id) (confirmed now) rows (λ row _ _ _. refl)
      (λ row shut _ same. ground (arith, shut, same)) (All-of (λ _. Unit {0}) rows (λ _ _. tt))

-- The ends of a record without a failing call.
record Ends (m : Io (Unit {0})) (r : Record) (s : State) : Type 0 where
  pub end : State
  pub returns : m s ≡ (ok tt, end)
  pub grows : Grows s end
  pub done : Done r end

some_injective : {a b : Text} → some a ≡ some b → a ≡ b
some_injective h = cc

module _ (plant : Plant) (up : (n : ℕ) → plant.fails n ≡ false) where
  retry-Ends :
      (config : OutboxConfig) (r : Record) (e : PublishError) (s : State)
      → ((group : Text) → r.payload.wallet_id ≡ some group → is_empty group ≡ false → ⊥)
      → Ends (Outbox.retry plant config r e) r s
  retry-Ends config r e s unaddressed = record {
    end = _;
    returns = retry_up plant up config r e s;
    grows = record {
      shut = λ id all.
          All-update_where (Shut id) (Shut id) (is_open r.event_id)
            (retried (plant.db_clock s.calls)
              (exponential (pos r.attempts) config.retry_base config.retry_max) e)
            s.rows (λ row _ h. h) (λ row _ h. h) all;
      kept = λ m taken. taken;
    };
    done = λ group addressed full. absurd (unaddressed group addressed full);
  }

  publish_to-Ends :
      (config : OutboxConfig) (r : Record) (group : Text) (s : State)
      → r.payload.wallet_id ≡ some group
      → Ends (Outbox.publish_to plant config r group) r s
  publish_to-Ends config r group s addressed = record {
    end = _;
    returns = publish_to_up plant up config r group s;
    grows = record {
      shut = λ id all.
          All-update_where (Shut id) (Shut id) (is_open r.event_id)
            (confirmed (plant.db_clock (suc s.calls))) s.rows (λ row _ _ _. refl) (λ row _ h. h)
            all;
      kept = λ m taken. tail taken;
    };
    done = λ other same full. (
      confirmed-Shut r.event_id (plant.db_clock (suc s.calls)) s.rows,
      head (ap (message_of r) (some_injective (sym same ∙ addressed))),
    );
  }

  addressed-Ends :
      (config : OutboxConfig) (r : Record) (group : Text) (s : State)
      → r.payload.wallet_id ≡ some group
      → Ends (Outbox.publish_by plant config r (some group)) r s
  unfolding Outbox.publish_by
  addressed-Ends config r group s addressed = elim (Bool-cases (is_empty group)) [
    | inl empty ↦ rw empty (
        retry-Ends config r invalid_wallet_id s (λ other same full.
          ground (arith, empty, full, ap is_empty (some_injective (sym same ∙ addressed)))))
    | inr full ↦ rw full (publish_to-Ends config r group s addressed)
  ]

  publish_by-Ends :
      (config : OutboxConfig) (r : Record) (o : Option Text) (s : State)
      → r.payload.wallet_id ≡ o
      → Ends (Outbox.publish_by plant config r o) r s
  unfolding Outbox.publish_by
  publish_by-Ends config r none s e =
      retry-Ends config r invalid_payload s (λ group addressed full. ground (arith, e, addressed))
  publish_by-Ends config r (some group) s e = addressed-Ends config r group s e

  publish-Ends :
      (config : OutboxConfig) (r : Record) (s : State)
      → Ends (Outbox.publish_record plant config r) r s
  unfolding Outbox.publish_record
  publish-Ends config r s = publish_by-Ends config r r.payload.wallet_id s refl

  -- The whole loop.
  record LoopEnds (config : OutboxConfig) (rs : List Record) (s : State) : Type 0 where
    pub end : State
    pub returns : Outbox.publish_all plant config rs s ≡ (ok tt, end)
    pub grows : Grows s end
    pub done : (r : Record) → Memᴰ r rs → Done r end

  all_returned :
      (config : OutboxConfig) (r : Record) (rs : List Record) (s t u : State)
      → Outbox.publish_record plant config r s ≡ (ok tt, t)
      → Outbox.publish_all plant config rs t ≡ (ok tt, u)
      → Outbox.publish_all plant config (r ∷ rs) s ≡ (ok tt, u)
  unfolding Outbox.publish_all
  all_returned config r rs s t u one more =
      ap
        (λ (p : Result StoreError (Unit {0}) × State).
          elim p.0 as (λ _. Result StoreError (Unit {0}) × State) [
            | ok _ ↦ Outbox.publish_all plant config rs p.1
            | err e ↦ (if plant.cancelled p.1.calls then ok tt else err e, p.1)
          ])
        one
      ∙ more

  publish_all-LoopEnds :
      (config : OutboxConfig) (rs : List Record) (s : State) → LoopEnds config rs s
  unfolding Outbox.publish_all
  publish_all-LoopEnds config [] s = record {
    end = s;
    returns = refl;
    grows = record { shut = λ id a. a; kept = λ m a. a };
    done = λ r m. elim m [ ];
  }
  publish_all-LoopEnds config (r ∷ rs) s =
      let one = publish-Ends config r s in
      let more = publish_all-LoopEnds config rs one.end in
      record {
        end = more.end;
        returns = all_returned config r rs s one.end more.end one.returns more.returns;
        grows = Grows-trans s one.end more.end one.grows more.grows;
        done = λ q m. elim (Memᴰ.cases_cons m) [
          | inl e ↦
              subst (λ x. Done x more.end) (sym e)
                (Done-later r one.end more.end more.grows one.done)
          | inr rest ↦ more.done q rest
        ];
      }

-- An UPDATE returns every row that it has changed.
abbrev pub ReturnsAll : Plant → Type 0
ReturnsAll plant = (n : ℕ) (l : List Record) (r : Record) → Memᴰ r l → Memᴰ r (plant.returned n l)

-- Where no call fails, a batch returns without an error, and each event that it found due and that
-- names its wallet has been taken by the queue and counts as published, however many other events
-- of the batch are retried for a payload that names none.
pub publish_batch_delivers :
    (plant : Plant) (config : OutboxConfig) (s : State) (row : OutboxRow) (group : Text)
    → ((n : ℕ) → plant.fails n ≡ false)
    → ReturnsAll plant
    → Memᴰ row (candidates (plant.db_clock s.calls) (plant.locked s.calls) config.batch_size s.rows)
    → row.payload.wallet_id ≡ some group
    → is_empty group ≡ false
    → ((Outbox.publish_batch plant config s).0 ≡ ok tt)
      × All (Shut row.event_id) (Outbox.publish_batch plant config s).1.rows
      × Memᴰ
          (record { body = row.payload; group = group; deduplication = row.event_id })
          (Outbox.publish_batch plant config s).1.sent
unfolding Outbox.publish_batch
publish_batch_delivers plant config s row group up all due addressed full =
    let records = plant.returned s.calls (
      map record_of
        (candidates (plant.db_clock s.calls) (plant.locked s.calls) config.batch_size s.rows)) in
    let t = record s {
      rows =
          claimed (plant.db_clock s.calls) (plant.locked s.calls) config.batch_size config.lease
            s.rows;
      calls = suc (suc (suc s.calls));
    } in
    let loop = publish_all-LoopEnds plant up config records (bump t) in
    let run =
      following (claim plant config.batch_size config.lease)
        (λ rs. Outbox.refresh_metrics plant >> Outbox.publish_all plant config rs) s t records
        (claim_up plant up config.batch_size config.lease s)
      ∙ following (Outbox.refresh_metrics plant) (λ _. Outbox.publish_all plant config records) t
          (bump t) tt (refresh_metrics_up plant up t)
      ∙ loop.returns in
    let (shut, sent) =
      loop.done (record_of row) (all s.calls _ (record_of row) (mem-map record_of _ row due)) group
        addressed full in
    subst
      (λ (p : Result StoreError (Unit {0}) × State).
        (p.0 ≡ ok tt)
        × All (Shut row.event_id) p.1.rows
        × Memᴰ (record { body = row.payload; group = group; deduplication = row.event_id })
            p.1.sent)
      (sym run) (refl, shut, sent)
