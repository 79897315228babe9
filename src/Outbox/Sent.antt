-- ===== src/Outbox/Sent.antt =====
-- internal/outbox/publisher.go and internal/outboxpg/store.go: the statements and the send, for events
-- that count as published.
use mathlib.Core.List.{Memᴰ}
use mathlib.Core.List.Memᴰ.{head, tail}
use mathlib.Core.Path.{subst}
use gaming_go_backend.Common.{
  ℕ, suc, ◌≡◌, refl, sym, ap, ◌∙◌, ◌⊎◌, inl, inr, Bool, true, some, List, ◌∷◌, map, length,
  update_where, keep_where, Result, ok, err, arith, Bool-cases,
}
use gaming_go_backend.Common.All.{
  All, All-update_where, All-mono, All-of-map, All-both, map-update_where,
}
use gaming_go_backend.Common.Int.{ℤ, pos}
use gaming_go_backend.Common.Text.{Text, text_eq, text_eq_sound}
use gaming_go_backend.Common.Time.{Time}
use gaming_go_backend.Backoff.{exponential}
use gaming_go_backend.Outbox.Table.{
  PublishError, Payload, OutboxRow, Record, Message, Plant, State, Io, StoreError, bump, reach,
  statement, change, is_null, is_open, confirmed, retried, mark_published, schedule_retry, stats,
  oldest, ◌>>=◌, pure,
}
use gaming_go_backend.Outbox
use gaming_go_backend.Outbox.{OutboxConfig}

-- The queue has taken the event of a row, in the group of its wallet.
pub record IsSent (row : OutboxRow) (sent : List Message) : Type 0 where
  pub group : Text
  pub addressed : row.payload.wallet_id ≡ some group
  pub taken : Memᴰ (record { body = row.payload; group = group; deduplication = row.event_id }) sent

abbrev pub Delivered : State → Type 0
Delivered s = All (λ row. (is_null row.published_at ≡ true) ⊎ IsSent row s.sent) s.rows

-- What an event is, and what never changes of a row.
abbrev pub Key : Type 0
Key = Text × Payload

abbrev pub keys : List OutboxRow → List Key
keys = map λ row. (row.event_id, row.payload)

-- The primary key of the table.
abbrev pub IsKeyed : List Key → Type 0
IsKeyed ks = (a b : Key) → Memᴰ a ks → Memᴰ b ks → text_eq a.0 b.0 ≡ true → a.1 ≡ b.1

-- A record is the event of every row with its id.
abbrev pub Knows : List Key → Record → Type 0
Knows ks r = All (λ k. text_eq k.0 r.event_id ≡ true → k.1 ≡ r.payload) ks

pub record Inv (ks : List Key) (s : State) : Type 0 where
  pub delivered : Delivered s
  pub same_keys : keys s.rows ≡ ks

IsSent-more :
    (row : OutboxRow) (sent : List Message) (m : Message) → IsSent row sent → IsSent row (m ∷ sent)
IsSent-more row sent m i = record { group = i.group; addressed = i.addressed; taken = tail i.taken }

-- A change of open rows that neither publishes them nor changes their event.
pub unpublished-Inv :
    (ks : List Key) (s : State) (p : OutboxRow → Bool) (f : OutboxRow → OutboxRow)
    → ((row : OutboxRow)
        → ((f row).event_id ≡ row.event_id)
          × ((f row).payload ≡ row.payload)
          × ((f row).published_at ≡ row.published_at))
    → Inv ks s
    → Inv ks (record s { rows = update_where p f s.rows })
unpublished-Inv ks s p f same i = record {
  delivered =
      All-update_where _ _ p f s.rows
        (λ row _ d. elim d [
          | inl open_ ↦ inl (ap is_null (same row).2 ∙ open_)
          | inr sent ↦ inr (record {
            group = sent.group;
            addressed = ap (λ (x : Payload). x.wallet_id) (same row).1 ∙ sent.addressed;
            taken =
                subst
                  (λ (k : Key).
                    Memᴰ (record { body = k.1; group = sent.group; deduplication = k.0 }) s.sent)
                  (λ i. (sym (same row).0 i, sym (same row).1 i)) sent.taken;
          })
        ])
        (λ row _ d. d) i.delivered;
  same_keys =
      map-update_where _ p f s.rows (λ row i. ((same row).0 i, (same row).1 i)) ∙ i.same_keys;
}

calls-Inv : (ks : List Key) (s : State) (n : ℕ) → Inv ks s → Inv ks (record s { calls = n })
calls-Inv ks s n i = record { delivered = i.delivered; same_keys = i.same_keys }

-- A computation keeps a property of the state, whatever it returns.
abbrev pub KeepsState : {A : Type 0} → (State → Type 0) → Io A → Type 0
KeepsState P m = (s : State) → P s → P (m s).1

module _ {A B : Type 0} (P : State → Type 0) where
  pub bound :
      (f : A → Io B) (p : Result StoreError A × State)
      → ((a : A) → KeepsState P (f a))
      → P p.1
      → P
          (elim p.0 as (λ _. Result StoreError B × State) [
            | ok a ↦ f a p.1
            | err e ↦ (err e, p.1)
          ]).1
  bound f (ok a, t) next p = next a t p
  bound f (err e, t) next p = p

  pub KeepsState->>= :
      (m : Io A) (f : A → Io B)
      → KeepsState P m
      → ((a : A) → KeepsState P (f a))
      → KeepsState P (m >>= f)
  KeepsState->>= m f first next s p = bound f (m s) next (first s p)

module _ (ks : List Key) (plant : Plant) where
  pub reach-Inv : KeepsState (Inv ks) (reach plant)
  unfolding reach
  reach-Inv s i = calls-Inv ks s (suc s.calls) i

  pub refresh_metrics-Inv : KeepsState (Inv ks) (Outbox.refresh_metrics plant)
  unfolding Outbox.refresh_metrics stats
  refresh_metrics-Inv s i =
      let pending = keep_where (λ (row : OutboxRow). is_null row.published_at) s.rows in
      KeepsState->>= (Inv ks) (reach plant) (λ _. pure (length pending, oldest pending)) reach-Inv
        (λ _ t j. j) s i

  pub statement-Inv :
      (f : List OutboxRow → List OutboxRow)
      → ((t : State) → Inv ks t → Inv ks (record t { rows = f t.rows }))
      → KeepsState (Inv ks) (statement plant f)
  unfolding statement
  statement-Inv f keep =
      KeepsState->>= (Inv ks) (reach plant) (change f) reach-Inv (λ _ t i. keep t i)

  schedule_retry-Inv :
      (id : Text) (delay : ℤ) (e : PublishError)
      → KeepsState (Inv ks) (schedule_retry plant id delay e)
  unfolding schedule_retry
  schedule_retry-Inv id delay e s i =
      statement-Inv (update_where (is_open id) (retried (plant.db_clock s.calls) delay e))
        (λ t j.
          unpublished-Inv ks t (is_open id) (retried (plant.db_clock s.calls) delay e)
            (λ row. (refl, refl, refl)) j)
        s i

  pub retry-Inv :
      (config : OutboxConfig) (r : Record) (e : PublishError)
      → KeepsState (Inv ks) (Outbox.retry plant config r e)
  unfolding Outbox.retry
  retry-Inv config r e =
      KeepsState->>= (Inv ks)
        (schedule_retry plant r.event_id
          (exponential (pos r.attempts) config.retry_base config.retry_max) e)
        (λ _. Outbox.refresh_metrics plant) (schedule_retry-Inv r.event_id _ e)
        (λ _. refresh_metrics-Inv)

  -- A row of the record's event, which the queue has taken.
  IsSent-row :
      (r : Record) (group : Text) (row : OutboxRow) (sent : List Message)
      → r.payload.wallet_id ≡ some group
      → Memᴰ (record { body = r.payload; group = group; deduplication = r.event_id }) sent
      → row.payload ≡ r.payload
      → row.event_id ≡ r.event_id
      → IsSent row sent
  IsSent-row r group row sent addressed taken payload id = record {
    group = group;
    addressed = ap (λ (x : Payload). x.wallet_id) payload ∙ addressed;
    taken =
        subst (λ (k : Key). Memᴰ (record { body = k.1; group = group; deduplication = k.0 }) sent)
          (λ i. (sym id i, sym payload i)) taken;
  }

  confirmed-Inv :
      (r : Record) (group : Text) (now : Time) (s : State)
      → Knows ks r
      → r.payload.wallet_id ≡ some group
      → Memᴰ (record { body = r.payload; group = group; deduplication = r.event_id }) s.sent
      → Inv ks s
      → Inv ks (record s { rows = update_where (is_open r.event_id) (confirmed now) s.rows })
  confirmed-Inv r group now s knows addressed taken i = record {
    delivered =
        All-update_where
          (λ row.
            ((is_null row.published_at ≡ true) ⊎ IsSent row s.sent)
            × (text_eq row.event_id r.event_id ≡ true → row.payload ≡ r.payload))
          _ (is_open r.event_id) (confirmed now) s.rows
          (λ row hit d.
            let same : text_eq row.event_id r.event_id ≡ true = ground (arith, hit) in
            inr (
              let m =
                IsSent-row r group row s.sent addressed taken (d.1 same)
                  (text_eq_sound row.event_id r.event_id same) in
              record { group = m.group; addressed = m.addressed; taken = m.taken }))
          (λ row _ d. d.0)
          (All-both _ _ s.rows i.delivered (
            All-of-map (λ k. text_eq k.0 r.event_id ≡ true → k.1 ≡ r.payload) _ s.rows
              (subst (λ l. Knows l r) (sym i.same_keys) knows)));
    same_keys =
        map-update_where _ (is_open r.event_id) (confirmed now) s.rows (λ row. refl) ∙ i.same_keys;
  }

  pub mark_published-Inv :
      (r : Record) (group : Text) (s : State)
      → Knows ks r
      → r.payload.wallet_id ≡ some group
      → Memᴰ (record { body = r.payload; group = group; deduplication = r.event_id }) s.sent
      → Inv ks s
      → Inv ks (mark_published plant r.event_id s).1
  unfolding mark_published statement reach
  mark_published-Inv r group s knows addressed taken i =
      let start : Inv ks (bump s)
          × Memᴰ (record { body = r.payload; group = group; deduplication = r.event_id }) s.sent =
        (calls-Inv ks s (suc s.calls) i, taken) in
      (bound
        (λ t.
          Inv ks t
          × Memᴰ (record { body = r.payload; group = group; deduplication = r.event_id }) t.sent)
        (change (update_where (is_open r.event_id) (confirmed (plant.db_clock s.calls))))
        (reach plant s)
        (λ _ t p. (confirmed-Inv r group (plant.db_clock s.calls) t knows addressed p.1 p.0, p.1))
        start).0

  sent-Inv :
      (m : Message) (n : ℕ) (s : State)
      → Inv ks s
      → Inv ks (record s { sent = m ∷ s.sent; calls = n })
  sent-Inv m n s i = record {
    delivered =
        All-mono _ _ s.rows
          (λ row d. elim d [
            | inl open_ ↦ inl open_
            | inr sent ↦ inr (IsSent-more row s.sent m sent)
          ])
          i.delivered;
    same_keys = i.same_keys;
  }

  pub send-Inv :
      (m : Message) (s : State)
      → Inv ks s
      → Inv ks (Outbox.send plant m s).1
        × ((Outbox.send plant m s).0 ≡ true → Memᴰ m (Outbox.send plant m s).1.sent)
  unfolding Outbox.send
  send-Inv m s i = elim (Bool-cases (plant.fails s.calls)) [
    | inr up ↦ rw up (sent-Inv m (suc s.calls) s i, λ _. head refl)
    | inl down ↦ elim (Bool-cases (plant.arrives s.calls)) [
      | inl taken ↦ rw (down, taken) (sent-Inv m (suc s.calls) s i, λ _. head refl)
      | inr lost ↦ rw (down, lost) (calls-Inv ks s (suc s.calls) i, λ e. ground (arith, e))
    ]
  ]
