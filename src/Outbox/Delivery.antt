-- ===== src/Outbox/Delivery.antt =====
-- internal/outbox/publisher.go: an event counts as published only after the queue has taken it.
use mathlib.Core.List.{Memᴰ}
use mathlib.Core.Path.{subst}
use gaming_go_backend.Common.{
  ℕ, ◌≡◌, refl, sym, Bool, true, false, Option, none, some, List, [], ◌∷◌, map, if◌then◌else◌,
  Result, ok, err, arith,
}
use gaming_go_backend.Common.All.{
  All, All-of, All-mem, All-take, All-sort_by, All-keep_where, All-map, mem-map,
}
use gaming_go_backend.Common.Int.{ℤ}
use gaming_go_backend.Common.Text.{Text, is_empty}
use gaming_go_backend.Common.Time.{Time}
use gaming_go_backend.Outbox.Table.{
  invalid_payload, invalid_wallet_id, send_failed, OutboxRow, Record, Message, Plant, State, Io,
  StoreError, reach, statement, candidates, record_of, claimed, claim, is_among, leased, later,
  mark_published, ◌>>◌, pure,
}
use gaming_go_backend.Outbox
use gaming_go_backend.Outbox.{OutboxConfig}
use gaming_go_backend.Outbox.Sent.{
  Delivered, Key, keys, IsKeyed, Knows, Inv, unpublished-Inv, KeepsState, bound, KeepsState->>=,
  reach-Inv, statement-Inv, retry-Inv, refresh_metrics-Inv, mark_published-Inv, send-Inv,
}

module _ (ks : List Key) (plant : Plant) where
  conclude-Inv :
      (config : OutboxConfig) (r : Record) (group : Text) (accepted : Bool) (s : State)
      → Knows ks r
      → r.payload.wallet_id ≡ some group
      → (accepted ≡ true
          → Memᴰ (record { body = r.payload; group = group; deduplication = r.event_id }) s.sent)
      → Inv ks s
      → Inv ks (Outbox.conclude plant config r accepted s).1
  unfolding Outbox.conclude
  conclude-Inv config r group false s knows addressed taken i =
      retry-Inv ks plant config r send_failed s i
  conclude-Inv config r group true s knows addressed taken i =
      bound (Inv ks) (λ _. Outbox.refresh_metrics plant) (mark_published plant r.event_id s)
        (λ _. refresh_metrics-Inv ks plant)
        (mark_published-Inv ks plant r group s knows addressed (taken refl) i)

  publish_to-Inv :
      (config : OutboxConfig) (r : Record) (group : Text)
      → Knows ks r
      → r.payload.wallet_id ≡ some group
      → KeepsState (Inv ks) (Outbox.publish_to plant config r group)
  unfolding Outbox.publish_to
  publish_to-Inv config r group knows addressed s i =
      let m : Message = record { body = r.payload; group = group; deduplication = r.event_id } in
      let (j, taken) = send-Inv ks plant m s i in
      conclude-Inv config r group (Outbox.send plant m s).0 (Outbox.send plant m s).1 knows
        addressed taken j

  addressed-Inv :
      (config : OutboxConfig) (r : Record) (group : Text) (empty : Bool)
      → Knows ks r
      → r.payload.wallet_id ≡ some group
      → KeepsState (Inv ks) (
          if empty
          then Outbox.retry plant config r invalid_wallet_id
          else Outbox.publish_to plant config r group)
  addressed-Inv config r group true knows addressed = retry-Inv ks plant config r invalid_wallet_id
  addressed-Inv config r group false knows addressed = publish_to-Inv config r group knows addressed

  publish_by-Inv :
      (config : OutboxConfig) (r : Record) (o : Option Text)
      → Knows ks r
      → r.payload.wallet_id ≡ o
      → KeepsState (Inv ks) (Outbox.publish_by plant config r o)
  unfolding Outbox.publish_by
  publish_by-Inv config r none knows e = retry-Inv ks plant config r invalid_payload
  publish_by-Inv config r (some group) knows e =
      addressed-Inv config r group (is_empty group) knows e

  publish-Inv :
      (config : OutboxConfig) (r : Record)
      → Knows ks r
      → KeepsState (Inv ks) (Outbox.publish_record plant config r)
  unfolding Outbox.publish_record
  publish-Inv config r knows = publish_by-Inv config r r.payload.wallet_id knows refl

  next_one :
      (config : OutboxConfig) (rs : List Record) (p : Result StoreError (Unit {0}) × State)
      → KeepsState (Inv ks) (Outbox.publish_all plant config rs)
      → Inv ks p.1
      → Inv ks
          (elim p.0 as (λ _. Result StoreError (Unit {0}) × State) [
            | ok _ ↦ Outbox.publish_all plant config rs p.1
            | err e ↦ (if plant.cancelled p.1.calls then ok tt else err e, p.1)
          ]).1
  next_one config rs (ok a, t) next i = next t i
  next_one config rs (err e, t) next i = i

  publish_all-Inv :
      (config : OutboxConfig) (rs : List Record)
      → All (Knows ks) rs
      → KeepsState (Inv ks) (Outbox.publish_all plant config rs)
  unfolding Outbox.publish_all
  publish_all-Inv config [] knows s i = i
  publish_all-Inv config (r ∷ rs) knows s i =
      next_one config rs (Outbox.publish_record plant config r s)
        (publish_all-Inv config rs knows.1) (publish-Inv config r knows.0 s i)

  claim-Inv : (batch : ℕ) (lease : ℤ) → KeepsState (Inv ks) (claim plant batch lease)
  unfolding claim claimed
  claim-Inv batch lease s i =
      let now = plant.db_clock s.calls in
      let locked = plant.locked s.calls in
      let f : List OutboxRow → List OutboxRow = claimed now locked batch lease in
      KeepsState->>= (Inv ks) (reach plant >> reach plant >> statement plant f)
        (λ _. pure (plant.returned s.calls (map record_of (candidates now locked batch s.rows))))
        (KeepsState->>= (Inv ks) (reach plant >> reach plant) (λ _. statement plant f)
          (KeepsState->>= (Inv ks) (reach plant) (λ _. reach plant) (reach-Inv ks plant)
            (λ _. reach-Inv ks plant))
          (λ _. statement-Inv ks plant f (λ t j.
            unpublished-Inv ks t (is_among (candidates now locked batch t.rows))
              (leased (later now lease)) (λ row. (refl, refl, refl)) j)))
        (λ _ t j. j) s i

  -- What comes after `m >> pure x` has `x`.
  returned_value :
      {A : Type 0} (p : Result StoreError (Unit {0}) × State) (x a : A)
      → (elim p.0 as (λ _. Result StoreError A × State) [
        | ok _ ↦ pure x p.1
        | err e ↦ (err e, p.1)
      ]).0
        ≡ ok a
      → a ≡ x
  returned_value (ok _, t) x a h = ground (arith, h)
  returned_value (err e, t) x a h = ground (arith, h)

  claim_lem :
      (batch : ℕ) (lease : ℤ) (s : State) (records : List Record)
      → (claim plant batch lease s).0 ≡ ok records
      → records
        ≡ plant.returned s.calls (
            map record_of (candidates (plant.db_clock s.calls) (plant.locked s.calls) batch s.rows))
  unfolding claim
  claim_lem batch lease s records h =
      returned_value
        ((reach plant
            >> reach plant
            >> statement plant
                (claimed (plant.db_clock s.calls) (plant.locked s.calls) batch lease))
          s)
        _ records h

-- An UPDATE returns rows that it has changed, in any order.
abbrev pub ReturnsOnly : Plant → Type 0
ReturnsOnly plant = (n : ℕ) (l : List Record) (r : Record) → Memᴰ r (plant.returned n l) → Memᴰ r l

module _ (ks : List Key) (plant : Plant) where
  candidates_known :
      (now : Time) (locked : Text → Bool) (batch : ℕ) (rows : List OutboxRow)
      → keys rows ≡ ks
      → All (λ (c : OutboxRow). Memᴰ (c.event_id, c.payload) ks) (candidates now locked batch rows)
  unfolding candidates
  candidates_known now locked batch rows same =
      All-take (λ (c : OutboxRow). Memᴰ (c.event_id, c.payload) ks) batch _
        (All-sort_by (λ (c : OutboxRow). Memᴰ (c.event_id, c.payload) ks) _ _
          (All-keep_where (λ (c : OutboxRow). Memᴰ (c.event_id, c.payload) ks)
            (λ (c : OutboxRow). Memᴰ (c.event_id, c.payload) ks) _ rows (λ _ _ m. m)
            (All-of (λ (c : OutboxRow). Memᴰ (c.event_id, c.payload) ks) rows
              (λ c m. subst (λ l. Memᴰ (c.event_id, c.payload) l) same (mem-map _ rows c m)))))

  records_known :
      (now : Time) (locked : Text → Bool) (batch n : ℕ) (rows : List OutboxRow)
      → ReturnsOnly plant
      → IsKeyed ks
      → keys rows ≡ ks
      → All (Knows ks) (plant.returned n (map record_of (candidates now locked batch rows)))
  records_known now locked batch n rows only keyed same = All-of (Knows ks) _ λ r m.
      let here : Memᴰ (r.event_id, r.payload) ks =
        All-mem (λ (x : Record). Memᴰ (x.event_id, x.payload) ks) _ r
          (All-map (λ (x : Record). Memᴰ (x.event_id, x.payload) ks) record_of _
            (candidates_known now locked batch rows same))
          (only n _ r m) in
      All-of _ ks (λ k mk e. keyed k (r.event_id, r.payload) mk here e)

  bound_ok :
      {A : Type 0} (f : A → Io (Unit {0})) (p : Result StoreError A × State)
      → ((a : A) → p.0 ≡ ok a → KeepsState (Inv ks) (f a))
      → Inv ks p.1
      → Inv ks
          (elim p.0 as (λ _. Result StoreError (Unit {0}) × State) [
            | ok a ↦ f a p.1
            | err e ↦ (err e, p.1)
          ]).1
  bound_ok f (ok a, t) next i = next a refl t i
  bound_ok f (err e, t) next i = i

  publish_batch-Inv :
      (config : OutboxConfig)
      → ReturnsOnly plant
      → IsKeyed ks
      → KeepsState (Inv ks) (Outbox.publish_batch plant config)
  unfolding Outbox.publish_batch
  publish_batch-Inv config only keyed s i =
      bound_ok (λ records. Outbox.refresh_metrics plant >> Outbox.publish_all plant config records)
        (claim plant config.batch_size config.lease s)
        (λ records e.
          KeepsState->>= (Inv ks) (Outbox.refresh_metrics plant)
            (λ _. Outbox.publish_all plant config records) (refresh_metrics-Inv ks plant)
            (λ _. publish_all-Inv ks plant config records (
              subst (All (Knows ks))
                (sym (claim_lem ks plant config.batch_size config.lease s records e))
                (records_known (plant.db_clock s.calls) (plant.locked s.calls) config.batch_size
                  s.calls s.rows only keyed i.same_keys))))
        (claim-Inv ks plant config.batch_size config.lease s i)

-- A batch of the publisher keeps the following, whatever fails and wherever the batch ends: each
-- row that counts as published has had its payload taken by the queue, under its event id and in
-- the group of its wallet. No batch changes the id or the payload of a row.
pub publish_batch-Delivered :
    (plant : Plant) (config : OutboxConfig) (s : State)
    → ReturnsOnly plant
    → IsKeyed (keys s.rows)
    → Delivered s
    → Delivered (Outbox.publish_batch plant config s).1
      × (keys (Outbox.publish_batch plant config s).1.rows ≡ keys s.rows)
publish_batch-Delivered plant config s only keyed delivered =
    let i =
      publish_batch-Inv (keys s.rows) plant config only keyed s
        (record { delivered = delivered; same_keys = refl }) in
    (i.delivered, i.same_keys)
