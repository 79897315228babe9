-- ===== src/Tests/Events.antt =====
-- Inputs for the theorems on internal/outbox and internal/outboxpg.
use mathlib.Core.List.{Memᴰ}
use mathlib.Core.List.Memᴰ.{head, tail}
use gaming_go_backend.Common.{
  ℕ, ◌==◌, ◌≡◌, refl, sym, ◌∙◌, Bool, true, false, inl, none, some, [], ◌∷◌, ok, any, keep_where,
  take, insert_by, sort_by, arith,
}
use gaming_go_backend.Common.All.{All, All-mem}
use gaming_go_backend.Common.Int.{pos}
use gaming_go_backend.Common.Text.{codes, text_eq}
use gaming_go_backend.Outbox.Table.{OutboxRow, Plant, State, is_claimable, candidates, claimed}
use gaming_go_backend.Outbox.{OutboxConfig, publish_batch}
use gaming_go_backend.Outbox.Leases.{claims, confirms, run, claim_exclusive}
use gaming_go_backend.Outbox.Sent.{Delivered, Key, keys, IsKeyed}
use gaming_go_backend.Outbox.Delivery.{publish_batch-Delivered}
use gaming_go_backend.Outbox.Progress.{Shut, publish_batch_delivers}

abbrev event : OutboxRow
event = record {
  event_id = codes "event";
  payload = record { bytes = codes "{}"; wallet_id = some (codes "wallet") };
  occurred_at = 3;
  attempts = 0;
  next_attempt_at = 3;
  locked_until = none;
  published_at = none;
  last_error = none;
}

abbrev older_event : OutboxRow
older_event = record event { event_id = codes "older"; occurred_at = 2 }

abbrev plant_with : (ℕ → Bool) → Plant
plant_with fails = record {
  fails = fails;
  arrives = λ n. true;
  db_clock = λ n. 10;
  locked = λ n id. false;
  returned = λ n l. l;
  cancelled = λ n. false;
}

abbrev publisher : OutboxConfig
publisher = record { batch_size = 5; lease = pos 30; retry_base = pos 1; retry_max = pos 60 }

abbrev waiting : State
waiting = record { rows = event ∷ older_event ∷ []; sent = []; calls = 0 }

chosen :
    any
      (λ row. text_eq row.event_id (codes "event"))
      (candidates 10 (λ id. false) 5 (event ∷ older_event ∷ []))
    ≡ true
unfolding any text_eq candidates is_claimable keep_where take sort_by insert_by
chosen = refl

claim_exclusive_example :
    any
      (λ row. text_eq row.event_id (codes "event"))
      (candidates 39
        (λ id. false)
        7
        (run
          ((12, claims (λ id. false) 5 (pos 90)) ∷ (15, confirms (codes "older")) ∷ [])
          (claimed 10 (λ id. false) 5 (pos 30) (event ∷ older_event ∷ []))))
    ≡ false
unfolding text_eq
claim_exclusive_example =
    claim_exclusive (codes "event") 10 30 (λ id. false) (λ id. false) 5 7 (event ∷ older_event ∷ [])
      ((12, claims (λ id. false) 5 (pos 90)) ∷ (15, confirms (codes "older")) ∷ []) 39 chosen
      ((omega arith, tt), ((omega arith, refl), tt)) (omega arith)

waiting-IsKeyed : IsKeyed (keys waiting.rows)
waiting-IsKeyed a b ma mb same =
    All-mem (λ (k : Key). k.1 ≡ event.payload) (keys waiting.rows) a (refl, (refl, tt)) ma
    ∙ sym (All-mem (λ (k : Key). k.1 ≡ event.payload) (keys waiting.rows) b (refl, (refl, tt)) mb)

-- The queue takes the message of a call that fails.
publish_batch-Delivered_example :
    Delivered (publish_batch (plant_with (λ n. n == 4)) publisher waiting).1
    × (keys (publish_batch (plant_with (λ n. n == 4)) publisher waiting).1.rows ≡ keys waiting.rows)
publish_batch-Delivered_example =
    publish_batch-Delivered (plant_with (λ n. n == 4)) publisher waiting (λ n l r m. m)
      waiting-IsKeyed (inl refl, (inl refl, tt))

publish_batch_delivers_example :
    ((publish_batch (plant_with (λ n. false)) publisher waiting).0 ≡ ok tt)
    × All (Shut (codes "event")) (publish_batch (plant_with (λ n. false)) publisher waiting).1.rows
    × Memᴰ
        (record { body = event.payload; group = codes "wallet"; deduplication = codes "event" })
        (publish_batch (plant_with (λ n. false)) publisher waiting).1.sent
unfolding candidates is_claimable keep_where take sort_by insert_by
publish_batch_delivers_example =
    publish_batch_delivers (plant_with (λ n. false)) publisher waiting event (codes "wallet")
      (λ n. refl) (λ n l r m. m) (tail (head refl)) refl refl
