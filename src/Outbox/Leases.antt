-- ===== src/Outbox/Leases.antt =====
-- internal/outboxpg/store.go: a lease keeps an event from other publishers.
use gaming_go_backend.Common.{
  ℕ, ◌+◌, ◌<◌, ◌≡◌, refl, sym, ap, ◌∙◌, Bool, true, false, not, ◌&&◌, ◌||◌, some, List, [], ◌∷◌,
  any, update_where, inl, inr, arith, Bool-cases,
}
use gaming_go_backend.Common.All.{
  All, All-keep_where, All-take, All-sort_by, All-update_where, All-of,
}
use gaming_go_backend.Common.Int.{ℤ, pos}
use gaming_go_backend.Common.Text.{Text, text_eq, text_eq_iff, text_eq_sound}
use gaming_go_backend.Common.Time.{Time}
use gaming_go_backend.Outbox.Table.{
  PublishError, OutboxRow, is_claimable, candidates, is_among, leased, claimed, later, is_open,
  confirmed, retried,
}

-- A statement of the store, at an instant of the database.
pub data StoreCall : Type 0 where
  claims : (Text → Bool) → ℕ → ℤ → StoreCall
  confirms : Text → StoreCall
  retries : Text → ℤ → PublishError → StoreCall

pub perform : Time → StoreCall → List OutboxRow → List OutboxRow
perform now (claims locked batch lease) rows = claimed now locked batch lease rows
perform now (confirms id) rows = update_where (is_open id) (confirmed now) rows
perform now (retries id delay e) rows = update_where (is_open id) (retried now delay e) rows

pub run : List (Time × StoreCall) → List OutboxRow → List OutboxRow
run [] rows = rows
run ((now, c) ∷ cs) rows = run cs (perform now c rows)

-- The calls come before a deadline and do not settle an event.
abbrev pub LeavesAlone : Text → StoreCall → Type 0
LeavesAlone id (claims _ _ _) = Unit
LeavesAlone id (confirms other) = text_eq id other ≡ false
LeavesAlone id (retries other _ _) = text_eq id other ≡ false

abbrev pub IsQuiet : Text → Time → Time × StoreCall → Type 0
IsQuiet id deadline (now, c) = (now < deadline) × LeavesAlone id c

-- Every row of an event is leased until the deadline.
abbrev Held : Text → Time → OutboxRow → Type 0
Held id deadline row = row.event_id ≡ id → row.locked_until ≡ some deadline

abbrev Other : Text → OutboxRow → Type 0
Other id row = text_eq row.event_id id ≡ false

Held-is_not_claimable :
    (id : Text) (deadline now : Time) (row : OutboxRow) (locked : Text → Bool)
    → now < deadline
    → Held id deadline row
    → (is_claimable now row && not (locked row.event_id)) ≡ true
    → Other id row
unfolding is_claimable
Held-is_not_claimable id deadline now row locked before held claimable =
    elim (Bool-cases (text_eq row.event_id id)) [
      | inr other ↦ other
      | inl same ↦ ground (arith, held (text_eq_sound row.event_id id same))
    ]

module _ (id : Text) where
  candidates_elsewhere :
      (deadline now : Time) (locked : Text → Bool) (batch : ℕ) (rows : List OutboxRow)
      → now < deadline
      → All (Held id deadline) rows
      → All (Other id) (candidates now locked batch rows)
  unfolding candidates
  candidates_elsewhere deadline now locked batch rows before held = All-take (Other id) batch _ (
      All-sort_by (Other id) _ _ (
        All-keep_where (Held id deadline) (Other id) _ rows
          (λ row claimable h. Held-is_not_claimable id deadline now row locked before h claimable)
          held))

  any-Other :
      (chosen : List OutboxRow)
      → All (Other id) chosen
      → any (λ c. text_eq c.event_id id) chosen ≡ false
  unfolding any
  any-Other [] all = refl
  any-Other (c ∷ chosen) all = rw (all.0, ◌||◌) (any-Other chosen all.1)

  -- The rows of the event that a claim returns are leased.
  claimed-Held :
      (now d : ℕ) (locked : Text → Bool) (batch : ℕ) (rows : List OutboxRow)
      → any (λ c. text_eq c.event_id id) (candidates now locked batch rows) ≡ true
      → All (Held id (now + d)) (claimed now locked batch (pos d) rows)
  unfolding claimed
  claimed-Held now d locked batch rows chosen =
      All-update_where (λ _. Unit {0}) (Held id (now + d))
        (is_among (candidates now locked batch rows)) (leased (now + d)) rows (λ row _ _ _. refl)
        (λ row absent _ same. elim (missing row absent same) [ ])
        (All-of (λ _. Unit {0}) rows (λ _ _. tt))
    where
      missing :
          (row : OutboxRow)
          → is_among (candidates now locked batch rows) row ≡ false
          → row.event_id ≡ id
          → ⊥
      missing row absent same = ground (
        arith,
        absent,
        chosen,
        ap (λ z. any (λ c. text_eq c.event_id z) (candidates now locked batch rows)) same,
      )

  is_open_elsewhere :
      (other : Text) (row : OutboxRow)
      → text_eq id other ≡ false
      → is_open other row ≡ true
      → Other id row
  is_open_elsewhere other row apart open_ = elim (Bool-cases (text_eq row.event_id id)) [
    | inr e ↦ e
    | inl e ↦
        ground (arith, apart, open_, ap (λ z. text_eq z other) (text_eq_sound row.event_id id e))
  ]

  -- A row that another event's statement changes is not one of the event.
  update-Held :
      (deadline : Time) (p : OutboxRow → Bool) (f : OutboxRow → OutboxRow) (rows : List OutboxRow)
      → ((row : OutboxRow) → (f row).event_id ≡ row.event_id)
      → ((row : OutboxRow) → Held id deadline row → p row ≡ true → Other id row)
      → All (Held id deadline) rows
      → All (Held id deadline) (update_where p f rows)
  update-Held deadline p f rows named apart held =
      All-update_where (Held id deadline) (Held id deadline) p f rows
        (λ row hit h same. absurd_other row (apart row h hit) (sym (named row) ∙ same))
        (λ row _ h. h) held
    where
      absurd_other :
          (row : OutboxRow)
          → Other id row
          → row.event_id ≡ id
          → (f row).locked_until ≡ some deadline
      absurd_other row other same = ground (arith, other, (text_eq_iff row.event_id id).1 same)

  among_elsewhere :
      (chosen : List OutboxRow) (row : OutboxRow)
      → All (Other id) chosen
      → is_among chosen row ≡ true
      → Other id row
  among_elsewhere chosen row others hit = elim (Bool-cases (text_eq row.event_id id)) [
    | inr e ↦ e
    | inl e ↦ ground (
      arith,
      hit,
      any-Other chosen others,
      ap (λ z. any (λ c. text_eq c.event_id z) chosen) (text_eq_sound row.event_id id e),
    )
  ]

  perform-Held :
      (deadline now : Time) (c : StoreCall) (rows : List OutboxRow)
      → IsQuiet id deadline (now, c)
      → All (Held id deadline) rows
      → All (Held id deadline) (perform now c rows)
  unfolding perform claimed
  perform-Held deadline now (claims locked batch lease) rows (before, _) held =
      let others = candidates_elsewhere deadline now locked batch rows before held in
      update-Held deadline (is_among (candidates now locked batch rows)) (leased (later now lease))
        rows (λ row. refl) (λ row _. among_elsewhere (candidates now locked batch rows) row others)
        held
  perform-Held deadline now (confirms other) rows (before, apart) held =
      update-Held deadline (is_open other) (confirmed now) rows (λ row. refl)
        (λ row _. is_open_elsewhere other row apart) held
  perform-Held deadline now (retries other delay e) rows (before, apart) held =
      update-Held deadline (is_open other) (retried now delay e) rows (λ row. refl)
        (λ row _. is_open_elsewhere other row apart) held

  run-Held :
      (deadline : Time) (calls : List (Time × StoreCall)) (rows : List OutboxRow)
      → All (IsQuiet id deadline) calls
      → All (Held id deadline) rows
      → All (Held id deadline) (run calls rows)
  unfolding run
  run-Held deadline [] rows quiet held = held
  run-Held deadline ((now, c) ∷ calls) rows quiet held =
      run-Held deadline calls (perform now c rows) quiet.1
        (perform-Held deadline now c rows quiet.0 held)

-- An event that a claim has returned is returned by no other claim before its lease ends, whatever
-- the statements in between, as long as none of them confirms or retries that event.
pub claim_exclusive :
    (id : Text) (now d : ℕ) (locked locked' : Text → Bool) (batch batch' : ℕ)
    (rows : List OutboxRow) (calls : List (Time × StoreCall)) (next : Time)
    → any (λ row. text_eq row.event_id id) (candidates now locked batch rows) ≡ true
    → All (IsQuiet id (now + d)) calls
    → next < now + d
    → any
        (λ row. text_eq row.event_id id)
        (candidates next locked' batch' (run calls (claimed now locked batch (pos d) rows)))
      ≡ false
claim_exclusive id now d locked locked' batch batch' rows calls next chosen quiet before =
    any-Other id _ (
      candidates_elsewhere id (now + d) next locked' batch' _ before
        (run-Held id (now + d) calls _ quiet (claimed-Held id now d locked batch rows chosen)))
