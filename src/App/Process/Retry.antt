-- ===== src/App/Process/Retry.antt =====
-- The transactions of internal/walletapp/process_operation.go: what an error leaves, and the one that
-- a result comes from.
use gaming_go_backend.Common.{
  ◌≡◌, refl, sym, ap, ◌∙◌, ◌⊎◌, inl, inr, true, Result, ok, err, arith, Bool-cases,
}
use mathlib.Core.Path.{subst}
use gaming_go_backend.Common.Time.{Time}
use gaming_go_backend.Store.Base.{
  AppError, retry_in_new_transaction, infrastructure, Db, World, Session, Tx, called, finished,
  within_tx, lift, now, ◌>>=◌,
}
use gaming_go_backend.Store.Hoare.{Ensures}
use gaming_go_backend.Store.Logic.{Post, Post-lift->>=, Post->>=}
use gaming_go_backend.App.{UseCase, rename_error}
use gaming_go_backend.App.Logic.{rename_error-ok, rename_error-err}
use gaming_go_backend.App.Prepare.{ProcessInput, Prepared, prepare}
use gaming_go_backend.App.Process.Existing.{ProcessResult}
use gaming_go_backend.App.Process.{
  run_in_new_tx, execute_in_tx, process_with_retry, process_operation, unavailable,
}

module _ {A : Type 0} (world : World) where
  -- The end of a transaction whose body returned, and whose commit was applied and failed.
  pub record LostCommit (body : Tx A) (db db' : Db) (e : AppError) : Type 0 where
    pub result : A
    pub start : Session
    pub end : Session
    pub started : start.db ≡ db
    pub run : body start ≡ (ok result, end)
    pub ended : db' ≡ end.db
    pub failed : world.fails end.calls ≡ true
    pub applied : world.applied end.calls ≡ true
    pub answer : e ≡ infrastructure

  -- What an error leaves.
  abbrev pub Undone : Tx A → Db → Db → AppError → Type 0
  Undone body db db' e = (db' ≡ db) ⊎ LostCommit body db db' e

  finished_err :
      (body : Tx A) (s u : Session) (p : Result AppError A × Session) (e : AppError) (s' : Session)
      → u.db ≡ s.db
      → body u ≡ p
      → finished world s p ≡ (err e, s')
      → Undone body s.db s'.db e
  finished_err body s u (ok a, t) e s' same run h = elim (Bool-cases (world.fails t.calls)) [
    | inr up ↦ ground (arith, up, h)
    | inl down ↦ elim (Bool-cases (world.applied t.calls)) [
      | inl kept ↦ inr (record {
        result = a;
        start = u;
        end = t;
        started = same;
        run = run;
        ended = ground (arith, down, kept, h);
        failed = down;
        applied = kept;
        answer = ground (arith, down, kept, h);
      })
      | inr gone ↦ inl (ground (arith, down, gone, h))
    ]
  ]
  finished_err body s u (err x, t) e s' same run h = inl (ground arith)

  finished_ok :
      (s : Session) (p : Result AppError A × Session) (a : A) (s' : Session)
      → finished world s p ≡ (ok a, s')
      → (t : Session) × (p ≡ (ok a, t)) × (s'.db ≡ t.db)
  finished_ok s (ok b, t) a s' h = (t, ground arith, ground arith)
  finished_ok s (err x, t) a s' h = ground arith

  pub within_tx-err :
      (body : Tx A) (s s' : Session) (e : AppError)
      → within_tx world body s ≡ (err e, s')
      → Undone body s.db s'.db e
  unfolding within_tx
  within_tx-err body s s' e h = elim (Bool-cases (world.fails s.calls)) [
    | inl bad ↦ inl (ground (arith, bad, h))
    | inr up ↦
        finished_err body s (called s) (body (called s)) e s' refl refl (ground (arith, up, h))
  ]

  pub within_tx-ok :
      (body : Tx A) (s s' : Session) (a : A)
      → within_tx world body s ≡ (ok a, s')
      → (t : Session) × (body (called s) ≡ (ok a, t)) × (s'.db ≡ t.db)
  unfolding within_tx
  within_tx-ok body s s' a h = elim (Bool-cases (world.fails s.calls)) [
    | inl bad ↦ ground (arith, bad, h)
    | inr up ↦ finished_ok s (body (called s)) a s' (ground (arith, up, h))
  ]

  -- What a transaction makes of the tables, whatever it returns: nothing, or what its body does.
  pub within_tx-Ensures :
      {P Q : Db → Type 0} (body : Tx A) (s s' : Session) (r : Result AppError A)
      → ((db : Db) → P db → Q db)
      → Ensures P body (λ _. Q)
      → within_tx world body s ≡ (r, s')
      → P s.db
      → Q s'.db
  within_tx-Ensures {P} {Q} body s s' (err e) stop keep h p = elim (within_tx-err body s s' e h) [
    | inl same ↦ subst Q (sym same) (stop s.db p)
    | inr lost ↦
        subst Q (sym lost.ended)
          (keep.ensures lost.start lost.result lost.end lost.run (subst P (sym lost.started) p))
  ]
  within_tx-Ensures {P} {Q} body s s' (ok a) stop keep h p =
      let (t, run, same) = within_tx-ok body s s' a h in
      subst Q (sym same) (keep.ensures (called s) a t run p)

-- The two runs of `process_with_retry`, by the outcome of the first.
abbrev second_run :
    UseCase
    → Prepared
    → Result AppError ProcessResult × Session
    → Result AppError ProcessResult × Session
second_run uc prepared p = elim p.0 [
  | ok result ↦ (ok result, p.1)
  | err e ↦ elim e [
    | retry_in_new_transaction ↦ rename_error unavailable (run_in_new_tx uc prepared) p.1
    | other ↦ (err other, p.1)
  ]
]

-- The run that a result comes from starts from the same tables.
abbrev pub RunsFrom : UseCase → Prepared → Session → ProcessResult → Session → Type 0
RunsFrom uc prepared s r s' =
    (t : Session) × (t.db ≡ s.db) × (run_in_new_tx uc prepared t ≡ (ok r, s'))

-- What an error of an operation leaves.
abbrev pub Unsettled : UseCase → Prepared → Db → Db → AppError → Type 0
Unsettled uc prepared db db' e =
    (db' ≡ db) ⊎ LostCommit uc.world (execute_in_tx uc prepared) db db' e

run_err :
    (uc : UseCase) (prepared : Prepared) (s s' : Session) (e : AppError)
    → run_in_new_tx uc prepared s ≡ (err e, s')
    → Unsettled uc prepared s.db s'.db e
unfolding run_in_new_tx
run_err uc prepared s s' e h = within_tx-err uc.world (execute_in_tx uc prepared) s s' e h

-- A transaction that asks for another has been rolled back.
retry_same :
    (uc : UseCase) (prepared : Prepared) (s t : Session)
    → run_in_new_tx uc prepared s ≡ (err retry_in_new_transaction, t)
    → t.db ≡ s.db
retry_same uc prepared s t run = elim (run_err uc prepared s t retry_in_new_transaction run) [
  | inl same ↦ same
  | inr lost ↦ ground (arith, lost.answer)
]

second_ok :
    (uc : UseCase) (prepared : Prepared) (s : Session) (p : Result AppError ProcessResult × Session)
    (r : ProcessResult) (s' : Session)
    → run_in_new_tx uc prepared s ≡ p
    → second_run uc prepared p ≡ (ok r, s')
    → RunsFrom uc prepared s r s'
second_ok uc prepared s (ok a, t) r s' run h = (s, refl, run ∙ h)
second_ok uc prepared s (err retry_in_new_transaction, t) r s' run h = (
  t,
  retry_same uc prepared s t run,
  rename_error-ok unavailable (run_in_new_tx uc prepared) t s' r h,
)
second_ok uc prepared s (err e, t) r s' run h = ground arith

-- An error of the second run, on the tables that the first one began with.
renamed_Unsettled :
    (uc : UseCase) (prepared : Prepared) (s t s' : Session) (e e' : AppError)
    → t.db ≡ s.db
    → e ≡ unavailable e'
    → Unsettled uc prepared t.db s'.db e'
    → Unsettled uc prepared s.db s'.db e
renamed_Unsettled uc prepared s t s' e e' same renamed (inl kept) = inl (kept ∙ same)
renamed_Unsettled uc prepared s t s' e e' same renamed (inr lost) = inr (record {
  result = lost.result;
  start = lost.start;
  end = lost.end;
  started = lost.started ∙ same;
  run = lost.run;
  ended = lost.ended;
  failed = lost.failed;
  applied = lost.applied;
  answer = renamed ∙ ap unavailable lost.answer;
})

second_err :
    (uc : UseCase) (prepared : Prepared) (s : Session) (p : Result AppError ProcessResult × Session)
    (e : AppError) (s' : Session)
    → run_in_new_tx uc prepared s ≡ p
    → second_run uc prepared p ≡ (err e, s')
    → Unsettled uc prepared s.db s'.db e
second_err uc prepared s (ok a, t) e s' run h = ground arith
second_err uc prepared s (err retry_in_new_transaction, t) e s' run h =
    let (e', again, renamed) = rename_error-err unavailable (run_in_new_tx uc prepared) t s' e h in
    renamed_Unsettled uc prepared s t s' e e' (retry_same uc prepared s t run) renamed
      (run_err uc prepared t s' e' again)
second_err uc prepared s (err x, t) e s' run h =
    run_err uc prepared s s' e (run ∙ ground (arith, h))

process_with_retry_ok :
    (uc : UseCase) (prepared : Prepared) (s s' : Session) (r : ProcessResult)
    → process_with_retry uc prepared s ≡ (ok r, s')
    → RunsFrom uc prepared s r s'
unfolding process_with_retry
process_with_retry_ok uc prepared s s' r h =
    second_ok uc prepared s (run_in_new_tx uc prepared s) r s' refl h

process_with_retry_err :
    (uc : UseCase) (prepared : Prepared) (s s' : Session) (e : AppError)
    → process_with_retry uc prepared s ≡ (err e, s')
    → Unsettled uc prepared s.db s'.db e
unfolding process_with_retry
process_with_retry_err uc prepared s s' e h =
    second_err uc prepared s (run_in_new_tx uc prepared s) e s' refl h

-- An operation that returns an error changed nothing, or one commit of it was applied and failed.
abbrev pub Failed : UseCase → ProcessInput → Db → Db → AppError → Type 0
Failed uc input db db' e =
    (db' ≡ db)
    ⊎ ((prepared : Prepared) × (prepare uc input ≡ ok prepared)
        × LostCommit uc.world (execute_in_tx uc prepared) db db' e)

prepared_err :
    (uc : UseCase) (input : ProcessInput) (p : Result AppError Prepared) (s s' : Session)
    (e : AppError)
    → prepare uc input ≡ p
    → (lift p >>= process_with_retry uc) (called s) ≡ (err e, s')
    → Failed uc input s.db s'.db e
prepared_err uc input (ok prepared) s s' e made h =
    elim (process_with_retry_err uc prepared (called s) s' e h) [
      | inl same ↦ inl same
      | inr lost ↦ inr (prepared, made, lost)
    ]
prepared_err uc input (err x) s s' e made h = inl (ground arith)

pub process_operation_err :
    (uc : UseCase) (input : ProcessInput) (s s' : Session) (e : AppError)
    → process_operation uc input s ≡ (err e, s')
    → Failed uc input s.db s'.db e
unfolding process_operation now
process_operation_err uc input s s' e h = prepared_err uc input (prepare uc input) s s' e refl h

pub now_db : (world : World) (s s' : Session) (at : Time) → now world s ≡ (ok at, s') → s'.db ≡ s.db
unfolding now
now_db world s s' at h = ground arith

-- An operation that returns was prepared, and returns what one transaction from the same tables did.
pub process_operation_ok :
    (uc : UseCase) (input : ProcessInput) (s : Session)
    → Post (process_operation uc input) s λ r s'.
      (prepared : Prepared) × (prepare uc input ≡ ok prepared) × RunsFrom uc prepared s r s'
unfolding process_operation
process_operation_ok uc input s =
    Post->>= (now uc.world) (λ _. lift (prepare uc input) >>= process_with_retry uc) s
      λ at s1 run1. Post-lift->>= (prepare uc input) (process_with_retry uc) s1 λ prepared made.
        record {
          holds = λ r s' h.
              let (t, same, run) = process_with_retry_ok uc prepared s1 s' r h in
              (prepared, made, (t, same ∙ now_db uc.world s s1 at run1, run));
        }
