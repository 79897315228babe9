-- ===== src/App/Process/Once.antt =====
-- Idempotency of `Process` of internal/walletapp/process_operation.go.
use gaming_go_backend.Common.{
  ℕ, ◌≡◌, refl, sym, ap, ◌∙◌, ◌⊎◌, inl, inr, true, not, Option, none, some, Result, ok, err, arith,
}
use mathlib.Core.Path.{subst}
use gaming_go_backend.Common.Time.{Time}
use gaming_go_backend.Store.Base.{AppError, infrastructure, Db, Session, called, lift, now, ◌>>=◌}
use gaming_go_backend.Store.Hoare.{Ensures}
use gaming_go_backend.Store.Logic.{Post, Post->>=, Post-fail_if->>}
use gaming_go_backend.App.{UseCase}
use gaming_go_backend.App.Prepare.{ProcessInput, Prepared, prepare, payload_hash}
use gaming_go_backend.App.Process.{
  attempt, execute_in_tx, run_in_new_tx, process_operation, or_retry,
}
use gaming_go_backend.App.Process.Existing.{ProcessResult}
use gaming_go_backend.App.Process.Recorded.{IsRecorded, as_replay}
use gaming_go_backend.App.Process.Recording.{Recorded}
use gaming_go_backend.App.Process.Retry.{
  LostCommit, process_operation_ok, process_operation_err, within_tx-ok, now_db,
}
use gaming_go_backend.App.Process.Idempotency.{attempt_records, attempt_replays}

-- The attempt that a result comes from, and the tables around it.
pub record IsAttempt (uc : UseCase) (prepared : Prepared) (db : Db) (r : ProcessResult) (db' : Db)
    : Type 0 where
  pub at : Time
  pub start : Session
  pub end : Session
  pub started : start.db ≡ db
  pub run : attempt uc prepared at start ≡ (ok (some r), end)
  pub ended : db' ≡ end.db

retried :
    (o : Option ProcessResult) (r : ProcessResult) (s s' : Session)
    → lift (or_retry o) s ≡ (ok r, s')
    → (o ≡ some r) × (s ≡ s')
retried none r s s' h = ground arith
retried (some x) r s s' h = (ground arith, ground arith)

execute_ok :
    (uc : UseCase) (prepared : Prepared) (s : Session)
    → Post (execute_in_tx uc prepared) s λ r s'. IsAttempt uc prepared s.db r s'.db
unfolding execute_in_tx
execute_ok uc prepared s =
    Post-fail_if->> (not prepared.ready) _
      (now uc.world >>= λ at. attempt uc prepared at >>= λ o. lift (or_retry o)) s
      λ ready.
        Post->>= (now uc.world) (λ at. attempt uc prepared at >>= λ o. lift (or_retry o)) s
          λ at s1 run1.
            Post->>= (attempt uc prepared at) (λ o. lift (or_retry o)) s1
              λ o s2 run2. record {
                holds = λ r s' h.
                    let (e, same) = retried o r s2 s' h in
                    record {
                      at = at;
                      start = s1;
                      end = s2;
                      started = now_db uc.world s s1 at run1;
                      run = run2 ∙ ap (λ x. (ok x, s2)) e;
                      ended = ap (λ (x : Session). x.db) (sym same);
                    };
              }

run_ok :
    (uc : UseCase) (prepared : Prepared) (s s' : Session) (r : ProcessResult)
    → run_in_new_tx uc prepared s ≡ (ok r, s')
    → IsAttempt uc prepared s.db r s'.db
unfolding run_in_new_tx
run_ok uc prepared s s' r h =
    let (t, run, same) = within_tx-ok uc.world (execute_in_tx uc prepared) s s' r h in
    let a = (execute_ok uc prepared (called s)).holds r t run in
    record {
      at = a.at;
      start = a.start;
      end = a.end;
      started = a.started;
      run = a.run;
      ended = same ∙ a.ended;
    }

-- An attempt of a transaction whose commit was applied and failed.
lost-IsAttempt :
    (uc : UseCase) (prepared : Prepared) (db db' : Db) (e : AppError)
    → (lost : LostCommit uc.world (execute_in_tx uc prepared) db db' e)
    → IsAttempt uc prepared db lost.result db'
lost-IsAttempt uc prepared db db' e lost =
    let a = (execute_ok uc prepared lost.start).holds lost.result lost.end lost.run in
    record {
      at = a.at;
      start = a.start;
      end = a.end;
      started = a.started ∙ lost.started;
      run = a.run;
      ended = lost.ended ∙ a.ended;
    }

some_injective : {a b : ProcessResult} → some a ≡ some b → a ≡ b
some_injective h = ground arith

pub prepare_lem :
    (uc : UseCase) (input : ProcessInput) (prepared : Prepared)
    → prepare uc input ≡ ok prepared
    → (prepared.input ≡ input) × (prepared.hash ≡ uc.digest input.request)
unfolding prepare payload_hash
prepare_lem uc input prepared h = ground arith

pub process_ok :
    (uc : UseCase) (input : ProcessInput) (s : Session)
    → Post (process_operation uc input) s λ r s'.
      (prepared : Prepared) × (prepare uc input ≡ ok prepared) × IsAttempt uc prepared s.db r s'.db
process_ok uc input s = record {
  holds = λ r s' h.
      let (prepared, made, origin) = (process_operation_ok uc input s).holds r s' h in
      let (t, same, run) = origin in
      (
        prepared,
        made,
        subst (λ db. IsAttempt uc prepared db r s'.db) same (run_ok uc prepared t s' r run),
      );
}

attempt-IsRecorded :
    (uc : UseCase) (input : ProcessInput) (prepared : Prepared) (db db' : Db) (r : ProcessResult)
    → prepare uc input ≡ ok prepared
    → IsAttempt uc prepared db r db'
    → IsRecorded input (uc.digest input.request) r db'
unfolding Recorded
attempt-IsRecorded uc input prepared db db' r made a =
    let (same_input, same_hash) = prepare_lem uc input prepared made in
    let rec = (attempt_records uc prepared a.at a.start).holds (some r) a.end a.run r refl in
    subst (λ x. IsRecorded input x r db') same_hash
      (subst (λ x. IsRecorded x prepared.hash r db') same_input
        (subst (λ x. IsRecorded prepared.input prepared.hash r x) (sym a.ended) rec))

-- What an error leaves where its answer stands for a commit that was applied: the tables of an attempt
-- from the old ones that returned, in which its result is recorded.
pub record IsDoneUnanswered (uc : UseCase) (input : ProcessInput) (db db' : Db) (e : AppError)
    : Type 0 where
  pub prepared : Prepared
  pub result : ProcessResult
  pub made : prepare uc input ≡ ok prepared
  pub attempted : IsAttempt uc prepared db result db'
  pub recorded : IsRecorded input (uc.digest input.request) result db'
  pub commit : ℕ
  pub failed : uc.world.fails commit ≡ true
  pub applied : uc.world.applied commit ≡ true
  pub answer : e ≡ infrastructure

-- An operation that fails leaves every table as it was, whichever statement or check of its at most two
-- transactions failed, unless the error is one of a commit that was applied all the same: then the
-- tables are those that an attempt which returned made of the old ones, and they hold a row from which
-- a repetition is answered.
pub process_operation-atomic :
    (uc : UseCase) (input : ProcessInput) (s s' : Session) (e : AppError)
    → process_operation uc input s ≡ (err e, s')
    → (s'.db ≡ s.db) ⊎ IsDoneUnanswered uc input s.db s'.db e
process_operation-atomic uc input s s' e h = elim (process_operation_err uc input s s' e h) [
  | inl same ↦ inl same
  | inr (prepared, made, lost) ↦
      let a = lost-IsAttempt uc prepared s.db s'.db e lost in
      inr (record {
        prepared = prepared;
        result = lost.result;
        made = made;
        attempted = a;
        recorded = attempt-IsRecorded uc input prepared s.db s'.db lost.result made a;
        commit = lost.end.calls;
        failed = lost.failed;
        applied = lost.applied;
        answer = lost.answer;
      })
]

-- An operation that returns leaves a row that its provider and idempotency key find, with the digest
-- of its request, and from which a replay rebuilds the result that was returned: its transaction,
-- status, failure code, balance and expiry. It holds of a new operation, processed, rejected or
-- waiting, and of a replay.
pub process_operation-IsRecorded :
    (uc : UseCase) (input : ProcessInput) (s s' : Session) (r : ProcessResult)
    → process_operation uc input s ≡ (ok r, s')
    → IsRecorded input (uc.digest input.request) r s'.db
process_operation-IsRecorded uc input s s' r h =
    let (prepared, made, a) = (process_ok uc input s).holds r s' h in
    attempt-IsRecorded uc input prepared s.db s'.db r made a

-- What an operation makes of the tables, whatever it returns: nothing, or what an attempt does.
pub process_operation-Ensures :
    {P Q : Db → Type 0} (uc : UseCase) (input : ProcessInput) (s s' : Session)
    (r : Result AppError ProcessResult)
    → ((db : Db) → P db → Q db)
    → ((prepared : Prepared) (at : Time)
        → prepare uc input ≡ ok prepared
        → Ensures P (attempt uc prepared at) (λ _. Q))
    → process_operation uc input s ≡ (r, s')
    → P s.db
    → Q s'.db
process_operation-Ensures {P} {Q} uc input s s' (ok r) stop keep h p =
    let (prepared, made, a) = (process_ok uc input s).holds r s' h in
    subst Q (sym a.ended)
      ((keep prepared a.at made).ensures a.start (some r) a.end a.run (subst P (sym a.started) p))
process_operation-Ensures {P} {Q} uc input s s' (err e) stop keep h p =
    elim (process_operation-atomic uc input s s' e h) [
      | inl same ↦ subst Q (sym same) (stop s.db p)
      | inr d ↦ subst Q (sym d.attempted.ended) (
          (keep d.prepared d.attempted.at d.made).ensures d.attempted.start (some d.result)
            d.attempted.end d.attempted.run (subst P (sym d.attempted.started) p))
    ]

-- An operation that has returned is not done again. As long as the tables are the ones that it left,
-- any repetition of it that returns gives the first result marked as a replay, and changes no table,
-- whatever the ids, clocks and failures of the two runs.
pub process_operation-once :
    (uc uc' : UseCase) (input : ProcessInput) (s s' t t' : Session) (r r' : ProcessResult)
    → (uc'.digest input.request ≡ uc.digest input.request)
    → process_operation uc input s ≡ (ok r, s')
    → t.db ≡ s'.db
    → process_operation uc' input t ≡ (ok r', t')
    → (r' ≡ as_replay r) × (t'.db ≡ t.db)
process_operation-once uc uc' input s s' t t' r r' same_digest first between second =
    let rec = process_operation-IsRecorded uc input s s' r first in
    let (prepared, made, a) = (process_ok uc' input t).holds r' t' second in
    let (same_input, same_hash) = prepare_lem uc' input prepared made in
    let rec' =
      subst (λ x. IsRecorded x prepared.hash r a.start.db) (sym same_input)
        (subst (λ x. IsRecorded input x r a.start.db) (sym (same_hash ∙ same_digest))
          (subst (λ x. IsRecorded input (uc.digest input.request) r x) (sym (a.started ∙ between))
            rec)) in
    let (e, kept) =
      (attempt_replays uc' prepared a.at r a.start rec').holds (some r') a.end a.run in
    (some_injective e, a.ended ∙ kept ∙ a.started)
