-- ===== src/App/Process/Replay.antt =====
-- What internal/walletapp/process_operation.go answers to a repeated operation.
use gaming_go_backend.Common.{
  ◌≡◌, refl, sym, ap, ◌∙◌, Bool, true, false, Option, none, some, if◌then◌else◌, ok, arith,
}
use gaming_go_backend.Common.Text.{Text, text_eq_sound}
use gaming_go_backend.Transaction.{WagerKind}
use gaming_go_backend.Operation.Codes.{Code}
use gaming_go_backend.Operation.Attempts.{Attempt, new_attempt, replay, conflict, classify_attempt}
use gaming_go_backend.Operation.Rules.{Request}
use gaming_go_backend.Store.Base.{Db, World, Session}
use gaming_go_backend.Store.Lookups.{
  ExistingTransaction, has_key, has_external, find_by_key, find_by_external,
}
use gaming_go_backend.Store.Logic.{Post, Post-pure, Post->>=, Post-lift->>=}
use gaming_go_backend.App.{or_none}
use gaming_go_backend.App.Prepare.{ProcessInput}
use gaming_go_backend.App.Process.Existing.{
  ProcessResult, Lookup, answered, new_one, answer, lookup_existing, replay_result, to_attempt,
  incoming_attempt,
}
use gaming_go_backend.App.Process.LookupExisting.{Found, find_existing_lem}
use gaming_go_backend.App.Process.Recorded.{IsRecorded, as_replay}

-- What `lookupExisting` makes of what the key found.
pub data Outcome (found : Option ExistingTransaction) (hash : Text) (kind : WagerKind)
    : Lookup → Type 0 where
  nothing : found ≡ none → Outcome found hash kind new_one
  again :
      (f : ExistingTransaction) (r : ProcessResult)
      → found ≡ some f
      → f.payload_hash ≡ hash
      → replay_result f kind ≡ ok r
      → Outcome found hash kind (answered r)

-- The property of an answer, by what the key found.
abbrev Answered :
    Option ExistingTransaction → Text → WagerKind → Session → Lookup → Session → Type 0
Answered found hash kind s l s' = Outcome found hash kind l × (s'.db ≡ s.db)

answer_unknown :
    (hash : Text) (kind : WagerKind) (s : Session) (conflicting : Bool) (code : Code)
    → Post
        (answer (if conflicting then conflict code else new_attempt) none kind)
        s
        (Answered none hash kind s)
unfolding answer
answer_unknown hash kind s true code = record { holds = λ l s' h. ground arith }
answer_unknown hash kind s false code = Post-pure s new_one (nothing refl, refl)

answer_known :
    (f : ExistingTransaction) (hash : Text) (kind : WagerKind) (s : Session) (same : Bool)
    (code : Code)
    → (same ≡ true → f.payload_hash ≡ hash)
    → Post
        (answer (if same then replay else conflict code) (some f) kind)
        s
        (Answered (some f) hash kind s)
unfolding answer
answer_known f hash kind s true code e =
    Post-lift->>= (replay_result f kind) _ s
      λ r found. Post-pure s (answered r) (again f r refl (e refl) found, refl)
answer_known f hash kind s false code e = record { holds = λ l s' h. ground arith }

answer_lem :
    (incoming : Attempt) (by_key : Option ExistingTransaction) (by_external : Option Attempt)
    (kind : WagerKind) (s : Session)
    → Post
        (answer (classify_attempt incoming (to_attempt by_key) by_external) by_key kind)
        s
        (Answered by_key incoming.payload_hash kind s)
unfolding classify_attempt
answer_lem incoming none by_external kind s = answer_unknown incoming.payload_hash kind s _ _
answer_lem incoming (some f) by_external kind s =
    answer_known f incoming.payload_hash kind s _ _
      (text_eq_sound f.payload_hash incoming.payload_hash)

pub lookup_lem :
    (world : World) (r : Request) (key hash : Text) (s : Session)
    → Post (lookup_existing world r key hash) s λ l s'.
      (o : Option ExistingTransaction) × Found (has_key r.provider_id key) o s.db
      × Outcome o hash r.kind l
      × (s'.db ≡ s.db)
unfolding lookup_existing find_by_key find_by_external
lookup_lem world r key hash s =
    Post->>= (or_none (find_by_key world r.provider_id key)) _ s λ by_key s1 run1.
      Post->>= (or_none (find_by_external world r.provider_id r.external_transaction_id)) _ s1
        λ by_external s2 run2.
          let (found, kept1) =
            find_existing_lem world (has_key r.provider_id key) s s1 by_key run1 in
          let (_, kept2) =
            find_existing_lem world (has_external r.provider_id r.external_transaction_id) s1 s2
              by_external run2 in
          record {
            holds = λ l s' h.
                let (outcome, kept) =
                  (answer_lem (incoming_attempt r key hash) by_key (to_attempt by_external) r.kind
                      s2).holds
                    l s' h in
                (by_key, found, outcome, kept ∙ kept2 ∙ kept1);
          }

replays_itself :
    (f : ExistingTransaction) (kind : WagerKind) (r : ProcessResult)
    → replay_result f kind ≡ ok r
    → as_replay r ≡ r
unfolding replay_result
replays_itself f kind r h = ground arith

-- A replay is recorded, by the row that it replays.
pub answered-IsRecorded :
    (input : ProcessInput) (hash : Text) (o : Option ExistingTransaction) (r : ProcessResult)
    (db : Db)
    → Found (has_key input.request.provider_id input.idempotency_key) o db
    → Outcome o hash input.request.kind (answered r)
    → IsRecorded input hash r db
answered-IsRecorded input hash none r db found (again f r' e same found') = ground (arith, e)
answered-IsRecorded input hash (some g) r db (row, up, scan) (again f r' e same found') = record {
  row = row;
  found = f;
  looked_up = up;
  scanned = scan ∙ ap ok (ground (arith, e));
  same_hash = same;
  replays = found' ∙ ap ok (sym (replays_itself f input.request.kind r' found'));
}

-- What is recorded is what the lookup answers.
pub IsRecorded-answered :
    (input : ProcessInput) (hash : Text) (o : Option ExistingTransaction) (l : Lookup)
    (r : ProcessResult) (db : Db)
    → IsRecorded input hash r db
    → Found (has_key input.request.provider_id input.idempotency_key) o db
    → Outcome o hash input.request.kind l
    → l ≡ answered (as_replay r)
IsRecorded-answered input hash none l r db rec found outcome = ground (arith, rec.looked_up, found)
IsRecorded-answered input hash (some g) l r db rec (row, up, scan) (nothing e) = ground (arith, e)
IsRecorded-answered input hash (some g) l r db rec (row, up, scan) (again f r' e same found') = cc
