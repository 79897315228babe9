-- ===== src/App/Process/Idempotency.antt =====
-- Idempotency of internal/walletapp/process_operation.go: what a repeated operation is answered.
use gaming_go_backend.Common.{
  ◌≡◌, sym, ◌∙◌, inl, inr, Bool, true, false, Option, some, if◌then◌else◌, ok, arith, Result-cases,
}
use mathlib.Core.Path.{subst}
use gaming_go_backend.Common.Text.{Text}
use gaming_go_backend.Common.Time.{Time}
use gaming_go_backend.Money.{currency_of}
use gaming_go_backend.Money.Arithmetic.{currency_eq_sound}
use gaming_go_backend.Wallet.{Wallet}
use gaming_go_backend.Operation.Rules.{Request}
use gaming_go_backend.Store.Base.{Db, World, Session, Tx, ◌>>=◌}
use gaming_go_backend.Store.Wallets.{find_wallet, wallet_of_row}
use gaming_go_backend.Store.Lookups.{ExistingTransaction, has_key}
use gaming_go_backend.Store.Logic.{
  Keeps, Keeps->>=, Keeps-query, Keeps-lift, Post, Post-pure, Post->>=,
}
use gaming_go_backend.App.{UseCase, rename_error}
use gaming_go_backend.App.Logic.{rename_error-ok}
use gaming_go_backend.App.Prepare.{Prepared}
use gaming_go_backend.App.Process.{
  check_wallet, conclude_lookup, lock_wallet, attempt, attempt_new, conclude_new, is_waiting,
  wallet_missing,
}
use gaming_go_backend.App.Process.Existing.{
  ProcessResult, Lookup, answered, new_one, lookup_existing, resolve_decision,
}
use gaming_go_backend.App.Process.LookupExisting.{Found, tables}
use gaming_go_backend.App.Process.Recorded.{IsRecorded, as_replay}
use gaming_go_backend.App.Process.Recording.{Recorded, process_new_lem}
use gaming_go_backend.App.Process.Recording.Waiting.{process_pending_new_lem}
use gaming_go_backend.App.Process.Replay.{
  lookup_lem, Outcome, answered-IsRecorded, IsRecorded-answered,
}

find_wallet-Keeps : (world : World) (id : Text) → Keeps tables (find_wallet world id)
unfolding find_wallet
find_wallet-Keeps world id =
    Keeps->>= _ _ (Keeps-query world _) λ row. Keeps-lift (wallet_of_row row)

check_wallet_lem :
    (r : Request) (w : Wallet) (s : Session)
    → Post (check_wallet r w) s λ w' s'. (currency_of r.money ≡ ok w'.currency) × (s'.db ≡ s.db)
unfolding check_wallet
check_wallet_lem r w s = record {
  holds = λ w' s' h. elim (Result-cases (currency_of r.money)) [
    | inr (e, bad) ↦ ground (arith, bad, h)
    | inl (c, good) ↦ ground (arith, good, h, currency_eq_sound w.currency c)
  ];
}

pub lock_wallet_lem :
    (world : World) (r : Request) (s : Session)
    → Post (lock_wallet world r) s λ w s'. (currency_of r.money ≡ ok w.currency) × (s'.db ≡ s.db)
unfolding lock_wallet
lock_wallet_lem world r s =
    Post->>= (rename_error wallet_missing (find_wallet world r.wallet_id)) (check_wallet r) s
      λ w s1 run1. record {
        holds = λ w' s' h.
            let (cur, kept) = (check_wallet_lem r w s1).holds w' s' h in
            (
              cur,
              kept
                  ∙ (find_wallet-Keeps world r.wallet_id).kept s w s1
                      (rename_error-ok wallet_missing (find_wallet world r.wallet_id) s s1 w run1),
            );
      }

Post-if :
    {Q : Option ProcessResult → Session → Type 0} {s : Session} {m n : Tx (Option ProcessResult)}
    (b : Bool)
    → Post m s Q
    → Post n s Q
    → Post (if b then m else n) s Q
Post-if true pm pn = pm
Post-if false pm pn = pn

-- The end of an attempt whose lookup answered nothing records what it returns.
attempt_new_lem :
    (uc : UseCase) (w : Wallet) (prepared : Prepared) (at : Time) (s : Session)
    → currency_of prepared.input.request.money ≡ ok w.currency
    → Post (attempt_new uc w prepared at) s (Recorded prepared.input prepared.hash)
unfolding attempt_new conclude_new
attempt_new_lem uc w prepared at s cur =
    Post->>= (resolve_decision uc.world prepared.input.request prepared.decision)
      (λ resolved. conclude_new uc w prepared resolved.0 resolved.1 at) s
      λ resolved s1 run1.
        Post-if (is_waiting resolved.0.action)
          (process_pending_new_lem uc prepared.input prepared.hash at s1)
          (process_new_lem uc w prepared.input prepared.hash resolved.0 resolved.1 at s1 cur)

some_injective : {a b : ProcessResult} → some a ≡ some b → a ≡ b
some_injective h = ground arith

conclude_lookup_lem :
    (uc : UseCase) (w : Wallet) (prepared : Prepared) (at : Time) (l : Lookup)
    (o : Option ExistingTransaction) (db : Db) (s : Session)
    → currency_of prepared.input.request.money ≡ ok w.currency
    → Found (has_key prepared.input.request.provider_id prepared.input.idempotency_key) o db
    → Outcome o prepared.hash prepared.input.request.kind l
    → s.db ≡ db
    → Post (conclude_lookup uc w prepared at l) s (Recorded prepared.input prepared.hash)
unfolding conclude_lookup Recorded
conclude_lookup_lem uc w prepared at new_one o db s cur found outcome same =
    attempt_new_lem uc w prepared at s cur
conclude_lookup_lem uc w prepared at (answered result) o db s cur found outcome same =
    Post-pure s (some result) λ r e.
      subst (λ x. IsRecorded prepared.input prepared.hash x s.db) (some_injective e)
        (subst (λ x. IsRecorded prepared.input prepared.hash result x) (sym same)
          (answered-IsRecorded prepared.input prepared.hash o result db found outcome))

-- The continuation of `attempt` behind the lock.
abbrev pub looked : UseCase → Prepared → Time → Wallet → Tx (Option ProcessResult)
looked uc prepared at w =
    lookup_existing uc.world prepared.input.request prepared.input.idempotency_key prepared.hash
    >>= conclude_lookup uc w prepared at

pub attempt_records :
    (uc : UseCase) (prepared : Prepared) (at : Time) (s : Session)
    → Post (attempt uc prepared at) s (Recorded prepared.input prepared.hash)
unfolding attempt
attempt_records uc prepared at s =
    Post->>= (lock_wallet uc.world prepared.input.request) (looked uc prepared at) s λ w s1 run1.
      Post->>=
        (lookup_existing uc.world prepared.input.request prepared.input.idempotency_key
          prepared.hash)
        (conclude_lookup uc w prepared at) s1
        λ l s2 run2.
          let (cur, _) = (lock_wallet_lem uc.world prepared.input.request s).holds w s1 run1 in
          let (o, found, outcome, kept) =
            (lookup_lem uc.world prepared.input.request prepared.input.idempotency_key prepared.hash
                s1).holds
              l s2 run2 in
          conclude_lookup_lem uc w prepared at l o s1.db s2 cur found outcome kept

replay_answer :
    (uc : UseCase) (w : Wallet) (prepared : Prepared) (at : Time) (r : ProcessResult) (l : Lookup)
    (s s0 : Session)
    → l ≡ answered (as_replay r)
    → s.db ≡ s0.db
    → Post (conclude_lookup uc w prepared at l) s λ o s'. (o ≡ some (as_replay r)) × (s'.db ≡ s0.db)
unfolding conclude_lookup
replay_answer uc w prepared at r (answered x) s s0 e kept =
    Post-pure s (some x) (ground (arith, e), kept)
replay_answer uc w prepared at r new_one s s0 e kept = ground (arith, e)

pub attempt_replays :
    (uc : UseCase) (prepared : Prepared) (at : Time) (r : ProcessResult) (s : Session)
    → IsRecorded prepared.input prepared.hash r s.db
    → Post (attempt uc prepared at) s λ o s'. (o ≡ some (as_replay r)) × (s'.db ≡ s.db)
unfolding attempt
attempt_replays uc prepared at r s rec =
    Post->>= (lock_wallet uc.world prepared.input.request) (looked uc prepared at) s λ w s1 run1.
      Post->>=
        (lookup_existing uc.world prepared.input.request prepared.input.idempotency_key
          prepared.hash)
        (conclude_lookup uc w prepared at) s1
        λ l s2 run2.
          let (cur, kept) = (lock_wallet_lem uc.world prepared.input.request s).holds w s1 run1 in
          let (o, found, outcome, kept2) =
            (lookup_lem uc.world prepared.input.request prepared.input.idempotency_key prepared.hash
                s1).holds
              l s2 run2 in
          replay_answer uc w prepared at r l s2 s
            (IsRecorded-answered prepared.input prepared.hash o l r s1.db
              (subst (λ x. IsRecorded prepared.input prepared.hash r x) (sym kept) rec) found
              outcome)
            (kept2 ∙ kept)
