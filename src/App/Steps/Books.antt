-- ===== src/App/Steps/Books.antt =====
-- internal/walletapp: the use cases that write, and the balances and ledgers of the wallets.
use gaming_go_backend.Common.{ℕ, suc}
use gaming_go_backend.Common.Int64.{IsInt64}
use gaming_go_backend.Store.Base.{Db, Session}
use gaming_go_backend.Store.Balances.{balances, Transfers, stop, next}
use gaming_go_backend.Store.Books.Sound.{
  Sound, Ended, Started-Bookkeeping, Bookkeeping-Resumes, idle, at_start,
}
use gaming_go_backend.App.{UseCase}
use gaming_go_backend.App.Process.Books.Operations.{process_operation-Ended}
use gaming_go_backend.App.Resume.Preservation.{
  fail_pending-Preserves, reschedule_pending_after_failure-Preserves,
}
use gaming_go_backend.App.Resume.Books.{resume_pending-Ended}
use gaming_go_backend.App.Open.Books.{open_player_wallet-Ended}
use gaming_go_backend.App.Steps.{Step, opened, done, resumed, given_up, put_off, Run, rest, step}

-- The amounts that the calls are given are of Go's int64.
abbrev pub StepFits : {uc : UseCase} {s s' : Session} → Step uc s s' → Type 0
StepFits (opened i r h) = IsInt64 i.initial_balance.minor_units
StepFits (done i r h) = IsInt64 i.request.money.minor_units
StepFits (resumed id wallet_id settings r h) = Unit
StepFits (given_up id wallet_id r h) = Unit
StepFits (put_off id wallet_id delay r h) = Unit

abbrev pub RunFits : {before after : Db} → Run before after → Type 0
RunFits rest = Unit
RunFits (step uc s s' one more) = StepFits one × RunFits more

-- The number of the calls.
abbrev pub calls_of : {before after : Db} → Run before after → ℕ
calls_of rest = 0
calls_of (step uc s s' one more) = suc (calls_of more)

Step-Ended :
    (uc : UseCase) (s s' : Session) (one : Step uc s s')
    → StepFits one
    → Sound s.db
    → Ended (balances s.db) s'.db
Step-Ended uc s s' (opened i r h) fits p = open_player_wallet-Ended uc.world i s s' r fits h p
Step-Ended uc s s' (done i r h) fits p = process_operation-Ended uc i s s' r fits h p
Step-Ended uc s s' (resumed id wallet_id settings r h) fits p =
    resume_pending-Ended uc id wallet_id settings s s' r h p
Step-Ended uc s s' (given_up id wallet_id r h) fits p = idle (
    fail_pending-Preserves (Bookkeeping-Resumes (Started-Bookkeeping (balances s.db))) uc id
      wallet_id s s' r h (at_start s.db p))
Step-Ended uc s s' (put_off id wallet_id delay r h) fits p = idle (
    reschedule_pending_after_failure-Preserves
      (Bookkeeping-Resumes (Started-Bookkeeping (balances s.db))) uc id wallet_id delay s s' r h
      (at_start s.db p))

-- However the use cases that write follow one another, on amounts of int64 and whatever they return,
-- they keep every stored balance the sum of the ledger entries of its wallet, a credit positive and a
-- debit negative, no stored balance negative, and every stored balance, version and amount an int64.
pub Run-Sound :
    (before after : Db) (run : Run before after) → RunFits run → Sound before → Sound after
Run-Sound before after rest fits p = p
Run-Sound before after (step uc s s' one more) fits p =
    Run-Sound s'.db after more fits.1 (Step-Ended uc s s' one fits.0 p).sound

-- On such tables the use cases refine an abstract account, in which a step leaves all balances as
-- they are, adds one wallet with a balance that is not negative, or changes the balance of one wallet
-- to one that is not negative: each call is one step of it, whatever the call returns.
pub Run-Transfers :
    (before after : Db) (run : Run before after)
    → RunFits run
    → Sound before
    → Transfers (calls_of run) (balances before) (balances after)
Run-Transfers before after rest fits p = stop
Run-Transfers before after (step uc s s' one more) fits p =
    let ended = Step-Ended uc s s' one fits.0 p in
    next ended.transfer (Run-Transfers s'.db after more fits.1 ended.sound)
