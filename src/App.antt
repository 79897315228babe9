-- ===== src/App.antt =====
-- internal/walletapp: the use cases, over the database of Store. A use case runs in the monad of
-- transactions; metrics and the fault points of tests are left out.
pub mod Logic
pub mod Prepare
pub mod Process
pub mod Resume
pub mod Open
pub mod Read
pub mod Audit
pub mod Steps
use gaming_go_backend.Common.{suc, Option, none, some, Result, ok, err}
use gaming_go_backend.Common.Int.{ℤ, pos}
use gaming_go_backend.Common.Text.{Text}
use gaming_go_backend.Common.Time.{Time}
use gaming_go_backend.Operation.Rules.{Request}
use gaming_go_backend.Store.Base.{AppError, not_found, World, Tx}

-- `ProcessOperationUseCase`. `digest` is the hexadecimal SHA-256 of the JSON of a request.
pub record UseCase : Type 0 where
  pub world : World
  pub digest : Request → Text
  pub pending_ttl : Time

-- `SetPendingReferenceTTL`
unfoldable pub set_pending_reference_ttl : ℤ → UseCase → UseCase
set_pending_reference_ttl (pos (suc n)) uc = record uc { pending_ttl = suc n }
set_pending_reference_ttl _ uc = uc

module _ {A : Type 0} where
  -- An error of a call, changed on its way out.
  abbrev pub rename_error : (AppError → AppError) → Tx A → Tx A
  rename_error f m s = let (r, s') = m s in elim r [ ok a ↦ (ok a, s') | err e ↦ (err (f e), s') ]

  -- `errors.Is(err, ErrNotFound)` taken for a nil record.
  abbrev pub or_none : Tx A → Tx (Option A)
  or_none m s =
      let (r, s') = m s in
      elim r [
        | ok a ↦ (ok (some a), s')
        | err e ↦ elim e [ not_found ↦ (ok none, s') | other ↦ (err other, s') ]
      ]
