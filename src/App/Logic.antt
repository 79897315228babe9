-- ===== src/App/Logic.antt =====
-- Reasoning on `rename_error`.
use gaming_go_backend.Common.{◌≡◌, Result, ok, err, arith}
use gaming_go_backend.Store.Base.{AppError, Session, Tx}
use gaming_go_backend.App.{rename_error}

module _ {A : Type 0} (f : AppError → AppError) where
  abbrev renamed : Result AppError A × Session → Result AppError A × Session
  renamed p = elim p.0 [ ok a ↦ (ok a, p.1) | err e ↦ (err (f e), p.1) ]

  renamed_ok :
      (p : Result AppError A × Session) (a : A) (s' : Session)
      → renamed p ≡ (ok a, s')
      → p ≡ (ok a, s')
  renamed_ok (ok b, t) a s' h = h
  renamed_ok (err x, t) a s' h = ground arith

  renamed_err :
      (p : Result AppError A × Session) (e : AppError) (s' : Session)
      → renamed p ≡ (err e, s')
      → (e' : AppError) × (p ≡ (err e', s')) × (e ≡ f e')
  renamed_err (ok b, t) e s' h = ground arith
  renamed_err (err x, t) e s' h = (x, ground arith, ground arith)

  pub rename_error-ok :
      (m : Tx A) (s s' : Session) (a : A) → rename_error f m s ≡ (ok a, s') → m s ≡ (ok a, s')
  rename_error-ok m s s' a h = renamed_ok (m s) a s' h

  pub rename_error-err :
      (m : Tx A) (s s' : Session) (e : AppError)
      → rename_error f m s ≡ (err e, s')
      → (e' : AppError) × (m s ≡ (err e', s')) × (e ≡ f e')
  rename_error-err m s s' e h = renamed_err (m s) e s' h
