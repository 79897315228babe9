-- ===== src/App/Read/Isolation.antt =====
-- What a provider can learn from internal/walletapp/get_transaction.go.
use gaming_go_backend.Common.{◌≡◌, inl, inr, false, if◌then◌else◌, ok, err, arith, Bool-cases}
use gaming_go_backend.Common.Text.{Text, text_eq, text_eq_sound}
use gaming_go_backend.Transaction.{external}
use gaming_go_backend.Operation.Codes
use gaming_go_backend.Store.Base.{operation_error, World, Session, lift}
use gaming_go_backend.Store.Logic.{Post->>=}
use gaming_go_backend.Store.Pending.{has_id}
use gaming_go_backend.App.{rename_error}
use gaming_go_backend.App.Read.{
  TransactionDetail, Caller, find_detail, transaction_missing, is_visible, by_id,
}

shown :
    (caller : Caller) (found detail : TransactionDetail) (s s' : Session)
    → caller.is_admin ≡ false
    → lift
        (if is_visible caller found
          then ok found
          else err (operation_error Codes.transaction_not_found))
        s
      ≡ (ok detail, s')
    → (detail.origin ≡ external) × (detail.provider_id ≡ caller.provider_id)
unfolding is_visible
shown caller found detail s s' h e =
    elim (Bool-cases (text_eq found.provider_id caller.provider_id)) [
      | inl same ↦
          ground (arith, same, h, e, text_eq_sound found.provider_id caller.provider_id same)
      | inr differs ↦ ground (arith, differs, h, e)
    ]

-- A caller that is no administrator reads by id only external transactions of its own provider.
pub by_id_isolates :
    (world : World) (id : Text) (caller : Caller) (s s' : Session) (detail : TransactionDetail)
    → caller.is_admin ≡ false
    → by_id world id caller s ≡ (ok detail, s')
    → (detail.origin ≡ external) × (detail.provider_id ≡ caller.provider_id)
unfolding by_id
by_id_isolates world id caller s s' detail h e =
    (Post->>= (rename_error transaction_missing (find_detail world (has_id id)))
        (λ found. lift (
          if is_visible caller found
          then ok found
          else err (operation_error Codes.transaction_not_found)))
        s λ found s1 run. record { holds = λ d t r. shown caller found d s1 t h r }).holds
      detail s' e
