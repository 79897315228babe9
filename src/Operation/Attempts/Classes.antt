-- ===== src/Operation/Attempts/Classes.antt =====
-- The three classes of `ClassifyAttempt` of internal/domain/operation/idempotency.go.
use gaming_go_backend.Common.{◌≡◌, refl, ◌↔◌, Option, none, some, arith}
use gaming_go_backend.Common.Text.{text_eq_sound, text_eq_refl}
use gaming_go_backend.Operation.Attempts.{Attempt, new_attempt, replay, classify_attempt}

-- The record of the key has the hash of the attempt.
unfoldable pub IsReplay : Attempt → Option Attempt → Type 0
IsReplay incoming none = ⊥
IsReplay incoming (some f) = f.payload_hash ≡ incoming.payload_hash

-- No record of the key, and none of the external id under another key.
unfoldable pub IsNew : Attempt → Option Attempt → Option Attempt → Type 0
IsNew incoming (some f) by_external = ⊥
IsNew incoming none none = Unit {0}
IsNew incoming none (some g) = g.idempotency_key ≡ incoming.idempotency_key

IsReplay-sound :
    (incoming : Attempt) (k e : Option Attempt)
    → classify_attempt incoming k e ≡ replay
    → IsReplay incoming k
unfolding classify_attempt IsReplay
IsReplay-sound incoming none none h = ground arith
IsReplay-sound incoming none (some g) h = ground arith
IsReplay-sound incoming (some f) e h =
    text_eq_sound f.payload_hash incoming.payload_hash (ground arith)

IsReplay-complete :
    (incoming : Attempt) (k e : Option Attempt)
    → IsReplay incoming k
    → classify_attempt incoming k e ≡ replay
unfolding classify_attempt IsReplay
IsReplay-complete incoming none e h = elim h [ ]
IsReplay-complete incoming (some f) e h = ground (arith, h, text_eq_refl incoming.payload_hash)

IsNew-sound :
    (incoming : Attempt) (k e : Option Attempt)
    → classify_attempt incoming k e ≡ new_attempt
    → IsNew incoming k e
unfolding classify_attempt IsNew
IsNew-sound incoming none none h = tt
IsNew-sound incoming none (some g) h =
    text_eq_sound g.idempotency_key incoming.idempotency_key (ground arith)
IsNew-sound incoming (some f) e h = ground arith

IsNew-complete :
    (incoming : Attempt) (k e : Option Attempt)
    → IsNew incoming k e
    → classify_attempt incoming k e ≡ new_attempt
unfolding classify_attempt IsNew
IsNew-complete incoming (some _) e h = elim h [ ]
IsNew-complete incoming none none h = refl
IsNew-complete incoming none (some g) h = ground (arith, h, text_eq_refl incoming.idempotency_key)

-- An attempt is classified as a replay exactly where the record of its key has its hash, and as new
-- exactly where its key has no record and its external id none under another key; so every other
-- attempt is a conflict.
pub classify_attempt_exact :
    (incoming : Attempt) (k e : Option Attempt)
    → ((classify_attempt incoming k e ≡ replay) ↔ IsReplay incoming k)
      × ((classify_attempt incoming k e ≡ new_attempt) ↔ IsNew incoming k e)
classify_attempt_exact incoming k e = (
  (IsReplay-sound incoming k e, IsReplay-complete incoming k e),
  (IsNew-sound incoming k e, IsNew-complete incoming k e),
)
