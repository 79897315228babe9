-- ===== src/Operation.antt =====
-- internal/domain/operation: the evaluation of external wagering operations, without I/O.
-- Codes are the stable failure identifiers (errors.go), Rules is the evaluation (rules.go), and
-- Attempts is the idempotency outcome (idempotency.go).
pub mod Codes
pub mod Rules
pub mod Attempts
pub mod Evaluation
pub mod Reversals
