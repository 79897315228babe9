-- ===== src/Tests.antt =====
-- Concrete inputs at which the theorems of the other files apply, one file for each part.
mod Domain
mod Decisions
mod Processing
mod Rows
mod Events
mod Audit
