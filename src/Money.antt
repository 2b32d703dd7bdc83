-- ===== src/Money.antt =====
-- internal/domain/money/money.go, in parts: the type and its arithmetic, the texts, the proofs.
pub mod Defs
pub mod Arithmetic
pub mod Text
