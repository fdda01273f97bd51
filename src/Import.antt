-- ===== src/Import.antt =====
-- The registration of Arrow readers as tables by copies: arrow.go and session.go, with Import of
-- internal/native/native.go.
pub mod Staging
pub mod Register
pub mod Shape
pub mod Complete
mod Tests
