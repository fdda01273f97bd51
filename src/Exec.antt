-- ===== src/Exec.antt =====
-- result.go: the number of affected rows, from the batches that a statement returns.
pub mod Count
pub mod Loop
pub mod Script
pub mod Sums
pub mod Totals
mod Tests
