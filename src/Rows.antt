-- ===== src/Rows.antt =====
-- rows.go: batches as rows of database/sql.
pub mod Types
pub mod Value
pub mod Durations
pub mod Agree
pub mod Columns
pub mod Iterate
pub mod Order
pub mod Next
pub mod Release
pub mod Metadata
mod Tests
