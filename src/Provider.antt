-- ===== src/Provider.antt =====
-- provider_reader.go: readers that select columns of another reader, or limit its rows.
pub mod Reader
pub mod Cells
pub mod Rows
pub mod Ownership
mod Tests
