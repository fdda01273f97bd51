-- ===== src/Reader.antt =====
-- Readers of Arrow batches: the interface, and its implementations.
pub mod Interface
pub mod Native
pub mod Tidy
pub mod Serialized
mod Tests
