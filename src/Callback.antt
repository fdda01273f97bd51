-- ===== src/Callback.antt =====
-- internal/native/callbacks.go: what the native library calls in Go, behind handles of Go objects.
pub mod Names
pub mod Scan
pub mod Handles
pub mod Opcodes
pub mod Dispatch
pub mod Plain
pub mod Children
pub mod Owned
pub mod SafeReader
mod Tests
