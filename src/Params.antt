-- ===== src/Params.antt =====
-- parameters.go, internal/native/parameters.go and the parameter binding of
-- internal/native/native.go.
pub mod Value
pub mod Normalize
pub mod Args
pub mod Bind
pub mod Decode
pub mod Lossless
pub mod Accepted
pub mod Pipeline
mod Tests
