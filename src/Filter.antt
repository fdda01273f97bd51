-- ===== src/Filter.antt =====
-- internal/native/expr.go: the filter predicates that the engine hands to a provider, and their
-- decoding from JSON.
pub mod Json
pub mod Scalars
pub mod Literals
pub mod Decode
pub mod Print
pub mod RoundTrip
pub mod Yields
pub mod Typed
pub mod Parts
pub mod Sound
mod Tests
