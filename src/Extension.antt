-- ===== src/Extension.antt =====
-- extensions.go and ffi_table_provider.go: the registration of Go and foreign objects on a session.
pub mod Calls
pub mod Register
pub mod Serialized
mod Tests
