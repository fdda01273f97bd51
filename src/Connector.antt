-- ===== src/Connector.antt =====
-- datafusion.go from a DSN and options to an open connection, and the sessions of session.go.
pub mod Values
pub mod Dsn
pub mod Explicit
pub mod Query
pub mod Settled
pub mod Precedence
pub mod Open
pub mod Balance
mod Tests
