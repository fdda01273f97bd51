-- ===== src/Session.antt =====
-- connection.go, statement.go, execution.go and the Connector of datafusion.go: connectors, connections
-- and statements, and the native handles that they own.
pub mod State
pub mod Statements
pub mod Connections
pub mod Queries
pub mod Invariant
pub mod Preserved
pub mod Resets
pub mod Runs
pub mod Traces
mod Tests
pub mod Mutex
pub mod BadConn
pub mod SharedInit
