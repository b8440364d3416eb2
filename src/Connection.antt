-- ===== src/Connection.antt =====
-- connection_handler.go: the signaling connection of a client.
pub mod Requests
pub mod Refuse
pub mod Play
pub mod Limit
pub mod Dispatch
pub mod Invariant
pub mod Heartbeat
pub mod Crash
pub mod Loop
pub mod Shutdown
pub mod Close
pub mod Coherent
pub mod Publish
pub mod Lifecycle
pub mod Accept
pub mod Deadlock
