-- ===== src/Tests.antt =====
-- The theorems at concrete inputs, and runs of the code.
mod Data
mod Text
mod Access
mod Publish
mod Registry
mod Requests
mod Network
mod Connections
mod Service
mod Idle
mod Journey
mod Startup
