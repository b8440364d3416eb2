-- ===== src/Node.antt =====
-- The methods of `WebRTC_CDN_Node`, and those methods of sinks, sources, senders and relays that call
-- the node back.
pub mod Limits
pub mod Config
pub mod Sinks
pub mod Race
pub mod Ready
pub mod Relayed
pub mod Tracks
pub mod Sources
pub mod Remote
