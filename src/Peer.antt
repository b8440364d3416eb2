-- ===== src/Peer.antt =====
-- The four ends of WebRTC connections: the methods of `WRTC_Sink`, `WRTC_Source_Sender`, `WRTC_Relay`
-- and `WRTC_Source` that do not call the node back. Those that do stand below Node.
pub mod Api
pub mod Sink
pub mod Sender
pub mod Relay
pub mod Source
