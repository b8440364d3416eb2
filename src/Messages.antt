-- ===== src/Messages.antt =====
-- What a node writes: the signaling messages of connection_handler.go, and the Redis messages of
-- redis_srv.go, wrtc_source_sender.go and wrtc_relay.go.
pub mod Client
pub mod Redis
