-- ===== src/Startup.antt =====
-- The start of a node and what surrounds it: main.go, log.go, wrtc_config.go, track_pipe.go, `run` of
-- node.go and the servers of http_server.go. `os.Getenv` is a function from names to values.
pub mod Numbers
pub mod Log
pub mod Servers
pub mod Identity
pub mod Pipe
pub mod Run
