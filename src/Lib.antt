-- ===== src/Lib.antt =====
-- webrtc-cdn, a network of nodes that deliver live media by WebRTC. A client opens a websocket to a
-- node and asks to publish a stream or to play one; nodes find each other's streams by Redis messages
-- and pass the media on from node to node. The program's media, sockets and encodings are libraries;
-- its own logic is who may connect, publish and play, which source, sink, relay and sender stands for
-- which stream, and which messages go where.
--
-- The files, and the code each is about:
--   Strings        what the program uses of Go's package strings
--   Signaling      signaling_parse.go: the messages of a client, parser and printer
--   Auth           authentication.go: checkAuthentication
--   Machine/State  the structs, and the memory that holds them; Machine/Op: mutexes, and the run of a
--                  goroutine from one event to its end; Machine/Wait: two goroutines that wait for
--                  each other
--   Messages       Client: the send… methods of connection_handler.go; Redis: those of redis_srv.go,
--                  wrtc_source_sender.go and wrtc_relay.go
--   Peer           Sink, Sender, Relay, Source: wrtc_sink.go, wrtc_source_sender.go, wrtc_relay.go and
--                  wrtc_source.go, on a record of the results of the peer connection library (Peer/Api)
--   Node           Limits: http_server.go; Config: init of node.go; Sinks: node_sinks.go; Sources:
--                  node_sources.go; Remote: node_sender_relay.go
--   Redis          receiveRedisMessage of redis_srv.go; Redis/Listener: the loop of setupRedisListener
--   Connection     Requests: PUBLISH, PLAY, ANSWER, CANDIDATE and CLOSE of connection_handler.go;
--                  Lifecycle: heartbeat, the loop of run with its dispatch, onClose and the end of run
--   Registry       who publishes and who plays, forgetting the rest of the memory; Registry/Change is
--                  the specification of the methods of a node on it, and its other children are about
--                  how the code follows it
--   Redis/Replies, Handshake, Journey, Delivery, Negotiation and Candidates are about two nodes,
--                  Connection/Publish, Play, Refuse, Limit, Close and Shutdown about the requests of a
--                  client, Connection/Crash about a token that makes its handler panic,
--                  Connection/Coherent, Invariant and Dispatch about the maps that hold the requests,
--                  Connection/Loop and Heartbeat about the loops of a connection, Node/Ready, Tracks
--                  and Relayed about who gets the tracks of a source or a relay, and Node/Race about a
--                  source that closes while another one is registered, and a sink that closes while its
--                  source becomes ready
--   Registry/Consistent, Playing and Feeding are about the agreement of the sources and the sinks of the
--                  node with those of the handlers, and about the relays of the node; Registry/Sparing
--                  is about what the end of one client's requests leaves alone
--   Node/Limits/Sessions is about the open connections of an address
--   Service        the node as a whole: Service.happen is what one goroutine does with one event, and
--                  Reachable the states that a sequence of events leads to from a node just started;
--                  its children follow each event (Keeps, Client, Closing, Requests, Ending, Peers,
--                  Remote, Messages, Http) and draw the conclusions (Reach, Streams, Idle,
--                  Sparing, Listening, Conflict, Takeover)
--   Startup        Log: log.go; Identity: main.go; Servers: the listeners of http_server.go, the Redis
--                  clients of node.go and redis_srv.go, and wrtc_config.go; Run: what main, run of node.go
--                  and the servers do, in order; Pipe: track_pipe.go; Numbers: strconv.Itoa and
--                  strconv.Atoi
--   Tests          runs of the code, and the theorems at concrete inputs
-- A definition has the name of its Go function in snake_case, with the receiver's short name where two
-- types share a method name (WRTC_Sink.close is sink_close). The comment above it names the Go function
-- where the two names differ.
--
-- A pointer is a number into the memory and nil is none; a Go map is an association list, in which an
-- absent key reads as the zero value. Counters are uint32 or uint64, with their wrap-around. The
-- operations of one goroutine run to their end, to a panic, or to a mutex that the goroutine itself
-- holds, which blocks it for ever. All definitions are structural
-- recursions. The only fuel is that of `digits` in Startup/Numbers: 20, the most digits of a uint64.
--
-- The JWT library, Unicode case tables, the strconv.Atoi of the limits, net.ParseCIDR, the websocket
-- upgrade, json.Unmarshal and the peer connection library are parameters, and so are the environment,
-- the formatted time of a log line and the random bytes of an identifier.
--
-- In Service a goroutine runs from one event to its end before the next one starts. That goroutines can
-- interleave is looked at only in Node/Race, where a schedule of two of them is followed.
--
-- Not modelled: readPacketsFromRTPSender, which only reads, and the go statements that start it; the ticker of wrtc_source.go that asks for
-- key frames, but for its start; SetReadLimit of the websocket, which is a setting of its library; the
-- callbacks of the certificate loader, which only log; and mutexes under which no other status mutex is
-- taken. The start of pipeTrack by OnTrack is a task, and what pipeTrack does is in Startup/Pipe.
mod Prelude
pub mod Strings
pub mod Signaling
pub mod Machine
pub mod Messages
pub mod Peer
pub mod Node
pub mod Auth
pub mod Redis
pub mod Connection
pub mod Registry
pub mod Service
pub mod Startup
mod Tests
