-- ===== src/Connection/Lifecycle.antt =====
-- The heartbeat, the dispatch of a message, and the end of a connection.
use webrtc_cdn.Prelude.{
  ℕ, ◌+◌, ◌*◌, true, not, List, [], ◌∷◌, Str, codes, Map, if◌then◌else◌, leb, ◌==◌, str_eq,
}
use webrtc_cdn.Strings.{Unicode}
use webrtc_cdn.Signaling.{SignalingMessage, parse_signaling_message}
use webrtc_cdn.Auth.{Jwt}
use webrtc_cdn.Machine.State.{
  State, set_handler, set_node, emit, spawn, send_heartbeats, websocket_closed,
}
use webrtc_cdn.Machine.Op.{
  Op, Outcome, done, panicked, blocked, handler_status, locked, change, when, skip, ◌>>=◌, ◌>>◌,
}
use webrtc_cdn.Messages.Client.{request_type_publish, request_type_play, send}
use webrtc_cdn.Node.Limits.{on_connection_close}
use webrtc_cdn.Connection.Requests.{
  request_type, receive_publish_message, receive_play_message, receive_answer_message,
  receive_candidate_message, receive_close_message, close_publish, close_play,
}

-- `HEARTBEAT_MSG_PERIOD_SECONDS` and `HEARTBEAT_TIMEOUT_MS`
abbrev pub heartbeat_msg_period_seconds : ℕ
heartbeat_msg_period_seconds = 30

abbrev pub heartbeat_timeout_ms : ℕ
heartbeat_timeout_ms = 2 * heartbeat_msg_period_seconds * 1000

-- `receiveHeartbeat`, at a time in milliseconds.
unfoldable pub receive_heartbeat : ℕ → ℕ → Op
receive_heartbeat now h =
    locked (handler_status h)
      (change (λ s. set_handler h (record (s.handler_at h) { last_heartbeat = now }) s))

-- `checkHeartbeat`: `now - last >= timeout` over signed integers.
unfoldable pub check_heartbeat : ℕ → ℕ → Op
check_heartbeat now h = locked (handler_status h) do
  c ← λ s. s.handler_at h
  when (leb (c.last_heartbeat + heartbeat_timeout_ms) now) (change (emit (websocket_closed h)))

-- One round of `sendHeartbeatMessages`, after its sleep.
unfoldable pub heartbeat_round : ℕ → ℕ → Op
heartbeat_round now h = do
  c ← λ s. s.handler_at h
  when (not c.closed) do
    send h (record { method = codes "HEARTBEAT"; params = []; body = [] })
    check_heartbeat now h

-- The loop of `onClose` over the IDs of the requests.
unfoldable pub close_requests : ℕ → List Str → Op
close_requests h [] = skip
close_requests h (id ∷ ids) =
    let rest = close_requests h ids in
    do
      c ← λ s. s.handler_at h
      if request_type id c == 0
          then skip
          else if request_type id c == request_type_publish
          then close_publish h id c >> rest
          else if request_type id c == request_type_play
          then close_play h id c >> rest
          else rest

abbrev pub keys {ℓ κ} : {K : Type ℓ} {V : Type κ} → Map K V → List K
keys [] = []
keys ((k, v) ∷ m) = k ∷ keys m

-- `onClose`
unfoldable pub on_close : ℕ → Op
on_close h =
    locked (handler_status h) do ids ← λ s. keys (s.handler_at h).requests; close_requests h ids

-- The deferred end of `run`.
unfoldable pub end_run : ℕ → Op
end_run h = do
  change (emit (websocket_closed h))
  change (λ s. set_handler h (record (s.handler_at h) { closed = true }) s)
  on_close h
  c ← λ s. s.handler_at h
  change (λ s. set_node (on_connection_close c.id c.ip s.node) s)

-- The start of `run`, at a time in milliseconds: the heartbeat begins.
unfoldable pub begin_run : ℕ → ℕ → Op
begin_run now h = do
  change (λ s. set_handler h (record (s.handler_at h) { last_heartbeat = now }) s)
  change (spawn (send_heartbeats h))

-- What a handler takes from outside: the time, the JWT secret, and the libraries.
pub record Surroundings : Type 0 where
  pub now : ℕ
  pub jwt_secret : Str
  pub jwt : Jwt
  pub unicode : Unicode

-- The `switch` of `run`.
unfoldable pub dispatch : Surroundings → ℕ → SignalingMessage → Op
dispatch e h msg =
    if str_eq msg.method (codes "HEARTBEAT")
    then receive_heartbeat e.now h
    else if str_eq msg.method (codes "PUBLISH")
    then receive_publish_message e.unicode e.jwt e.jwt_secret h msg
    else if str_eq msg.method (codes "PLAY")
    then receive_play_message e.jwt e.jwt_secret h msg
    else if str_eq msg.method (codes "ANSWER")
    then receive_answer_message h msg
    else if str_eq msg.method (codes "CANDIDATE")
    then receive_candidate_message h msg
    else if str_eq msg.method (codes "CLOSE")
    then receive_close_message h msg
    else skip

-- What `ReadMessage` returns.
pub data Frame : Type 0 where
  text : Str → Frame
  binary : Frame
  failed : Frame

-- A panic is recovered by the deferred end of `run`, with the mutexes released.
abbrev recovered : ℕ → Outcome → Outcome
recovered h (done s) = done s
recovered h (panicked s) = end_run h [] s
recovered h (blocked m held s) = blocked m held s

-- One round of the loop of `run`; a failed read ends the loop.
unfoldable pub run_round : Surroundings → ℕ → Frame → State → Outcome
run_round e h (text raw) s = recovered h (dispatch e h (parse_signaling_message e.unicode raw) [] s)
run_round e h binary s = done s
run_round e h failed s = end_run h [] s

-- What follows a message: the next round, or, after a panic, the deferred end of `run`.
abbrev pub next_round : ℕ → Outcome → (State → Outcome) → Outcome
next_round h (done s) k = k s
next_round h (panicked s) k = end_run h [] s
next_round h (blocked m held s) k = blocked m held s

-- The loop of `run`, over what `ReadMessage` returns, each at its time.
unfoldable pub run_loop : Surroundings → ℕ → List (ℕ × Frame) → State → Outcome
run_loop e h [] s = done s
run_loop e h ((now, text raw) ∷ frames) s =
    next_round h (dispatch (record e { now = now }) h (parse_signaling_message e.unicode raw) [] s)
      (run_loop e h frames)
run_loop e h ((now, binary) ∷ frames) s = run_loop e h frames s
run_loop e h ((now, failed) ∷ frames) s = end_run h [] s
