-- ===== src/Connection/Requests.antt =====
-- The messages of a client: PUBLISH, PLAY, ANSWER, CANDIDATE and CLOSE.
use webrtc_cdn.Prelude.{
  ℕ, suc, Bool, true, false, not, ◌||◌, [], Option, none, some, Str, codes, length, if◌then◌else◌,
  ltb, ◌==◌, str_eq, lookup, insert, delete, str_key,
}
use webrtc_cdn.Strings.{Unicode, to_upper}
use webrtc_cdn.Signaling.{SignalingMessage}
use webrtc_cdn.Auth.{Jwt, allowed, refused, crash, check_authentication}
use webrtc_cdn.Machine.State.{
  State, ConnectionHandler, WrtcSource, WrtcSink, set_handler, spawn, run_source, update,
}
use webrtc_cdn.Machine.Op.{Op, handler_status, locked, change, when, skip, panic, ◌>>=◌, ◌>>◌}
use webrtc_cdn.Messages.Client.{
  request_type_publish, request_type_play, inc32, dec32, send_error_message, send_ok_message,
  send_standby_message,
}
use webrtc_cdn.Peer.Source.{source_on_answer, source_on_ice_candidate}
use webrtc_cdn.Peer.Sink.{sink_on_answer, sink_on_ice_candidate}
use webrtc_cdn.Node.Sinks.{get_sink_id, register_sink, sink_close}
use webrtc_cdn.Node.Sources.{register_source, source_close}

-- `msg.params[key]`; an absent key reads as the empty text.
unfoldable pub param : Str → SignalingMessage → Str
param key msg = elim (lookup key msg.params) [ none ↦ [] | some v ↦ v ]

-- `h.requests[requestId]`; an absent key reads as 0.
unfoldable pub request_type : Str → ConnectionHandler → ℕ
request_type id c = elim (lookup id c.requests) [ none ↦ 0 | some t ↦ t ]

-- `len(id) == 0 || len(id) > 255`
abbrev pub is_bad_id : Str → Bool
is_bad_id id = length id == 0 || ltb 255 (length id)

-- The checks of `receivePublishMessage` and `receivePlayMessage` that come before the lock, and
-- what follows them.
unfoldable pub validated : Jwt → Str → Str → ℕ → SignalingMessage → Op → Op
validated jwt secret subject h msg body =
    let request_id = param (codes "request-id") msg in
    let stream_id = param (codes "stream-id") msg in
    if is_bad_id request_id
    then send_error_message h (codes "INVALID_REQUEST_ID")
        (codes "Request ID must be an string from 1 to 255 characters.") request_id
    else if is_bad_id stream_id
    then send_error_message h (codes "INVALID_STREAM_ID")
        (codes "Stream ID must be an string from 1 to 255 characters.") request_id
    else elim (check_authentication jwt secret (param (codes "auth") msg) subject stream_id) [
      | allowed ↦ body
      | refused ↦
          send_error_message h (codes "INVALID_AUTH") (codes "Invalid authentication provided.")
            request_id
      | crash ↦ panic
    ]

-- The checks under the lock, and what follows them.
unfoldable pub within_limits : ℕ → Str → Op → Op
within_limits h request_id body = locked (handler_status h) do
  c ← λ s. s.handler_at h
  limit ← λ s. s.node.request_limit
  if not (request_type request_id c == 0)
      then send_error_message h (codes "PROTOCOL_ERROR")
          (codes "You reused the same request ID for 2 different requests.") request_id
      else if ltb limit c.request_count
      then send_error_message h (codes "LIMIT_REQUESTS")
          (codes "Too many requests on the same socket.") request_id
      else body

-- The source that a PUBLISH message asks for. `hasVideo` is false for AUDIO, `hasAudio` for VIDEO.
unfoldable pub new_source : Unicode → ℕ → SignalingMessage → WrtcSource
new_source u h msg =
    let stream_type = to_upper u (param (codes "stream-type") msg) in
    let is_audio = str_eq stream_type (codes "AUDIO") in
    record {
      request_id = param (codes "request-id") msg;
      sid = param (codes "stream-id") msg;
      connection = h;
      ready = false;
      closed = false;
      peer_connection = none;
      has_audio = is_audio || not (str_eq stream_type (codes "VIDEO"));
      local_track_audio = none;
      has_video = not is_audio;
      local_track_video = none;
    }

unfoldable pub alloc_source : WrtcSource → State → State
alloc_source source s = record s {
  source_at = update s.source_at s.next_ref source;
  next_ref = suc s.next_ref;
}

-- The writes of an accepted request to the handler.
unfoldable pub note_source : Str → ℕ → ConnectionHandler → ConnectionHandler
note_source id p c = record c {
  request_count = inc32 c.request_count;
  requests = insert id request_type_publish c.requests;
  sources = insert id p c.sources;
}

unfoldable pub note_sink : Str → ℕ → ConnectionHandler → ConnectionHandler
note_sink id p c = record c {
  request_count = inc32 c.request_count;
  requests = insert id request_type_play c.requests;
  sinks = insert id p c.sinks;
}

-- An accepted PUBLISH, under the lock.
unfoldable pub start_source : ℕ → Str → ℕ → Op
start_source h request_id p = do
  change (λ s. set_handler h (note_source request_id p (s.handler_at h)) s)
  send_ok_message h request_id
  register_source p
  change (spawn (run_source p))

-- `receivePublishMessage`
unfoldable pub receive_publish_message : Unicode → Jwt → Str → ℕ → SignalingMessage → Op
receive_publish_message u jwt secret h msg = validated jwt secret (codes "stream_publish") h msg do
  p ← λ s. s.next_ref
  change (alloc_source (new_source u h msg))
  within_limits h (param (codes "request-id") msg)
      (start_source h (param (codes "request-id") msg) p)

-- The sink that a PLAY message asks for.
unfoldable pub new_sink : ℕ → ℕ → SignalingMessage → WrtcSink
new_sink sink_id h msg = record {
  sink_id = sink_id;
  request_id = param (codes "request-id") msg;
  sid = param (codes "stream-id") msg;
  connection = h;
  closed = false;
  peer_connection = none;
  has_audio = false;
  local_track_audio = none;
  has_video = false;
  local_track_video = none;
}

-- `getSinkID`, and the new sink in memory.
unfoldable pub alloc_sink : ℕ → SignalingMessage → State → State
alloc_sink h msg s =
    let (n, sink_id) = get_sink_id s.node in
    record s {
      node = n;
      sink_at = update s.sink_at s.next_ref (new_sink sink_id h msg);
      next_ref = suc s.next_ref;
    }

-- An accepted PLAY, under the lock.
unfoldable pub start_sink : ℕ → Str → ℕ → Op
start_sink h request_id p = do
  change (λ s. set_handler h (note_sink request_id p (s.handler_at h)) s)
  send_ok_message h request_id
  send_standby_message h request_id
  register_sink p

-- `receivePlayMessage`
unfoldable pub receive_play_message : Jwt → Str → ℕ → SignalingMessage → Op
receive_play_message jwt secret h msg = validated jwt secret (codes "stream_play") h msg do
  p ← λ s. s.next_ref
  change (alloc_sink h msg)
  within_limits h (param (codes "request-id") msg) (start_sink h (param (codes "request-id") msg) p)

-- A method called on a pointer from a map: a panic if it is nil.
unfoldable pub call : (ℕ → Op) → Option ℕ → Op
call f none = panic
call f (some p) = f p

-- The same, behind a test that the pointer is not nil.
unfoldable pub call_unless_nil : (ℕ → Op) → Option ℕ → Op
call_unless_nil f none = skip
call_unless_nil f (some p) = f p

-- The test on the type of a request that ANSWER, CANDIDATE and CLOSE share, under the lock.
unfoldable pub by_type : ℕ → Str → (ConnectionHandler → Op) → (ConnectionHandler → Op) → Op
by_type h request_id publish play = locked (handler_status h) do
  c ← λ s. s.handler_at h
  if request_type request_id c == 0
      then skip
      else if request_type request_id c == request_type_publish
      then publish c
      else when (request_type request_id c == request_type_play) (play c)

-- `receiveAnswerMessage`
unfoldable pub receive_answer_message : ℕ → SignalingMessage → Op
receive_answer_message h msg =
    let request_id = param (codes "request-id") msg in
    by_type h request_id
      (λ c. call_unless_nil (λ p. source_on_answer p msg.body) (lookup request_id c.sources))
      (λ c. call_unless_nil (λ p. sink_on_answer p msg.body) (lookup request_id c.sinks))

-- `receiveCandidateMessage`
unfoldable pub receive_candidate_message : ℕ → SignalingMessage → Op
receive_candidate_message h msg =
    let request_id = param (codes "request-id") msg in
    by_type h request_id
      (λ c. call (λ p. source_on_ice_candidate p msg.body) (lookup request_id c.sources))
      (λ c. call (λ p. sink_on_ice_candidate p msg.body) (lookup request_id c.sinks))

-- The deletions of a closed PUBLISH and of a closed PLAY.
unfoldable pub end_source : ℕ → Str → State → State
end_source h id s =
    set_handler h
      (record c {
        sources = delete id c.sources;
        requests = delete id c.requests;
        request_count = dec32 c.request_count;
      })
      s
  where
    c : ConnectionHandler
    c = s.handler_at h

unfoldable pub end_sink : ℕ → Str → State → State
end_sink h id s =
    set_handler h
      (record c {
        sinks = delete id c.sinks;
        requests = delete id c.requests;
        request_count = dec32 c.request_count;
      })
      s
  where
    c : ConnectionHandler
    c = s.handler_at h

-- What `receiveCloseMessage` and `onClose` do with a request of either type.
unfoldable pub close_publish : ℕ → Str → ConnectionHandler → Op
close_publish h id c = do
  call (λ p. source_close p false true) (lookup id c.sources)
  change (end_source h id)

unfoldable pub close_play : ℕ → Str → ConnectionHandler → Op
close_play h id c = do call sink_close (lookup id c.sinks); change (end_sink h id)

-- `receiveCloseMessage`
unfoldable pub receive_close_message : ℕ → SignalingMessage → Op
receive_close_message h msg =
    let request_id = param (codes "request-id") msg in
    by_type h request_id (close_publish h request_id) (close_play h request_id)
