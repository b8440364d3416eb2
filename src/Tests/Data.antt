-- ===== src/Tests/Data.antt =====
-- A node with one client, and what the libraries are taken to return.
use webrtc_cdn.Prelude.{true, false, [], ◌∷◌, none, some, Str, codes, str_key, nat_key}
use webrtc_cdn.Strings.{Unicode}
use webrtc_cdn.Signaling.{SignalingMessage}
use webrtc_cdn.Auth.{Jwt, Token, text}
use webrtc_cdn.Machine.State.{
  State, WebrtcCdnNode, ConnectionHandler, WrtcSource, WrtcSink, WrtcRelay, WrtcSourceSender,
}

abbrev pub tables : Unicode
tables = record { upper = λ s. s; lower = λ s. s }

abbrev pub granted : Token
granted = record {
  is_map = true;
  valid = true;
  sub = text (codes "stream_publish");
  sid = text (codes "cam");
}

-- A library that takes every token for the one above.
abbrev pub trusting : Jwt
trusting = record { is_hmac = λ _. true; verify = λ _ _. some granted }

abbrev pub quiet_node : WebrtcCdnNode
quiet_node = record {
  id = codes "node";
  stand_alone = false;
  req_count = 0;
  sink_count = 0;
  ip_limit = 4;
  request_limit = 100;
  connections = [];
  ip_count = [];
  sources = [];
  relays = [];
  sinks = [];
  senders = [];
}

abbrev pub client : ConnectionHandler
client = record {
  id = 1;
  ip = codes "10.0.0.1";
  last_heartbeat = 0;
  closed = false;
  requests = [];
  request_count = 0;
  sources = [];
  sinks = [];
}

-- The source of request "a", which publishes the stream "cam" from the handler at 0.
abbrev pub camera : WrtcSource
camera = record {
  request_id = codes "a";
  sid = codes "cam";
  connection = 0;
  ready = false;
  closed = false;
  peer_connection = none;
  has_audio = true;
  local_track_audio = none;
  has_video = true;
  local_track_video = none;
}

abbrev pub viewer : WrtcSink
viewer = record {
  sink_id = 1;
  request_id = codes "v";
  sid = codes "cam";
  connection = 0;
  closed = false;
  peer_connection = none;
  has_audio = false;
  local_track_audio = none;
  has_video = false;
  local_track_video = none;
}

abbrev pub idle_relay : WrtcRelay
idle_relay = record {
  sid = codes "cam";
  remote_id = codes "far";
  ready = false;
  peer_connection = none;
  has_audio = false;
  has_video = false;
  local_track_video = none;
  local_track_audio = none;
}

abbrev pub idle_sender : WrtcSourceSender
idle_sender = record {
  sid = codes "cam";
  remote_id = codes "far";
  closed = false;
  peer_connection = none;
  has_audio = false;
  local_track_audio = none;
  has_video = false;
  local_track_video = none;
}

abbrev pub quiet : State
quiet = record {
  node = quiet_node;
  handler_at = λ _. client;
  source_at = λ _. camera;
  sink_at = λ _. viewer;
  relay_at = λ _. idle_relay;
  sender_at = λ _. idle_sender;
  next_ref = 2;
  out = [];
  tasks = [];
}

-- The client has published "cam", with the source at 1.
abbrev pub publishing_client : ConnectionHandler
publishing_client = record client {
  requests = (codes "a", 1) ∷ [];
  request_count = 1;
  sources = (codes "a", 1) ∷ [];
}

abbrev pub publishing : State
publishing = record quiet {
  node = record quiet_node { sources = (codes "cam", 1) ∷ [] };
  handler_at = λ _. publishing_client;
}

-- PUBLISH of the stream "cam" under a request ID.
abbrev pub publish_cam : Str → SignalingMessage
publish_cam id = record {
  method = codes "PUBLISH";
  params =
      (codes "request-id", id)
      ∷ (codes "stream-id", codes "cam")
      ∷ (codes "auth", codes "token")
      ∷ [];
  body = [];
}
