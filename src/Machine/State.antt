-- ===== src/Machine/State.antt =====
-- The structs of wrtc_source.go, wrtc_sink.go, wrtc_relay.go, wrtc_source_sender.go,
-- connection_handler.go and node.go, and the memory of the process that holds them.
-- A pointer is a number; `none` is nil. Mutexes stand in Machine/Op, not in the structs.
use webrtc_cdn.Prelude.{ℕ, Bool, List, ◌∷◌, Option, Str, Map, ◌==◌, if◌then◌else◌, ◌≡◌, arith}
use webrtc_cdn.Signaling.{SignalingMessage}

-- `WRTC_Source`: Client -> Node.
pub record WrtcSource : Type 0 where
  pub request_id : Str
  pub sid : Str
  pub connection : ℕ
  pub ready : Bool
  pub closed : Bool
  pub peer_connection : Option ℕ
  pub has_audio : Bool
  pub local_track_audio : Option ℕ
  pub has_video : Bool
  pub local_track_video : Option ℕ

-- `WRTC_Sink`: Node -> Client.
pub record WrtcSink : Type 0 where
  pub sink_id : ℕ
  pub request_id : Str
  pub sid : Str
  pub connection : ℕ
  pub closed : Bool
  pub peer_connection : Option ℕ
  pub has_audio : Bool
  pub local_track_audio : Option ℕ
  pub has_video : Bool
  pub local_track_video : Option ℕ

-- `WRTC_Relay`: Node -> Node, the input end.
pub record WrtcRelay : Type 0 where
  pub sid : Str
  pub remote_id : Str
  pub ready : Bool
  pub peer_connection : Option ℕ
  pub has_audio : Bool
  pub has_video : Bool
  pub local_track_video : Option ℕ
  pub local_track_audio : Option ℕ

-- `WRTC_Source_Sender`: Node -> Node, the output end.
pub record WrtcSourceSender : Type 0 where
  pub sid : Str
  pub remote_id : Str
  pub closed : Bool
  pub peer_connection : Option ℕ
  pub has_audio : Bool
  pub local_track_audio : Option ℕ
  pub has_video : Bool
  pub local_track_video : Option ℕ

-- `Connection_Handler`. An absent key of `requests` reads as 0.
pub record ConnectionHandler : Type 0 where
  pub id : ℕ
  pub ip : Str
  pub last_heartbeat : ℕ
  pub closed : Bool
  pub requests : Map Str ℕ
  pub request_count : ℕ
  pub sources : Map Str ℕ
  pub sinks : Map Str ℕ

-- `WebRTC_CDN_Node`.
pub record WebrtcCdnNode : Type 0 where
  pub id : Str
  pub stand_alone : Bool
  pub req_count : ℕ
  pub sink_count : ℕ
  pub ip_limit : ℕ
  pub request_limit : ℕ
  pub connections : Map ℕ ℕ
  pub ip_count : Map Str ℕ
  pub sources : Map Str ℕ
  pub relays : Map Str ℕ
  pub sinks : Map Str (Map ℕ ℕ)
  pub senders : Map Str (Map Str ℕ)

-- What the process does to the outside.
pub data Event : Type 0 where
  -- A message written to the websocket of a handler.
  to_client : ℕ → SignalingMessage → Event
  -- A map published, as JSON, on a Redis channel.
  published : Str → Map Str Str → Event
  -- `Close` of a peer connection, and of the websocket of a handler.
  peer_closed : ℕ → Event
  websocket_closed : ℕ → Event
  -- The status of the answer to an HTTP request, by the ID of the request.
  http_status : ℕ → ℕ → Event
  -- `AddICECandidate` and `SetRemoteDescription`, with the JSON that they are given.
  candidate_added : ℕ → Str → Event
  answer_set : ℕ → Str → Event

-- A goroutine that a `go` statement starts.
pub data Task : Type 0 where
  run_handler send_heartbeats run_source run_sink run_sender : ℕ → Task
  relay_closes : ℕ → Task
  -- `pipeTrack` from a track received to this local one, and the requests for key frames of a source.
  run_pipe : Option ℕ → Task
  request_key_frames : ℕ → Task
  relay_offer : ℕ → Str → Bool → Bool → Task

-- The memory, the events so far, newest first, and the goroutines started, newest first.
pub record State : Type 0 where
  pub node : WebrtcCdnNode
  pub handler_at : ℕ → ConnectionHandler
  pub source_at : ℕ → WrtcSource
  pub sink_at : ℕ → WrtcSink
  pub relay_at : ℕ → WrtcRelay
  pub sender_at : ℕ → WrtcSourceSender
  pub next_ref : ℕ
  pub out : List Event
  pub tasks : List Task

abbrev pub update {ℓ} : {A : Type ℓ} → (ℕ → A) → ℕ → A → ℕ → A
update f p v q = if p == q then v else f q

abbrev pub set_node : WebrtcCdnNode → State → State
set_node n s = record s { node = n }

abbrev pub set_handler : ℕ → ConnectionHandler → State → State
set_handler p v s = record s { handler_at = update s.handler_at p v }

abbrev pub set_source : ℕ → WrtcSource → State → State
set_source p v s = record s { source_at = update s.source_at p v }

abbrev pub set_sink : ℕ → WrtcSink → State → State
set_sink p v s = record s { sink_at = update s.sink_at p v }

abbrev pub set_relay : ℕ → WrtcRelay → State → State
set_relay p v s = record s { relay_at = update s.relay_at p v }

abbrev pub set_sender : ℕ → WrtcSourceSender → State → State
set_sender p v s = record s { sender_at = update s.sender_at p v }

abbrev pub emit : Event → State → State
emit e s = record s { out = e ∷ s.out }

abbrev pub spawn : Task → State → State
spawn t s = record s { tasks = t ∷ s.tasks }

-- `Close` of a peer connection that may be nil.
abbrev pub close_peer : Option ℕ → State → State
close_peer p s = elim p [ Option.none ↦ s | Option.some c ↦ emit (Event.peer_closed c) s ]

pub update_self {ℓ} : {A : Type ℓ} (f : ℕ → A) (p : ℕ) (v : A) → update f p v p ≡ v
update_self f p v = ground arith

pub update_ne {ℓ} : {A : Type ℓ} (f : ℕ → A) (p q : ℕ) (v : A) → (p ≡ q → ⊥) → update f p v q ≡ f q
update_ne f p q v h = ground arith
