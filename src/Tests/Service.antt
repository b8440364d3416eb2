-- ===== src/Tests/Service.antt =====
-- A node from its start: a client publishes "cam", and plays it.
use webrtc_cdn.Prelude.{
  ℕ, Map, [], ◌∷◌, none, some, Str, codes, ◌≡◌, ◌≢◌, refl, arith, lookup, insert, delete, str_key,
  nat_key,
}
use webrtc_cdn.Signaling.{parse_signaling_message}
use webrtc_cdn.Strings.{index, to_upper, to_lower, trim}
use webrtc_cdn.Auth.{check_authentication}
use webrtc_cdn.Connection.Requests.{
  param, request_type, validated, within_limits, new_source, alloc_source, note_source,
  start_source, receive_publish_message, alloc_sink, new_sink, start_sink, note_sink,
  receive_play_message,
}
use webrtc_cdn.Messages.Client.{send_ok_message, ok_message, send_standby_message, standby_message}
use webrtc_cdn.Messages.Redis.{
  send_info_message, send_redis_message, info_message, send_resolve_message, resolve_message,
}
use webrtc_cdn.Node.Sinks.{
  drop_relay, get_sink_id, register_sink, add_sink, sinks_of, find_tracks, ready_source,
  ready_relay, give_tracks,
}
use webrtc_cdn.Node.Sources.{register_source, drop_senders, senders_of}
use webrtc_cdn.Machine.State.{State}
use webrtc_cdn.Machine.Op.{Outcome, done, panicked, blocked}
use webrtc_cdn.Connection.Lifecycle.{text, end_run, run_round, dispatch}
use webrtc_cdn.Registry.{registry}
use webrtc_cdn.Registry.Consistent.{IsConsistent}
use webrtc_cdn.Redis.Listener.{receive_failed, payload, listen}
use webrtc_cdn.Service.{
  Setting, Happening, frame_read, happen, CanHappen, IsFresh, Reachable, fresh, next,
}
use webrtc_cdn.Service.Reach.{Reachable-IsConsistent, happen-ends}
use webrtc_cdn.Service.Streams.{end_run_frees_streams}
use webrtc_cdn.Registry.Sparing.{Spares}
use webrtc_cdn.Service.Sparing.{end_run-Spares}
use webrtc_cdn.Service.Listening.{Handles, listen-Handles}
use webrtc_cdn.Tests.Data.{tables, trusting, quiet}

-- Without a JWT secret everybody may publish.
abbrev pub open_house : Setting
open_house = record {
  around = record { now = 5; jwt_secret = []; jwt = trusting; unicode = tables };
  contains = λ _ _. none;
  whitelist = [];
}

pub quiet-IsFresh : IsFresh quiet
quiet-IsFresh = record {
  streams = refl;
  relays = refl;
  groups = refl;
  idle = refl;
  requests = λ h. refl;
  sources = λ h. refl;
  sinks = λ h. refl;
}

abbrev asks : Happening
asks = frame_read 0 (text (codes "PUBLISH\nrequest-id:a\nstream-id:cam\n"))

asks-CanHappen : CanHappen open_house asks quiet
unfolding check_authentication lookup
asks-CanHappen = record {
  known = omega arith;
  publish_sound = λ e x. cc;
  publish_other = λ e old here. cc;
  play_sound = λ e x. cc;
}

happen-ends_example : (t : State) × (happen open_house asks quiet ≡ done t) × Reachable open_house t
happen-ends_example = happen-ends open_house asks quiet (fresh quiet-IsFresh) asks-CanHappen

abbrev pub end_of : Outcome → State
end_of (done s) = s
end_of (panicked s) = s
end_of (blocked m held s) = s

abbrev pub on_air : State
on_air = end_of (happen open_house asks quiet)

asks_run : happen open_house asks quiet ≡ done on_air
unfolding happen run_round dispatch parse_signaling_message index to_upper to_lower trim
    receive_publish_message validated param lookup insert delete check_authentication within_limits
    request_type alloc_source new_source start_source note_source send_ok_message ok_message
    register_source drop_relay drop_senders senders_of send_info_message send_redis_message
    info_message
asks_run = refl

pub on_air-Reachable : Reachable open_house on_air
on_air-Reachable = next asks (fresh quiet-IsFresh) asks-CanHappen asks_run

Reachable-IsConsistent_example : IsConsistent (registry on_air)
Reachable-IsConsistent_example = Reachable-IsConsistent open_house on_air-Reachable

pub on_air_lem :
    (lookup (codes "cam") on_air.node.sources ≡ some 2)
    × (on_air.node.id ≡ codes "node")
    × (on_air.next_ref ≡ 3)
unfolding happen run_round dispatch parse_signaling_message index to_upper to_lower trim
    receive_publish_message validated param lookup insert delete check_authentication within_limits
    request_type alloc_source new_source start_source note_source send_ok_message ok_message
    register_source drop_relay drop_senders senders_of send_info_message send_redis_message
    info_message
on_air_lem = (refl, refl, refl)

-- The client plays what it publishes.
abbrev watches : Happening
watches = frame_read 0 (text (codes "PLAY\nrequest-id:b\nstream-id:cam\n"))

watches-CanHappen : CanHappen open_house watches on_air
unfolding check_authentication parse_signaling_message index to_upper to_lower trim
watches-CanHappen = record {
  known = omega (arith, on_air_lem.2);
  publish_sound = λ e x. cc;
  publish_other = λ e old here. cc;
  play_sound = λ e x. cc;
}

abbrev on_screen : State
on_screen = end_of (happen open_house watches on_air)

watches_run : happen open_house watches on_air ≡ done on_screen
unfolding happen run_round dispatch parse_signaling_message index to_upper to_lower trim
    receive_publish_message validated param lookup insert delete check_authentication within_limits
    request_type alloc_source new_source start_source note_source send_ok_message ok_message
    register_source drop_relay drop_senders senders_of send_info_message send_redis_message
    info_message receive_play_message alloc_sink get_sink_id new_sink start_sink note_sink
    send_standby_message standby_message register_sink add_sink sinks_of find_tracks ready_source
    ready_relay give_tracks send_resolve_message resolve_message
watches_run = refl

on_screen-Reachable : Reachable open_house on_screen
on_screen-Reachable = next watches on_air-Reachable watches-CanHappen watches_run

end_run_frees_streams_example :
    (t : State) × (end_run 0 [] on_screen ≡ done t)
    × ((sid : Str) (p : ℕ) → lookup sid t.node.sources ≡ some p → (t.source_at p).connection ≢ 0)
    × ((sid : Str) (id k : ℕ)
        → lookup id (sinks_of sid t.node) ≡ some k
        → (t.sink_at k).connection ≢ 0)
end_run_frees_streams_example = end_run_frees_streams open_house on_screen 0 on_screen-Reachable

end_run-Spares_example :
    (t : State) × (end_run 0 [] on_screen ≡ done t) × Spares 0 (registry on_screen) (registry t)
end_run-Spares_example = end_run-Spares open_house on_screen 0 on_screen-Reachable

-- Every message says that the node "far" has the stream "cam".
abbrev says_info : Str → Map Str Str
says_info _ =
    (codes "type", codes "INFO") ∷ (codes "src", codes "far") ∷ (codes "sid", codes "cam") ∷ []

listen-Handles_example :
    (t : State) × (listen says_info tables (receive_failed ∷ payload [] ∷ []) [] on_air ≡ done t)
    × Handles says_info tables (receive_failed ∷ payload [] ∷ []) on_air t
    × Reachable open_house t
listen-Handles_example =
    listen-Handles open_house says_info (receive_failed ∷ payload [] ∷ []) on_air on_air-Reachable

pub far_ne_node : codes "far" ≢ codes "node"
far_ne_node e = cc
