-- ===== src/Tests/Requests.antt =====
-- The requests of a client, accepted, refused and ended.
use webrtc_cdn.Prelude.{[], ◌∷◌, inl, Str, codes, ◌≡◌, ◌⊎◌, refl, arith, lookup}
use webrtc_cdn.Signaling.{SignalingMessage}
use webrtc_cdn.Auth.{check_authentication, parse}
use webrtc_cdn.Machine.State.{State}
use webrtc_cdn.Machine.Op.{done}
use webrtc_cdn.Connection.Requests.{
  param, request_type, new_source, receive_publish_message, receive_play_message,
  receive_close_message,
}
use webrtc_cdn.Connection.Lifecycle.{on_close}
use webrtc_cdn.Connection.Accept.{IsValid, HasRoom}
use webrtc_cdn.Connection.Publish.{IsPublished, receive_publish_message-IsPublished}
use webrtc_cdn.Connection.Play.{IsPlaying, asked, receive_play_message-IsPlaying}
use webrtc_cdn.Connection.Refuse.{
  Refuses, receive_publish_message-Refuses, receive_play_message-Refuses,
}
use webrtc_cdn.Connection.Coherent.{IsCoherent}
use webrtc_cdn.Connection.Close.{IsWithout, receive_close_message-IsWithout}
use webrtc_cdn.Connection.Lifecycle.{Surroundings, dispatch}
use webrtc_cdn.Connection.Limit.{receive_publish_message_over_limit}
use webrtc_cdn.Connection.Invariant.{StaysCoherent}
use webrtc_cdn.Connection.Dispatch.{IsSafe, dispatch-StaysCoherent}
use webrtc_cdn.Connection.Shutdown.{on_close-ends}
use webrtc_cdn.Registry.{registry}
use webrtc_cdn.Tests.Data.{tables, trusting, publishing_client, publishing, publish_cam}

pub cam_b-IsValid :
    IsValid trusting (codes "key") (codes "stream_publish") (publish_cam (codes "b"))
unfolding param lookup check_authentication parse
cam_b-IsValid = record { good_request = refl; good_stream = refl; authentic = refl }

cam_b-HasRoom : HasRoom 3 (param (codes "request-id") (publish_cam (codes "b"))) publishing
unfolding param lookup request_type
cam_b-HasRoom = record { unused = refl; below_limit = refl }

receive_publish_message-IsPublished_example :
    (t : State) × (receive_publish_message tables trusting
        (codes "key")
        3
        (publish_cam (codes "b"))
        []
        publishing
      ≡ done t)
    × IsPublished 3 2
        (new_source tables 3 (publish_cam (codes "b")))
        (registry publishing)
        (registry t)
unfolding param lookup
receive_publish_message-IsPublished_example =
    receive_publish_message-IsPublished tables trusting (codes "key") 3 (publish_cam (codes "b"))
      publishing cam_b-IsValid cam_b-HasRoom (omega arith, λ e. omega (arith, e))

-- PLAY of the stream "cam", where there is no secret.
abbrev pub play_cam : SignalingMessage
play_cam = record {
  method = codes "PLAY";
  params = (codes "request-id", codes "v") ∷ (codes "stream-id", codes "cam") ∷ [];
  body = [];
}

pub play_cam-IsValid : IsValid trusting [] (codes "stream_play") play_cam
unfolding param lookup check_authentication
play_cam-IsValid = record { good_request = refl; good_stream = refl; authentic = refl }

play_cam-HasRoom : HasRoom 0 (param (codes "request-id") play_cam) publishing
unfolding param lookup request_type
play_cam-HasRoom = record { unused = refl; below_limit = refl }

receive_play_message-IsPlaying_example :
    (t : State) × (receive_play_message trusting [] 0 play_cam [] publishing ≡ done t)
    × IsPlaying 0 2 (asked 0 play_cam publishing) (registry publishing) (registry t)
receive_play_message-IsPlaying_example =
    receive_play_message-IsPlaying trusting [] 0 play_cam publishing play_cam-IsValid
      play_cam-HasRoom

-- The request ID "a" is in use.
receive_publish_message-Refuses_example :
    (IsValid trusting (codes "key") (codes "stream_publish") (publish_cam (codes "a"))
      × HasRoom 0 (param (codes "request-id") (publish_cam (codes "a"))) publishing)
    ⊎ Refuses 0 (param (codes "request-id") (publish_cam (codes "a"))) publishing (
        receive_publish_message tables trusting
          (codes "key")
          0
          (publish_cam (codes "a"))
          []
          publishing)
unfolding param lookup check_authentication parse
receive_publish_message-Refuses_example =
    receive_publish_message-Refuses trusting (codes "key") 0 (publish_cam (codes "a")) publishing
      tables (λ e. cc)

-- A token for another subject.
receive_play_message-Refuses_example :
    (IsValid trusting (codes "key") (codes "stream_play") play_cam
      × HasRoom 0 (param (codes "request-id") play_cam) publishing)
    ⊎ Refuses 0
        (param (codes "request-id") play_cam)
        publishing
        (receive_play_message trusting (codes "key") 0 play_cam [] publishing)
unfolding param lookup check_authentication parse
receive_play_message-Refuses_example =
    receive_play_message-Refuses trusting (codes "key") 0 play_cam publishing (λ e. cc)

publishing_client-IsCoherent : IsCoherent publishing_client
unfolding lookup request_type
publishing_client-IsCoherent = record {
  known = (refl, inl refl, tt);
  published = λ id. ground arith;
  played = λ id. ground arith;
}

abbrev close_a : SignalingMessage
close_a = record {
  method = codes "CLOSE";
  params = (codes "request-id", codes "a") ∷ [];
  body = [];
}

receive_close_message-IsWithout_example :
    (t : State) × (receive_close_message 0 close_a [] publishing ≡ done t)
    × IsWithout (param (codes "request-id") close_a) publishing_client (t.handler_at 0)
receive_close_message-IsWithout_example =
    receive_close_message-IsWithout 0 close_a publishing publishing_client-IsCoherent

on_close-ends_example :
    (t : State) × (on_close 0 [] publishing ≡ done t)
    × ((id : Str) → request_type id (t.handler_at 0) ≡ 0)
on_close-ends_example = on_close-ends 0 publishing publishing_client-IsCoherent

-- A node whose limit is the one request that its client has.
abbrev crowded : State
crowded = record publishing { node = record (publishing.node) { request_limit = 1 } }

receive_publish_message_over_limit_example :
    (t : State) × (receive_publish_message tables trusting
        (codes "key")
        3
        (publish_cam (codes "b"))
        []
        crowded
      ≡ done t)
    × ((t.handler_at 3).request_count ≡ 2)
unfolding param lookup request_type
receive_publish_message_over_limit_example =
    receive_publish_message_over_limit tables trusting (codes "key") 3 (publish_cam (codes "b"))
      crowded cam_b-IsValid refl refl (omega arith) (omega arith, λ e. omega (arith, e))

abbrev pub around : Surroundings
around = record { now = 5; jwt_secret = codes "key"; jwt = trusting; unicode = tables }

cam_b-IsSafe : IsSafe around 3 (publish_cam (codes "b")) publishing
unfolding param lookup check_authentication parse
cam_b-IsSafe = record {
  publish_sound = λ m e. cc;
  publish_other = λ m. (omega arith, λ e. omega (arith, e));
  play_sound = λ m e. cc;
}

dispatch-StaysCoherent_example :
    StaysCoherent 3 (dispatch around 3 (publish_cam (codes "b")) [] publishing)
dispatch-StaysCoherent_example =
    dispatch-StaysCoherent around 3 (publish_cam (codes "b")) publishing
      publishing_client-IsCoherent cam_b-IsSafe
