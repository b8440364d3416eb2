-- ===== src/Tests/Journey.antt =====
-- Two nodes: one plays a stream of the other, and one takes a stream over from the other.
use webrtc_cdn.Prelude.{[], codes, ◌∙◌, refl, arith, lookup, str_key}
use webrtc_cdn.Machine.State.{State}
use webrtc_cdn.Connection.Requests.{param, request_type}
use webrtc_cdn.Connection.Accept.{HasRoom}
use webrtc_cdn.Redis.Journey.{IsFetched, play_reaches_source}
use webrtc_cdn.Service.Takeover.{IsTakenOver, publish_takes_over}
use webrtc_cdn.Tests.Data.{tables, trusting, quiet_node, quiet, publishing, publish_cam}
use webrtc_cdn.Tests.Requests.{cam_b-IsValid, play_cam, play_cam-IsValid}
use webrtc_cdn.Tests.Service.{open_house, on_air, on_air-Reachable, on_air_lem, far_ne_node}

abbrev far_quiet : State
far_quiet = record quiet { node = record quiet_node { id = codes "far" } }

far_quiet-HasRoom : HasRoom 0 (param (codes "request-id") play_cam) far_quiet
unfolding param lookup request_type
far_quiet-HasRoom = record { unused = refl; below_limit = refl }

play_reaches_source_example : IsFetched tables trusting [] 0 play_cam publishing far_quiet
unfolding param lookup
play_reaches_source_example =
    play_reaches_source tables trusting [] 0 play_cam publishing far_quiet 1 play_cam-IsValid
      far_quiet-HasRoom (λ e. cc) refl refl refl refl refl

abbrev far_publishing : State
far_publishing = record publishing { node = record (publishing.node) { id = codes "far" } }

far_publishing-HasRoom :
    HasRoom 3 (param (codes "request-id") (publish_cam (codes "b"))) far_publishing
unfolding param lookup request_type
far_publishing-HasRoom = record { unused = refl; below_limit = refl }

publish_takes_over_example :
    IsTakenOver tables trusting
      (codes "key")
      3
      (publish_cam (codes "b"))
      far_publishing
      tables
      on_air
      2
unfolding param lookup
publish_takes_over_example =
    publish_takes_over open_house tables trusting (codes "key") 3 (publish_cam (codes "b"))
      far_publishing on_air 2 cam_b-IsValid far_publishing-HasRoom
      (omega arith, λ e. omega (arith, e)) refl on_air-Reachable
      (λ e. far_ne_node (e ∙ on_air_lem.1)) on_air_lem.0
