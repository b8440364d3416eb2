-- ===== src/Tests/Registry.antt =====
-- The methods of sources, on a node with one client that publishes a stream.
use webrtc_cdn.Prelude.{true, false, [], ◌∷◌, some, refl, codes, lookup}
use webrtc_cdn.Machine.State.{State}
use webrtc_cdn.Machine.Wait.{IsDeadlock}
use webrtc_cdn.Node.Race.{close_during_register-IsDeadlock, close_during_ready-IsDeadlock}
use webrtc_cdn.Node.Sources.{
  source_close, source_on_close, register_source, source_on_track, source_track, video,
}
use webrtc_cdn.Registry.{registry, Yields}
use webrtc_cdn.Registry.Change.{close_source, lose_source, replace_source, without_sink}
use webrtc_cdn.Registry.Streams.{unlocked, source_close-Yields_deregister, source_on_close-Yields}
use webrtc_cdn.Node.Sinks.{sink_close, sinks_of}
use webrtc_cdn.Registry.Sinks.{sink_close-Yields}
use webrtc_cdn.Registry.Replace.{register_source-Yields}
use webrtc_cdn.Tests.Data.{publishing, camera}

source_close-Yields_deregister_example :
    Yields
      (close_source 1 false true (registry publishing))
      (source_close 1 false true [] publishing)
source_close-Yields_deregister_example =
    source_close-Yields_deregister [] unlocked 1 publishing refl refl

source_on_close-Yields_example :
    Yields (lose_source 1 (registry publishing)) (source_on_close 1 [] publishing)
source_on_close-Yields_example = source_on_close-Yields [] unlocked 1 publishing refl refl refl

-- The source at 0 takes the stream over from the one at 1.
register_source-Yields_example :
    Yields (replace_source 0 (registry publishing)) (register_source 0 [] publishing)
unfolding lookup
register_source-Yields_example = register_source-Yields [] unlocked 0 publishing refl (refl, refl)

sink_close-Yields_example :
    Yields (without_sink 0 (registry publishing)) (sink_close 0 [] publishing)
sink_close-Yields_example = sink_close-Yields [] unlocked 0 publishing refl

-- The peer connection of the source at 1 fails while the source at 0 takes the stream over.
close_during_register-IsDeadlock_example :
    IsDeadlock (source_on_close 1) (register_source 0) publishing
unfolding lookup
close_during_register-IsDeadlock_example =
    close_during_register-IsDeadlock 1 0 publishing (λ e. cc) refl refl

-- The sink at 0 waits for "cam", and so does the sender at 0.
abbrev awaited : State
awaited = record publishing {
  node = record (publishing.node) {
    sinks = (codes "cam", (1, 0) ∷ []) ∷ [];
    senders = (codes "cam", (codes "far", 0) ∷ []) ∷ [];
  };
}

-- The audio of "cam" is there.
abbrev heard : State
heard = record awaited { source_at = λ _. record camera { local_track_audio = some 6 } }

-- Its video comes while the client of the sink leaves.
close_during_ready-IsDeadlock_example :
    IsDeadlock (source_on_track 1 video (some 7)) (sink_close 0) heard
unfolding source_track sinks_of lookup
close_during_ready-IsDeadlock_example =
    close_during_ready-IsDeadlock 1 0 1 [] video (some 7)
      (record (heard.source_at 1) { local_track_video = some 7 }) heard refl refl refl
