-- ===== src/Service/Sparing.antt =====
-- The end of one connection, and the others.
use webrtc_cdn.Prelude.{ℕ, [], ◌≡◌}
use webrtc_cdn.Machine.State.{State}
use webrtc_cdn.Machine.Op.{done}
use webrtc_cdn.Connection.Lifecycle.{end_run}
use webrtc_cdn.Registry.{registry}
use webrtc_cdn.Registry.Sparing.{Spares}
use webrtc_cdn.Service.{Setting, Reachable}
use webrtc_cdn.Service.Closing.{end_run-Ends}
use webrtc_cdn.Service.Reach.{Reachable-IsConsistent}

-- The end of a connection, in a state that the node comes to from its start, comes to an end, and
-- leaves the others alone: every other handler is as it was, with all its requests; every source of
-- another handler is as it was, still open where it was open; a stream whose source, if it has one, is
-- of another handler keeps it; and a sink whose stream and ID no sink of this handler has stays among
-- those of its stream.
pub end_run-Spares :
    (w : Setting) (s : State) (h : ℕ)
    → Reachable w s
    → (t : State) × (end_run h [] s ≡ done t) × Spares h (registry s) (registry t)
end_run-Spares w s h r =
    let (t, run, c, spared) = end_run-Ends h s (Reachable-IsConsistent w r) in (t, run, spared)
