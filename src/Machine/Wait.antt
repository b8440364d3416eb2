-- ===== src/Machine/Wait.antt =====
-- Two goroutines that wait for each other. `sync.Mutex` has no owner: a goroutine waits for a mutex
-- whoever holds it, so what others hold stands in the list of held mutexes like its own.
use webrtc_cdn.Prelude.{◌≡◌, true, List, ◌++◌}
use webrtc_cdn.Machine.State.{State}
use webrtc_cdn.Machine.Op.{Op, Mutex, holds, blocked}

-- While others hold the mutexes `others`, the run from `s` comes to wait for `m` in `t`, having taken
-- the mutexes `own` on the way and kept them.
abbrev pub WaitsFor : Op → List Mutex → State → Mutex → List Mutex → State → Type 0
WaitsFor op others s m own t = op others s ≡ blocked m (own ++ others) t

-- A schedule after which neither goroutine ever moves: that of `b` takes `b_own`, which changes
-- nothing; that of `a` runs until it waits for one of these, having taken `a_own`; and that of `b`
-- goes on until it waits for one of `a_own`.
pub record IsDeadlock (a b : Op) (s : State) : Type 0 where
  pub a_mutex : Mutex
  pub b_mutex : Mutex
  pub a_own : List Mutex
  pub b_own : List Mutex
  pub a_end : State
  pub b_end : State
  pub a_waits : WaitsFor a b_own s a_mutex a_own a_end
  pub b_waits : WaitsFor b a_own a_end b_mutex b_own b_end
  pub b_has : holds a_mutex b_own ≡ true
  pub a_has : holds b_mutex a_own ≡ true
