-- ===== src/Service/Keeps.antt =====
-- Runs that end with records that agree.
use webrtc_cdn.Prelude.{Bool, true, false, if◌then◌else◌, ◌≡◌, refl, sym, subst}
use webrtc_cdn.Machine.State.{State}
use webrtc_cdn.Machine.Op.{Outcome, done, panicked, blocked}
use webrtc_cdn.Registry.{Registry, registry, Yields}
use webrtc_cdn.Registry.Consistent.{IsConsistent}

-- The run ends, neither in a panic nor blocked, and who publishes is recorded consistently.
abbrev pub Keeps : Outcome → Type 0
Keeps (done s) = IsConsistent (registry s)
Keeps (panicked s) = ⊥
Keeps (blocked m held s) = ⊥

pub Yields-Keeps : (r : Registry) (o : Outcome) → Yields r o → IsConsistent r → Keeps o
Yields-Keeps r (done s) y c = subst IsConsistent (sym y) c
Yields-Keeps r (panicked s) y c = y
Yields-Keeps r (blocked m held s) y c = y

pub Keeps-done : (o : Outcome) → Keeps o → (t : State) × (o ≡ done t) × IsConsistent (registry t)
Keeps-done (done s) k = (s, refl, k)
Keeps-done (panicked s) k = absurd k
Keeps-done (blocked m held s) k = absurd k

pub done-Keeps : (o : Outcome) (t : State) → o ≡ done t → IsConsistent (registry t) → Keeps o
done-Keeps o t e c = rw e c

pub if-Keeps : (b : Bool) (o q : Outcome) → Keeps o → Keeps q → Keeps (if b then o else q)
if-Keeps true o q k l = k
if-Keeps false o q k l = l
