-- ===== src/Machine/Op.antt =====
-- The run of one goroutine, from one event to its end: it sees the mutexes that it holds, and ends
-- with a new state, with a panic, or blocked for ever on a mutex that it holds itself, since
-- `sync.Mutex` is not reentrant. `defer Unlock` makes the locks nest. Kept here are the status
-- mutexes of the node and of each struct; the mutexes that guard one counter, one write or one
-- map, under which no other status mutex is taken, are left out.
use webrtc_cdn.Prelude.{
  ℕ, Bool, true, false, ◌||◌, List, [], ◌∷◌, Option, none, some, Map, ◌==◌, if◌then◌else◌,
}
use webrtc_cdn.Machine.State.{State}

-- `statusMutex` of the struct at a pointer, and `mutexStatus` of the node.
pub data Mutex : Type 0 where
  node_status : Mutex
  handler_status source_status sink_status relay_status sender_status : ℕ → Mutex

abbrev pub same_mutex : Mutex → Mutex → Bool
same_mutex node_status node_status = true
same_mutex (handler_status a) (handler_status b) = a == b
same_mutex (source_status a) (source_status b) = a == b
same_mutex (sink_status a) (sink_status b) = a == b
same_mutex (relay_status a) (relay_status b) = a == b
same_mutex (sender_status a) (sender_status b) = a == b
same_mutex _ _ = false

abbrev pub holds : Mutex → List Mutex → Bool
holds m [] = false
holds m (x ∷ held) = same_mutex x m || holds m held

pub data Outcome : Type 0 where
  done : State → Outcome
  panicked : State → Outcome
  -- The mutex waited for, and those held meanwhile.
  blocked : Mutex → List Mutex → State → Outcome

abbrev pub Op : Type 0
Op = List Mutex → State → Outcome

infixl 5 ◌>>=◌ ◌>>◌
-- Reads the state.
abbrev pub ◌>>=◌ {ℓ} : {A : Type ℓ} → (State → A) → (A → Op) → Op
(g >>= k) held s = k (g s) held s

abbrev pub after : Outcome → (State → Outcome) → Outcome
after (done s) k = k s
after (panicked s) k = panicked s
after (blocked m held s) k = blocked m held s

abbrev pub ◌>>◌ : Op → Op → Op
(a >> b) held s = after (a held s) (b held)

abbrev pub skip : Op
skip held s = done s

abbrev pub panic : Op
panic held s = panicked s

abbrev pub change : (State → State) → Op
change f held s = done (f s)

abbrev pub when : Bool → Op → Op
when b op held s = if b then op held s else done s

-- `m.Lock(); defer m.Unlock(); body`
abbrev pub locked : Mutex → Op → Op
locked m body held s = if holds m held then blocked m held s else body (m ∷ held) s

-- `for _, p := range …`
abbrev pub for_each : (ℕ → Op) → List ℕ → Op
for_each f [] = skip
for_each f (p ∷ ps) = f p >> for_each f ps

abbrev pub values {ℓ κ} : {K : Type ℓ} {V : Type κ} → Map K V → List V
values [] = []
values ((k, v) ∷ m) = v ∷ values m

-- A call behind a test that a pointer is not nil.
abbrev pub if_found : Option ℕ → (ℕ → Op) → Op
if_found none f = skip
if_found (some p) f = f p
