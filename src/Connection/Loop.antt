-- ===== src/Connection/Loop.antt =====
-- The loop of `run` of connection_handler.go.
use webrtc_cdn.Prelude.{ℕ, [], ◌∷◌, ◌++◌, List, Str, ◌≡◌, refl, ap}
use webrtc_cdn.Machine.State.{State}
use webrtc_cdn.Machine.Op.{Outcome, Mutex, done, panicked, blocked}
use webrtc_cdn.Signaling.{parse_signaling_message}
use webrtc_cdn.Connection.Lifecycle.{
  Surroundings, Frame, text, binary, failed, end_run, dispatch, next_round, run_loop,
}

-- What the `switch` does with a text, at a time.
abbrev pub handle : Surroundings → ℕ → ℕ → Str → State → Outcome
handle e h now raw s =
    dispatch (record e { now = now }) h (parse_signaling_message e.unicode raw) [] s

-- The frames are read one after another: each text is handled to its end, in the state that the one
-- before it left, and a binary frame changes nothing.
pub data Serves (e : Surroundings) (h : ℕ) : List (ℕ × Frame) → State → State → Type 0 where
  served_all : {s : State} → Serves e h [] s s
  served :
      {s t u : State} {now : ℕ} {raw : Str} {frames : List (ℕ × Frame)}
      → handle e h now raw s ≡ done t
      → Serves e h frames t u
      → Serves e h ((now, text raw) ∷ frames) s u
  skipped :
      {s u : State} {now : ℕ} {frames : List (ℕ × Frame)}
      → Serves e h frames s u
      → Serves e h ((now, binary) ∷ frames) s u

-- A frame that is the last one to be read: the read fails, or the text panics, and the deferred end of
-- `run` follows; or the text waits for ever.
pub data Stops (e : Surroundings) (h : ℕ) : ℕ × Frame → State → Outcome → Type 0 where
  read_fails : {s : State} {now : ℕ} → Stops e h (now, failed) s (end_run h [] s)
  panics :
      {s t : State} {now : ℕ} {raw : Str}
      → handle e h now raw s ≡ panicked t
      → Stops e h (now, text raw) s (end_run h [] t)
  waits :
      {s t : State} {now : ℕ} {raw : Str} {m : Mutex} {held : List Mutex}
      → handle e h now raw s ≡ blocked m held t
      → Stops e h (now, text raw) s (blocked m held t)

-- The loop serves some of the frames, stops at the next one, and never reads the rest.
pub record Ends (e : Surroundings) (h : ℕ) (frames : List (ℕ × Frame)) (s : State) (o : Outcome)
    : Type 0 where
  pub front : List (ℕ × Frame)
  pub last : ℕ × Frame
  pub unread : List (ℕ × Frame)
  pub reached : State
  pub split : frames ≡ front ++ last ∷ unread
  pub serves : Serves e h front s reached
  pub stops : Stops e h last reached o

skipped-Ends :
    (e : Surroundings) (h now : ℕ) (frames : List (ℕ × Frame)) (s : State) (o : Outcome)
    → Ends e h frames s o
    → Ends e h ((now, binary) ∷ frames) s o
skipped-Ends e h now frames s o r = record {
  front = (now, binary) ∷ r.front;
  last = r.last;
  unread = r.unread;
  reached = r.reached;
  split = ap (λ x. (now, binary) ∷ x) r.split;
  serves = skipped r.serves;
  stops = r.stops;
}

served-Ends :
    (e : Surroundings) (h now : ℕ) (raw : Str) (frames : List (ℕ × Frame)) (s t : State)
    (o : Outcome)
    → handle e h now raw s ≡ done t
    → Ends e h frames t o
    → Ends e h ((now, text raw) ∷ frames) s o
served-Ends e h now raw frames s t o run r = record {
  front = (now, text raw) ∷ r.front;
  last = r.last;
  unread = r.unread;
  reached = r.reached;
  split = ap (λ x. (now, text raw) ∷ x) r.split;
  serves = served run r.serves;
  stops = r.stops;
}

first-Ends :
    (e : Surroundings) (h : ℕ) (x : ℕ × Frame) (frames : List (ℕ × Frame)) (s : State) (o : Outcome)
    → Stops e h x s o
    → Ends e h (x ∷ frames) s o
first-Ends e h x frames s o stop = record {
  front = [];
  last = x;
  unread = frames;
  reached = s;
  split = refl;
  serves = served_all;
  stops = stop;
}

text-Ends :
    (e : Surroundings) (h now : ℕ) (raw : Str) (frames : List (ℕ × Frame)) (s : State) (o : Outcome)
    → handle e h now raw s ≡ o
    → ((t : State) → Ends e h frames t (run_loop e h frames t))
    → Ends e h ((now, text raw) ∷ frames) s (next_round h o (run_loop e h frames))
text-Ends e h now raw frames s (done t) run later =
    served-Ends e h now raw frames s t _ run (later t)
text-Ends e h now raw frames s (panicked t) run later = first-Ends e h _ frames s _ (panics run)
text-Ends e h now raw frames s (blocked m held t) run later =
    first-Ends e h _ frames s _ (waits run)

-- Where some read fails, the loop serves the frames in order, each text by the `switch` in the state
-- that the one before it left and each binary frame by doing nothing, up to the first frame that is a
-- failed read, or a text that panics, both of which the deferred end of `run` follows, or a text that
-- blocks the goroutine for ever. It reads nothing after that frame.
pub run_loop-Ends :
    (e : Surroundings) (h : ℕ) (before after : List (ℕ × Frame)) (now : ℕ) (s : State)
    → Ends e h
        (before ++ (now, failed) ∷ after)
        s
        (run_loop e h (before ++ (now, failed) ∷ after) s)
unfolding run_loop
run_loop-Ends e h [] after now s = first-Ends e h (now, failed) after s _ read_fails
run_loop-Ends e h ((at, text raw) ∷ before) after now s =
    text-Ends e h at raw _ s _ refl (λ t. run_loop-Ends e h before after now t)
run_loop-Ends e h ((at, binary) ∷ before) after now s =
    skipped-Ends e h at _ s _ (run_loop-Ends e h before after now s)
run_loop-Ends e h ((at, failed) ∷ before) after now s = first-Ends e h (at, failed) _ s _ read_fails
