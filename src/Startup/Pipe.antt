-- ===== src/Startup/Pipe.antt =====
-- `pipeTrack` of track_pipe.go. A round of its loop has what the tracks return: a packet or an error of
-- the read, and the result of the write, if it comes to one.
pub mod Flow
use webrtc_cdn.Prelude.{List, [], ◌∷◌, Option, none, some, Str}

-- The error of `Write`: none, `io.ErrClosedPipe`, or another.
pub data WriteResult : Type 0 where
  written closed_pipe write_failed : WriteResult

pub record Round : Type 0 where
  pub read : Option Str
  pub write : WriteResult

-- What the loop has handed to the local track so far, and whether it still runs.
pub data Piped : Type 0 where
  running stopped : List Str → Piped

abbrev pub send_first : Str → Piped → Piped
send_first packet (running packets) = running (packet ∷ packets)
send_first packet (stopped packets) = stopped (packet ∷ packets)

-- The end of a round with this result of its write, before the rounds to come.
abbrev pub after_write : WriteResult → Piped → Piped
after_write written rest = rest
after_write closed_pipe rest = rest
after_write write_failed rest = stopped []

abbrev pub after_read : Option Str → WriteResult → Piped → Piped
after_read none result rest = stopped []
after_read (some packet) result rest = send_first packet (after_write result rest)

unfoldable pub pipe_track : List Round → Piped
pipe_track [] = running []
pipe_track (r ∷ rounds) = after_read r.read r.write (pipe_track rounds)
