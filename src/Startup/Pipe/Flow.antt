-- ===== src/Startup/Pipe/Flow.antt =====
-- What `pipeTrack` hands on.
use webrtc_cdn.Prelude.{
  List, [], ◌∷◌, ◌++◌, none, some, Str, ◌≡◌, refl, Bool, inl, inr, Bool-cases, if◌then◌else◌,
}
use mathlib.Core.List.{append-nil}
use webrtc_cdn.Startup.Pipe.{
  WriteResult, written, closed_pipe, write_failed, Round, Piped, running, stopped, send_first,
  pipe_track,
}

-- A round after which the loop goes on: a packet, written, or with no subscriber to write to.
pub record Passing : Type 0 where
  pub packet : Str
  pub unheard : Bool

abbrev pub passing_round : Passing → Round
passing_round x = record {
  read = some x.packet;
  write = if x.unheard then closed_pipe else written;
}

abbrev pub rounds_of : List Passing → List Round
rounds_of [] = []
rounds_of (x ∷ xs) = passing_round x ∷ rounds_of xs

abbrev pub packets_of : List Passing → List Str
packets_of [] = []
packets_of (x ∷ xs) = x.packet ∷ packets_of xs

abbrev pub send_all : List Str → Piped → Piped
send_all [] rest = rest
send_all (packet ∷ packets) rest = send_first packet (send_all packets rest)

pipe_rounds :
    (xs : List Passing) (rounds : List Round)
    → pipe_track (rounds_of xs ++ rounds) ≡ send_all (packets_of xs) (pipe_track rounds)
unfolding pipe_track
pipe_rounds [] rounds = refl
pipe_rounds (x ∷ xs) rounds = elim (Bool-cases x.unheard) [
  | inl e ↦ rw (e, pipe_rounds xs rounds) refl
  | inr e ↦ rw (e, pipe_rounds xs rounds) refl
]

send_all-running : (ps : List Str) → send_all ps (running []) ≡ running ps
send_all-running [] = refl
send_all-running (p ∷ ps) = rw (send_all-running ps) refl

send_all-stopped : (ps qs : List Str) → send_all ps (stopped qs) ≡ stopped (ps ++ qs)
send_all-stopped [] qs = refl
send_all-stopped (p ∷ ps) qs = rw (send_all-stopped ps qs) refl

-- What follows the passing rounds: nothing yet, an error of the read, or a packet whose write fails
-- other than for want of a subscriber.
pub data End : Type 0 where
  more : End
  read_error : WriteResult → List Round → End
  write_error : Str → List Round → End

abbrev pub end_rounds : End → List Round
end_rounds more = []
end_rounds (read_error result rounds) = record { read = none; write = result } ∷ rounds
end_rounds (write_error packet rounds) =
    record { read = some packet; write = write_failed } ∷ rounds

-- The pipe in one piece.
abbrev pub piped : List Str → End → Piped
piped packets more = running packets
piped packets (read_error result rounds) = stopped packets
piped packets (write_error packet rounds) = stopped (packets ++ packet ∷ [])

-- The pipe of a track hands every packet that it reads to the local track, once each and in the order
-- of the reads, and goes on where the local track has no subscriber. It stops at the first error of a
-- read, and after the first packet whose write fails for another reason, and whatever the tracks would
-- return after that is not asked for.
pub pipe_track-equal_piped :
    (xs : List Passing) (end : End)
    → pipe_track (rounds_of xs ++ end_rounds end) ≡ piped (packets_of xs) end
unfolding pipe_track
pipe_track-equal_piped xs more = rw (pipe_rounds xs [], send_all-running (packets_of xs)) refl
pipe_track-equal_piped xs (read_error result rounds) =
    rw
      (
        pipe_rounds xs (end_rounds (read_error result rounds)),
        send_all-stopped (packets_of xs) [],
        append-nil,
      )
      refl
pipe_track-equal_piped xs (write_error packet rounds) =
    rw
      (
        pipe_rounds xs (end_rounds (write_error packet rounds)),
        send_all-stopped (packets_of xs) (packet ∷ []),
      )
      refl
