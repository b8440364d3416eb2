-- ===== src/Peer/Api.antt =====
-- What the calls of the WebRTC library return in one set-up of a peer connection. They are
-- arguments of the operations that make the calls; the library is not part of the repository.
use webrtc_cdn.Prelude.{
  ℕ, Bool, true, false, not, ◌&&◌, [], ◌∷◌, Option, none, some, Str, ◌==◌, if◌then◌else◌,
}
use webrtc_cdn.Machine.State.{State, candidate_added, answer_set, emit}

pub record PeerResults : Type 0 where
  -- `NewPeerConnection`; `none` is an error.
  pub new_peer_connection : Option ℕ
  -- `AddTrack` or `AddTransceiverFromKind`, for the audio and for the video.
  pub add_audio : Bool
  pub add_video : Bool
  -- `json.Unmarshal` of a description received, and `SetRemoteDescription` of it.
  pub unmarshal : Bool
  pub set_remote_description : Bool
  -- `CreateOffer` or `CreateAnswer`, `SetLocalDescription`, and the JSON that `json.Marshal` makes.
  pub create_description : Bool
  pub set_local_description : Bool
  pub marshal : Option Str

-- From `CreateOffer` or `CreateAnswer` on: the text to send, unless a call fails.
unfoldable pub described : PeerResults → Option Str
described r =
    if not r.create_description
    then none
    else if not r.set_local_description
    then none
    else r.marshal

-- The offer of a sink or of a sender: audio first, then video.
unfoldable pub outgoing_offer : PeerResults → Bool → Bool → Option Str
unfolding described
outgoing_offer r has_audio has_video =
    if has_audio && not r.add_audio
    then none
    else if has_video && not r.add_video
    then none
    else described r

-- The offer of a source: video first, then audio.
unfoldable pub incoming_offer : PeerResults → Bool → Bool → Option Str
unfolding described
incoming_offer r has_audio has_video =
    if has_video && not r.add_video
    then none
    else if has_audio && not r.add_audio
    then none
    else described r

-- The answer of a relay.
unfoldable pub relay_answer : PeerResults → Option Str
unfolding described
relay_answer r =
    if not r.unmarshal then none else if not r.set_remote_description then none else described r

-- Equality of two pointers that may be nil.
abbrev pub same_ref : Option ℕ → Option ℕ → Bool
same_ref none none = true
same_ref none (some b) = false
same_ref (some a) none = false
same_ref (some a) (some b) = a == b

abbrev pub is_some {ℓ} : {A : Type ℓ} → Option A → Bool
is_some none = false
is_some (some a) = true

-- `onICECandidate`, the same for all four: nothing without a peer connection or with no text.
unfoldable pub add_candidate : Option ℕ → Str → State → State
add_candidate none json s = s
add_candidate (some c) [] s = s
add_candidate (some c) (b ∷ json) s = emit (candidate_added c (b ∷ json)) s

-- `onAnswer`, the same for the three that have it.
unfoldable pub set_answer : Option ℕ → Str → State → State
set_answer none json s = s
set_answer (some c) json s = emit (answer_set c json) s
