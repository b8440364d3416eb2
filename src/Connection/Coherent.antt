-- ===== src/Connection/Coherent.antt =====
-- When the maps of a handler agree: a request is a PUBLISH with a source, or a PLAY with a sink.
use webrtc_cdn.Prelude.{
  ℕ, none, some, Str, ◌≡◌, refl, arith, ◌==◌, inl, inr, lookup, insert, delete, lookup-insert,
  lookup-delete, str_key, str_eq, str_eq_iff, if◌then◌else◌, Option-cases, Bool-cases, Map, [], ◌∷◌,
  ◌⊎◌, lookup-delete_self,
}
use webrtc_cdn.Machine.State.{ConnectionHandler}
use webrtc_cdn.Messages.Client.{dec32, request_type_publish, request_type_play}
use webrtc_cdn.Peer.Api.{is_some}
use webrtc_cdn.Connection.Requests.{request_type, note_source, note_sink}

-- The keys differ, and each request is a PUBLISH or a PLAY.
abbrev pub Known : Map Str ℕ → Type 0
Known [] = Unit {0}
Known ((id, t) ∷ m) = (lookup id m ≡ none) × ((t ≡ 1) ⊎ (t ≡ 2)) × Known m

Known-delete : (id : Str) (m : Map Str ℕ) → Known m → Known (delete id m)
unfolding delete
Known-delete id [] h = h
Known-delete id ((j, t) ∷ m) (new, kind, h) = elim (Bool-cases (str_eq j id)) [
  | inl e ↦ rw e (Known-delete id m h)
  | inr e ↦ rw e (ground (arith, lookup-delete id j m), kind, Known-delete id m h)
]

pub Known-insert :
    (id : Str) (t : ℕ) (m : Map Str ℕ) → ((t ≡ 1) ⊎ (t ≡ 2)) → Known m → Known (insert id t m)
unfolding insert
Known-insert id t m kind h = (lookup-delete_self id m, kind, Known-delete id m h)

pub record IsCoherent (c : ConnectionHandler) : Type 0 where
  pub known : Known c.requests
  pub published : (id : Str) → is_some (lookup id c.sources) ≡ (request_type id c == 1)
  pub played : (id : Str) → is_some (lookup id c.sinks) ≡ (request_type id c == 2)

-- The handler without a PUBLISH, and without a PLAY.
abbrev pub without_publish : Str → ConnectionHandler → ConnectionHandler
without_publish id c = record c {
  sources = delete id c.sources;
  requests = delete id c.requests;
  request_count = dec32 c.request_count;
}

abbrev pub without_play : Str → ConnectionHandler → ConnectionHandler
without_play id c = record c {
  sinks = delete id c.sinks;
  requests = delete id c.requests;
  request_count = dec32 c.request_count;
}

module _ (id : Str) (c : ConnectionHandler) where
  pub request_type-without_publish :
      (j : Str)
      → request_type j (without_publish id c) ≡ (if str_eq id j then 0 else request_type j c)
  unfolding request_type
  request_type-without_publish j = ground (arith, lookup-delete id j c.requests)

  pub request_type-without_play :
      (j : Str) → request_type j (without_play id c) ≡ (if str_eq id j then 0 else request_type j c)
  unfolding request_type
  request_type-without_play j = ground (arith, lookup-delete id j c.requests)

  pub without_publish-IsCoherent :
      IsCoherent c → request_type id c ≡ 1 → IsCoherent (without_publish id c)
  unfolding request_type
  without_publish-IsCoherent ok e = record {
    known = Known-delete id c.requests ok.known;
    published = λ j. ground (
      arith,
      ok.published j,
      str_eq_iff id j,
      request_type-without_publish j,
      lookup-delete id j c.sources,
    );
    played = λ j.
        ground (arith, ok.played j, ok.played id, str_eq_iff id j, request_type-without_publish j);
  }

  pub without_play-IsCoherent :
      IsCoherent c → request_type id c ≡ 2 → IsCoherent (without_play id c)
  unfolding request_type
  without_play-IsCoherent ok e = record {
    known = Known-delete id c.requests ok.known;
    published = λ j.
        ground
          (arith, ok.published j, ok.published id, str_eq_iff id j, request_type-without_play j);
    played = λ j. ground (
      arith,
      ok.played j,
      str_eq_iff id j,
      request_type-without_play j,
      lookup-delete id j c.sinks,
    );
  }

  -- A new request.
  pub note_source-IsCoherent :
      (p : ℕ) → IsCoherent c → request_type id c ≡ 0 → IsCoherent (note_source id p c)
  unfolding note_source request_type
  note_source-IsCoherent p ok e = record {
    known = Known-insert id 1 c.requests (inl refl) ok.known;
    published = λ j. ground (
      arith,
      ok.published j,
      str_eq_iff id j,
      lookup-insert id j p c.sources,
      lookup-insert id j request_type_publish c.requests,
    );
    played = λ j. ground (
      arith,
      ok.played j,
      ok.played id,
      str_eq_iff id j,
      lookup-insert id j request_type_publish c.requests,
    );
  }

  pub note_sink-IsCoherent :
      (p : ℕ) → IsCoherent c → request_type id c ≡ 0 → IsCoherent (note_sink id p c)
  unfolding note_sink request_type
  note_sink-IsCoherent p ok e = record {
    known = Known-insert id 2 c.requests (inr refl) ok.known;
    published = λ j. ground (
      arith,
      ok.published j,
      ok.published id,
      str_eq_iff id j,
      lookup-insert id j request_type_play c.requests,
    );
    played = λ j. ground (
      arith,
      ok.played j,
      str_eq_iff id j,
      lookup-insert id j p c.sinks,
      lookup-insert id j request_type_play c.requests,
    );
  }

-- The pointer that a coherent handler has for a request.
pub source_of_publish :
    (id : Str) (c : ConnectionHandler)
    → IsCoherent c
    → request_type id c ≡ 1
    → (p : ℕ) × (lookup id c.sources ≡ some p)
source_of_publish id c ok e = elim (Option-cases (lookup id c.sources)) [
  | inr found ↦ found
  | inl f ↦ absurd (ground (arith, ok.published id))
]

pub sink_of_play :
    (id : Str) (c : ConnectionHandler)
    → IsCoherent c
    → request_type id c ≡ 2
    → (p : ℕ) × (lookup id c.sinks ≡ some p)
sink_of_play id c ok e = elim (Option-cases (lookup id c.sinks)) [
  | inr found ↦ found
  | inl f ↦ absurd (ground (arith, ok.played id))
]

lookup-Known :
    (id : Str) (m : Map Str ℕ) (t : ℕ) → Known m → lookup id m ≡ some t → (t ≡ 1) ⊎ (t ≡ 2)
unfolding lookup
lookup-Known id [] t h e = cc
lookup-Known id ((j, u) ∷ m) t (new, kind, h) e = elim (Bool-cases (str_eq j id)) [
  | inl same ↦ ground arith
  | inr differ ↦ lookup-Known id m t h (ground arith)
]

pub request_type-cases :
    (id : Str) (c : ConnectionHandler)
    → IsCoherent c
    → (request_type id c ≡ 0) ⊎ ((request_type id c ≡ 1) ⊎ (request_type id c ≡ 2))
unfolding request_type
request_type-cases id c ok = elim (Option-cases (lookup id c.requests)) [
  | inl e ↦ inl (ground (arith, e))
  | inr (t, e) ↦ inr (ground (arith, e, lookup-Known id c.requests t ok.known e))
]
