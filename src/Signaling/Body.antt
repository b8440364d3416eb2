-- ===== src/Signaling/Body.antt =====
-- What the loop of `parseSignalingMessage` does with the lines behind the first empty one.
use webrtc_cdn.Prelude.{Bool, true, false, List, [], ◌∷◌, ◌++◌, Str, ◌≡◌, ap, ◌∙◌, sym, arith}
use mathlib.Core.List.{append-nil, append_assoc}
use webrtc_cdn.Strings.{Unicode}
use webrtc_cdn.Strings.Laws.{join}
use webrtc_cdn.Signaling.{SignalingMessage, Parsing, parse_line, parse_lines}

-- The lines that are not empty.
unfoldable pub full_lines : List Str → List Str
full_lines [] = []
full_lines ([] ∷ ls) = full_lines ls
full_lines ((c ∷ l) ∷ ls) = (c ∷ l) ∷ full_lines ls

-- Each line behind a line break.
pub behind_breaks : List Str → Str
behind_breaks [] = []
behind_breaks (l ∷ ls) = b'\n' ∷ (l ++ behind_breaks ls)

pub join-behind_breaks : (l : Str) (ls : List Str) → join b'\n' (l ∷ ls) ≡ l ++ behind_breaks ls
unfolding behind_breaks
join-behind_breaks l [] = sym (append-nil l)
join-behind_breaks l (k ∷ ls) = ap (λ (x : Str). l ++ (b'\n' ∷ x)) (join-behind_breaks k ls)

abbrev with_body : SignalingMessage → Str → SignalingMessage
with_body m body = record m { body = body }

-- Past the first empty line, before and after the first line of the body.
abbrev pub in_body : Bool → SignalingMessage → Parsing
in_body first m = record { msg = m; is_body = true; first_line_body = first }

parse_lines-later :
    (u : Unicode) (m : SignalingMessage) (ls : List Str)
    → (parse_lines u (in_body false m) ls).msg
      ≡ with_body m (m.body ++ behind_breaks (full_lines ls))
unfolding parse_lines parse_line full_lines behind_breaks
parse_lines-later u m [] = rw append-nil
parse_lines-later u m ([] ∷ ls) = parse_lines-later u m ls
parse_lines-later u m ((c ∷ l) ∷ ls) =
    parse_lines-later u (with_body m (m.body ++ (b'\n' ∷ c ∷ l))) ls
    ∙ ap (with_body m) (append_assoc m.body (b'\n' ∷ c ∷ l) _)

pub parse_lines-body :
    (u : Unicode) (m : SignalingMessage) (ls : List Str)
    → m.body ≡ []
    → (parse_lines u (in_body true m) ls).msg ≡ with_body m (join b'\n' (full_lines ls))
unfolding parse_lines parse_line full_lines
parse_lines-body u m [] empty = ground arith
parse_lines-body u m ([] ∷ ls) empty = parse_lines-body u m ls empty
parse_lines-body u m ((c ∷ l) ∷ ls) empty =
    parse_lines-later u (with_body m (c ∷ l)) ls
    ∙ ap (with_body m) (sym (join-behind_breaks (c ∷ l) (full_lines ls)))
