-- ===== src/Signaling/RoundTrip.antt =====
-- The parser on what the printer writes: signaling_parse.go.
use mathlib.Core.List.{append_assoc}
use webrtc_cdn.Prelude.{
  true, false, List, [], ◌∷◌, ◌++◌, Option, none, some, Str, Map, ◌≡◌, ◌≢◌, ◌⊎◌, inl, inr, refl, ap,
  ◌∙◌, arith, insert, lookup, IsUnique, lookup-insert, str_key, str_eq_iff,
}
use webrtc_cdn.Strings.{Unicode, to_upper, to_lower, trim, split}
use webrtc_cdn.Strings.Laws.{
  Lacks, Lacks-append, split-append, split-Lacks, split-cons, join, index-append, take-append,
  drop-append,
}
use webrtc_cdn.Signaling.Body.{full_lines, parse_lines-body}
use webrtc_cdn.Signaling.{
  SignalingMessage, Parsing, parse_line, parse_lines, parse_all, parse_signaling_message,
  serialize_params, serialize_body, serialize,
}

-- A parameter that can be told apart in a line: a key with no colon, and a value, with no line
-- breaks and no blanks around them.
pub record IsParam (key val : Str) : Type 0 where
  pub key_ne_nil : key ≢ []
  pub no_colon : Lacks b':' key
  pub key_line : Lacks b'\n' key
  pub val_line : Lacks b'\n' val
  pub key_trimmed : trim key ≡ key
  pub val_trimmed : trim val ≡ val

abbrev pub AllParams : Map Str Str → Type 0
AllParams [] = Unit {0}
AllParams ((key, val) ∷ m) = IsParam key val × AllParams m

-- The keys, in lower case.
abbrev pub lower_keys : Unicode → Map Str Str → Map Str Str
lower_keys u [] = []
lower_keys u ((key, val) ∷ m) = (to_lower u key, val) ∷ lower_keys u m

-- The parameters, written one after another into a map.
pub add_params : Unicode → Map Str Str → Map Str Str → Map Str Str
add_params u acc [] = acc
add_params u acc ((key, val) ∷ m) = add_params u (insert (to_lower u key) val acc) m

-- Before the body.
abbrev in_params : SignalingMessage → Parsing
in_params m = record { msg = m; is_body = false; first_line_body = true }

abbrev with_params : SignalingMessage → Map Str Str → SignalingMessage
with_params m params = record m { params = params }

parse_line-param :
    (u : Unicode) (m : SignalingMessage) (key val : Str)
    → IsParam key val
    → parse_line u (in_params m) (key ++ (b':' ∷ val))
      ≡ in_params (with_params m (insert (to_lower u key) val m.params))
unfolding parse_line
parse_line-param u m [] val h = absurd (h.key_ne_nil refl)
parse_line-param u m (c ∷ key) val h = rw (
  index-append b':' (c ∷ key) val h.no_colon,
  take-append key (b':' ∷ val),
  drop-append b':' key val,
  h.key_trimmed,
  h.val_trimmed,
)

serialize_params-cons :
    (key val : Str) (params : Map Str Str) (rest : Str)
    → serialize_params ((key, val) ∷ params) ++ rest
      ≡ (key ++ (b':' ∷ val)) ++ (b'\n' ∷ (serialize_params params ++ rest))
unfolding serialize_params
serialize_params-cons key val params rest = simp append_assoc

parse_lines-params :
    (u : Unicode) (m : SignalingMessage) (params : Map Str Str) (rest : Str)
    → AllParams params
    → parse_lines u (in_params m) (split b'\n' (serialize_params params ++ rest))
      ≡ parse_lines u (in_params (with_params m (add_params u m.params params))) (split b'\n' rest)
unfolding add_params parse_lines
parse_lines-params u m [] rest h = unfold serialize_params in refl
parse_lines-params u m ((key, val) ∷ params) rest (h, hs) =
    let line : Lacks b'\n' (key ++ (b':' ∷ val)) =
      Lacks-append b'\n' key (b':' ∷ val) h.key_line (refl, h.val_line) in
    rw
      (
        serialize_params-cons key val params rest,
        split-append b'\n' (key ++ (b':' ∷ val)) (serialize_params params ++ rest) line,
      )
      (ap (λ p. parse_lines u p (split b'\n' (serialize_params params ++ rest)))
          (parse_line-param u m key val h)
        ∙ parse_lines-params u (with_params m (insert (to_lower u key) val m.params)) params rest
            hs)

-- No line is empty.
abbrev pub AllFull : List Str → Type 0
AllFull [] = Unit {0}
AllFull (l ∷ ls) = (l ≢ []) × AllFull ls

full_lines-AllFull : (ls : List Str) → AllFull ls → full_lines ls ≡ ls
unfolding full_lines
full_lines-AllFull [] h = refl
full_lines-AllFull ([] ∷ ls) h = absurd (h.0 refl)
full_lines-AllFull ((c ∷ l) ∷ ls) h = ap (◌∷◌ (c ∷ l)) (full_lines-AllFull ls h.1)

join-full_lines-split :
    (s : Str) → AllFull (split b'\n' s) → join b'\n' (full_lines (split b'\n' s)) ≡ s
join-full_lines-split s h =
    let (l, ls, e, j) = split-cons b'\n' s in
    ap (join b'\n') (full_lines-AllFull (split b'\n' s) h) ∙ ap (join b'\n') e ∙ j

parse_lines-serialize_body :
    (u : Unicode) (m : SignalingMessage) (body : Str)
    → m.body ≡ []
    → ((body ≡ []) ⊎ AllFull (split b'\n' body))
    → (parse_lines u (in_params m) (split b'\n' (serialize_body body))).msg
      ≡ record m { body = body }
unfolding parse_lines parse_line serialize_body
parse_lines-serialize_body u m [] empty h = rw (split-Lacks b'\n' [] tt) (ground arith)
parse_lines-serialize_body u m (c ∷ body) empty (inl e) = cc
parse_lines-serialize_body u m (c ∷ body) empty (inr h) = rw (split-append b'\n' [] (c ∷ body) tt) (
    parse_lines-body u m (split b'\n' (c ∷ body)) empty
    ∙ ap (λ (x : Str). record m { body = x }) (join-full_lines-split (c ∷ body) h))

-- A message that survives the trip: its method is in upper case, on one line and with no blanks
-- around it, its parameters can be told apart, and no line of its body is empty.
pub record IsWire (u : Unicode) (msg : SignalingMessage) : Type 0 where
  pub is_upper : to_upper u msg.method ≡ msg.method
  pub method_line : Lacks b'\n' msg.method
  pub method_trimmed : trim msg.method ≡ msg.method
  pub params : AllParams msg.params
  pub body : (msg.body ≡ []) ⊎ AllFull (split b'\n' msg.body)

parse-serialize :
    (u : Unicode) (msg : SignalingMessage)
    → IsWire u msg
    → parse_signaling_message u (serialize u msg)
      ≡ record { method = msg.method; params = add_params u [] msg.params; body = msg.body }
unfolding parse_signaling_message serialize parse_all
parse-serialize u msg w =
    let start : SignalingMessage = record { method = msg.method; params = []; body = [] } in
    rw
      (
        w.is_upper,
        split-append b'\n' msg.method _ w.method_line,
        parse_all,
        w.method_trimmed,
        w.is_upper,
      )
      (ap (λ (p : Parsing). p.msg)
          (parse_lines-params u start msg.params (serialize_body msg.body) w.params)
        ∙ parse_lines-serialize_body u (with_params start (add_params u [] msg.params)) msg.body
            refl w.body)

abbrev or_else : Option Str → Option Str → Option Str
or_else none o = o
or_else (some v) o = some v

lookup-add_params :
    (u : Unicode) (j : Str) (acc m : Map Str Str)
    → IsUnique (lower_keys u m)
    → lookup j (add_params u acc m) ≡ or_else (lookup j (lower_keys u m)) (lookup j acc)
unfolding add_params IsUnique lookup
lookup-add_params u j acc [] h = refl
lookup-add_params u j acc ((key, val) ∷ m) (new, h) = ground (
  arith,
  lookup-add_params u j (insert (to_lower u key) val acc) m h,
  lookup-insert (to_lower u key) j val acc,
  str_eq_iff (to_lower u key) j,
)

or_else-none : (o : Option Str) → or_else o none ≡ o
or_else-none none = refl
or_else-none (some v) = refl

-- The parser reads back a message whose method is in upper case, on one line and with no blanks around
-- it, whose parameters can be told apart, whose body has no empty line, and whose keys differ in lower
-- case: the same method, the same body, and under each key, in lower case, the same value.
pub parse-serialize_fields :
    (u : Unicode) (msg : SignalingMessage)
    → IsWire u msg
    → IsUnique (lower_keys u msg.params)
    → let back = parse_signaling_message u (serialize u msg) in
      (back.method ≡ msg.method)
      × (back.body ≡ msg.body)
      × ((key : Str) → lookup key back.params ≡ lookup key (lower_keys u msg.params))
parse-serialize_fields u msg w distinct = rw (parse-serialize u msg w) (
  refl,
  refl,
  λ key.
      unfold lookup in
      (lookup-add_params u key [] msg.params distinct)
      ∙ or_else-none (lookup key (lower_keys u msg.params)),
)
