-- ===== src/Strings.antt =====
-- What the program uses of Go's package strings, over bytes. The case tables for text that is not
-- ASCII are a parameter.
pub mod Laws
use webrtc_cdn.Prelude.{
  ℕ, zero, suc, ◌+◌, ◌-◌, Bool, true, ◌&&◌, ◌||◌, List, [], ◌∷◌, map, Option, none, some, Str, leb,
  ltb, ◌==◌, if◌then◌else◌,
}

-- `strings.Map(unicode.ToUpper, s)` and `strings.Map(unicode.ToLower, s)`.
pub record Unicode : Type 0 where
  pub upper : Str → Str
  pub lower : Str → Str

unfoldable pub is_ascii : Str → Bool
is_ascii [] = true
is_ascii (c ∷ s) = ltb c 128 && is_ascii s

abbrev pub upper_byte : ℕ → ℕ
upper_byte c = if leb b'a' c && leb c b'z' then c - 32 else c

abbrev pub lower_byte : ℕ → ℕ
lower_byte c = if leb b'A' c && leb c b'Z' then c + 32 else c

-- `strings.ToUpper` and `strings.ToLower`, with their short cut for ASCII.
unfoldable pub to_upper : Unicode → Str → Str
unfolding is_ascii
to_upper u s = if is_ascii s then map upper_byte s else u.upper s

unfoldable pub to_lower : Unicode → Str → Str
unfolding is_ascii
to_lower u s = if is_ascii s then map lower_byte s else u.lower s

abbrev pub onto_first : ℕ → List Str → List Str
onto_first c [] = (c ∷ []) ∷ []
onto_first c (l ∷ ls) = (c ∷ l) ∷ ls

-- `strings.Split` at a single byte.
unfoldable pub split : ℕ → Str → List Str
split b [] = [] ∷ []
split b (c ∷ s) = let rest = split b s in if c == b then [] ∷ rest else onto_first c rest

-- The cutset " \n\r\t".
abbrev pub in_cutset : ℕ → Bool
in_cutset c = c == b' ' || c == b'\n' || c == b'\r' || c == b'\t'

unfoldable pub trim_left : Str → Str
trim_left [] = []
trim_left (c ∷ s) = let rest = trim_left s in if in_cutset c then rest else c ∷ s

abbrev unless_blank : ℕ → Str → Str
unless_blank c [] = if in_cutset c then [] else c ∷ []
unless_blank c (d ∷ s) = c ∷ d ∷ s

unfoldable pub trim_right : Str → Str
trim_right [] = []
trim_right (c ∷ s) = unless_blank c (trim_right s)

-- `strings.Trim(s, " \n\r\t")`
unfoldable pub trim : Str → Str
unfolding trim_left trim_right
trim s = trim_right (trim_left s)

abbrev next_index : Option ℕ → Option ℕ
next_index none = none
next_index (some i) = some (suc i)

-- `strings.Index(s, c)` for a single byte; `none` is -1.
unfoldable pub index : ℕ → Str → Option ℕ
index b [] = none
index b (c ∷ s) = if c == b then some 0 else next_index (index b s)

-- `s[0:i]` and `s[i:]`
abbrev pub take : ℕ → Str → Str
take zero s = []
take (suc n) [] = []
take (suc n) (c ∷ s) = c ∷ take n s

abbrev pub drop : ℕ → Str → Str
drop zero s = s
drop (suc n) [] = []
drop (suc n) (c ∷ s) = drop n s
