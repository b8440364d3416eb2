-- ===== src/Strings/Laws.antt =====
-- Laws of the string functions: a text cut at a byte, and put together again.
use webrtc_cdn.Prelude.{
  ℕ, suc, false, List, [], ◌∷◌, ◌++◌, some, Str, ◌≡◌, refl, ap, ◌∙◌, arith, ◌==◌, inl, inr,
  Bool-cases, length,
}
use webrtc_cdn.Strings.{split, index, take, drop, onto_first}

-- The text does not hold the byte.
abbrev pub Lacks : ℕ → Str → Type 0
Lacks b [] = Unit {0}
Lacks b (c ∷ s) = ((c == b) ≡ false) × Lacks b s

pub Lacks-append : (b : ℕ) (s t : Str) → Lacks b s → Lacks b t → Lacks b (s ++ t)
Lacks-append b [] t hs ht = ht
Lacks-append b (c ∷ s) t hs ht = (hs.0, Lacks-append b s t hs.1 ht)

pub split-append : (b : ℕ) (s t : Str) → Lacks b s → split b (s ++ (b ∷ t)) ≡ s ∷ split b t
unfolding split
split-append b [] t h = ground arith
split-append b (c ∷ s) t h = rw (h.0, split-append b s t h.1)

pub split-Lacks : (b : ℕ) (s : Str) → Lacks b s → split b s ≡ s ∷ []
unfolding split
split-Lacks b [] h = refl
split-Lacks b (c ∷ s) h = rw (h.0, split-Lacks b s h.1)

-- `strings.Join(lines, b)`
abbrev pub join : ℕ → List Str → Str
join b [] = []
join b (l ∷ []) = l
join b (l ∷ k ∷ ls) = l ++ (b ∷ join b (k ∷ ls))

join-onto_first :
    (b c : ℕ) (l : Str) (ls : List Str) → join b (onto_first c (l ∷ ls)) ≡ c ∷ join b (l ∷ ls)
join-onto_first b c l [] = refl
join-onto_first b c l (k ∷ ls) = refl

-- There is always a first piece, and joining the pieces gives the text back.
pub split-cons :
    (b : ℕ) (s : Str) → (l : Str) × (ls : List Str) × (split b s ≡ l ∷ ls) × (join b (l ∷ ls) ≡ s)
unfolding split
split-cons b [] = ([], [], refl, refl)
split-cons b (c ∷ s) =
    let (l, ls, e, j) = split-cons b s in
    elim (Bool-cases (c == b)) [
      | inl cut ↦ ([], l ∷ ls, rw (cut, e), ground (arith, j))
      | inr keep ↦ (c ∷ l, ls, rw (keep, e), join-onto_first b c l ls ∙ ap (◌∷◌ c) j)
    ]

pub index-append : (b : ℕ) (s t : Str) → Lacks b s → index b (s ++ (b ∷ t)) ≡ some (length s)
unfolding index
index-append b [] t h = ground arith
index-append b (c ∷ s) t h = rw (h.0, index-append b s t h.1)

pub take-append : (s t : Str) → take (length s) (s ++ t) ≡ s
take-append [] t = refl
take-append (c ∷ s) t = ap (◌∷◌ c) (take-append s t)

pub drop-append : (b : ℕ) (s t : Str) → drop (suc (length s)) (s ++ (b ∷ t)) ≡ t
drop-append b [] t = refl
drop-append b (c ∷ s) t = drop-append b s t
