-- ===== src/Startup/Numbers/Decimal.antt =====
-- Numbers written and read in decimal.
use webrtc_cdn.Prelude.{
  ℕ, zero, suc, ◌+◌, ◌/◌, ◌%◌, ◌^◌, ◌<◌, true, false, [], ◌∷◌, some, Str, ◌≡◌, refl, arith, ltb,
  inl, inr, Bool-cases,
}
use webrtc_cdn.Startup.Numbers.{pos, digits, itoa, is_digit, value, signed, atoi}

value-digits :
    (fuel n : ℕ) (rest : Str) → n < 10 ^ fuel → value 0 (digits fuel n rest) ≡ value n rest
unfolding digits value
value-digits zero n rest h = ground arith
value-digits (suc fuel) n rest h = elim (Bool-cases (ltb n 10)) [
  | inl small ↦ ground arith
  | inr large ↦ ground (arith, value-digits fuel (n / 10) ((b'0' + n % 10) ∷ rest))
]

-- The digits of a number before a digit begin with a digit.
record Begins (s : Str) : Type 0 where
  head : ℕ
  tail : Str
  is_head : s ≡ head ∷ tail
  numeric : is_digit head ≡ true

digits-Begins : (fuel n c : ℕ) (rest : Str) → is_digit c ≡ true → Begins (digits fuel n (c ∷ rest))
unfolding digits
digits-Begins zero n c rest h = record { head = c; tail = rest; is_head = refl; numeric = h }
digits-Begins (suc fuel) n c rest h = elim (Bool-cases (ltb n 10)) [
  | inl small ↦ rw small (record { head = _; tail = _; is_head = refl; numeric = ground arith })
  | inr large ↦ rw large (digits-Begins fuel (n / 10) (b'0' + n % 10) (c ∷ rest) (ground arith))
]

digits-suc-Begins : (fuel n : ℕ) → Begins (digits (suc fuel) n [])
unfolding digits
digits-suc-Begins fuel n = elim (Bool-cases (ltb n 10)) [
  | inl small ↦ rw small (record { head = _; tail = _; is_head = refl; numeric = ground arith })
  | inr large ↦ rw large (digits-Begins fuel (n / 10) (b'0' + n % 10) [] (ground arith))
]

atoi-numeric : (s : Str) → Begins s → atoi s ≡ signed false (value 0 s)
unfolding atoi
atoi-numeric s b = rw b.is_head (ground (arith, b.numeric))

pub atoi-itoa : (n : ℕ) → n < 2 ^ 63 → atoi (itoa (pos n)) ≡ some (pos n)
unfolding itoa value
atoi-itoa n h =
    rw (atoi-numeric _ (digits-suc-Begins 19 n), value-digits 20 n [] (omega arith), value)
      (ground arith)
