-- ===== src/Decimal.antt =====
-- fmt's %d of an unsigned integer: the decimal digits of a number below 10 ^ 20, so of any uint64.
use native.Mathlib.Nat.{pow-suc}
use go_musical_packets.Prelude.{
  ℕ, zero, suc, ◌+◌, ◌-◌, ◌*◌, ◌/◌, ◌%◌, ◌^◌, ◌<◌, ◌≡◌, sym, ap, ◌∙◌, inl, inr, [], ◌∷◌, arith, ltb,
  if◌then◌else◌, Bool-cases, Text,
}

digits_from : ℕ → ℕ → Text → Text
digits_from zero n acc = acc
digits_from (suc f) n acc =
    let rest = digits_from f (n / 10) ((n % 10 + b'0') ∷ acc) in
    if ltb n 10 then (n + b'0') ∷ acc else rest

unfoldable pub decimal : ℕ → Text
unfolding digits_from
decimal n = digits_from 20 n []

-- The number that digits read after `n` stand for.
abbrev pub value_from : ℕ → Text → ℕ
value_from n [] = n
value_from n (c ∷ cs) = value_from (n * 10 + (c - b'0')) cs

value_from-digits_from :
    (f n : ℕ) (acc : Text) → n < 10 ^ f → value_from 0 (digits_from f n acc) ≡ value_from n acc
unfolding digits_from
value_from-digits_from zero n acc h =
    let e : 0 ≡ n = omega arith in ap (λ (z : ℕ). value_from z acc) e
value_from-digits_from (suc f) n acc h = elim (Bool-cases (ltb n 10)) [
  | inl t ↦ rw t (ap (λ (z : ℕ). value_from z acc) (omega arith))
  | inr t ↦ rw t (
      value_from-digits_from f (n / 10) ((n % 10 + b'0') ∷ acc) (omega (arith, pow-suc 10 f))
      ∙ ap (λ (z : ℕ). value_from z acc) (omega arith))
]

-- The digits of a uint64 are read back.
pub value_from-decimal : (n : ℕ) → n < 2 ^ 64 → value_from 0 (decimal n) ≡ n
unfolding decimal
value_from-decimal n h = value_from-digits_from 20 n [] (omega arith)

pub decimal_injective : (m n : ℕ) → m < 2 ^ 64 → n < 2 ^ 64 → decimal m ≡ decimal n → m ≡ n
decimal_injective m n h k e =
    sym (value_from-decimal m h) ∙ ap (value_from 0) e ∙ value_from-decimal n k
