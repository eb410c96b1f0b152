-- ===== src/Music/Mapper/Duration.antt =====
-- quantizedDuration of internal/music/mapper.go.

use go_musical_packets.Prelude.{
  sym, subst, ltb_ℤ, ℕ, ◌+◌, ◌*◌, ◌/◌, ◌%◌, ◌^◌, ◌≤◌, ◌<◌, ◌≡◌, inl, inr, true, arith, Bool-cases,
  ℤ, pos, negsuc, leb_ℤ, to_int64, to_ℕ,
}
use go_musical_packets.Music.Mapper.{clamp_duration, quantum, round_to_quantum, quantized_duration}

pub clamp_duration_bounds :
    (x low high : ℤ)
    → leb_ℤ low high ≡ true
    → (leb_ℤ low (clamp_duration x low high) ≡ true)
      × (leb_ℤ (clamp_duration x low high) high ≡ true)
unfolding clamp_duration
clamp_duration_bounds x (pos a) (pos b) h = ground arith
clamp_duration_bounds x (pos a) (negsuc b) h = ground arith
clamp_duration_bounds x (negsuc a) (pos b) h = ground arith
clamp_duration_bounds x (negsuc a) (negsuc b) h = ground arith

leb_ℤ-refl : (z : ℤ) → leb_ℤ z z ≡ true
leb_ℤ-refl (pos n) = ground arith
leb_ℤ-refl (negsuc n) = ground arith

pub duration_bounds :
    (gap low high : ℤ)
    → leb_ℤ low high ≡ true
    → (leb_ℤ low (quantized_duration gap low high) ≡ true)
      × (leb_ℤ (quantized_duration gap low high) high ≡ true)
unfolding quantized_duration
duration_bounds gap low high h =
    let x : ℤ = round_to_quantum (to_int64 (to_ℕ gap + quantum / 2)) in
    elim (Bool-cases (leb_ℤ gap (pos 0))) [
      | inl t ↦ rw t (leb_ℤ-refl low, h)
      | inr t ↦ rw t (clamp_duration_bounds x low high h)
    ]

-- `q` is `x` where it lies between the bounds, and the bound on its side where it does not.
abbrev pub Clamped : (x low high q : ℤ) → Type 0
Clamped x low high q =
    (ltb_ℤ x low ≡ true → q ≡ low)
    × (ltb_ℤ high x ≡ true → q ≡ high)
    × (leb_ℤ low x ≡ true → leb_ℤ x high ≡ true → q ≡ x)

clamp_duration-Clamped :
    (x low high : ℤ) → leb_ℤ low high ≡ true → Clamped x low high (clamp_duration x low high)
unfolding clamp_duration
clamp_duration-Clamped (pos n) (pos a) (pos b) h =
    (λ t. ground (arith, t, h), λ t. ground (arith, t, h), λ t u. ground (arith, t, u))
clamp_duration-Clamped (pos n) (pos a) (negsuc b) h = absurd (ground (arith, h))
clamp_duration-Clamped (pos n) (negsuc a) (pos b) h =
    (λ t. ground (arith, t, h), λ t. ground (arith, t, h), λ t u. ground (arith, t, u))
clamp_duration-Clamped (pos n) (negsuc a) (negsuc b) h =
    (λ t. ground (arith, t, h), λ t. ground (arith, t, h), λ t u. ground (arith, t, u))
clamp_duration-Clamped (negsuc n) (pos a) (pos b) h =
    (λ t. ground (arith, t, h), λ t. ground (arith, t, h), λ t u. ground (arith, t, u))
clamp_duration-Clamped (negsuc n) (pos a) (negsuc b) h = absurd (ground (arith, h))
clamp_duration-Clamped (negsuc n) (negsuc a) (pos b) h =
    (λ t. ground (arith, t, h), λ t. ground (arith, t, h), λ t u. ground (arith, t, u))
clamp_duration-Clamped (negsuc n) (negsuc a) (negsuc b) h =
    (λ t. ground (arith, t, h), λ t. ground (arith, t, h), λ t u. ground (arith, t, u))

duration_nearest :
    (n : ℕ) (low high : ℤ)
    → leb_ℤ low high ≡ true
    → 0 < n
    → n + quantum / 2 < 2 ^ 63
    → (m : ℕ) × Clamped (pos m) low high (quantized_duration (pos n) low high)
      × (m % quantum ≡ 0)
      × (2 * n ≤ 2 * m + quantum)
      × (2 * m ≤ 2 * n + quantum)
unfolding quantized_duration round_to_quantum
duration_nearest n low high r p h =
    let e : (n + quantum / 2) % 2 ^ 64 ≡ n + quantum / 2 = omega arith in
    let m : ℕ = (n + quantum / 2) / quantum * quantum in
    let same : quantized_duration (pos n) low high ≡ clamp_duration (pos m) low high =
      ground (arith, e) in
    (
      m,
      subst (Clamped (pos m) low high) (sym same) (clamp_duration-Clamped (pos m) low high r),
      omega arith,
      omega arith,
      omega arith,
    )

-- The duration lies in the configured range for every gap, also where the sum wraps. For a gap of
-- `n` nanoseconds that leaves room for the sum it is a multiple of 25 ms within 12.5 ms of `n`,
-- or the minimum where that multiple is below it, or the maximum where it is above.
pub quantized_duration_bounds :
    (gap low high : ℤ)
    → leb_ℤ low high ≡ true
    → (leb_ℤ low (quantized_duration gap low high) ≡ true)
      × (leb_ℤ (quantized_duration gap low high) high ≡ true)
      × ((n : ℕ)
          → gap ≡ pos n
          → 0 < n
          → n + quantum / 2 < 2 ^ 63
          → (m : ℕ) × Clamped (pos m) low high (quantized_duration gap low high)
            × (m % quantum ≡ 0)
            × (2 * n ≤ 2 * m + quantum)
            × (2 * m ≤ 2 * n + quantum))
quantized_duration_bounds gap low high h =
    let (a, b) = duration_bounds gap low high h in
    (a, b, λ n e p q. rw e (duration_nearest n low high h p q))
