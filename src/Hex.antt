-- ===== src/Hex.antt =====
-- Go's encoding/hex, as internal/flow/key.go and internal/music/identity.go use it.
use go_musical_packets.Prelude.{
  zero, inr, inl, suc, Option-cases, ℕ, ◌+◌, ◌-◌, ◌*◌, ◌/◌, ◌%◌, ◌≤◌, ◌<◌, ◌≡◌, refl, ◌⊎◌, ◌&&◌,
  Option, none, some, [], ◌∷◌, arith, ltb, leb, if◌then◌else◌, length, All, Text,
}

hex_digit : ℕ → ℕ
hex_digit n = if ltb n 10 then n + b'0' else n + 87

-- The value of a digit of either case.
from_hex_char : ℕ → Option ℕ
from_hex_char c =
    if leb b'0' c && leb c b'9'
    then some (c - b'0')
    else if leb b'a' c && leb c b'f'
    then some (c - 87)
    else if leb b'A' c && leb c b'F'
    then some (c - 55)
    else none

unfoldable pub hex_encode : Text → Text
unfolding hex_digit
hex_encode [] = []
hex_encode (b ∷ bs) = hex_digit (b / 16) ∷ hex_digit (b % 16) ∷ hex_encode bs

join_digits : Option ℕ → Option ℕ → Option Text → Option Text
join_digits (some h) (some l) (some bs) = some ((h * 16 + l) ∷ bs)
join_digits (some h) (some l) none = none
join_digits (some h) none bs = none
join_digits none l bs = none

-- `none` on an odd length or a byte that is no digit.
unfoldable pub hex_decode : Text → Option Text
unfolding from_hex_char join_digits
hex_decode [] = some []
hex_decode (h ∷ []) = none
hex_decode (h ∷ l ∷ cs) = join_digits (from_hex_char h) (from_hex_char l) (hex_decode cs)

abbrev pub IsByte : ℕ → Type 0
IsByte b = b < 256

-- A lowercase hexadecimal digit.
abbrev pub IsHexChar : ℕ → Type 0
IsHexChar c = ((b'0' ≤ c) × (c ≤ b'9')) ⊎ ((b'a' ≤ c) × (c ≤ b'f'))

from_hex_char-hex_digit : (n : ℕ) → n < 16 → from_hex_char (hex_digit n) ≡ some n
unfolding from_hex_char hex_digit
from_hex_char-hex_digit n h = ground arith

pub hex_decode-hex_encode : (bs : Text) → All IsByte bs → hex_decode (hex_encode bs) ≡ some bs
unfolding hex_decode hex_encode
hex_decode-hex_encode [] h = refl
hex_decode-hex_encode (b ∷ bs) h =
    rw
      (
        from_hex_char-hex_digit (b / 16) (omega arith),
        from_hex_char-hex_digit (b % 16) (omega arith),
        hex_decode-hex_encode bs h.1,
      )
      (ground arith)

pub length-hex_encode : (bs : Text) → length (hex_encode bs) ≡ 2 * length bs
unfolding hex_encode
length-hex_encode [] = refl
length-hex_encode (b ∷ bs) = omega (arith, length-hex_encode bs)

hex_digit-from_hex_char :
    (c : ℕ) → IsHexChar c → (n : ℕ) × (from_hex_char c ≡ some n) × (n < 16) × (hex_digit n ≡ c)
unfolding from_hex_char hex_digit
hex_digit-from_hex_char c (inl h) = (c - b'0', ground arith, omega arith, ground arith)
hex_digit-from_hex_char c (inr h) = (c - 87, ground arith, omega arith, ground arith)

from_hex_char-bound : (c n : ℕ) → from_hex_char c ≡ some n → n < 16
unfolding from_hex_char
from_hex_char-bound c n h = ground arith

hex_digit-IsHexChar : (n : ℕ) → n < 16 → IsHexChar (hex_digit n)
unfolding hex_digit
hex_digit-IsHexChar n h = ground arith

pub hex_encode-IsHexChar : (bs : Text) → All IsByte bs → All IsHexChar (hex_encode bs)
unfolding hex_encode
hex_encode-IsHexChar [] h = tt
hex_encode-IsHexChar (b ∷ bs) h = (
  hex_digit-IsHexChar (b / 16) (omega arith),
  (hex_digit-IsHexChar (b % 16) (omega arith), hex_encode-IsHexChar bs h.1),
)

pub hex_decode-IsByte : (cs bs : Text) → hex_decode cs ≡ some bs → All IsByte bs
unfolding hex_decode
hex_decode-IsByte [] bs h = ground arith
hex_decode-IsByte (c ∷ []) bs h = absurd (cc)
hex_decode-IsByte (h ∷ l ∷ cs) bs e = elim (Option-cases (hex_decode cs)) [
  | inl q ↦ absurd (ground arith)
  | inr (r, q) ↦
      ground (arith, hex_decode-IsByte cs r q, from_hex_char-bound h, from_hex_char-bound l)
]

pub hex_encode-hex_decode :
    (n : ℕ) (cs : Text)
    → All IsHexChar cs
    → length cs ≡ 2 * n
    → (bs : Text) × (hex_decode cs ≡ some bs) × (hex_encode bs ≡ cs) × (length bs ≡ n)
unfolding hex_decode hex_encode
hex_encode-hex_decode n [] a h = ([], refl, refl, omega arith)
hex_encode-hex_decode n (c ∷ []) a h = absurd (omega arith)
hex_encode-hex_decode zero (h ∷ l ∷ cs) a e = absurd (omega arith)
hex_encode-hex_decode (suc n) (h ∷ l ∷ cs) (ha, (la, a)) e =
    let (x, dx, lx, ex) = hex_digit-from_hex_char h ha in
    let (y, dy, ly, ey) = hex_digit-from_hex_char l la in
    let (bs, d, back, len) = hex_encode-hex_decode n cs a (omega arith) in
    (
      (x * 16 + y) ∷ bs,
      rw (dx, dy, d) refl,
      (let p : (x * 16 + y) / 16 ≡ x = omega arith in
          let q : (x * 16 + y) % 16 ≡ y = omega arith in rw (p, q, ex, ey, back) refl),
      omega arith,
    )
