-- ===== src/Flow/Prefix.antt =====
-- netip.Prefix, as internal/flow/selector.go uses it.
use go_musical_packets.Prelude.{
  ◌≡◌, refl, ℕ, ◌-◌, ◌*◌, [], ◌/◌, ◌^◌, Bool, leb, false, ◌&&◌, ◌==◌, is_empty,
}
use go_musical_packets.Packet.{Addr, invalid, v4, v6}

pub data Prefix : Type 0 where
  invalid_prefix : Prefix
  prefix : Addr → ℕ → Prefix

unfoldable pub is_valid_prefix : Prefix → Bool
is_valid_prefix invalid_prefix = false
is_valid_prefix (prefix invalid bits) = false
is_valid_prefix (prefix (v4 n) bits) = leb bits 32
is_valid_prefix (prefix (v6 n zone) bits) = leb bits 128

-- Two values of `width` bits agree in the first `bits`.
same_head : ℕ → ℕ → ℕ → ℕ → Bool
same_head width bits m n = m / 2 ^ (width - bits) == n / 2 ^ (width - bits)

-- An address with a zone is in no prefix, and neither is one of the other family.
contains_addr : Addr → ℕ → Addr → Bool
unfolding same_head
contains_addr (v4 m) bits (v4 n) = same_head 32 bits m n
contains_addr (v6 m z) bits (v6 n zone) = is_empty zone && same_head 128 bits m n
contains_addr p bits a = false

unfoldable pub contains : Prefix → Addr → Bool
unfolding contains_addr
contains invalid_prefix a = false
contains (prefix p bits) a = contains_addr p bits a

-- Masked: the address with its low bits cleared and without a zone.
unfoldable pub masked : Prefix → Prefix
masked invalid_prefix = invalid_prefix
masked (prefix invalid bits) = invalid_prefix
masked (prefix (v4 n) bits) = prefix (v4 (n / 2 ^ (32 - bits) * 2 ^ (32 - bits))) bits
masked (prefix (v6 n zone) bits) = prefix (v6 (n / 2 ^ (128 - bits) * 2 ^ (128 - bits)) []) bits

pub masked-is_valid_prefix : (p : Prefix) → is_valid_prefix (masked p) ≡ is_valid_prefix p
unfolding masked is_valid_prefix
masked-is_valid_prefix invalid_prefix = refl
masked-is_valid_prefix (prefix invalid bits) = refl
masked-is_valid_prefix (prefix (v4 n) bits) = refl
masked-is_valid_prefix (prefix (v6 n zone) bits) = refl
