-- ===== src/Flow/Key.antt =====
-- internal/flow/key.go: the canonical key of a bidirectional flow and its pseudonymous ID.
-- SHA-256 and the text form of an address are parameters, a `Digest`.
pub mod Order
pub mod Identity
use go_musical_packets.Prelude.{
  ℕ, zero, suc, ◌+◌, ◌-◌, ◌*◌, ◌/◌, ◌%◌, ◌^◌, ◌≤◌, ◌<◌, bit_and, bit_or, ◌≡◌, refl, sym, ap, ◌∙◌,
  subst, ◌≢◌, ◌↔◌, ◌⊎◌, inl, inr, Bool, true, false, not, ◌&&◌, ◌||◌, Option, none, some, List, [],
  ◌∷◌, ◌++◌, map, arith, ltb, leb, ◌==◌, if◌then◌else◌, Bool-cases, Option-cases, is_some, ltb→lt,
  lt→ltb, leb→le, ==_iff, length, get_elem?, get_or, take, drop, length-append, All, All-append,
  Result, ok, err, ◌>>=◌, ◌>>◌, refuse_if, map_err, ℤ, pos, negsuc, ltb_ℤ, leb_ℤ, to_int64, to_ℕ,
  Text, codes, text_eq, is_empty, text_lt, text_eq_refl, text_eq→eq, text_eq_iff, text_lt_irrefl,
  text_lt_trans, text_lt-total,
}
use Prim.Native.Nat.{compare, Ordering}
use go_musical_packets.Packet.{Addr, invalid, v4, v6, Endpoint, Protocol, Event}
use go_musical_packets.Hex.{IsByte, hex_encode}

pub data Direction : Type 0 where
  a_to_b b_to_a : Direction

pub record Key : Type 0 where
  pub protocol : Protocol
  pub a : Endpoint
  pub b : Endpoint

bit_len : Addr → ℕ
bit_len invalid = 0
bit_len (v4 n) = 32
bit_len (v6 n zone) = 128

value : Addr → ℕ
value invalid = 0
value (v4 n) = n
value (v6 n zone) = n

zone : Addr → Text
zone invalid = []
zone (v4 n) = []
zone (v6 n z) = z

unfoldable pub compare_text : Text → Text → Ordering
compare_text s t =
    if text_lt s t then Ordering.lt else if text_lt t s then Ordering.gt else Ordering.eq

-- The second order decides where the first finds no difference.
abbrev pub then_by : Ordering → Ordering → Ordering
then_by Ordering.eq o = o
then_by Ordering.lt o = Ordering.lt
then_by Ordering.gt o = Ordering.gt

-- netip.Addr.Compare: by length, by value, then by zone.
unfoldable pub compare_addr : Addr → Addr → Ordering
unfolding bit_len value zone
compare_addr x y =
    then_by (compare (bit_len x) (bit_len y))
      (then_by (compare (value x) (value y)) (compare_text (zone x) (zone y)))

unfoldable pub compare_endpoint : Endpoint → Endpoint → Ordering
compare_endpoint x y = then_by (compare_addr x.addr y.addr) (compare x.port y.port)

-- `compare <= 0`.
abbrev pub at_most : Ordering → Bool
at_most Ordering.gt = false
at_most Ordering.lt = true
at_most Ordering.eq = true

unfoldable pub canonicalize : Event → Key × Direction
canonicalize e =
    if at_most (compare_endpoint e.source e.destination)
    then (record { protocol = e.protocol; a = e.source; b = e.destination }, a_to_b)
    else (record { protocol = e.protocol; a = e.destination; b = e.source }, b_to_a)

-- crypto/sha256 and netip.Addr.String.
pub record Digest : Type 0 where
  pub sha256 : Text → Text
  pub addr_string : Addr → Text
  pub sha256_length : (m : Text) → length (sha256 m) ≡ 32
  pub sha256_bytes : (m : Text) → All IsByte (sha256 m)

-- The big-endian bytes of a uint32 and of a uint16.
be32 : ℕ → Text
be32 n = (n / 2 ^ 24 % 256) ∷ (n / 2 ^ 16 % 256) ∷ (n / 2 ^ 8 % 256) ∷ (n % 256) ∷ []

be16 : ℕ → Text
be16 n = (n / 2 ^ 8 % 256) ∷ (n % 256) ∷ []

-- What the writers append to the hash: the length as a uint32, then the bytes.
write_string : Text → Text
unfolding be32
write_string s = be32 (length s) ++ s

module _ (d : Digest) where
  write_endpoint : Endpoint → Text
  unfolding be16
  write_endpoint e = write_string (d.addr_string e.addr) ++ be16 e.port

  unfoldable pub hash_input : Text → Key → Text
  unfolding write_endpoint write_string
  hash_input seed k =
      write_string seed ++ (write_string k.protocol ++ (write_endpoint k.a ++ write_endpoint k.b))

  unfoldable pub key_id : Key → Text → Text
  unfolding hash_input
  key_id k seed = hex_encode (take 12 (d.sha256 (hash_input seed k)))
