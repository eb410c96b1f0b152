-- ===== src/Packet.antt =====
-- internal/packet/event.go: the normalized metadata of one captured packet. Addresses are
-- netip.Addr values, written with the parts of them that the program reads.
pub mod Laws
use go_musical_packets.Prelude.{
  ℕ, zero, suc, ◌+◌, ◌-◌, ◌*◌, ◌/◌, ◌%◌, ◌^◌, ◌≤◌, ◌<◌, bit_and, bit_or, ◌≡◌, refl, sym, ap, ◌∙◌,
  subst, ◌≢◌, ◌↔◌, ◌⊎◌, inl, inr, Bool, true, false, not, ◌&&◌, ◌||◌, Option, none, some, List, [],
  ◌∷◌, ◌++◌, map, arith, ltb, leb, ◌==◌, if◌then◌else◌, Bool-cases, Option-cases, is_some, ltb→lt,
  lt→ltb, leb→le, ==_iff, length, get_elem?, get_or, take, drop, length-append, All, All-append,
  Result, ok, err, ◌>>=◌, ◌>>◌, refuse_if, map_err, ℤ, pos, negsuc, ltb_ℤ, leb_ℤ, to_int64, to_ℕ,
  Text, codes, text_eq, is_empty, text_lt, text_eq_refl, text_eq→eq, text_eq_iff, text_lt_irrefl,
  text_lt_trans, text_lt-total,
}

-- `v6 n zone`; `invalid` is the zero Addr.
pub data Addr : Type 0 where
  invalid : Addr
  v4 : ℕ → Addr
  v6 : ℕ → Text → Addr

unfoldable pub is_valid_addr : Addr → Bool
is_valid_addr invalid = false
is_valid_addr (v4 n) = true
is_valid_addr (v6 n zone) = true

pub record Endpoint : Type 0 where
  pub addr : Addr
  pub port : ℕ  -- uint16

abbrev pub Protocol : Type 0
Protocol = Text

abbrev pub protocol_tcp : Protocol
protocol_tcp = codes "tcp"

abbrev pub protocol_udp : Protocol
protocol_udp = codes "udp"

abbrev pub protocol_icmp : Protocol
protocol_icmp = codes "icmp"

abbrev pub protocol_icmp6 : Protocol
protocol_icmp6 = codes "icmp6"

abbrev pub protocol_other : Protocol
protocol_other = codes "other"

abbrev pub flag_fin : ℕ
flag_fin = 1

abbrev pub flag_syn : ℕ
flag_syn = 2

abbrev pub flag_rst : ℕ
flag_rst = 4

abbrev pub flag_psh : ℕ
flag_psh = 8

abbrev pub flag_ack : ℕ
flag_ack = 16

abbrev pub flag_urg : ℕ
flag_urg = 32

-- Instants are nanoseconds after the zero time.Time, which is 0.
pub record Event : Type 0 where
  pub captured_at : ℕ
  pub source : Endpoint
  pub destination : Endpoint
  pub protocol : Protocol
  pub wire_length : ℤ
  pub captured_length : ℤ
  pub payload_length : ℤ
  pub tcp_flags : ℕ  -- uint8

pub data Error : Type 0 where
  invalid_address negative_length captured_exceeds_wire payload_exceeds_captured : Error
  unsupported_protocol : Error

-- The `switch` over the five protocol names.
unfoldable pub is_protocol : Protocol → Bool
is_protocol p =
    text_eq p protocol_tcp
    || text_eq p protocol_udp
    || text_eq p protocol_icmp
    || text_eq p protocol_icmp6
    || text_eq p protocol_other

unfoldable pub validate : Event → Result Error (Unit {0})
unfolding is_valid_addr
validate e = do
  refuse_if (not (is_valid_addr e.source.addr) || not (is_valid_addr e.destination.addr))
      invalid_address
  refuse_if
      (ltb_ℤ e.wire_length (pos 0)
        || ltb_ℤ e.captured_length (pos 0)
        || ltb_ℤ e.payload_length (pos 0))
      negative_length
  refuse_if (ltb_ℤ e.wire_length e.captured_length) captured_exceeds_wire
  refuse_if (ltb_ℤ e.captured_length e.payload_length) payload_exceeds_captured
  if is_protocol e.protocol then ok tt else err unsupported_protocol
