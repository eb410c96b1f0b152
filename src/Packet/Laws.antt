-- ===== src/Packet/Laws.antt =====
-- What an event that `Validate` accepts satisfies.
use go_musical_packets.Prelude.{
  inr, text_eq→eq, inl, text_eq, ◌⊎◌, codes, Bool-cases, ◌≤◌, ◌≡◌, refl, ◌↔◌, true, false, arith,
  ok, ℤ, pos, negsuc, ltb_ℤ, to_ℕ,
}
use go_musical_packets.Packet.{
  protocol_other, protocol_icmp6, protocol_icmp, protocol_udp, protocol_tcp, Protocol, Event,
  is_valid_addr, is_protocol, validate,
}

-- One of the five protocol names.
abbrev pub IsProtocol : Protocol → Type 0
IsProtocol p =
    (p ≡ codes "tcp")
    ⊎ (p ≡ codes "udp")
    ⊎ (p ≡ codes "icmp")
    ⊎ (p ≡ codes "icmp6")
    ⊎ (p ≡ codes "other")

is_protocol_iff : (p : Protocol) → (is_protocol p ≡ true) ↔ IsProtocol p
unfolding is_protocol text_eq
is_protocol_iff p = (known, listed)
  where
    known : is_protocol p ≡ true → IsProtocol p
    known h = elim (Bool-cases (text_eq p protocol_tcp)) [
      | inl a ↦ inl (text_eq→eq p protocol_tcp a)
      | inr a ↦ inr elim (Bool-cases (text_eq p protocol_udp)) [
        | inl b ↦ inl (text_eq→eq p protocol_udp b)
        | inr b ↦ inr elim (Bool-cases (text_eq p protocol_icmp)) [
          | inl c ↦ inl (text_eq→eq p protocol_icmp c)
          | inr c ↦ inr elim (Bool-cases (text_eq p protocol_icmp6)) [
            | inl d ↦ inl (text_eq→eq p protocol_icmp6 d)
            | inr d ↦ inr (text_eq→eq p protocol_other (ground (arith, h, a, b, c, d)))
          ]
        ]
      ]
    ]

    listed : IsProtocol p → is_protocol p ≡ true
    listed (inl e) = rw e refl
    listed (inr (inl e)) = rw e refl
    listed (inr (inr (inl e))) = rw e refl
    listed (inr (inr (inr (inl e)))) = rw e refl
    listed (inr (inr (inr (inr e)))) = rw e refl

pub record IsValid (e : Event) : Type 0 where
  pub source_valid : is_valid_addr e.source.addr ≡ true
  pub destination_valid : is_valid_addr e.destination.addr ≡ true
  pub wire_nonneg : e.wire_length ≡ pos (to_ℕ e.wire_length)
  pub captured_nonneg : e.captured_length ≡ pos (to_ℕ e.captured_length)
  pub payload_nonneg : e.payload_length ≡ pos (to_ℕ e.payload_length)
  pub captured_within : to_ℕ e.captured_length ≤ to_ℕ e.wire_length
  pub payload_within : to_ℕ e.payload_length ≤ to_ℕ e.captured_length
  pub protocol_known : IsProtocol e.protocol

ltb_ℤ-zero : (z : ℤ) → ltb_ℤ z (pos 0) ≡ false → z ≡ pos (to_ℕ z)
ltb_ℤ-zero (pos n) h = refl
ltb_ℤ-zero (negsuc n) h = ground arith

-- An event is accepted exactly when its addresses are valid, its lengths are not negative and
-- nested (payload within captured within wire), and its protocol is tcp, udp, icmp, icmp6 or other.
pub validate_iff : (e : Event) → (validate e ≡ ok tt) ↔ IsValid e
unfolding validate
validate_iff e = (
  λ h. ground (arith, ltb_ℤ-zero e.wire_length, is_protocol_iff e.protocol),
  λ v. ground (arith, (is_protocol_iff e.protocol).1 v.protocol_known),
)
