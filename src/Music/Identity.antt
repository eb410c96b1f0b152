-- ===== src/Music/Identity.antt =====
-- internal/music/identity.go: the mode and root of a flow, from its ID alone.
use go_musical_packets.Flow.Key.Identity.{length-key_digest, key_id-decodes}
use go_musical_packets.Hex.{
  hex_encode-hex_decode, length-hex_encode, hex_decode-IsByte, hex_encode-IsHexChar, IsHexChar,
  hex_encode, hex_decode,
}
use go_musical_packets.Prelude.{
  ℕ, ◌%◌, ◌≤◌, ◌<◌, ◌≡◌, sym, ap, ◌∙◌, subst, ◌↔◌, inl, inr, Bool, true, false, ◌&&◌, Option, none,
  some, arith, ◌==◌, if◌then◌else◌, Option-cases, is_some, length, get_or, All, Text, text_eq,
  text_eq_refl, text_eq→eq,
}
use go_musical_packets.Music.Mode.{mode_count, Mode}
use go_musical_packets.Flow.Key.{Digest, Key, key_id}

pub record FlowIdentity : Type 0 where
  pub mode : Mode
  pub root : ℕ

-- `digest[0] % modeCount` and `digest[1] % 12`.
identity_of : Text → FlowIdentity
identity_of digest = record { mode = get_or digest 0 0 % mode_count; root = get_or digest 1 0 % 12 }

check_decoded : Text → Option Text → Bool
check_decoded id none = false
check_decoded id (some bytes) = length bytes == 12 && text_eq (hex_encode bytes) id

-- `none` is the error "flow ID must be 24 lowercase hexadecimal characters".
unfoldable pub identity_for_flow_id : Digest → Text → Option FlowIdentity
unfolding check_decoded identity_of
identity_for_flow_id d id =
    if check_decoded id (hex_decode id) then some (identity_of (d.sha256 id)) else none

-- Every flow ID that a key and a seed give has an identity, whose mode and root are valid.
pub identity_for_key_id :
    (d : Digest) (k : Key) (seed : Text)
    → (i : FlowIdentity) × (identity_for_flow_id d (key_id d k seed) ≡ some i)
      × (i.mode < mode_count)
      × (i.root ≤ 11)
unfolding identity_for_flow_id
identity_for_key_id d k seed =
    let (decodes, encodes, _) = key_id-decodes d k seed in
    (
      identity_of (d.sha256 (key_id d k seed)),
      rw decodes
          (ground (arith, encodes, length-key_digest d k seed, text_eq_refl (key_id d k seed))),
      omega arith,
      omega arith,
    )

-- Exactly the texts of 24 lowercase hexadecimal characters have an identity.
pub identity_for_flow_id_iff :
    (d : Digest) (id : Text)
    → (is_some (identity_for_flow_id d id) ≡ true) ↔ (All IsHexChar id × (length id ≡ 24))
unfolding identity_for_flow_id
identity_for_flow_id_iff d id = (
  λ h. elim (Option-cases (hex_decode id)) [
    | inl e ↦ absurd (ground (arith, e))
    | inr (bs, e) ↦
        let same : hex_encode bs ≡ id = text_eq→eq (hex_encode bs) id (ground (arith, e)) in
        (
          subst (All IsHexChar) same (hex_encode-IsHexChar bs (hex_decode-IsByte id bs e)),
          ap length (sym same) ∙ length-hex_encode bs ∙ ground (arith, e),
        )
  ],
  λ h.
      let (bs, e, same, len) = hex_encode-hex_decode 12 id h.0 (omega arith) in
      ground (arith, e, same, len, text_eq_refl id),
)
