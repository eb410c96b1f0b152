-- ===== src/Flow/Key/Identity.antt =====
-- Key.ID of internal/flow/key.go and the bytes that it hashes.
use go_musical_packets.Packet.{Addr, Endpoint}
use go_musical_packets.Prelude.{
  ap, ℕ, zero, suc, ◌^◌, ◌≤◌, ◌<◌, ◌≡◌, refl, sym, ◌∙◌, some, [], ◌∷◌, ◌++◌, arith, length, take,
  All, Text,
}
use go_musical_packets.Hex.{
  IsByte, hex_encode, hex_decode, hex_decode-hex_encode, length-hex_encode,
}
use go_musical_packets.Flow.Key.{
  write_endpoint, Key, Digest, be32, be16, write_string, hash_input, key_id,
}

All-take : (n : ℕ) (bs : Text) → All IsByte bs → All IsByte (take n bs)
All-take zero bs h = tt
All-take (suc n) [] h = tt
All-take (suc n) (b ∷ bs) h = (h.0, All-take n bs h.1)

length-take : (n : ℕ) (bs : Text) → n ≤ length bs → length (take n bs) ≡ n
length-take zero bs h = refl
length-take (suc n) [] h = omega arith
length-take (suc n) (b ∷ bs) h = omega (arith, length-take n bs)

-- The 12 bytes of the digest that a flow ID shows.
abbrev pub key_digest : Digest → Key → Text → Text
key_digest d k seed = take 12 (d.sha256 (hash_input d seed k))

pub length-key_digest : (d : Digest) (k : Key) (seed : Text) → length (key_digest d k seed) ≡ 12
length-key_digest d k seed =
    length-take 12 (d.sha256 (hash_input d seed k))
      (omega (arith, d.sha256_length (hash_input d seed k)))

-- A flow ID has 24 characters and decodes to the first 12 bytes of the digest.
pub key_id-decodes :
    (d : Digest) (k : Key) (seed : Text)
    → (hex_decode (key_id d k seed) ≡ some (key_digest d k seed))
      × (hex_encode (key_digest d k seed) ≡ key_id d k seed)
      × (length (key_id d k seed) ≡ 24)
unfolding key_id
key_id-decodes d k seed = (
  hex_decode-hex_encode (key_digest d k seed)
      (All-take 12 (d.sha256 (hash_input d seed k)) (d.sha256_bytes (hash_input d seed k))),
  refl,
  omega (arith, length-hex_encode (key_digest d k seed), length-key_digest d k seed),
)

append_cancel : (s t r u : Text) → length s ≡ length t → s ++ r ≡ t ++ u → (s ≡ t) × (r ≡ u)
append_cancel [] [] r u h e = (refl, e)
append_cancel [] (y ∷ t) r u h e = absurd (omega arith)
append_cancel (x ∷ s) [] r u h e = absurd (omega arith)
append_cancel (x ∷ s) (y ∷ t) r u h e = ground (arith, append_cancel s t r u)

be32_injective : (m n : ℕ) → m < 2 ^ 32 → n < 2 ^ 32 → be32 m ≡ be32 n → m ≡ n
unfolding be32
be32_injective m n h k e = ground arith

be16_injective : (m n : ℕ) → m < 2 ^ 16 → n < 2 ^ 16 → be16 m ≡ be16 n → m ≡ n
unfolding be16
be16_injective m n h k e = ground arith

-- A string that the 4-byte length can measure.
abbrev pub Fits : Text → Type 0
Fits s = length s < 2 ^ 32

append_assoc : (s t u : Text) → (s ++ t) ++ u ≡ s ++ (t ++ u)
append_assoc [] t u = refl
append_assoc (x ∷ s) t u = rw (append_assoc s t u)

write_string-cancel :
    (s t r u : Text)
    → Fits s
    → Fits t
    → write_string s ++ r ≡ write_string t ++ u
    → (s ≡ t) × (r ≡ u)
unfolding write_string
write_string-cancel s t r u h k e =
    let (p, q) =
      append_cancel (be32 (length s)) (be32 (length t)) (s ++ r) (t ++ u) refl
        (sym (append_assoc (be32 (length s)) s r) ∙ e ∙ append_assoc (be32 (length t)) t u) in
    append_cancel s t r u (be32_injective (length s) (length t) h k p) q

-- What fits the widths that the writers give it.
abbrev pub EndpointFits : Digest → Endpoint → Type 0
EndpointFits d e = Fits (d.addr_string e.addr) × (e.port < 2 ^ 16)

abbrev pub KeyFits : Digest → Key → Type 0
KeyFits d k = Fits k.protocol × EndpointFits d k.a × EndpointFits d k.b

abbrev pub AddrStringInjective : Digest → Type 0
AddrStringInjective d = (x y : Addr) → d.addr_string x ≡ d.addr_string y → x ≡ y

write_endpoint-cancel :
    (d : Digest) (x y : Endpoint) (r u : Text)
    → AddrStringInjective d
    → EndpointFits d x
    → EndpointFits d y
    → write_endpoint d x ++ r ≡ write_endpoint d y ++ u
    → (x ≡ y) × (r ≡ u)
unfolding write_endpoint
write_endpoint-cancel d x y r u inj h k e =
    let sx = d.addr_string x.addr in
    let sy = d.addr_string y.addr in
    let (p, q) = write_string-cancel sx sy (be16 x.port ++ r) (be16 y.port ++ u) h.0 k.0 (
      sym (append_assoc (write_string sx) (be16 x.port) r)
      ∙ e
      ∙ append_assoc (write_string sy) (be16 y.port) u) in
    let (ports, rest) = append_cancel (be16 x.port) (be16 y.port) r u refl q in
    (cc (inj x.addr y.addr p, be16_injective x.port y.port h.1 k.1 ports), rest)

-- What is hashed determines the seed and the key: two flows never share a hash input, under the
-- condition that address texts differ for different addresses, strings are shorter than 2 ^ 32 and
-- ports below 2 ^ 16.
pub hash_input_injective :
    (d : Digest) (s t : Text) (k l : Key)
    → AddrStringInjective d
    → Fits s
    → Fits t
    → KeyFits d k
    → KeyFits d l
    → hash_input d s k ≡ hash_input d t l
    → (s ≡ t) × (k ≡ l)
unfolding hash_input
hash_input_injective d s t k l inj hs ht hk hl e =
    let (seeds, e1) = write_string-cancel s t _ _ hs ht e in
    let (protocols, e2) = write_string-cancel k.protocol l.protocol _ _ hk.0 hl.0 e1 in
    let (sources, e3) = write_endpoint-cancel d k.a l.a _ _ inj hk.1 hl.1 e2 in
    let (targets, e4) =
      write_endpoint-cancel d k.b l.b [] [] inj hk.2 hl.2 (ap (λ (z : Text). z ++ []) e3) in
    (seeds, ground arith)
