-- ===== src/Flow/Key/Order.antt =====
-- Canonicalize and compareEndpoint of internal/flow/key.go.
use go_musical_packets.Prelude.{
  ◌≡◌, ◌≢◌, inl, inr, true, false, [], arith, Bool-cases, Text, text_lt, text_lt_irrefl,
  text_lt_trans, text_lt-total,
}
use Prim.Native.Nat.{Ordering}
use go_musical_packets.Packet.{Addr, invalid, v4, v6, Endpoint, Event}
use go_musical_packets.Flow.Key.{
  compare_text, compare_addr, compare_endpoint, at_most, canonicalize, Digest, key_id,
}

abbrev flip : Ordering → Ordering
flip Ordering.lt = Ordering.gt
flip Ordering.eq = Ordering.eq
flip Ordering.gt = Ordering.lt

text_lt-asym : (s t : Text) → text_lt s t ≡ true → text_lt t s ≡ false
text_lt-asym s t h = elim (Bool-cases (text_lt t s)) [
  | inl k ↦ absurd (ground (arith, text_lt_trans s t s, text_lt_irrefl s))
  | inr k ↦ k
]

compare_text-flip : (s t : Text) → compare_text t s ≡ flip (compare_text s t)
unfolding compare_text
compare_text-flip s t = ground (arith, text_lt-asym s t)

compare_text-eq : (s t : Text) → compare_text s t ≡ Ordering.eq → s ≡ t
unfolding compare_text
compare_text-eq s t h = ground (arith, text_lt-total s t)

compare_addr-flip : (x y : Addr) → compare_addr y x ≡ flip (compare_addr x y)
unfolding compare_addr
compare_addr-flip invalid y = ground (arith, compare_text-flip [] [])
compare_addr-flip (v4 m) y = ground (arith, compare_text-flip [] [])
compare_addr-flip (v6 m s) invalid = ground arith
compare_addr-flip (v6 m s) (v4 n) = ground arith
compare_addr-flip (v6 m s) (v6 n t) = ground (arith, compare_text-flip s t)

compare_addr-eq : (x y : Addr) → compare_addr x y ≡ Ordering.eq → x ≡ y
unfolding compare_addr
compare_addr-eq invalid y h = ground arith
compare_addr-eq (v4 m) y h = ground arith
compare_addr-eq (v6 m s) invalid h = ground arith
compare_addr-eq (v6 m s) (v4 n) h = ground arith
compare_addr-eq (v6 m s) (v6 n t) h = ground (arith, compare_text-eq s t)

pub compare_endpoint-flip : (x y : Endpoint) → compare_endpoint y x ≡ flip (compare_endpoint x y)
unfolding compare_endpoint
compare_endpoint-flip x y = ground (arith, compare_addr-flip x.addr y.addr)

pub compare_endpoint-eq : (x y : Endpoint) → compare_endpoint x y ≡ Ordering.eq → x ≡ y
unfolding compare_endpoint
compare_endpoint-eq x y h = ground (arith, compare_addr-eq x.addr y.addr)

-- The packet of the other direction.
abbrev pub reversed : Event → Event
reversed e = record e { source = e.destination; destination = e.source }

-- A packet and its reverse have one key, whose first endpoint does not come after the second; so
-- they have one flow ID, and two different directions unless the two endpoints are equal.
pub canonicalize-reversed :
    (d : Digest) (seed : Text) (e : Event)
    → ((canonicalize (reversed e)).0 ≡ (canonicalize e).0)
      × (at_most (compare_endpoint (canonicalize e).0.a (canonicalize e).0.b) ≡ true)
      × (key_id d (canonicalize (reversed e)).0 seed ≡ key_id d (canonicalize e).0 seed)
      × (e.source ≢ e.destination → (canonicalize (reversed e)).1 ≢ (canonicalize e).1)
unfolding canonicalize
canonicalize-reversed d seed e = ground (
  arith,
  compare_endpoint-flip e.source e.destination,
  compare_endpoint-eq e.source e.destination,
)
