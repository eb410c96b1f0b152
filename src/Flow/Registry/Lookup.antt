-- ===== src/Flow/Registry/Lookup.antt =====
-- What callers of Observe see: its result, later lookups, evictions.
use go_musical_packets.Flow.Registry.Order.{root-IsLeast, root-member}
use Prim.Native.Nat.{max, min}
use go_musical_packets.Flow.Registry.Store.{find-delete, find-store, find-id}
use go_musical_packets.Flow.Registry.Invariant.{
  update-id, RoomMade, record_packet_lem, Recorded, IsRegistry,
}
use go_musical_packets.Packet.Laws.{validate_iff, IsValid}
use go_musical_packets.Prelude.{
  ◌≤◌, ◌⊎◌, ◌^◌, ◌%◌, ◌+◌, ◌∙◌, sym, length, ap, none, some, false, text_eq, Bool, true,
  if◌then◌else◌, subst, Option, ◌<◌, ◌≡◌, refl, ◌≢◌, inl, inr, arith, ok, err, Result-cases, Text,
}
use go_musical_packets.Packet.{validate, Event}
use go_musical_packets.Flow.Key.{canonicalize, key_id, Digest}
use go_musical_packets.Flow.Registry.{
  new_entry, root, entry_less, len, update, delete, find, Snapshot, get, insert_entry,
  timestamp_missing, packet_error, ObserveResult, heap_empty, RegistryError, Registry, observe,
}

-- A packet that Observe takes.
abbrev pub IsObservable : Event → Type 0
IsObservable e = IsValid e × (0 < e.captured_at)

abbrev flow_of : Digest → Registry → Event → Text
flow_of d r e = key_id d (canonicalize e).0 r.seed

observe-Recorded :
    (d : Digest) (r : Registry) (e : Event)
    → IsRegistry r
    → IsObservable e
    → (out : Registry × ObserveResult) × (observe d r e ≡ ok out)
      × Recorded r (flow_of d r e) (canonicalize e).0 (canonicalize e).1 e out
unfolding observe
observe-Recorded d r e v p =
    let (out, h, w) =
      record_packet_lem r (flow_of d r e) (canonicalize e).0 (canonicalize e).1 e v p.1 in
    (out, ground (arith, (validate_iff e).1 p.0, h), w)

observe-refused :
    (d : Digest) (r : Registry) (e : Event)
    → (¬ IsObservable e)
    → (x : RegistryError) × (observe d r e ≡ err x) × (x ≢ heap_empty)
unfolding observe
observe-refused d r e h = elim (Result-cases (validate e)) [
  | inr (x, q) ↦ (packet_error x, rw (q, observe) refl, λ z. cc)
  | inl (tt, q) ↦ (
    timestamp_missing,
    ground (arith, q, λ (p : 0 < e.captured_at). h ((validate_iff e).0 q, p)),
    λ z. cc,
  )
]

-- Observe takes exactly the valid packets with a timestamp. It keeps the registry well formed: the
-- map and the heap hold the same entries, each once, no more than the capacity, and the counters
-- and times of each agree. It never pops an empty heap.
pub observe-IsRegistry :
    (d : Digest) (r : Registry) (e : Event)
    → IsRegistry r
    → (IsObservable e
        → (out : Registry × ObserveResult) × (observe d r e ≡ ok out) × IsRegistry out.0)
      × ((¬ IsObservable e) → (x : RegistryError) × (observe d r e ≡ err x) × (x ≢ heap_empty))
observe-IsRegistry d r e v =
    (λ p. let (out, h, w) = observe-Recorded d r e v p in (out, h, w.keeps), observe-refused d r e)

pub observe_ok-IsObservable :
    (d : Digest) (r : Registry) (e : Event) (out : Registry × ObserveResult)
    → observe d r e ≡ ok out
    → IsObservable e
unfolding observe
observe_ok-IsObservable d r e out h = elim (Result-cases (validate e)) [
  | inr (x, q) ↦ absurd (ground (arith, q))
  | inl (u, q) ↦ ((validate_iff e).0 (ground (arith, q)), ground (arith, q))
]

recorded :
    (d : Digest) (r : Registry) (e : Event) (out : Registry × ObserveResult)
    → IsRegistry r
    → observe d r e ≡ ok out
    → Recorded r (flow_of d r e) (canonicalize e).0 (canonicalize e).1 e out
recorded d r e out v h =
    let (out', q, w) = observe-Recorded d r e v (observe_ok-IsObservable d r e out h) in
    subst (Recorded r (flow_of d r e) (canonicalize e).0 (canonicalize e).1 e) (cc) w

pub observed-keeps :
    (d : Digest) (r : Registry) (e : Event) (out : Registry × ObserveResult)
    → IsRegistry r
    → observe d r e ≡ ok out
    → IsRegistry out.0
observed-keeps d r e out v h = (recorded d r e out v h).keeps

abbrev pub has_id : Text → Option Snapshot → Bool
has_id id none = false
has_id id (some s) = text_eq s.id id

room-get :
    (r : Registry) (room : Option Snapshot × Registry) (t : Snapshot) (j : Text)
    → RoomMade r room
    → get (insert_entry t room).0 j
      ≡ (if text_eq t.id j then some t else if has_id j room.0 then none else get r j)
unfolding get insert_entry find
room-get r (none, r') t j made = ground (arith, made.0)
room-get r (some s, r') t j made =
    let q : r'.flows ≡ delete s.id r.flows = ap (λ z. z.flows) made.0 in
    rw (q, find-delete j s.id r.flows) refl

insert_entry-result :
    (room : Option Snapshot × Registry) (t : Snapshot)
    → ((insert_entry t room).1.flow ≡ t)
      × ((insert_entry t room).1.evicted ≡ room.0)
      × ((insert_entry t room).1.created ≡ true)
unfolding insert_entry
insert_entry-result (x, r') t = (refl, refl, refl)

-- After Observe, Get finds the reported flow under its ID, nothing under the ID of an evicted flow,
-- and under every other ID what it found before.
pub observe-get :
    (d : Digest) (r : Registry) (e : Event) (out : Registry × ObserveResult) (j : Text)
    → IsRegistry r
    → observe d r e ≡ ok out
    → get out.0 j ≡ (
        if text_eq out.1.flow.id j
        then some out.1.flow
        else if has_id j out.1.evicted
        then none
        else get r j)
unfolding get
observe-get d r e out j v h = elim ((recorded d r e out v h).seen) [
  | inl (s, f, q, res) ↦
      let i : s.id ≡ flow_of d r e = find-id (flow_of d r e) r.flows s f in
      let t : Snapshot = update s e (canonicalize e).1 in
      let g : find t.id r.flows ≡ some s =
        subst (λ z. find z r.flows ≡ some s) (sym i ∙ sym (update-id s e (canonicalize e).1)) f in
      let fl : out.1.flow ≡ t = ap (λ z. z.flow) res in
      let ev : out.1.evicted ≡ none = ap (λ z. z.evicted) res in
      rw (q, fl, ev) (find-store j t r.flows (rw g))
  | inr (room, f, made, q) ↦
      let t : Snapshot = new_entry (flow_of d r e) (canonicalize e).0 e (canonicalize e).1 in
      let (fl, ev, _) = insert_entry-result room t in
      let fl' : out.1.flow ≡ t = ap (λ z. z.1.flow) q ∙ fl in
      let ev' : out.1.evicted ≡ room.0 = ap (λ z. z.1.evicted) q ∙ ev in
      rw (fl', ev') (ap (λ z. find j z.0.flows) q ∙ room-get r room t j made)
]

room-evicted :
    (r : Registry) (room : Option Snapshot × Registry) (s : Snapshot)
    → IsRegistry r
    → RoomMade r room
    → room.0 ≡ some s
    → (length r.flows ≡ r.capacity)
      × (get r s.id ≡ some s)
      × ((j : Text) (t : Snapshot) → get r j ≡ some t → entry_less t s ≡ false)
unfolding get
room-evicted r (none, r') s v made h = absurd (cc)
room-evicted r (some x, r') s v made h =
    let q : root r.flows r.oldest ≡ some s = ground arith in
    (
      made.2,
      (root-member r.flows r.oldest s q).0,
      λ j t f. root-IsLeast r.flows r.oldest s v.ordered q j t (ground (arith, v.same j)) f,
    )

room-kept :
    (r : Registry) (room : Option Snapshot × Registry)
    → RoomMade r room
    → room.0 ≡ none
    → length r.flows < r.capacity
room-kept r (none, r') made h = made.1
room-kept r (some x, r') made h = absurd (cc)

-- Observe evicts a flow exactly when it meets a new flow in a full registry. The evicted flow was
-- in the registry, and no other flow there was seen earlier, or at the same time under a smaller ID.
pub observe-evicted :
    (d : Digest) (r : Registry) (e : Event) (out : Registry × ObserveResult)
    → IsRegistry r
    → observe d r e ≡ ok out
    → ((s : Snapshot)
        → out.1.evicted ≡ some s
        → (out.1.created ≡ true)
          × (len r ≡ r.capacity)
          × (get r s.id ≡ some s)
          × ((j : Text) (t : Snapshot) → get r j ≡ some t → entry_less t s ≡ false))
      × (out.1.evicted ≡ none → (out.1.created ≡ true) → len r < r.capacity)
unfolding len
observe-evicted d r e out v h = elim ((recorded d r e out v h).seen) [
  | inl (s, f, q, res) ↦ (
    (λ s' x. absurd (cc (ap (λ z. z.evicted) res))),
    λ x y. absurd (cc (ap (λ z. z.created) res)),
  )
  | inr (room, f, made, q) ↦
      let t : Snapshot = new_entry (flow_of d r e) (canonicalize e).0 e (canonicalize e).1 in
      let (fl, ev, cr) = insert_entry-result room t in
      let ev' : out.1.evicted ≡ room.0 = ap (λ z. z.1.evicted) q ∙ ev in
      (
        (λ s x.
            let (a, b, c) = room-evicted r room s v made (sym ev' ∙ x) in
            (ap (λ z. z.1.created) q ∙ cr, a, b, c)),
        λ x y. room-kept r room made (sym ev' ∙ x),
      )
]

-- A packet of a known flow counts once more, moves neither end of the flow's time span inwards, and
-- becomes the last event unless it is older than that; the result carries the old last-seen time.
pub observe_known :
    (d : Digest) (r : Registry) (e : Event) (out : Registry × ObserveResult) (s : Snapshot)
    → IsRegistry r
    → observe d r e ≡ ok out
    → get r (key_id d (canonicalize e).0 r.seed) ≡ some s
    → (out.1.created ≡ false)
      × (out.1.previous_last_seen ≡ s.last_seen)
      × (out.1.flow.first_seen ≡ min s.first_seen e.captured_at)
      × (out.1.flow.last_seen ≡ max s.last_seen e.captured_at)
      × (out.1.flow.packets ≡ (s.packets + 1) % 2 ^ 64)
      × ((e.captured_at < s.last_event.captured_at) × (out.1.flow.last_event ≡ s.last_event)
          ⊎ (s.last_event.captured_at ≤ e.captured_at) × (out.1.flow.last_event ≡ e))
unfolding get update
observe_known d r e out s v h g = elim ((recorded d r e out v h).seen) [
  | inl (s', f, q, res) ↦ ground (arith, res)
  | inr (room, f, made, q) ↦ absurd (cc)
]
