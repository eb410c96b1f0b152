-- ===== src/Flow/Registry.antt =====
-- internal/flow/registry.go: the bounded set of observed flows. The map holds the entries; the
-- heap, which points at the same entries, holds their IDs. container/heap is modelled as a list: Push
-- and Fix put one entry at its place by Less and move no other, and the root that Pop removes is the
-- first. An entry that changes without a Fix stays where it is. Fix finds the entry by its ID, where
-- the source has its heapIndex. The mutex makes each operation one step.
pub mod Store
pub mod Order
pub mod Invariant
pub mod Lookup
pub mod Expiry
pub mod Histories
use go_musical_packets.Prelude.{
  ℕ, zero, suc, ◌+◌, ◌-◌, ◌*◌, ◌/◌, ◌%◌, ◌^◌, ◌≤◌, ◌<◌, bit_and, bit_or, ◌≡◌, refl, sym, ap, ◌∙◌,
  subst, ◌≢◌, ◌↔◌, ◌⊎◌, inl, inr, Bool, true, false, not, ◌&&◌, ◌||◌, Option, none, some, List, [],
  ◌∷◌, ◌++◌, map, arith, ltb, leb, ◌==◌, if◌then◌else◌, Bool-cases, Option-cases, is_some, ltb→lt,
  lt→ltb, leb→le, ==_iff, length, get_elem?, get_or, take, drop, length-append, All, All-append,
  Result, ok, err, ◌>>=◌, ◌>>◌, refuse_if, map_err, Result-cases, ℤ, pos, negsuc, ltb_ℤ, leb_ℤ,
  to_int64, to_ℕ, Text, codes, text_eq, is_empty, text_lt, contains_text, text_eq_refl, text_eq→eq,
  text_eq_iff, text_lt_irrefl, text_lt_trans, text_lt-total,
}
use go_musical_packets.Packet.{validate, Event, Error}
use go_musical_packets.Flow.Key.{key_id, canonicalize, Digest, Key, Direction, a_to_b, b_to_a}

pub record RegistryConfig : Type 0 where
  pub seed : Text
  pub capacity : ℤ
  pub ttl : ℤ

pub record Snapshot : Type 0 where
  pub id : Text
  pub key : Key
  pub first_seen : ℕ
  pub last_seen : ℕ
  pub packets : ℕ  -- uint64
  pub bytes : ℕ  -- uint64
  pub packets_a_to_b : ℕ  -- uint64
  pub packets_b_to_a : ℕ  -- uint64
  pub last_event : Event

pub record ObserveResult : Type 0 where
  pub flow : Snapshot
  pub previous_last_seen : ℕ
  pub created : Bool
  pub evicted : Option Snapshot

pub record Registry : Type 0 where
  pub seed : Text
  pub capacity : ℕ
  pub ttl : ℕ
  pub flows : List Snapshot
  pub oldest : List Text

pub data RegistryError : Type 0 where
  seed_missing capacity_invalid ttl_invalid timestamp_missing : RegistryError
  packet_error : Error → RegistryError
  heap_empty : RegistryError  -- the panic of heap.Pop on an empty heap

unfoldable pub new_registry : RegistryConfig → Result RegistryError Registry
new_registry c = do
  refuse_if (is_empty c.seed) seed_missing
  refuse_if (leb_ℤ c.capacity (pos 0)) capacity_invalid
  refuse_if (leb_ℤ c.ttl (pos 0)) ttl_invalid
  ok (record {
    seed = c.seed;
    capacity = to_ℕ c.capacity;
    ttl = to_ℕ c.ttl;
    flows = [];
    oldest = [];
  })

-- The map, whose keys are the IDs of its snapshots.
unfoldable pub find : Text → List Snapshot → Option Snapshot
find id [] = none
find id (s ∷ fs) = if text_eq s.id id then some s else find id fs

unfoldable pub delete : Text → List Snapshot → List Snapshot
delete id [] = []
delete id (s ∷ fs) = if text_eq s.id id then delete id fs else s ∷ delete id fs

-- A write through the entry's pointer.
unfoldable pub store : Snapshot → List Snapshot → List Snapshot
store t [] = []
store t (s ∷ fs) = if text_eq s.id t.id then t ∷ fs else s ∷ store t fs

-- entryHeap.Less.
unfoldable pub entry_less : Snapshot → Snapshot → Bool
entry_less s t =
    if s.last_seen == t.last_seen then text_lt s.id t.id else ltb s.last_seen t.last_seen

abbrev pub seen_at : Option Snapshot → ℕ
seen_at none = 0
seen_at (some s) = s.last_seen

-- entryHeap.Less at the entries of two IDs.
unfoldable pub id_less : List Snapshot → Text → Text → Bool
id_less flows a b =
    let m = seen_at (find a flows) in
    let n = seen_at (find b flows) in if m == n then text_lt a b else ltb m n

-- The root of the heap, `r.oldest[0]`.
unfoldable pub root : List Snapshot → List Text → Option Snapshot
root flows [] = none
root flows (id ∷ ids) = find id flows

-- heap.Push.
unfoldable pub push_entry : List Snapshot → Text → List Text → List Text
push_entry flows id [] = id ∷ []
push_entry flows id (x ∷ xs) =
    let rest = push_entry flows id xs in if id_less flows x id then x ∷ rest else id ∷ x ∷ xs

-- The heap without one entry.
unfoldable pub drop_entry : Text → List Text → List Text
drop_entry id [] = []
drop_entry id (x ∷ xs) = if text_eq x id then xs else x ∷ drop_entry id xs

-- heap.Fix.
unfoldable pub fix_entry : List Snapshot → Text → List Text → List Text
fix_entry flows id ids = push_entry flows id (drop_entry id ids)

-- heap.Pop and the delete from the map that follows it.
unfoldable pub pop_oldest : Registry → Option (Snapshot × Registry)
pop_oldest r = elim (root r.flows r.oldest) [
  | none ↦ none
  | some s ↦ some (s, record r { flows = delete s.id r.flows; oldest = drop_entry s.id r.oldest })
]

-- The entry after one more packet.
unfoldable pub update : Snapshot → Event → Direction → Snapshot
update s e d =
    let wide = λ (n : ℕ). n % 2 ^ 64 in
    record s {
      packets = wide (s.packets + 1);
      bytes = wide (s.bytes + to_ℕ e.wire_length);
      packets_a_to_b = elim d [ a_to_b ↦ wide (s.packets_a_to_b + 1) | b_to_a ↦ s.packets_a_to_b ];
      packets_b_to_a = elim d [ a_to_b ↦ s.packets_b_to_a | b_to_a ↦ wide (s.packets_b_to_a + 1) ];
      first_seen = if ltb e.captured_at s.first_seen then e.captured_at else s.first_seen;
      last_seen = if ltb s.last_seen e.captured_at then e.captured_at else s.last_seen;
      last_event = if ltb e.captured_at s.last_event.captured_at then s.last_event else e;
    }

-- The call of heap.Fix in update, where the last-seen time moves.
unfoldable pub fix_if_later : Snapshot → Event → List Snapshot → List Text → List Text
fix_if_later s e flows ids = if ltb s.last_seen e.captured_at then fix_entry flows s.id ids else ids

unfoldable pub new_entry : Text → Key → Event → Direction → Snapshot
new_entry id key e d = record {
  id = id;
  key = key;
  first_seen = e.captured_at;
  last_seen = e.captured_at;
  packets = 1;
  bytes = to_ℕ e.wire_length % 2 ^ 64;
  packets_a_to_b = elim d [ a_to_b ↦ 1 | b_to_a ↦ 0 ];
  packets_b_to_a = elim d [ a_to_b ↦ 0 | b_to_a ↦ 1 ];
  last_event = e;
}

-- `if len(r.flows) >= r.capacity { ... }`.
unfoldable pub make_room : Registry → Result RegistryError (Option Snapshot × Registry)
make_room r =
    if leb r.capacity (length r.flows)
    then elim (pop_oldest r) [ none ↦ err heap_empty | some (s, r') ↦ ok (some s, r') ]
    else ok (none, r)

unfoldable pub insert_entry : Snapshot → Option Snapshot × Registry → Registry × ObserveResult
insert_entry s (evicted, r) = (
  record r { flows = s ∷ r.flows; oldest = push_entry (s ∷ r.flows) s.id r.oldest },
  record { flow = s; previous_last_seen = 0; created = true; evicted = evicted },
)

-- The registry under the lock: `id`, `key` and `direction` come from the packet.
unfoldable pub record_event :
    Registry → Text → Key → Direction → Event → Result RegistryError (Registry × ObserveResult)
record_event r id key direction e = elim (find id r.flows) [
  | some s ↦
      let t = update s e direction in
      ok (
        record r { flows = store t r.flows; oldest = fix_if_later s e (store t r.flows) r.oldest },
        record { flow = t; previous_last_seen = s.last_seen; created = false; evicted = none },
      )
  | none ↦ make_room r >>= λ room. ok (insert_entry (new_entry id key e direction) room)
]

unfoldable pub observe : Digest → Registry → Event → Result RegistryError (Registry × ObserveResult)
observe d r e = do
  map_err packet_error (validate e)
  refuse_if (e.captured_at == 0) timestamp_missing
  let (key, direction) = canonicalize e
  record_event r (key_id d key r.seed) key direction e

-- `!LastSeen.After(now.Add(-ttl))`, with the subtraction moved to the other side.
unfoldable pub is_stale : Registry → ℕ → Snapshot → Bool
is_stale r now s = leb (s.last_seen + r.ttl) now

-- The loop of Expire, once for each entry of the heap at most.
unfoldable pub expire_loop : ℕ → Registry → ℕ → Registry × List Snapshot
expire_loop zero r now = (r, [])
expire_loop (suc fuel) r now = elim (pop_oldest r) [
  | none ↦ (r, [])
  | some (s, r') ↦
      let rest = expire_loop fuel r' now in
      if is_stale r now s then (rest.0, s ∷ rest.1) else (r, [])
]

unfoldable pub expire : Registry → ℕ → Registry × List Snapshot
expire r now = expire_loop (length r.oldest) r now

unfoldable pub get : Registry → Text → Option Snapshot
get r id = find id r.flows

unfoldable pub len : Registry → ℕ
len r = length r.flows
