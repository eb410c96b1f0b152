-- ===== src/Flow/Registry/Invariant.antt =====
-- What holds of the Registry of internal/flow/registry.go between two calls.
use go_musical_packets.Flow.Registry.Order.{
  root-member, root-none, Ordered, Ordered-same, push_entry-Ordered, drop_entry-Ordered,
  DistinctIds-push_entry, contains_text-push_entry,
}
use go_musical_packets.Flow.Registry.Store.{
  All-find, find-id, All-store, length-store, find-store, Distinct-store, All-delete, length-delete,
  contains_text-drop_entry, find-delete, DistinctIds-drop_entry, Distinct-delete, DistinctIds,
  Distinct,
}
use go_musical_packets.Prelude.{
  leb→le, ltb, text_eq, text_eq→eq, if_cases, ◌∙◌, ◌>>=◌, true, leb, Bool-cases, ok, false, suc,
  ◌+◌, ◌%◌, ◌^◌, ◌≤◌, ◌<◌, ◌≡◌, refl, sym, ap, subst, ◌⊎◌, inl, inr, Option, none, some, List, [],
  ◌∷◌, arith, Option-cases, is_some, length, All, Text, contains_text, text_eq_refl, text_eq_iff,
}
use go_musical_packets.Packet.{Event}
use go_musical_packets.Flow.Key.{Key, Direction, a_to_b, b_to_a}
use go_musical_packets.Flow.Registry.{
  ObserveResult, make_room, record_event, store, pop_oldest, insert_entry, drop_entry, delete, find,
  root, update, new_entry, seen_at, fix_entry, fix_if_later, Registry, Snapshot,
}

-- The counters of one flow agree (they wrap together), and its times are ordered.
pub record IsSnapshot (s : Snapshot) : Type 0 where
  pub ordered : s.first_seen ≤ s.last_seen
  pub started : 0 < s.last_seen
  pub counted : s.packets ≡ (s.packets_a_to_b + s.packets_b_to_a) % 2 ^ 64
  pub newest : s.last_event.captured_at ≤ s.last_seen

-- The map and the heap hold the same entries, each once, at most as many as the capacity; the heap is
-- in order.
pub record IsRegistry (r : Registry) : Type 0 where
  pub distinct : Distinct r.flows
  pub distinct_ids : DistinctIds r.oldest
  pub ordered : Ordered r.flows r.oldest
  pub same : (id : Text) → contains_text id r.oldest ≡ is_some (find id r.flows)
  pub positive : 0 < r.capacity
  pub within : length r.flows ≤ r.capacity
  pub snapshots : All IsSnapshot r.flows

update-IsSnapshot :
    (s : Snapshot) (e : Event) (d : Direction) → IsSnapshot s → IsSnapshot (update s e d)
unfolding update
update-IsSnapshot s e a_to_b v = ground arith
update-IsSnapshot s e b_to_a v = ground arith

new_entry-IsSnapshot :
    (id : Text) (k : Key) (e : Event) (d : Direction)
    → 0 < e.captured_at
    → IsSnapshot (new_entry id k e d)
unfolding new_entry
new_entry-IsSnapshot id k e a_to_b h = ground arith
new_entry-IsSnapshot id k e b_to_a h = ground arith

find-head : (s : Snapshot) (fs : List Snapshot) → find s.id (s ∷ fs) ≡ some s
unfolding find
find-head s fs = rw (text_eq_refl s.id)

find-head_eq : (s : Snapshot) (fs gs : List Snapshot) → gs ≡ s ∷ fs → find s.id gs ≡ some s
find-head_eq s fs gs e = subst (λ z. find s.id z ≡ some s) (sym e) (find-head s fs)

pub List-cases {ℓ} :
    {A : Type ℓ} (xs : List A) → (xs ≡ []) ⊎ ((x : A) × (ys : List A) × (xs ≡ x ∷ ys))
List-cases [] = inl refl
List-cases (x ∷ ys) = inr (x, ys, refl)

-- The heap is empty only if the map is.
root-some :
    (r : Registry)
    → IsRegistry r
    → 0 < length r.flows
    → (s : Snapshot) × (root r.flows r.oldest ≡ some s)
root-some r v h = elim (Option-cases (root r.flows r.oldest)) [
  | inr found ↦ found
  | inl e ↦ elim (List-cases r.flows) [
    | inl none_left ↦ absurd (omega (arith, ap length none_left))
    | inr (s, fs, q) ↦
        let f : find s.id r.flows ≡ some s = find-head_eq s fs r.flows q in
        absurd (ground (arith, f, v.same s.id, root-none r.flows r.oldest s.id v.same e))
  ]
]

Ordered-delete :
    (fs : List Snapshot) (id : Text) (xs : List Text)
    → DistinctIds xs
    → Ordered fs xs
    → Ordered (delete id fs) (drop_entry id xs)
Ordered-delete fs id xs d o =
    Ordered-same fs (delete id fs) (drop_entry id xs)
      (λ j c.
        let q : find j (delete id fs) ≡ find j fs =
          ground (arith, find-delete j id fs, contains_text-drop_entry j id xs d, c) in
        ap (λ x. seen_at x) q)
      (drop_entry-Ordered fs id xs o)

pub delete-IsRegistry :
    (r : Registry) (s : Snapshot)
    → IsRegistry r
    → find s.id r.flows ≡ some s
    → IsRegistry (record r { flows = delete s.id r.flows; oldest = drop_entry s.id r.oldest })
      × (length r.flows ≡ suc (length (delete s.id r.flows)))
delete-IsRegistry r s v h = (
  record {
    distinct = Distinct-delete s.id r.flows v.distinct;
    distinct_ids = DistinctIds-drop_entry s.id r.oldest v.distinct_ids;
    ordered = Ordered-delete r.flows s.id r.oldest v.distinct_ids v.ordered;
    same = λ id. ground (
      arith,
      find-delete id s.id r.flows,
      v.same id,
      contains_text-drop_entry id s.id r.oldest v.distinct_ids,
    );
    positive = v.positive;
    within = omega (arith, v.within, length-delete s.id r.flows v.distinct (ground arith));
    snapshots = All-delete IsSnapshot s.id r.flows v.snapshots;
  },
  sym (length-delete s.id r.flows v.distinct (ground arith)),
)

pop_oldest-IsRegistry :
    (r : Registry)
    → IsRegistry r
    → 0 < length r.flows
    → (s : Snapshot) × (r' : Registry) × (pop_oldest r ≡ some (s, r'))
      × IsRegistry r'
      × (length r.flows ≡ suc (length r'.flows))
      × (root r.flows r.oldest ≡ some s)
      × (r' ≡ record r { flows = delete s.id r.flows; oldest = drop_entry s.id r.oldest })
unfolding pop_oldest
pop_oldest-IsRegistry r v h =
    let (s, e) = root-some r v h in
    let (w, l) = delete-IsRegistry r s v (root-member r.flows r.oldest s e).0 in
    (
      s,
      record r { flows = delete s.id r.flows; oldest = drop_entry s.id r.oldest },
      rw (e, pop_oldest) refl,
      w,
      l,
      e,
      refl,
    )

insert_entry-IsRegistry :
    (r : Registry) (s : Snapshot) (x : Option Snapshot)
    → IsRegistry r
    → find s.id r.flows ≡ none
    → length r.flows < r.capacity
    → IsSnapshot s
    → IsRegistry (insert_entry s (x, r)).0
unfolding insert_entry find contains_text
insert_entry-IsRegistry r s x v h l w =
    let absent : contains_text s.id r.oldest ≡ false = ground (arith, v.same s.id, h) in
    record {
      distinct = (h, v.distinct);
      distinct_ids = DistinctIds-push_entry (s ∷ r.flows) s.id r.oldest v.distinct_ids absent;
      ordered = push_entry-Ordered (s ∷ r.flows) s.id r.oldest (
          Ordered-same r.flows (s ∷ r.flows) r.oldest
            (λ j c.
              let q : find j (s ∷ r.flows) ≡ find j r.flows =
                ground (arith, c, absent, text_eq_iff s.id j) in
              ap (λ y. seen_at y) q)
            v.ordered);
      same =
          λ id. ground (arith, v.same id, contains_text-push_entry (s ∷ r.flows) s.id id r.oldest);
      positive = v.positive;
      within = omega (arith, l);
      snapshots = (w, v.snapshots);
    }

-- The heap after a change of one entry: fixed, or left where the time is the same.
Fixed : Registry → Snapshot → List Text → Type 0
Fixed r t ids =
    DistinctIds ids
    × Ordered (store t r.flows) ids
    × ((id : Text) → contains_text id ids ≡ contains_text id r.oldest)

fix_entry-Fixed :
    (r : Registry) (t : Snapshot)
    → IsRegistry r
    → is_some (find t.id r.flows) ≡ true
    → Fixed r t (fix_entry (store t r.flows) t.id r.oldest)
unfolding fix_entry Fixed
fix_entry-Fixed r t v h =
    let gs = store t r.flows in
    let rest = drop_entry t.id r.oldest in
    let dropped = λ (j : Text). contains_text-drop_entry j t.id r.oldest v.distinct_ids in
    (
      DistinctIds-push_entry gs t.id rest (DistinctIds-drop_entry t.id r.oldest v.distinct_ids)
          (ground (arith, dropped t.id, text_eq_refl t.id)),
      push_entry-Ordered gs t.id rest (
          Ordered-same r.flows gs rest
            (λ j c.
              let q : find j gs ≡ find j r.flows =
                ground (arith, find-store j t r.flows h, dropped j, c) in
              ap (λ y. seen_at y) q)
            (drop_entry-Ordered r.flows t.id r.oldest v.ordered)),
      λ j.
          contains_text-push_entry gs t.id j rest
          ∙ ground (arith, dropped j, v.same j, h, text_eq_iff t.id j),
    )

left-Fixed :
    (r : Registry) (s t : Snapshot)
    → IsRegistry r
    → t.id ≡ s.id
    → find s.id r.flows ≡ some s
    → t.last_seen ≡ s.last_seen
    → Fixed r t r.oldest
unfolding Fixed
left-Fixed r s t v i h e = (
  v.distinct_ids,
  Ordered-same r.flows (store t r.flows) r.oldest
      (λ j c. elim (Bool-cases (text_eq t.id j)) [
        | inl k ↦
            let q : find j r.flows ≡ some s =
              subst (λ z. find z r.flows ≡ some s) (sym i ∙ text_eq→eq t.id j k) h in
            rw (find-store j t r.flows (ground (arith, i, h)), k, q) e
        | inr k ↦ rw (find-store j t r.flows (ground (arith, i, h)), k) refl
      ])
      v.ordered,
  λ j. refl,
)

update-Fixed :
    (r : Registry) (s : Snapshot) (e : Event) (d : Direction)
    → IsRegistry r
    → find s.id r.flows ≡ some s
    → Fixed r (update s e d) (fix_if_later s e (store (update s e d) r.flows) r.oldest)
unfolding fix_if_later update
update-Fixed r s e d v h =
    let t = update s e d in
    if_cases (Fixed r t) (ltb s.last_seen e.captured_at) (fix_entry (store t r.flows) s.id r.oldest)
      r.oldest (λ _. fix_entry-Fixed r t v (ground (arith, h)))
      (λ k. left-Fixed r s t v refl h (ground (arith, k)))

store-IsRegistry :
    (r : Registry) (s t : Snapshot) (ids : List Text)
    → IsRegistry r
    → t.id ≡ s.id
    → find s.id r.flows ≡ some s
    → IsSnapshot t
    → Fixed r t ids
    → IsRegistry (record r { flows = store t r.flows; oldest = ids })
unfolding Fixed
store-IsRegistry r s t ids v i h w f = record {
  distinct = Distinct-store t r.flows v.distinct;
  distinct_ids = f.0;
  ordered = f.1;
  same = λ id.
      ground
        (arith, f.2 id, v.same id, text_eq_iff t.id id, find-store id t r.flows (ground arith));
  positive = v.positive;
  within = omega (arith, v.within, length-store t r.flows);
  snapshots = All-store IsSnapshot t r.flows w v.snapshots;
}

-- `make_room` takes out the root of a full registry, and nothing of another.
abbrev pub RoomMade : Registry → Option Snapshot × Registry → Type 0
RoomMade r (none, r') = (r' ≡ r) × (length r.flows < r.capacity)
RoomMade r (some s, r') =
    (r' ≡ record r { flows = delete s.id r.flows; oldest = drop_entry s.id r.oldest })
    × (root r.flows r.oldest ≡ some s)
    × (length r.flows ≡ r.capacity)

pub make_room_lem :
    (r : Registry)
    → IsRegistry r
    → (room : Option Snapshot × Registry) × (make_room r ≡ ok room)
      × IsRegistry room.1
      × (length room.1.flows < room.1.capacity)
      × RoomMade r room
unfolding make_room
make_room_lem r v = elim (Bool-cases (leb r.capacity (length r.flows))) [
  | inr free ↦ ((none, r), rw free refl, v, ground arith, (refl, ground arith))
  | inl full ↦
      let (s, r', e, w, l, q, same) =
        pop_oldest-IsRegistry r v (omega (arith, v.positive, leb→le _ _ full)) in
      (
        (some s, r'),
        ground (arith, e),
        w,
        ground (arith, v.within, same),
        (same, q, omega (arith, v.within, leb→le _ _ full)),
      )
]

-- What one packet of the flow `id` does to the registry.
pub record Recorded (r : Registry) (id : Text) (key : Key) (d : Direction) (e : Event)
    (out : Registry × ObserveResult) : Type 0 where
  pub keeps : IsRegistry out.0
  pub seen :
      ((s : Snapshot) × (find id r.flows ≡ some s)
        × (out.0.flows ≡ store (update s e d) r.flows)
        × (out.1 ≡ record {
          flow = update s e d;
          previous_last_seen = s.last_seen;
          created = false;
          evicted = none;
        }))
      ⊎ ((room : Option Snapshot × Registry) × (find id r.flows ≡ none)
          × RoomMade r room
          × (out ≡ insert_entry (new_entry id key e d) room))

find-delete-none :
    (j id : Text) (fs : List Snapshot) → find j fs ≡ none → find j (delete id fs) ≡ none
find-delete-none j id fs h = ground (arith, find-delete j id fs)

find_room :
    (r : Registry) (id : Text) (room : Option Snapshot × Registry)
    → RoomMade r room
    → find id r.flows ≡ none
    → find id room.1.flows ≡ none
find_room r id (none, r') made h = ground (arith, made.0)
find_room r id (some s, r') made h =
    let q : r'.flows ≡ delete s.id r.flows = ap (λ z. z.flows) made.0 in
    rw q (find-delete-none id s.id r.flows h)

pub update-id : (s : Snapshot) (e : Event) (d : Direction) → (update s e d).id ≡ s.id
unfolding update
update-id s e d = refl

pub new_entry-id : (id : Text) (k : Key) (e : Event) (d : Direction) → (new_entry id k e d).id ≡ id
unfolding new_entry
new_entry-id id k e d = refl

inserted-IsRegistry :
    (t : Snapshot) (room : Option Snapshot × Registry)
    → IsRegistry room.1
    → length room.1.flows < room.1.capacity
    → find t.id room.1.flows ≡ none
    → IsSnapshot t
    → IsRegistry (insert_entry t room).0
inserted-IsRegistry t (x, r') w l f q = insert_entry-IsRegistry r' t x w f l q

pub record_packet_lem :
    (r : Registry) (id : Text) (key : Key) (d : Direction) (e : Event)
    → IsRegistry r
    → 0 < e.captured_at
    → (out : Registry × ObserveResult) × (record_event r id key d e ≡ ok out)
      × Recorded r id key d e out
unfolding record_event
record_packet_lem r id key d e v p = elim (Option-cases (find id r.flows)) [
  | inr (s, f) ↦
      let i : s.id ≡ id = find-id id r.flows s f in
      let g : find s.id r.flows ≡ some s = subst (λ z. find z r.flows ≡ some s) (sym i) f in
      (
        (
          record r {
            flows = store (update s e d) r.flows;
            oldest = fix_if_later s e (store (update s e d) r.flows) r.oldest;
          },
          record {
            flow = update s e d;
            previous_last_seen = s.last_seen;
            created = false;
            evicted = none;
          },
        ),
        rw (f, record_event) refl,
        record {
          keeps =
              store-IsRegistry r s (update s e d)
                (fix_if_later s e (store (update s e d) r.flows) r.oldest) v (update-id s e d) g
                (update-IsSnapshot s e d (All-find IsSnapshot id r.flows s v.snapshots f))
                (update-Fixed r s e d v g);
          seen = inl (s, f, refl, refl);
        },
      )
  | inl f ↦
      let (room, m, w, l, made) = make_room_lem r v in
      let t : Snapshot = new_entry id key e d in
      (
        insert_entry t room,
        rw (f, record_event) (rw (m, ◌>>=◌) refl),
        record {
          keeps =
              inserted-IsRegistry t room w l
                (subst (λ z. find z room.1.flows ≡ none) (sym (new_entry-id id key e d))
                  (find_room r id room made f))
                (new_entry-IsSnapshot id key e d p);
          seen = inr (room, f, made, refl);
        },
      )
]
