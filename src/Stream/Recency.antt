-- ===== src/Stream/Recency.antt =====
-- Publish of internal/uistream/hub.go for a viewer that does not read.
use go_musical_packets.Music.Note.{NoteEvent}
use go_musical_packets.Stream.{
  note_from_event, find_client, wide, publish, Subscription, Hub, Note, offer,
}
use go_musical_packets.Prelude.{
  ℕ, suc, ◌+◌, ◌-◌, ◌^◌, ◌≤◌, ◌<◌, ◌≡◌, refl, ap, ◌∙◌, inl, inr, some, List, [], ◌∷◌, ◌++◌, map,
  arith, ltb, ◌==◌, Bool-cases, ltb→lt, lt→ltb, length, drop, length-append,
}

-- Notes published one after the other, each with the clock that its Publish reads.
abbrev pub publish_all : List (ℕ × NoteEvent) → Hub → Hub
publish_all [] h = h
publish_all ((now, e) ∷ es) h = publish_all es (publish now e h)

abbrev pub stamped : ℕ × NoteEvent → Note
stamped (now, e) = note_from_event now e

abbrev offer_all : ℕ → List Note → Subscription → Subscription
offer_all capacity [] s = s
offer_all capacity (n ∷ ns) s = offer_all capacity ns (offer capacity n s)

-- What is left of the notes `ns` in a queue for `capacity` notes, and the number that is lost.
abbrev pub latest : ℕ → List Note → List Note
latest capacity ns = drop (length ns - capacity) ns

abbrev pub excess : ℕ → List Note → ℕ
excess capacity ns = length ns - capacity

abbrev client : ℕ → List Note → ℕ → Subscription
client id queue drops = record { id = id; queue = queue; drops = drops }

offer_room :
    (capacity : ℕ) (n : Note) (id d : ℕ) (q : List Note)
    → length q < capacity
    → offer capacity n (client id q d) ≡ client id (q ++ (n ∷ [])) d
unfolding offer
offer_room capacity n id d q h = rw (lt→ltb _ _ h) (refl)

offer_full :
    (capacity : ℕ) (n x : Note) (id d : ℕ) (xs : List Note)
    → suc (length xs) ≡ capacity
    → offer capacity n (client id (x ∷ xs) d) ≡ client id (xs ++ (n ∷ [])) (wide (d + 1))
unfolding offer
offer_full capacity n x id d xs h = ground (arith, h)

append_nil : (xs : List Note) → xs ++ [] ≡ xs
append_nil [] = refl
append_nil (x ∷ xs) = ap (λ ys. x ∷ ys) (append_nil xs)

append_assoc :
    (xs : List Note) (n : Note) (ns : List Note) → (xs ++ (n ∷ [])) ++ ns ≡ xs ++ (n ∷ ns)
append_assoc [] n ns = refl
append_assoc (x ∷ xs) n ns = ap (λ ys. x ∷ ys) (append_assoc xs n ns)

latest_all : (capacity : ℕ) (xs : List Note) → length xs ≤ capacity → latest capacity xs ≡ xs
latest_all capacity xs h =
    let none_lost : length xs - capacity ≡ 0 = omega (arith, h) in rw (none_lost) (refl)

latest_tail :
    (capacity : ℕ) (x : Note) (xs : List Note)
    → capacity ≤ length xs
    → latest capacity (x ∷ xs) ≡ latest capacity xs
latest_tail capacity x xs h =
    let one_more : suc (length xs) - capacity ≡ suc (length xs - capacity) = omega (arith, h) in
    rw (one_more) (refl)

wide-suc : (d k : ℕ) → wide (wide (d + 1) + k) ≡ wide (d + suc k)
wide-suc d k = omega arith

-- A client whose queue is fed the notes one by one holds the latest of them all.
offer_all-latest :
    (capacity : ℕ) (ns : List Note) (id d : ℕ) (q : List Note)
    → length q ≤ capacity
    → 0 < capacity
    → d < 2 ^ 64
    → offer_all capacity ns (client id q d)
      ≡ client id (latest capacity (q ++ ns)) (wide (d + excess capacity (q ++ ns)))
offer_all-latest capacity [] id d q l c w =
    let none_lost : wide (d + excess capacity q) ≡ d = omega (arith, l, w) in
    rw (append_nil q, latest_all capacity q l, none_lost) (refl)
offer_all-latest capacity (n ∷ ns) id d q l c w = elim (Bool-cases (ltb (length q) capacity)) [
  | inl r ↦
      rw (offer_room capacity n id d q (ltb→lt _ _ r), ← append_assoc q n ns)
        (offer_all-latest capacity ns id d (q ++ (n ∷ []))
          (ground (arith, ltb→lt _ _ r, length-append q (n ∷ []))) c w)
  | inr f ↦
      full q (ground (arith, f, l)) (λ q' d' l' w'. offer_all-latest capacity ns id d' q' l' c w')
]
  where
    full :
        (q' : List Note)
        → length q' ≡ capacity
        → ((r : List Note) (e : ℕ)
            → length r ≤ capacity
            → e < 2 ^ 64
            → offer_all capacity ns (client id r e)
              ≡ client id (latest capacity (r ++ ns)) (wide (e + excess capacity (r ++ ns))))
        → offer_all capacity (n ∷ ns) (client id q' d)
          ≡ client id
              (latest capacity (q' ++ (n ∷ ns)))
              (wide (d + excess capacity (q' ++ (n ∷ ns))))
    full [] k rest = absurd (omega (arith, k, c))
    full (x ∷ xs) k rest =
        let long : capacity ≤ length (xs ++ (n ∷ ns)) =
          omega (arith, k, length-append xs (n ∷ ns)) in
        let lost : suc (length (xs ++ (n ∷ ns))) - capacity
            ≡ suc (excess capacity (xs ++ (n ∷ ns))) =
          omega (arith, long) in
        rw
          (
            offer_full capacity n x id d xs k,
            latest_tail capacity x (xs ++ (n ∷ ns)) long,
            lost,
            ← wide-suc d (excess capacity (xs ++ (n ∷ ns))),
            ← append_assoc xs n ns,
          )
          (rest (xs ++ (n ∷ [])) (wide (d + 1)) (omega (arith, k, length-append xs (n ∷ [])))
            (omega arith))

find_client-map :
    (f : Subscription → Subscription) (id : ℕ) (ss : List Subscription) (s : Subscription)
    → ((t : Subscription) → (f t).id ≡ t.id)
    → find_client id ss ≡ some s
    → find_client id (map f ss) ≡ some (f s)
unfolding find_client
find_client-map f id [] s k h = absurd (ground (arith, h))
find_client-map f id (t ∷ ss) s k h = elim (Bool-cases (t.id == id)) [
  | inl e ↦ ground (arith, e, k t, h)
  | inr e ↦ ground (arith, e, k t, h, find_client-map f id ss s k)
]

offer_id :
    (capacity : ℕ) (n : Note) (id : ℕ) (q : List Note) (d : ℕ)
    → (offer capacity n (client id q d)).id ≡ id
unfolding offer
offer_id capacity n id [] d = ground arith
offer_id capacity n id (x ∷ xs) d = ground arith

publish_all-offer_all :
    (es : List (ℕ × NoteEvent)) (h : Hub) (id : ℕ) (s : Subscription)
    → find_client id h.clients ≡ some s
    → find_client id (publish_all es h).clients ≡ some (offer_all h.capacity (map stamped es) s)
unfolding publish
publish_all-offer_all [] h id s f = f
publish_all-offer_all ((now, e) ∷ es) h id s f =
    publish_all-offer_all es (publish now e h) id (offer h.capacity (note_from_event now e) s) (
      find_client-map (offer h.capacity (note_from_event now e)) id h.clients s
        (λ t. offer_id h.capacity (note_from_event now e) t.id t.queue t.drops) f)

-- A viewer that reads nothing while notes are published keeps the latest of all that were queued or
-- published, as many as its queue holds, in their order, each with the time at which it was published; its
-- drop counter grows by exactly the number of the others, modulo 2 ^ 64. That holds of each viewer of a hub with a queue for one note or more,
-- from a counter below 2 ^ 64 and a queue within its capacity.
pub publish_all-latest :
    (es : List (ℕ × NoteEvent)) (h : Hub) (id : ℕ) (s : Subscription)
    → find_client id h.clients ≡ some s
    → length s.queue ≤ h.capacity
    → 0 < h.capacity
    → s.drops < 2 ^ 64
    → let all = s.queue ++ map stamped es in
      find_client id (publish_all es h).clients
      ≡ some (record s {
        queue = latest h.capacity all;
        drops = wide (s.drops + excess h.capacity all);
      })
publish_all-latest es h id s f l c w =
    publish_all-offer_all es h id s f
    ∙ ap some (offer_all-latest h.capacity (map stamped es) s.id s.drops s.queue l c w)
