-- ===== src/Peer/Nodes/Bounds.antt =====
-- The sizes of the map of nodes, for pruneNodesLocked and register of internal/peer/host.go.
use go_musical_packets.Peer.Nodes.{
  insert_candidate, one_if, connected_others, Node, prune_nodes, unexpired, find_node, set_node,
  remove_oldest, candidates, delete_node,
}
use go_musical_packets.Peer.Window.{lookup}
use go_musical_packets.Prelude.{
  ℕ, ◌+◌, ◌≤◌, ◌≡◌, refl, sym, ap, ◌∙◌, inl, inr, true, false, not, some, List, [], ◌∷◌, ◌++◌,
  arith, Bool-cases, is_some, if_cases, length, ℤ, pos, Text, text_eq, text_eq_refl, text_eq→eq,
}

unfoldable pub connected_count : List (Text × Node) → ℕ
connected_count [] = 0
connected_count ((key, n) ∷ nodes) = one_if n.is_connected + connected_count nodes

-- The nodes whose IDs are none of these.
others : List (Text × ℕ) → List (Text × Node) → ℕ
others ds [] = 0
others ds ((key, n) ∷ nodes) = one_if (not (is_some (lookup key ds))) + others ds nodes

others-nil : (nodes : List (Text × Node)) → others [] nodes ≡ length nodes
unfolding others lookup
others-nil [] = refl
others-nil ((key, n) ∷ nodes) = let ih = others-nil nodes in omega (arith, ih)

others-delete :
    (id : Text) (time : ℕ) (ds : List (Text × ℕ)) (nodes : List (Text × Node))
    → others ds (delete_node id nodes) ≡ others ((id, time) ∷ ds) nodes
unfolding others delete_node lookup
others-delete id time ds [] = refl
others-delete id time ds ((key, n) ∷ nodes) =
    let ih = others-delete id time ds nodes in
    elim (Bool-cases (text_eq key id)) [
      | inl e ↦
          let same : text_eq id key ≡ true =
            ap (λ t. text_eq t key) (sym (text_eq→eq key id e)) ∙ text_eq_refl key in
          ground (arith, e, same, ih)
      | inr f ↦ elim (Bool-cases (text_eq id key)) [
        | inl e ↦
            absurd (
              ground
                (arith, f, ap (λ t. text_eq t id) (sym (text_eq→eq id key e)), text_eq_refl id))
        | inr g ↦ ground (arith, f, g, ih)
      ]
    ]

length-remove_oldest :
    (capacity : ℕ) (ds : List (Text × ℕ)) (nodes : List (Text × Node)) (bound : ℕ)
    → capacity ≤ bound
    → others ds nodes ≤ bound
    → length (remove_oldest (pos capacity) ds nodes) ≤ bound
unfolding remove_oldest
length-remove_oldest capacity [] nodes bound h k = ground (arith, k, others-nil nodes)
length-remove_oldest capacity ((id, time) ∷ ds) nodes bound h k =
    let ih =
      length-remove_oldest capacity ds (delete_node id nodes) bound h
        (omega (arith, k, others-delete id time ds nodes)) in
    ground (arith, ih, h)

lookup-insert_candidate :
    (key : Text) (c : Text × ℕ) (ds : List (Text × ℕ))
    → is_some (lookup key (insert_candidate c ds)) ≡ is_some (lookup key (c ∷ ds))
unfolding lookup insert_candidate
lookup-insert_candidate key c [] = refl
lookup-insert_candidate key (a, t) ((b, s) ∷ ds) =
    let ih = lookup-insert_candidate key (a, t) ds in ground (arith, ih)

-- Every node that is not connected is a candidate.
candidate_known :
    (key : Text) (ds : List (Text × ℕ)) (c : Text × ℕ)
    → is_some (lookup key ds) ≡ true
    → is_some (lookup key (insert_candidate c ds)) ≡ true
unfolding lookup
candidate_known key ds (a, t) h = lookup-insert_candidate key (a, t) ds ∙ ground (arith, h)

Covers : List (Text × ℕ) → List (Text × Node) → Type 0
Covers ds [] = Unit
Covers ds ((key, n) ∷ nodes) =
    (n.is_connected ≡ false → is_some (lookup key ds) ≡ true) × Covers ds nodes

Covers-insert_candidate :
    (ds : List (Text × ℕ)) (c : Text × ℕ) (nodes : List (Text × Node))
    → Covers ds nodes
    → Covers (insert_candidate c ds) nodes
unfolding Covers
Covers-insert_candidate ds c [] h = tt
Covers-insert_candidate ds c ((key, n) ∷ nodes) h =
    (λ d. candidate_known key ds c (h.0 d), Covers-insert_candidate ds c nodes h.1)

candidates-Covers : (nodes : List (Text × Node)) → Covers (candidates nodes) nodes
unfolding Covers candidates lookup
candidates-Covers [] = tt
candidates-Covers ((key, n) ∷ nodes) =
    let rest = candidates nodes in
    let mine : Text × ℕ = (key, n.disconnected_at) in
    if_cases (λ ds. Covers ds ((key, n) ∷ nodes)) n.is_connected rest (insert_candidate mine rest)
      (λ e. (λ d. absurd (ground (arith, d, e)), candidates-Covers nodes))
      (λ _. (
        λ _. lookup-insert_candidate key mine rest ∙ ground (arith, text_eq_refl key),
        Covers-insert_candidate rest mine nodes (candidates-Covers nodes),
      ))

others-Covers :
    (ds : List (Text × ℕ)) (nodes : List (Text × Node))
    → Covers ds nodes
    → others ds nodes ≤ connected_count nodes
unfolding Covers others connected_count
others-Covers ds [] h = omega arith
others-Covers ds ((key, n) ∷ nodes) h =
    let ih = others-Covers ds nodes h.1 in
    elim (Bool-cases n.is_connected) [
      | inl e ↦ ground (arith, e, ih)
      | inr f ↦ ground (arith, f, ih, h.0 f)
    ]

connected-delete_node :
    (id : Text) (nodes : List (Text × Node))
    → connected_count (delete_node id nodes) ≡ connected_others id nodes
unfolding connected_count delete_node connected_others
connected-delete_node id [] = refl
connected-delete_node id ((key, n) ∷ nodes) =
    let ih = connected-delete_node id nodes in ground (arith, ih)

connected_others-least :
    (id : Text) (nodes : List (Text × Node)) → connected_others id nodes ≤ connected_count nodes
unfolding connected_count connected_others
connected_others-least id [] = omega arith
connected_others-least id ((key, n) ∷ nodes) =
    let ih = connected_others-least id nodes in ground (arith, ih)

length-delete_node :
    (id : Text) (nodes : List (Text × Node)) → length (delete_node id nodes) ≤ length nodes
unfolding delete_node
length-delete_node id [] = omega arith
length-delete_node id ((key, n) ∷ nodes) =
    let ih = length-delete_node id nodes in ground (arith, ih)

connected-append :
    (xs ys : List (Text × Node))
    → connected_count (xs ++ ys) ≡ connected_count xs + connected_count ys
unfolding connected_count
connected-append [] ys = omega arith
connected-append ((key, n) ∷ xs) ys = let ih = connected-append xs ys in omega (arith, ih)

pub connected-set_node :
    (id : Text) (n : Node) (nodes : List (Text × Node))
    → connected_count (set_node id n nodes) ≡ connected_others id nodes + one_if n.is_connected
unfolding set_node connected_count
connected-set_node id n nodes =
    connected-append (delete_node id nodes) ((id, n) ∷ [])
    ∙ omega (arith, connected-delete_node id nodes)

-- What a node that is found adds to the others.
pub find_node-counts :
    (id : Text) (nodes : List (Text × Node)) (n : Node)
    → find_node id nodes ≡ some n
    → (connected_others id nodes + one_if n.is_connected ≤ connected_count nodes)
      × (length (delete_node id nodes) + 1 ≤ length nodes)
unfolding find_node connected_others connected_count delete_node
find_node-counts id [] n h = absurd (ground (arith, h))
find_node-counts id ((key, k) ∷ nodes) n h = elim (Bool-cases (text_eq key id)) [
  | inl e ↦
      let same : k ≡ n = ground (arith, h, e) in
      rw (e, ← same)
        (omega (arith, connected_others-least id nodes), omega (arith, length-delete_node id nodes))
  | inr f ↦
      let (a, b) = find_node-counts id nodes n (ground (arith, h, f)) in
      rw (f) (ground (arith, a), omega (arith, b))
]

connected-unexpired :
    (ttl now : ℕ) (nodes : List (Text × Node))
    → connected_count (unexpired ttl now nodes) ≡ connected_count nodes
unfolding connected_count unexpired
connected-unexpired ttl now [] = refl
connected-unexpired ttl now ((key, n) ∷ nodes) =
    let ih = connected-unexpired ttl now nodes in
    elim (Bool-cases n.is_connected) [
      | inl e ↦ ground (arith, e, ih)
      | inr f ↦ ground (arith, f, ih)
    ]

connected-remove_oldest :
    (capacity : ℤ) (ds : List (Text × ℕ)) (nodes : List (Text × Node))
    → connected_count (remove_oldest capacity ds nodes) ≤ connected_count nodes
unfolding remove_oldest
connected-remove_oldest capacity [] nodes = omega arith
connected-remove_oldest capacity ((id, time) ∷ ds) nodes =
    let ih = connected-remove_oldest capacity ds (delete_node id nodes) in
    ground (arith, ih, connected-delete_node id nodes, connected_others-least id nodes)

pub connected-prune_nodes :
    (ttl : ℕ) (capacity : ℤ) (now : ℕ) (nodes : List (Text × Node))
    → connected_count (prune_nodes ttl capacity now nodes) ≤ connected_count nodes
unfolding prune_nodes
connected-prune_nodes ttl capacity now nodes =
    let kept = unexpired ttl now nodes in
    ground (
      arith,
      connected-unexpired ttl now nodes,
      connected-remove_oldest capacity (candidates kept) kept,
    )

pub length-prune_nodes :
    (ttl capacity now : ℕ) (nodes : List (Text × Node))
    → connected_count nodes ≤ capacity
    → length (prune_nodes ttl (pos capacity) now nodes) ≤ capacity
unfolding prune_nodes
length-prune_nodes ttl capacity now nodes h =
    let kept = unexpired ttl now nodes in
    let few = others-Covers (candidates kept) kept (candidates-Covers kept) in
    let rest =
      length-remove_oldest capacity (candidates kept) kept capacity (omega arith)
        (omega (arith, few, h, connected-unexpired ttl now nodes)) in
    ground (arith, rest)
