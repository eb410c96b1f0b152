-- ===== src/Peer/Nodes.antt =====
-- internal/peer/host.go: the edges that a host knows, connected or of late. The map is a list of the
-- nodes with their instance IDs; a node that is set stands last.
pub mod Bounds
use go_musical_packets.Prelude.{
  ℕ, zero, suc, ◌+◌, ◌-◌, ◌*◌, ◌/◌, ◌%◌, ◌^◌, ◌≤◌, ◌<◌, bit_and, bit_or, ◌≡◌, refl, sym, ap, ◌∙◌,
  subst, ◌≢◌, ◌↔◌, ◌⊎◌, inl, inr, Bool, true, false, not, ◌&&◌, ◌||◌, Option, none, some, List, [],
  ◌∷◌, ◌++◌, map, arith, ltb, leb, ◌==◌, if◌then◌else◌, Bool-cases, Option-cases, is_some, if_cases,
  ltb→lt, lt→ltb, leb→le, ==_iff, length, get_elem?, get_or, take, drop, length-append, All,
  All-append, Result, ok, err, ◌>>=◌, ◌>>◌, refuse_if, map_err, Result-cases, ℤ, pos, negsuc, ltb_ℤ,
  leb_ℤ, to_int64, to_ℕ, Text, codes, text_eq, is_empty, text_lt, contains_text, text_eq_refl,
  text_eq→eq, text_eq_iff, text_lt_irrefl, text_lt_trans, text_lt-total,
}

-- The snapshot of a node with what the host keeps beside it.
pub record Node : Type 0 where
  pub remote_address : Text
  pub is_connected : Bool
  pub mapping_version : Text
  pub connected_at : ℕ
  pub disconnected_at : ℕ
  pub last_seen_at : ℕ
  pub received_total : ℕ  -- uint64
  pub accepted_total : ℕ  -- uint64
  pub rejected_total : ℕ  -- uint64
  pub duplicate_total : ℕ  -- uint64
  pub stale_total : ℕ  -- uint64
  pub recent : List ℕ
  pub channels : List Bool
  pub generation : ℕ  -- uint64
  pub connection : Option ℕ

unfoldable pub find_node : Text → List (Text × Node) → Option Node
find_node id [] = none
find_node id ((key, n) ∷ nodes) =
    let later = find_node id nodes in if text_eq key id then some n else later

unfoldable pub delete_node : Text → List (Text × Node) → List (Text × Node)
delete_node id [] = []
delete_node id ((key, n) ∷ nodes) =
    let rest = delete_node id nodes in if text_eq key id then rest else (key, n) ∷ rest

unfoldable pub set_node : Text → Node → List (Text × Node) → List (Text × Node)
set_node id n nodes = delete_node id nodes ++ ((id, n) ∷ [])

abbrev pub one_if : Bool → ℕ
one_if true = 1
one_if false = 0

-- The loop of register over the other nodes.
unfoldable pub connected_others : Text → List (Text × Node) → ℕ
connected_others id [] = 0
connected_others id ((key, n) ∷ nodes) =
    one_if (not (text_eq key id) && n.is_connected) + connected_others id nodes

-- The nodes that did not disconnect before `now` less `ttl`.
unfoldable pub unexpired : ℕ → ℕ → List (Text × Node) → List (Text × Node)
unexpired ttl now [] = []
unexpired ttl now ((key, n) ∷ nodes) =
    let rest = unexpired ttl now nodes in
    if not n.is_connected && ltb (n.disconnected_at + ttl) now then rest else (key, n) ∷ rest

-- sort.Slice by the time, where entries of the same time may stand in any order.
unfoldable pub insert_candidate : Text × ℕ → List (Text × ℕ) → List (Text × ℕ)
insert_candidate c [] = c ∷ []
insert_candidate c (d ∷ ds) =
    let rest = insert_candidate c ds in if ltb d.1 c.1 then d ∷ rest else c ∷ d ∷ ds

unfoldable pub candidates : List (Text × Node) → List (Text × ℕ)
candidates [] = []
candidates ((key, n) ∷ nodes) =
    let rest = candidates nodes in
    if n.is_connected then rest else insert_candidate (key, n.disconnected_at) rest

unfoldable pub remove_oldest : ℤ → List (Text × ℕ) → List (Text × Node) → List (Text × Node)
remove_oldest capacity [] nodes = nodes
remove_oldest capacity ((id, time) ∷ ds) nodes =
    let later = remove_oldest capacity ds (delete_node id nodes) in
    if leb_ℤ (pos (length nodes)) capacity then nodes else later

-- pruneNodesLocked.
unfoldable pub prune_nodes : ℕ → ℤ → ℕ → List (Text × Node) → List (Text × Node)
prune_nodes ttl capacity now nodes =
    let kept = unexpired ttl now nodes in
    if leb_ℤ (pos (length kept)) capacity
    then kept
    else remove_oldest capacity (candidates kept) kept
