-- ===== src/Peer/Host/Bounds.antt =====
-- The numbers of nodes, step by step, for internal/peer/host.go.
use go_musical_packets.Peer.Nodes.Bounds.{
  connected-set_node, length-prune_nodes, find_node-counts, connected-prune_nodes, connected_count,
}
use go_musical_packets.Peer.Protocol.{Hello, Unicode}
use go_musical_packets.Peer.Host.{
  replaced_by, new_node, rejected, stale, registered, set_at, duplicated, count_up, register,
  change_if, accepted, HostConfig, with_result, touch, disconnect, record_result, NoteResult, Host,
}
use go_musical_packets.Peer.Nodes.{
  delete_node, connected_others, prune_nodes, one_if, find_node, set_node, Node,
}
use go_musical_packets.Prelude.{
  ℕ, ◌+◌, ◌-◌, ◌%◌, ◌^◌, ◌≤◌, ◌≡◌, refl, sym, ap, subst, false, ◌&&◌, Option, none, some, [], ◌∷◌,
  ◌++◌, arith, leb, ◌==◌, if◌then◌else◌, if_cases, length, length-append, pos, leb_ℤ, to_ℕ, Text,
}

pub record IsBounded (connections capacity : ℕ) (h : Host) : Type 0 where
  pub few_connected : connected_count h.nodes ≤ connections
  pub few_nodes : length h.nodes ≤ capacity

-- Keeps whether a node is connected, or disconnects it.
Quiet : (Node → Node) → Type 0
Quiet f = (n : Node) → one_if (f n).is_connected ≤ one_if n.is_connected

module _ (connections capacity : ℕ) where
  change_if-IsBounded :
      (generation : ℕ) (id : Text) (f : Node → Node) (o : Option Node) (h : Host)
      → find_node id h.nodes ≡ o
      → Quiet f
      → IsBounded connections capacity h
      → IsBounded connections capacity (change_if generation id f o h)
  unfolding Quiet set_node
  change_if-IsBounded generation id f none h e q b = b
  change_if-IsBounded generation id f (some n) h e q b =
      let (counted, shorter) = find_node-counts id h.nodes n e in
      let one : length (delete_node id h.nodes ++ ((id, f n) ∷ []))
          ≡ length (delete_node id h.nodes) + 1 =
        length-append (delete_node id h.nodes) ((id, f n) ∷ []) in
      if_cases (IsBounded connections capacity) (n.generation == generation)
        (record h { nodes = set_node id (f n) h.nodes }) h
        (λ _. record {
          few_connected =
              omega (arith, connected-set_node id (f n) h.nodes, counted, q n, b.few_connected);
          few_nodes = omega (arith, one, shorter, b.few_nodes);
        })
        (λ _. b)

  pub disconnect-IsBounded :
      (id : Text) (generation now : ℕ) (h : Host)
      → IsBounded connections capacity h
      → IsBounded connections capacity (disconnect id generation now h)
  unfolding disconnect Quiet
  disconnect-IsBounded id generation now h =
      change_if-IsBounded generation id
        (λ n. record n { is_connected = false; disconnected_at = now; connection = none })
        (find_node id h.nodes) h refl (λ n. omega arith)

  pub touch-IsBounded :
      (id : Text) (generation now : ℕ) (h : Host)
      → IsBounded connections capacity h
      → IsBounded connections capacity (touch id generation now h)
  unfolding touch Quiet
  touch-IsBounded id generation now h =
      change_if-IsBounded generation id (λ n. record n { last_seen_at = now })
        (find_node id h.nodes) h refl (λ n. omega arith)

  with_result-connected :
      (result : NoteResult) (now : ℕ) (n : Node)
      → (with_result result now n).is_connected ≡ n.is_connected
  with_result-connected accepted now n = refl
  with_result-connected duplicated now n = refl
  with_result-connected stale now n = refl
  with_result-connected rejected now n = refl

  pub record_result-IsBounded :
      (id : Text) (generation : ℕ) (result : NoteResult) (channel now : ℕ) (h : Host)
      → IsBounded connections capacity h
      → IsBounded connections capacity (record_result id generation result channel now h)
  unfolding record_result Quiet
  record_result-IsBounded id generation result channel now h =
      change_if-IsBounded generation id
        (λ n. with_result result now (record n {
          last_seen_at = now;
          received_total = count_up n.received_total;
          channels =
              if leb 1 channel && leb channel 16
              then set_at (channel - 1) n.channels
              else n.channels;
        }))
        (find_node id h.nodes) h refl
        (λ n. omega (
          arith,
          ap one_if (
              with_result-connected result now (record n {
                last_seen_at = now;
                received_total = count_up n.received_total;
                channels =
                    if leb 1 channel && leb channel 16
                    then set_at (channel - 1) n.channels
                    else n.channels;
              })),
        ))

  module _ (u : Unicode) (c : HostConfig) (few : connections ≤ capacity)
      (limit : c.maximum_connections ≡ pos connections)
      (history : c.recent_capacity ≡ pos capacity) where
    pruned-IsBounded :
        (now : ℕ) (h : Host)
        → connected_count h.nodes ≤ connections
        → IsBounded connections capacity
            (record h { nodes = prune_nodes (to_ℕ c.recent_ttl) c.recent_capacity now h.nodes })
    pruned-IsBounded now h b = record {
      few_connected =
          omega (arith, connected-prune_nodes (to_ℕ c.recent_ttl) c.recent_capacity now h.nodes, b);
      few_nodes =
          subst (λ z. length (prune_nodes (to_ℕ c.recent_ttl) z now h.nodes) ≤ capacity)
            (sym history)
            (length-prune_nodes (to_ℕ c.recent_ttl) capacity now h.nodes (omega (arith, b, few)));
    }

    registered-IsBounded :
        (hello : Hello) (remote : Text) (connection now : ℕ) (h : Host)
        → connected_others hello.instance_id h.nodes + 1 ≤ connections
        → IsBounded connections capacity (registered u c hello remote connection now h)
    registered-IsBounded hello remote connection now h k =
        let n = new_node u hello remote connection ((h.generation + 1) % 2 ^ 64) now in
        let b =
          pruned-IsBounded now (record h { nodes = set_node hello.instance_id n h.nodes })
            (omega (arith, connected-set_node hello.instance_id n h.nodes, k)) in
        record { few_connected = b.few_connected; few_nodes = b.few_nodes }

    pub register-IsBounded :
        (hello : Hello) (remote : Text) (connection now : ℕ) (h : Host)
        → IsBounded connections capacity h
        → IsBounded connections capacity (register u c hello remote connection now h).0
    unfolding register
    register-IsBounded hello remote connection now h b =
        let kept = record h {
          nodes = prune_nodes (to_ℕ c.recent_ttl) c.recent_capacity now h.nodes;
        } in
        if_cases (λ (w : Host × Option (ℕ × Option ℕ)). IsBounded connections capacity w.0)
          (leb_ℤ c.maximum_connections (pos (connected_others hello.instance_id kept.nodes)))
          (kept, none)
          (
            registered u c hello remote connection now kept,
            some (
              (kept.generation + 1) % 2 ^ 64,
              replaced_by (find_node hello.instance_id kept.nodes),
            ),
          )
          (λ _. pruned-IsBounded now h b.few_connected)
          (λ k. registered-IsBounded hello remote connection now kept (ground (arith, k, limit)))
