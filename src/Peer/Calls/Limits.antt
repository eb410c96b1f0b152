-- ===== src/Peer/Calls/Limits.antt =====
-- Sequences of calls to a host: the sizes of its maps.
use go_musical_packets.Peer.Nodes.Bounds.{connected_count}
use go_musical_packets.Peer.Calls.Histories.{accept_note-keeps, call-window, Stable}
use go_musical_packets.Peer.Host.Bounds.{
  touch-IsBounded, disconnect-IsBounded, register-IsBounded, record_result-IsBounded, IsBounded,
}
use go_musical_packets.Peer.Window.Queue.{duplicate-IsWindow, IsWindow, Unique}
use go_musical_packets.Peer.Calls.{
  notes, touches, checked_at, disconnects, registers, run_host, HostCall, host_call,
}
use go_musical_packets.Peer.Window.{Window}
use go_musical_packets.Music.Note.{NoteEvent}
use go_musical_packets.Peer.Protocol.{Unicode}
use go_musical_packets.Peer.Host.{Host, HostConfig, new_host}
use go_musical_packets.Prelude.{
  ◌≤◌, ◌≡◌, refl, sym, ap, subst, Bool, false, some, List, [], ◌∷◌, arith, length, ℤ, pos, negsuc,
  ltb_ℤ, leb_ℤ, to_ℕ,
}

positive : (z : ℤ) → leb_ℤ z (pos 0) ≡ false → (z ≡ pos (to_ℕ z)) × (1 ≤ to_ℕ z)
positive (pos n) h = (refl, ground (arith, h))
positive (negsuc n) h = absurd (ground (arith, h))

pub record Started (u : Unicode) (c : HostConfig) (h : Host) : Type 0 where
  pub limit : c.maximum_connections ≡ pos (to_ℕ c.maximum_connections)
  pub history : c.recent_capacity ≡ pos (to_ℕ c.recent_capacity)
  pub few : to_ℕ c.maximum_connections ≤ to_ℕ c.recent_capacity
  pub some_notes : 1 ≤ to_ℕ c.duplicate_capacity
  pub no_nodes : h.nodes ≡ []
  pub no_notes : h.window ≡ record { duplicates = []; order = [] }

capacity_given : (m r : ℤ) → leb_ℤ m (pos 0) ≡ false → ltb_ℤ r m ≡ false → leb_ℤ r (pos 0) ≡ false
capacity_given (pos m) (pos r) h k = ground (arith, h, k)
capacity_given (pos m) (negsuc r) h k = absurd (ground (arith, k))
capacity_given (negsuc m) r h k = absurd (ground (arith, h))

pub new_host-Started :
    (u : Unicode) (c : HostConfig) (h : Host) → new_host u c ≡ some h → Started u c h
unfolding new_host
new_host-Started u c h k =
    let connections : leb_ℤ c.maximum_connections (pos 0) ≡ false = ground (arith, k) in
    let ordered : ltb_ℤ c.recent_capacity c.maximum_connections ≡ false = ground (arith, k) in
    let (limit, _) = positive c.maximum_connections connections in
    let (history, _) =
      positive c.recent_capacity
        (capacity_given c.maximum_connections c.recent_capacity connections ordered) in
    let compared : ltb_ℤ (pos (to_ℕ c.recent_capacity)) (pos (to_ℕ c.maximum_connections)) ≡ false =
      subst (λ z. ltb_ℤ z (pos (to_ℕ c.maximum_connections)) ≡ false) history
        (subst (λ z. ltb_ℤ c.recent_capacity z ≡ false) limit ordered) in
    record {
      limit = limit;
      history = history;
      few = ground (arith, compared);
      some_notes = (positive c.duplicate_capacity (ground (arith, k))).1;
      no_nodes = ap (λ (t : Host). t.nodes) (sym (given k));
      no_notes = ap (λ (t : Host). t.window) (sym (given k));
    }
  where
    given :
        new_host u c ≡ some h
        → record { nodes = []; generation = 0; window = record { duplicates = []; order = [] } } ≡ h
    given j = ground (arith, j)

module _ (u : Unicode) (c : HostConfig) {S : Type 0} (sink : S → NoteEvent → S × Bool) where
  module _ (h₀ : Host) (started : Started u c h₀) where
    abbrev Bounded : Host → Type 0
    Bounded = IsBounded (to_ℕ c.maximum_connections) (to_ℕ c.recent_capacity)

    Bounded-Stable : Stable u c sink Bounded
    Bounded-Stable = record {
      recorded = record_result-IsBounded (to_ℕ c.maximum_connections) (to_ℕ c.recent_capacity);
    }

    call-Bounded :
        (call : HostCall) (h : Host) (s : S) → Bounded h → Bounded (host_call u c sink call h s).0
    unfolding host_call
    call-Bounded (registers hello remote connection now) h s b =
        register-IsBounded (to_ℕ c.maximum_connections) (to_ℕ c.recent_capacity) u c started.few
          started.limit started.history hello remote connection now h b
    call-Bounded (disconnects id generation now) h s b =
        disconnect-IsBounded (to_ℕ c.maximum_connections) (to_ℕ c.recent_capacity) id generation now
          h b
    call-Bounded (touches id generation now) h s b =
        touch-IsBounded (to_ℕ c.maximum_connections) (to_ℕ c.recent_capacity) id generation now h b
    call-Bounded (notes id generation n now later) h s b =
        accept_note-keeps u c sink Bounded Bounded-Stable id generation n now later h s b
          (λ key. record { few_connected = b.few_connected; few_nodes = b.few_nodes })

    abbrev Windowed : Window → Type 0
    Windowed = IsWindow (to_ℕ c.duplicate_capacity)

    run-bounds :
        (calls : List HostCall) (h : Host) (s : S)
        → Bounded h
        → Windowed h.window
        → let t = (run_host u c sink calls h s).0 in Bounded t × Windowed t.window
    unfolding run_host
    run-bounds [] h s b w = (b, w)
    run-bounds (call ∷ calls) h s b w =
        let (h', s') = host_call u c sink call h s in
        run-bounds calls h' s' (call-Bounded call h s b) (
          call-window u c sink Windowed call h s w (λ key.
            duplicate-IsWindow (to_ℕ c.duplicate_capacity) (to_ℕ c.recent_ttl) key (checked_at call)
              h.window w))

    empty-Bounded : Bounded h₀ × Windowed h₀.window
    unfolding Unique connected_count
    empty-Bounded = (
      record {
        few_connected = rw (started.no_nodes) (omega arith);
        few_nodes = rw (started.no_nodes) (omega arith);
      },
      rw (started.no_notes) (record { same = refl; unique = tt; bounded = omega arith }),
    )

  -- After any calls to a host that NewHost made, no more edges are connected than the maximum, no more
  -- nodes are kept than the history holds, and the window of notes keeps within its capacity, its map
  -- and its queue with the same entries, each key once.
  pub run_host-bounds :
      (h₀ : Host) (calls : List HostCall) (s : S)
      → new_host u c ≡ some h₀
      → let h = (run_host u c sink calls h₀ s).0 in
        (connected_count h.nodes ≤ to_ℕ c.maximum_connections)
        × (length h.nodes ≤ to_ℕ c.recent_capacity)
        × IsWindow (to_ℕ c.duplicate_capacity) h.window
  run_host-bounds h₀ calls s k =
      let started = new_host-Started u c h₀ k in
      let (b, w) = empty-Bounded h₀ started in
      let (b', w') = run-bounds h₀ started calls h₀ s b w in (b'.few_connected, b'.few_nodes, w')
