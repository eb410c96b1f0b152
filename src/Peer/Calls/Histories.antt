-- ===== src/Peer/Calls/Histories.antt =====
-- What single calls to a host do to its window and its nodes.
use go_musical_packets.Peer.Calls.{
  notes, touches, disconnects, registers, checked_at, HostCall, host_call,
}
use go_musical_packets.Peer.Window.{duplicate, Window}
use go_musical_packets.Music.Note.{NoteEvent}
use go_musical_packets.Peer.Protocol.{event_of_note, WireNote, PeerError, Unicode}
use go_musical_packets.Peer.Host.{
  replaced_by, registered, origin_mismatch, note_stale, stale, touch, note_early, disconnect,
  Answer, duplicated, rejected, note_key, register, accept_parsed, accepted, set_at, deliver,
  accept_note, sink_answer, count_up, accept_event, change_if, with_result, NoteResult, HostConfig,
  Host, record_result,
}
use go_musical_packets.Peer.Nodes.{connected_others, prune_nodes, find_node, set_node, Node}
use go_musical_packets.Prelude.{
  ℕ, ◌+◌, ◌-◌, ◌%◌, ◌^◌, ◌≡◌, refl, sym, subst, Bool, true, false, not, ◌&&◌, Option, none, some,
  ltb, leb, ◌==◌, if◌then◌else◌, if_cases, Result, ok, err, pos, leb_ℤ, to_ℕ, Text, text_eq,
}

change_if-window :
    (generation : ℕ) (id : Text) (f : Node → Node) (o : Option Node) (h : Host)
    → (change_if generation id f o h).window ≡ h.window
change_if-window generation id f none h = refl
change_if-window generation id f (some n) h =
    if_cases (λ (t : Host). t.window ≡ h.window) (n.generation == generation)
      (record h { nodes = set_node id (f n) h.nodes }) h (λ _. refl) (λ _. refl)

record_result-window :
    (id : Text) (generation : ℕ) (result : NoteResult) (channel now : ℕ) (h : Host)
    → (record_result id generation result channel now h).window ≡ h.window
unfolding record_result
record_result-window id generation result channel now h =
    change_if-window generation id
      (λ n. with_result result now (record n {
        last_seen_at = now;
        received_total = count_up n.received_total;
        channels =
            if leb 1 channel && leb channel 16 then set_at (channel - 1) n.channels else n.channels;
      }))
      (find_node id h.nodes) h

module _ (u : Unicode) (c : HostConfig) {S : Type 0} (sink : S → NoteEvent → S × Bool) where
  -- What a host satisfies that only forgets and records results.
  pub record Stable (Q : Host → Type 0) : Type 0 where
    pub recorded :
        (id : Text) (generation : ℕ) (result : NoteResult) (channel now : ℕ) (h : Host)
        → Q h
        → Q (record_result id generation result channel now h)

  module _ (Q : Host → Type 0) (stable : Stable Q) where
    sink_answer-keeps :
        (id : Text) (generation : ℕ) (e : NoteEvent) (later : ℕ) (h : Host) (p : S × Bool)
        → Q h
        → Q (sink_answer u c sink id generation e later h p).0
    sink_answer-keeps id generation e later h (s, true) q =
        stable.recorded id generation accepted e.channel later h q
    sink_answer-keeps id generation e later h (s, false) q =
        stable.recorded id generation rejected e.channel later h q

    deliver-keeps :
        (id : Text) (generation : ℕ) (e : NoteEvent) (later : ℕ) (h : Host) (s : S)
        (d : Window × Bool)
        → Q (record h { window = d.0 })
        → Q (deliver u c sink id generation e later h s d).0
    deliver-keeps id generation e later h s (w, true) q =
        stable.recorded id generation duplicated e.channel later (record h { window = w }) q
    deliver-keeps id generation e later h s (w, false) q =
        sink_answer-keeps id generation e later (record h { window = w }) (sink s e) q

    accept_event-keeps :
        (id : Text) (generation : ℕ) (e : NoteEvent) (now later : ℕ) (h : Host) (s : S)
        → Q h
        → Q (record h {
          window =
              (duplicate
                (to_ℕ c.duplicate_capacity)
                (to_ℕ c.recent_ttl)
                (note_key e)
                now
                h.window).0;
        })
        → Q (accept_event u c sink id generation e now later h s).0
    unfolding accept_event
    accept_event-keeps id generation e now later h s q r =
        let d =
          duplicate (to_ℕ c.duplicate_capacity) (to_ℕ c.recent_ttl) (note_key e) now h.window in
        let delivered = deliver u c sink id generation e later h s d in
        let early : Answer u c sink =
          (record_result id generation rejected e.channel later h, s, err note_early) in
        let old : Answer u c sink =
          (record_result id generation stale e.channel later h, s, err note_stale) in
        let third = if ltb (now + to_ℕ c.stale_after) e.created_at then early else delivered in
        let second = if ltb (e.created_at + to_ℕ c.stale_after) now then old else third in
        if_cases (λ (w : Answer u c sink). Q w.0) (not (text_eq e.origin id))
          (record_result id generation rejected 0 later h, s, err origin_mismatch) second
          (λ _. stable.recorded id generation rejected 0 later h q)
          (λ _.
            if_cases (λ (w : Answer u c sink). Q w.0) (ltb (e.created_at + to_ℕ c.stale_after) now)
              old third (λ _. stable.recorded id generation stale e.channel later h q)
              (λ _.
                if_cases (λ (w : Answer u c sink). Q w.0)
                  (ltb (now + to_ℕ c.stale_after) e.created_at) early delivered
                  (λ _. stable.recorded id generation rejected e.channel later h q)
                  (λ _. deliver-keeps id generation e later h s d r)))

    accept_parsed-keeps :
        (id : Text) (generation : ℕ) (r : Result PeerError NoteEvent) (now later : ℕ) (h : Host)
        (s : S)
        → Q h
        → ((key : Text)
            → Q (record h {
              window =
                  (duplicate (to_ℕ c.duplicate_capacity) (to_ℕ c.recent_ttl) key now h.window).0;
            }))
        → Q (accept_parsed u c sink id generation r now later h s).0
    accept_parsed-keeps id generation (err e) now later h s q r =
        stable.recorded id generation rejected 0 later h q
    accept_parsed-keeps id generation (ok e) now later h s q r =
        accept_event-keeps id generation e now later h s q (r (note_key e))

    pub accept_note-keeps :
        (id : Text) (generation : ℕ) (n : WireNote) (now later : ℕ) (h : Host) (s : S)
        → Q h
        → ((key : Text)
            → Q (record h {
              window =
                  (duplicate (to_ℕ c.duplicate_capacity) (to_ℕ c.recent_ttl) key now h.window).0;
            }))
        → Q (accept_note u c sink id generation n now later h s).0
    unfolding accept_note
    accept_note-keeps id generation n now later h s q r =
        accept_parsed-keeps id generation (event_of_note u n) now later h s q r

  -- What only the window decides.
  module _ (P : Window → Type 0) where
    abbrev OfWindow : Host → Type 0
    OfWindow h = P h.window

    window-Stable : Stable OfWindow
    window-Stable = record {
      recorded = λ id generation result channel now h q.
          subst P (sym (record_result-window id generation result channel now h)) q;
    }

    pub deliver-window :
        (id : Text) (generation : ℕ) (e : NoteEvent) (later : ℕ) (h : Host) (s : S)
        (d : Window × Bool)
        → P d.0
        → P (deliver u c sink id generation e later h s d).0.window
    deliver-window id generation e later h s d p =
        deliver-keeps OfWindow window-Stable id generation e later h s d p

    pub call-window :
        (call : HostCall) (h : Host) (s : S)
        → P h.window
        → ((key : Text)
            → P
                (duplicate
                  (to_ℕ c.duplicate_capacity)
                  (to_ℕ c.recent_ttl)
                  key
                  (checked_at call)
                  h.window).0)
        → P (host_call u c sink call h s).0.window
    unfolding host_call register disconnect touch
    call-window (registers hello remote connection now) h s p r =
        let kept = record h {
          nodes = prune_nodes (to_ℕ c.recent_ttl) c.recent_capacity now h.nodes;
        } in
        if_cases (λ (w : Host × Option (ℕ × Option ℕ)). P w.0.window)
          (leb_ℤ c.maximum_connections (pos (connected_others hello.instance_id kept.nodes)))
          (kept, none)
          (
            registered u c hello remote connection now kept,
            some (
              (kept.generation + 1) % 2 ^ 64,
              replaced_by (find_node hello.instance_id kept.nodes),
            ),
          )
          (λ _. p) (λ _. p)
    call-window (disconnects id generation now) h s p r =
        subst P
          (sym (
            change_if-window generation id
              (λ n. record n { is_connected = false; disconnected_at = now; connection = none })
              (find_node id h.nodes) h))
          p
    call-window (touches id generation now) h s p r =
        subst P
          (sym (
            change_if-window generation id (λ n. record n { last_seen_at = now })
              (find_node id h.nodes) h))
          p
    call-window (notes id generation n now later) h s p r =
        accept_note-keeps OfWindow window-Stable id generation n now later h s p r
