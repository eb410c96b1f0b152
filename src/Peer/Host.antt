-- ===== src/Peer/Host.antt =====
-- internal/peer/host.go: the edges that a host knows, and the notes that it takes from them. Each
-- method that locks is one step; a connection is a number, and the sink a step on a state of its own.
-- The count of the sessions, by which Close waits for them, is left out.
pub mod Bounds
pub mod Delivery
use go_musical_packets.Music.Mapper.{flow_mode_v1}
use go_musical_packets.Peer.Window.{Window, duplicate}
use go_musical_packets.Music.Note.{NoteEvent}
use go_musical_packets.Peer.Protocol.{
  event_of_note, WireNote, Hello, safe_identifier, PeerError, Unicode,
}
use go_musical_packets.Peer.Nodes.{connected_others, prune_nodes, set_node, find_node, Node}
use go_musical_packets.Prelude.{
  ℕ, zero, suc, ◌+◌, ◌-◌, ◌*◌, ◌/◌, ◌%◌, ◌^◌, ◌≤◌, ◌<◌, bit_and, bit_or, ◌≡◌, refl, sym, ap, ◌∙◌,
  subst, ◌≢◌, ◌↔◌, ◌⊎◌, inl, inr, Bool, true, false, not, ◌&&◌, ◌||◌, Option, none, some, List, [],
  ◌∷◌, ◌++◌, map, arith, ltb, leb, ◌==◌, if◌then◌else◌, Bool-cases, Option-cases, is_some, if_cases,
  ltb→lt, lt→ltb, leb→le, ==_iff, length, get_elem?, get_or, take, drop, length-append, All,
  All-append, Result, ok, err, ◌>>=◌, ◌>>◌, refuse_if, map_err, Result-cases, ℤ, pos, negsuc, ltb_ℤ,
  leb_ℤ, to_int64, to_ℕ, Text, codes, text_eq, is_empty, text_lt, contains_text, text_eq_refl,
  text_eq→eq, text_eq_iff, text_lt_irrefl, text_lt_trans, text_lt-total,
}

pub record HostConfig : Type 0 where
  pub token : Text
  pub instance_id : Text
  pub mapping_version : Text
  pub maximum_connections : ℤ
  pub recent_capacity : ℤ
  pub recent_ttl : ℤ
  pub stale_after : ℤ
  pub duplicate_capacity : ℤ

-- The nodes are a map by their instance ID, with each ID once.
pub record Host : Type 0 where
  pub nodes : List (Text × Node)
  pub generation : ℕ  -- uint64
  pub window : Window

-- NewHost; the sink and the defaults are left out.
unfoldable pub new_host : Unicode → HostConfig → Option Host
new_host u c =
    if ltb (length c.token) 16 || not (safe_identifier u c.instance_id 128)
    then none
    else if not (text_eq c.mapping_version flow_mode_v1)
    then none
    else if leb_ℤ c.maximum_connections (pos 0)
        || ltb_ℤ (pos 1024) c.maximum_connections
        || ltb_ℤ c.recent_capacity c.maximum_connections
        || leb_ℤ c.recent_ttl (pos 0)
        || leb_ℤ c.stale_after (pos 0)
        || leb_ℤ c.duplicate_capacity (pos 0)
    then none
    else some
        (record { nodes = []; generation = 0; window = record { duplicates = []; order = [] } })

-- A change to the node of an ID, if it is still of the generation.
abbrev pub change_if : ℕ → Text → (Node → Node) → Option Node → Host → Host
change_if generation id f none h = h
change_if generation id f (some n) h =
    if n.generation == generation then record h { nodes = set_node id (f n) h.nodes } else h

-- boundedRemote.
unfoldable pub bounded_remote : Unicode → Text → Text
bounded_remote u remote = take 128 (u.trim_space remote)

abbrev pub new_node : Unicode → Hello → Text → ℕ → ℕ → ℕ → Node
new_node u hello remote connection generation now = record {
  remote_address = bounded_remote u remote;
  is_connected = true;
  mapping_version = hello.mapping_version;
  connected_at = now;
  disconnected_at = 0;
  last_seen_at = now;
  received_total = 0;
  accepted_total = 0;
  rejected_total = 0;
  duplicate_total = 0;
  stale_total = 0;
  recent = [];
  channels =
      false ∷ false ∷ false ∷ false ∷ false ∷ false ∷ false ∷ false ∷ false ∷ false ∷ false ∷ false
      ∷ false ∷ false ∷ false ∷ false ∷ [];
  generation = generation;
  connection = some connection;
}

abbrev pub replaced_by : Option Node → Option ℕ
replaced_by none = none
replaced_by (some n) = if n.is_connected then n.connection else none

abbrev pub registered : Unicode → HostConfig → Hello → Text → ℕ → ℕ → Host → Host
registered u c hello remote connection now h =
    let generation = (h.generation + 1) % 2 ^ 64 in
    record h {
      nodes =
          prune_nodes (to_ℕ c.recent_ttl) c.recent_capacity now (
            set_node hello.instance_id (new_node u hello remote connection generation now) h.nodes);
      generation = generation;
    }

-- Host.register: the generation and the connection that it replaces, or none.
unfoldable pub register :
    Unicode → HostConfig → Hello → Text → ℕ → ℕ → Host → Host × Option (ℕ × Option ℕ)
register u c hello remote connection now h =
    let kept = record h { nodes = prune_nodes (to_ℕ c.recent_ttl) c.recent_capacity now h.nodes } in
    if leb_ℤ c.maximum_connections (pos (connected_others hello.instance_id kept.nodes))
    then (kept, none)
    else (
      registered u c hello remote connection now kept,
      some ((kept.generation + 1) % 2 ^ 64, replaced_by (find_node hello.instance_id kept.nodes)),
    )

-- Host.disconnect.
unfoldable pub disconnect : Text → ℕ → ℕ → Host → Host
disconnect id generation now h =
    change_if generation id
      (λ n. record n { is_connected = false; disconnected_at = now; connection = none })
      (find_node id h.nodes) h

-- Host.touch.
unfoldable pub touch : Text → ℕ → ℕ → Host → Host
touch id generation now h =
    change_if generation id (λ n. record n { last_seen_at = now }) (find_node id h.nodes) h

pub data NoteResult : Type 0 where
  accepted duplicated stale rejected : NoteResult

abbrev pub set_at : ℕ → List Bool → List Bool
set_at i [] = []
set_at zero (b ∷ bs) = true ∷ bs
set_at (suc i) (b ∷ bs) = b ∷ set_at i bs

-- appendRateSample, with at most 4096 samples.
unfoldable pub append_rate_sample : List ℕ → ℕ → List ℕ
append_rate_sample samples value =
    (if length samples == 4096 then drop 1 samples else samples) ++ (value ∷ [])

abbrev pub count_up : ℕ → ℕ
count_up n = (n + 1) % 2 ^ 64

abbrev pub with_result : NoteResult → ℕ → Node → Node
with_result accepted now n = record n {
  accepted_total = count_up n.accepted_total;
  recent = append_rate_sample n.recent now;
}
with_result duplicated now n = record n { duplicate_total = count_up n.duplicate_total }
with_result stale now n = record n { stale_total = count_up n.stale_total }
with_result rejected now n = record n { rejected_total = count_up n.rejected_total }

-- Host.record.
unfoldable pub record_result : Text → ℕ → NoteResult → ℕ → ℕ → Host → Host
record_result id generation result channel now h =
    change_if generation id
      (λ n. with_result result now (record n {
        last_seen_at = now;
        received_total = count_up n.received_total;
        channels =
            if leb 1 channel && leb channel 16 then set_at (channel - 1) n.channels else n.channels;
      }))
      (find_node id h.nodes) h

pub data NoteFailure : Type 0 where
  note_invalid : PeerError → NoteFailure
  origin_mismatch note_stale note_early note_duplicate sink_failed : NoteFailure

-- The key of a note in the window: `event.Origin+"\x00"+event.ID`.
abbrev pub note_key : NoteEvent → Text
note_key e = e.origin ++ (0 ∷ e.id)

module _ (u : Unicode) (c : HostConfig) {S : Type 0} (sink : S → NoteEvent → S × Bool) where
  abbrev pub Answer : Type 0
  Answer = Host × S × Result NoteFailure (Unit {0})

  abbrev pub sink_answer : Text → ℕ → NoteEvent → ℕ → Host → S × Bool → Answer
  sink_answer id generation e later h (s, true) =
      (record_result id generation accepted e.channel later h, s, ok tt)
  sink_answer id generation e later h (s, false) =
      (record_result id generation rejected e.channel later h, s, err sink_failed)

  -- From the test for duplicates on.
  abbrev pub deliver : Text → ℕ → NoteEvent → ℕ → Host → S → Window × Bool → Answer
  deliver id generation e later h s (w, true) = (
    record_result id generation duplicated e.channel later (record h { window = w }),
    s,
    err note_duplicate,
  )
  deliver id generation e later h s (w, false) =
      sink_answer id generation e later (record h { window = w }) (sink s e)

  -- From the test of the origin on; `now` is the time of the check, `later` that of the record.
  unfoldable pub accept_event : Text → ℕ → NoteEvent → ℕ → ℕ → Host → S → Answer
  accept_event id generation e now later h s =
      let delivered =
        deliver id generation e later h s
          (duplicate (to_ℕ c.duplicate_capacity) (to_ℕ c.recent_ttl) (note_key e) now h.window) in
      if not (text_eq e.origin id)
      then (record_result id generation rejected 0 later h, s, err origin_mismatch)
      else if ltb (e.created_at + to_ℕ c.stale_after) now
      then (record_result id generation stale e.channel later h, s, err note_stale)
      else if ltb (now + to_ℕ c.stale_after) e.created_at
      then (record_result id generation rejected e.channel later h, s, err note_early)
      else delivered

  abbrev pub accept_parsed : Text → ℕ → Result PeerError NoteEvent → ℕ → ℕ → Host → S → Answer
  accept_parsed id generation (err e) now later h s =
      (record_result id generation rejected 0 later h, s, err (note_invalid e))
  accept_parsed id generation (ok e) now later h s = accept_event id generation e now later h s

  -- Host.acceptNote, after NewHost took the configuration.
  unfoldable pub accept_note : Text → ℕ → WireNote → ℕ → ℕ → Host → S → Answer
  accept_note id generation n now later h s =
      accept_parsed id generation (event_of_note u n) now later h s
