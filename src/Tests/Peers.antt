-- ===== src/Tests/Peers.antt =====
-- The theorems on the peers at concrete inputs.
use go_musical_packets.Peer.Nodes.{unexpired, prune_nodes, connected_others}
use go_musical_packets.Music.Mode.{mode_names, mode_string, is_mode}
use go_musical_packets.Peer.Calls.Limits.{run_host-bounds}
use go_musical_packets.Peer.Window.{prune_from, prune_duplicates, lookup, duplicate}
use go_musical_packets.Peer.Window.Queue.{IsWindow}
use go_musical_packets.Peer.Protocol.Messages.{validate_message_iff, IsMessage}
use go_musical_packets.Peer.Nodes.Bounds.{connected_count}
use go_musical_packets.Peer.Calls.Once.{accept_note_once}
use go_musical_packets.Music.Mapper.{flow_mode_v1}
use go_musical_packets.Peer.Protocol.Validity.{event_of_note_iff}
use go_musical_packets.Peer.Host.Delivery.{accept_note_iff, Admitted}
use go_musical_packets.Music.Note.{validate_note, NoteEvent}
use go_musical_packets.Peer.Calls.{host_call, disconnects, registers, touches, run_host, HostCall}
use go_musical_packets.Peer.Protocol.{
  all_hex, has_break, validate_event, type_note, protocol_version, safe_identifier, WireNote,
  note_of_event, Unicode, event_of_note, Hello, validate_message, Message,
}
use go_musical_packets.Peer.Host.{
  register, accept_event, NoteFailure, accept_note, Host, new_host, HostConfig,
}
use go_musical_packets.Prelude.{
  ℕ, suc, ◌≤◌, ◌≡◌, refl, ◌≢◌, ◌↔◌, ◌⊎◌, Bool, true, false, none, some, List, [], ◌∷◌, ◌++◌, arith,
  length, Result, ok, pos, codes, text_eq,
}

-- Go's functions on a text without white space at its ends and without control characters.
abbrev plain : Unicode
plain = record { trim_space = λ t. t; has_control = λ t. false }

abbrev carried : NoteEvent
carried = record {
  id = codes "n-1";
  origin = codes "edge";
  sequence = 1;
  mapping_version = flow_mode_v1;
  flow_id = codes "0123456789abcdef01234567";
  mode = 1;
  root = 2;
  note = 62;
  velocity = 90;
  duration = pos 250000000;
  channel = 3;
  created_at = 5000;
}

abbrev carried_note : WireNote
carried_note = record {
  id = codes "n-1";
  origin = codes "edge";
  sequence = 1;
  mapping_version = flow_mode_v1;
  flow_id = codes "0123456789abcdef01234567";
  mode = codes "dorian";
  root = 2;
  pitch = 62;
  velocity = 90;
  duration_ms = pos 250;
  channel = 3;
  created_at = 5000;
}

carried-sent : note_of_event plain carried ≡ ok carried_note
unfolding note_of_event validate_event validate_note safe_identifier has_break all_hex is_mode
    mode_string mode_names text_eq
carried-sent = refl

event_of_note_iff_example :
    (event_of_note plain carried_note ≡ ok carried)
    ↔ (note_of_event plain carried ≡ ok carried_note)
event_of_note_iff_example = event_of_note_iff plain carried_note carried (omega arith)

carried-read : event_of_note plain carried_note ≡ ok carried
carried-read = event_of_note_iff_example.1 carried-sent

abbrev note_message : Message
note_message = record {
  type = type_note;
  version = protocol_version;
  hello = none;
  note = some carried_note;
  ping = none;
  pong = none;
  error = none;
}

validate_message_iff_example :
    (validate_message plain note_message ≡ ok tt)
    ↔ ((text_eq note_message.version protocol_version ≡ true) × IsMessage plain note_message)
validate_message_iff_example = validate_message_iff plain note_message

-- A sink that takes every note and counts them.
abbrev counter : ℕ → NoteEvent → ℕ × Bool
counter s e = (suc s, true)

abbrev host_config : HostConfig
host_config = record {
  token = codes "0123456789abcdef";
  instance_id = codes "host";
  mapping_version = flow_mode_v1;
  maximum_connections = pos 2;
  recent_capacity = pos 3;
  recent_ttl = pos 1000;
  stale_after = pos 500;
  duplicate_capacity = pos 4;
}

abbrev new : Host
new = record { nodes = []; generation = 0; window = record { duplicates = []; order = [] } }

new-made : new_host plain host_config ≡ some new
unfolding new_host safe_identifier has_break text_eq
new-made = refl

abbrev edge_hello : Hello
edge_hello = record {
  instance_id = codes "edge";
  role = codes "edge";
  mapping_version = flow_mode_v1;
}

abbrev joins : List HostCall
joins = registers edge_hello (codes "10.0.0.7:4000") 1 4900 ∷ []

abbrev leaves : List HostCall
leaves = touches (codes "edge") 1 5150 ∷ disconnects (codes "edge") 1 5200 ∷ []

run_host-bounds_example :
    let h = (run_host plain host_config counter (joins ++ leaves) new 0).0 in
    (connected_count h.nodes ≤ 2) × (length h.nodes ≤ 3) × IsWindow 4 h.window
run_host-bounds_example = run_host-bounds plain host_config counter new (joins ++ leaves) 0 new-made

accept_note_iff_example :
    let (_, s', r) =
      accept_note plain host_config counter (codes "edge") 1 carried_note 5100 5101 new 0 in
    ((r ≡ ok tt) ↔ (
      (e : NoteEvent) × Admitted plain host_config counter (codes "edge") carried_note 5100 new e
      × ((counter 0 e).1 ≡ true)))
    × ((s' ≡ 0)
        ⊎ ((e : NoteEvent) × Admitted plain host_config counter
              (codes "edge")
              carried_note
              5100
              new
              e
            × (s' ≡ (counter 0 e).0)))
accept_note_iff_example =
    accept_note_iff plain host_config counter (codes "edge") 1 carried_note 5100 5101 new 0

abbrev joined : Host × ℕ
joined = run_host plain host_config counter joins new 0

abbrev noted : Host × ℕ × Result NoteFailure (Unit {0})
noted =
    accept_note plain host_config counter (codes "edge") 1 carried_note 5100 5101 joined.0 joined.1

abbrev left : Host × ℕ
left = run_host plain host_config counter leaves noted.0 noted.1

noted-taken : noted.2 ≡ ok tt
unfolding accept_note accept_event text_eq duplicate lookup prune_duplicates prune_from run_host
    host_call register connected_others prune_nodes unexpired
noted-taken = rw (carried-read) refl

accept_note_once_example :
    let (_, s₃, r) =
      accept_note plain host_config counter (codes "edge") 1 carried_note 5300 5301 left.0 left.1 in
    (r ≢ ok tt) × (s₃ ≡ left.1)
accept_note_once_example =
    accept_note_once plain host_config counter new 0 joins leaves (codes "edge") (codes "edge") 1 1
      carried_note carried_note carried carried 5100 5101 5300 5301 new-made noted-taken
      carried-read carried-read refl (omega arith) (omega arith, (omega arith, tt)) (omega arith)
