-- ===== src/Pipeline.antt =====
-- internal/pipeline/processor.go: the bounded packet and note queues between capture, routing,
-- mapping and the sink. Its three goroutines (capture, processPackets, processNotes) take turns, one
-- loop round at a time. What the observer is told, latest first, is the list of reports; elapsed
-- times and queue lengths are not told here.
pub mod Rounds
pub mod Books
pub mod Accounts
pub mod Playable
use go_musical_packets.Music.Mapper.{map_packet, MapInput, MapperConfig, MapError}
use go_musical_packets.Flow.Selector.{
  state_play, evaluate, Tier, Selection, Overlay, State, Selector,
}
use go_musical_packets.Flow.Registry.{
  len, observe, RegistryError, ObserveResult, expire, Registry, Snapshot,
}
use go_musical_packets.Packet.{Error, Event}
use go_musical_packets.Flow.Key.{Digest}
use go_musical_packets.Music.Note.{NoteEvent}
use go_musical_packets.Prelude.{
  false, true, ◌^◌, ℕ, ◌-◌, Bool, not, ◌&&◌, ◌||◌, Option, none, some, List, [], ◌∷◌, ◌++◌, ltb,
  ◌==◌, if◌then◌else◌, length, Result, ok, err, ◌>>◌, refuse_if, ℤ, pos, leb_ℤ, to_ℕ, text_eq,
}

pub data Drop : Type 0 where
  packet_shutdown packet_full : Drop  -- of the packet queue
  invalid_packet : Drop  -- at the flow registry
  evaluation_error : Drop  -- at the flow selector
  conversion_error : Drop  -- at the mapper
  note_shutdown note_full : Drop  -- of the note queue
  write_error : Drop  -- at the note sink

pub data Report : Type 0 where
  packet_captured : Event → Report
  dropped : Drop → Report
  evicted_ttl : ℕ → Report
  evicted_capacity : Report
  flow_count : ℕ → Report
  selected : State → Tier → Report
  mapped : NoteEvent → Report
  mapping_failed : Report
  processed : Report

pub record Processor : Type 0 where
  pub registry : Registry
  pub selector : Selector
  pub mapper : MapperConfig
  pub packet_capacity : ℕ
  pub note_capacity : ℕ
  pub packet_queue : List Event
  pub note_queue : List NoteEvent
  pub written : List NoteEvent  -- what the sink was given, latest first
  pub reports : List Report

pub data PipelineError : Type 0 where
  capacity_invalid : PipelineError

-- The dependencies are values here, so none of them is nil.
unfoldable pub new : Registry → Selector → MapperConfig → ℤ → ℤ → Result PipelineError Processor
new r s m packets notes = do
  refuse_if (leb_ℤ packets (pos 0) || leb_ℤ notes (pos 0)) capacity_invalid
  ok (record {
    registry = r;
    selector = s;
    mapper = m;
    packet_capacity = to_ℕ packets;
    note_capacity = to_ℕ notes;
    packet_queue = [];
    note_queue = [];
    written = [];
    reports = [];
  })

abbrev pub report : Report → Processor → Processor
report x p = record p { reports = x ∷ p.reports }

-- A select between a done context, a send and a default. Where the context is done and the queue
-- has room, Go picks either; `pick` is its choice.
pub data Put : Type 0 where
  shutdown queued full : Put

pub record Chance : Type 0 where
  pub is_done : Bool
  pub pick : Bool

unfoldable pub select_put : Chance → Bool → Put
select_put c room =
    if c.is_done && (c.pick || not room) then shutdown else if room then queued else full

abbrev pub put_note : Put → NoteEvent → Processor → Processor
put_note shutdown n p = report (dropped note_shutdown) p
put_note queued n p = record p { note_queue = p.note_queue ++ (n ∷ []) }
put_note full n p = report (dropped note_full) p

unfoldable pub offer_note : Chance → NoteEvent → Processor → Processor
offer_note c n p = put_note (select_put c (ltb (length p.note_queue) p.note_capacity)) n p

-- Time.Sub, which stops at the greatest duration.
abbrev time_between : ℕ → ℕ → ℤ
time_between later earlier =
    if ltb (later - earlier) (2 ^ 63) then pos (later - earlier) else pos (2 ^ 63 - 1)

-- The time since the flow's packet before; no packet before has the zero time.
unfoldable pub inter_arrival : Event → ObserveResult → ℤ
inter_arrival e out =
    if not (out.previous_last_seen == 0) && ltb out.previous_last_seen e.captured_at
    then time_between e.captured_at out.previous_last_seen
    else pos 0

unfoldable pub input_of : Event → ObserveResult → Selection → MapInput
input_of e out sel = record {
  packet = e;
  sequence = out.flow.packets;
  inter_arrival = inter_arrival e out;
  channel = sel.channel;
  mode = sel.mode;
  root = sel.root;
}

abbrev pub report_expired : List Snapshot → Processor → Processor
report_expired [] p = p
report_expired (s ∷ ss) p = report (evicted_ttl (length (s ∷ ss))) p

abbrev pub report_evicted : Option Snapshot → Processor → Processor
report_evicted none p = p
report_evicted (some s) p = report evicted_capacity p

abbrev pub expire_flows : Event → Processor → Processor
expire_flows e p =
    let (r, expired) = expire p.registry e.captured_at in
    report_expired expired (record p { registry = r })

module _ (d : Digest) (level : ℕ → ℕ) where
  abbrev pub put_mapped : Chance → Processor → Result MapError NoteEvent → Processor
  put_mapped c p (ok n) = offer_note c n (report (mapped n) p)
  put_mapped c p (err x) = report (dropped conversion_error) (report mapping_failed p)

  unfoldable pub map_selected : Chance → Event → ObserveResult → Selection → Processor → Processor
  map_selected c e out sel p = put_mapped c p (map_packet d level p.mapper (input_of e out sel))

  abbrev pub with_selection :
      Chance → Event → ObserveResult → Processor → Result Error Selection → Processor
  with_selection c e out p (err x) = report (dropped evaluation_error) p
  with_selection c e out p (ok sel) =
      let told = report (selected sel.state sel.tier) p in
      if text_eq sel.state state_play then map_selected c e out sel told else told

  unfoldable pub route_observed : Chance → Overlay → Event → ObserveResult → Processor → Processor
  route_observed c o e out p = with_selection c e out p (evaluate d p.selector e o)

  abbrev pub with_observed :
      Chance
      → Overlay
      → Event
      → Processor
      → Result RegistryError (Registry × ObserveResult)
      → Processor
  with_observed c o e p (err x) = report (dropped invalid_packet) p
  with_observed c o e p (ok (r, out)) =
      route_observed c o e out
        (report (flow_count (len r)) (report_evicted out.evicted (record p { registry = r })))

  -- processPacket; `o` is what the overlay function returns.
  unfoldable pub process_packet : Chance → Overlay → Event → Processor → Processor
  process_packet c o e p =
      let q = expire_flows e p in report processed (with_observed c o e q (observe d q.registry e))

  abbrev pub process_from : Chance → Overlay → List Event → Processor → Processor
  process_from c o [] p = p
  process_from c o (e ∷ es) p = process_packet c o e (record p { packet_queue = es })

  -- One round of the loop of processPackets.
  unfoldable pub process_next : Chance → Overlay → Processor → Processor
  process_next c o p = process_from c o p.packet_queue p

abbrev pub put_packet : Put → Event → Processor → Processor
put_packet shutdown e p = report (dropped packet_shutdown) p
put_packet queued e p = record p { packet_queue = p.packet_queue ++ (e ∷ []) }
put_packet full e p = report (dropped packet_full) p

-- One round of the loop of `capture`.
unfoldable pub capture : Chance → Event → Processor → Processor
capture c e p =
    put_packet (select_put c (ltb (length p.packet_queue) p.packet_capacity)) e
      (report (packet_captured e) p)

abbrev pub discard_packet_from : List Event → Processor → Processor
discard_packet_from [] p = p
discard_packet_from (e ∷ es) p = report (dropped packet_shutdown) (record p { packet_queue = es })

-- One round of discardPackets.
unfoldable pub discard_packet : Processor → Processor
discard_packet p = discard_packet_from p.packet_queue p

abbrev pub write_from : Bool → List NoteEvent → Processor → Processor
write_from accepted [] p = p
write_from true (n ∷ ns) p = record p { note_queue = ns; written = n ∷ p.written }
write_from false (n ∷ ns) p =
    report (dropped write_error) (record p { note_queue = ns; written = n ∷ p.written })

-- One round of the loop of processNotes; `accepted` says whether the sink returned no error.
unfoldable pub write_next : Bool → Processor → Processor
write_next accepted p = write_from accepted p.note_queue p

abbrev pub discard_note_from : List NoteEvent → Processor → Processor
discard_note_from [] p = p
discard_note_from (n ∷ ns) p = report (dropped note_shutdown) (record p { note_queue = ns })

-- One round of discardNotes.
unfoldable pub discard_note : Processor → Processor
discard_note p = discard_note_from p.note_queue p
