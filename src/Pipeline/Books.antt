-- ===== src/Pipeline/Books.antt =====
-- The books of the pipeline, stage by stage.
use go_musical_packets.Flow.Registry.{
  expire, observe, len, Snapshot, Registry, ObserveResult, RegistryError,
}
use go_musical_packets.Music.Mapper.{map_packet, MapError}
use go_musical_packets.Packet.{Error, Event}
use go_musical_packets.Flow.Key.{Digest}
use go_musical_packets.Flow.Selector.{evaluate, Selection, Overlay, state_play}
use go_musical_packets.Pipeline.{
  expire_flows, capture, discard_packet_from, discard_note_from, write_from, process_from,
  process_packet, put_packet, report_expired, report_evicted, input_of, flow_count, with_selection,
  with_observed, put_mapped, map_selected, route_observed, full, conversion_error, evaluation_error,
  invalid_packet, shutdown, packet_full, note_full, packet_shutdown, note_shutdown, selected,
  put_note, mapped, Chance, report, processed, packet_captured, queued, dropped, Processor,
  offer_note, Report, select_put, Put,
}
use go_musical_packets.Music.Note.{NoteEvent}
use go_musical_packets.Prelude.{
  ap, none, some, if_cases, Option, err, ok, Result, ℕ, suc, ◌+◌, ◌≤◌, ◌<◌, ◌≡◌, refl, Bool, true,
  false, not, List, [], ◌∷◌, arith, ltb, if◌then◌else◌, ltb→lt, length, length-append, text_eq,
}

abbrev pub count : (Report → Bool) → List Report → ℕ
count f [] = 0
count f (x ∷ xs) = (if f x then 1 else 0) + count f xs

abbrev pub is_captured : Report → Bool
is_captured (packet_captured e) = true
is_captured _ = false

abbrev pub is_processed : Report → Bool
is_processed processed = true
is_processed _ = false

abbrev pub is_packet_drop : Report → Bool
is_packet_drop (dropped packet_shutdown) = true
is_packet_drop (dropped packet_full) = true
is_packet_drop _ = false

-- The packets that were processed and gave no note.
abbrev pub is_unplayed : Report → Bool
is_unplayed (dropped invalid_packet) = true
is_unplayed (dropped evaluation_error) = true
is_unplayed (dropped conversion_error) = true
is_unplayed (selected s t) = not (text_eq s state_play)
is_unplayed _ = false

abbrev pub is_mapped : Report → Bool
is_mapped (mapped n) = true
is_mapped _ = false

abbrev pub is_note_drop : Report → Bool
is_note_drop (dropped note_shutdown) = true
is_note_drop (dropped note_full) = true
is_note_drop _ = false

-- The books with `underway` packets in processing and `loose` notes between the mapper and the queue.
pub record Balance (underway loose : ℕ) (p : Processor) : Type 0 where
  pub packets :
      count is_captured p.reports
      ≡ length p.packet_queue
        + count is_packet_drop p.reports
        + count is_processed p.reports
        + underway
  pub outcomes :
      count is_processed p.reports + underway
      ≡ count is_unplayed p.reports + count is_mapped p.reports
  pub notes :
      count is_mapped p.reports
      ≡ length p.note_queue + count is_note_drop p.reports + length p.written + loose
  pub packet_bound : length p.packet_queue ≤ p.packet_capacity
  pub note_bound : length p.note_queue ≤ p.note_capacity

-- The same books while the outcome of the packet in processing is not told yet.
pub record Pending (p : Processor) : Type 0 where
  pub packets :
      count is_captured p.reports
      ≡ length p.packet_queue + count is_packet_drop p.reports + suc (count is_processed p.reports)
  pub outcomes :
      count is_processed p.reports ≡ count is_unplayed p.reports + count is_mapped p.reports
  pub notes :
      count is_mapped p.reports
      ≡ length p.note_queue + count is_note_drop p.reports + length p.written
  pub packet_bound : length p.packet_queue ≤ p.packet_capacity
  pub note_bound : length p.note_queue ≤ p.note_capacity

select-queued : (c : Chance) (room : Bool) → select_put c room ≡ queued → room ≡ true
unfolding select_put
select-queued c true h = refl
select-queued c false h = ground (arith, h)

put_note-Balance :
    (x : Put) (n : NoteEvent) (p : Processor)
    → (x ≡ queued → length p.note_queue < p.note_capacity)
    → Balance 1 1 p
    → Balance 1 0 (put_note x n p)
put_note-Balance shutdown n p h b = ground (arith, b.packets, b.outcomes, b.notes)
put_note-Balance queued n p h b =
    ground (arith, b.packets, b.outcomes, b.notes, h refl, length-append p.note_queue (n ∷ []))
put_note-Balance full n p h b = ground (arith, b.packets, b.outcomes, b.notes)

offer_note-Balance :
    (c : Chance) (n : NoteEvent) (p : Processor) → Balance 1 1 p → Balance 1 0 (offer_note c n p)
unfolding offer_note
offer_note-Balance c n p b =
    put_note-Balance (select_put c (ltb (length p.note_queue) p.note_capacity)) n p
      (λ h. ltb→lt _ _ (select-queued c (ltb (length p.note_queue) p.note_capacity) h)) b

mapped-Balance : (n : NoteEvent) (p : Processor) → Pending p → Balance 1 1 (report (mapped n) p)
mapped-Balance n p b = ground (arith, b.packets, b.outcomes, b.notes)

module _ (d : Digest) (level : ℕ → ℕ) where
  put_mapped-Balance :
      (c : Chance) (p : Processor) (x : Result MapError NoteEvent)
      → Pending p
      → Balance 1 0 (put_mapped d level c p x)
  put_mapped-Balance c p (ok n) b =
      offer_note-Balance c n (report (mapped n) p) (mapped-Balance n p b)
  put_mapped-Balance c p (err x) b = ground (arith, b.packets, b.outcomes, b.notes)

  with_selection-Balance :
      (c : Chance) (e : Event) (out : ObserveResult) (p : Processor) (x : Result Error Selection)
      → Pending p
      → Balance 1 0 (with_selection d level c e out p x)
  unfolding map_selected
  with_selection-Balance c e out p (err x) b = ground (arith, b.packets, b.outcomes, b.notes)
  with_selection-Balance c e out p (ok sel) b =
      let told = report (selected sel.state sel.tier) p in
      if_cases (Balance 1 0) (text_eq sel.state state_play) (map_selected d level c e out sel told)
        told
        (λ h.
          put_mapped-Balance c told (map_packet d level p.mapper (input_of e out sel))
            (selected-Pending h))
        (λ h. ground (arith, h, b.packets, b.outcomes, b.notes))
    where
      selected-Pending :
          text_eq sel.state state_play ≡ true → Pending (report (selected sel.state sel.tier) p)
      selected-Pending h = ground (arith, h, b.packets, b.outcomes, b.notes)

  with_observed-Balance :
      (c : Chance) (o : Overlay) (e : Event) (p : Processor)
      (x : Result RegistryError (Registry × ObserveResult))
      → Pending p
      → Balance 1 0 (with_observed d level c o e p x)
  unfolding route_observed
  with_observed-Balance c o e p (err x) b = ground (arith, b.packets, b.outcomes, b.notes)
  with_observed-Balance c o e p (ok (r, out)) b =
      let told =
        report (flow_count (len r)) (report_evicted out.evicted (record p { registry = r })) in
      with_selection-Balance c e out told (evaluate d told.selector e o)
        (evicted-Pending out.evicted)
    where
      evicted-Pending :
          (x : Option Snapshot)
          → Pending (report (flow_count (len r)) (report_evicted x (record p { registry = r })))
      evicted-Pending none = ground (arith, b.packets, b.outcomes, b.notes)
      evicted-Pending (some s) = ground (arith, b.packets, b.outcomes, b.notes)

  expired-Pending :
      (ss : List Snapshot) (r : Registry) (p : Processor)
      → Pending p
      → Pending (report_expired ss (record p { registry = r }))
  expired-Pending [] r p b = ground (arith, b.packets, b.outcomes, b.notes)
  expired-Pending (s ∷ ss) r p b = ground (arith, b.packets, b.outcomes, b.notes)

  processed-Balance : (p : Processor) → Balance 1 0 p → Balance 0 0 (report processed p)
  processed-Balance p b = ground (arith, b.packets, b.outcomes, b.notes)

  process_packet-Balance :
      (c : Chance) (o : Overlay) (e : Event) (p : Processor)
      → Pending p
      → Balance 0 0 (process_packet d level c o e p)
  unfolding process_packet
  process_packet-Balance c o e p b =
      let q = expire_flows e p in
      processed-Balance (with_observed d level c o e q (observe d q.registry e)) (
        with_observed-Balance c o e q (observe d q.registry e) (
          expired-Pending (expire p.registry e.captured_at).1 (expire p.registry e.captured_at).0 p
            b))

  pub process_from-Balance :
      (c : Chance) (o : Overlay) (es : List Event) (p : Processor)
      → p.packet_queue ≡ es
      → Balance 0 0 p
      → Balance 0 0 (process_from d level c o es p)
  process_from-Balance c o [] p h b = b
  process_from-Balance c o (e ∷ es) p h b =
      process_packet-Balance c o e (record p { packet_queue = es }) (taken-Pending (ap length h))
    where
      taken-Pending :
          length p.packet_queue ≡ suc (length es) → Pending (record p { packet_queue = es })
      taken-Pending k = ground (arith, k, b.packets, b.outcomes, b.notes)

put_packet-Balance :
    (x : Put) (e : Event) (p : Processor)
    → (x ≡ queued → length p.packet_queue < p.packet_capacity)
    → Balance 0 0 p
    → Balance 0 0 (put_packet x e (report (packet_captured e) p))
put_packet-Balance shutdown e p h b = ground (arith, b.packets, b.outcomes, b.notes)
put_packet-Balance queued e p h b =
    ground (arith, b.packets, b.outcomes, b.notes, h refl, length-append p.packet_queue (e ∷ []))
put_packet-Balance full e p h b = ground (arith, b.packets, b.outcomes, b.notes)

pub capture-Balance :
    (c : Chance) (e : Event) (p : Processor) → Balance 0 0 p → Balance 0 0 (capture c e p)
unfolding capture
capture-Balance c e p b =
    let room = ltb (length p.packet_queue) p.packet_capacity in
    put_packet-Balance (select_put c room) e p (λ h. ltb→lt _ _ (select-queued c room h)) b

pub discard_packet_from-Balance :
    (es : List Event) (p : Processor)
    → length p.packet_queue ≡ length es
    → Balance 0 0 p
    → Balance 0 0 (discard_packet_from es p)
discard_packet_from-Balance [] p h b = b
discard_packet_from-Balance (e ∷ es) p h b = ground (arith, h, b.packets, b.outcomes, b.notes)

pub write_from-Balance :
    (accepted : Bool) (ns : List NoteEvent) (p : Processor)
    → length p.note_queue ≡ length ns
    → Balance 0 0 p
    → Balance 0 0 (write_from accepted ns p)
write_from-Balance accepted [] p h b = b
write_from-Balance true (n ∷ ns) p h b = ground (arith, h, b.packets, b.outcomes, b.notes)
write_from-Balance false (n ∷ ns) p h b = ground (arith, h, b.packets, b.outcomes, b.notes)

pub discard_note_from-Balance :
    (ns : List NoteEvent) (p : Processor)
    → length p.note_queue ≡ length ns
    → Balance 0 0 p
    → Balance 0 0 (discard_note_from ns p)
discard_note_from-Balance [] p h b = b
discard_note_from-Balance (n ∷ ns) p h b = ground (arith, h, b.packets, b.outcomes, b.notes)
