-- ===== src/Pipeline/Playable.antt =====
-- internal/pipeline/processor.go with the registry, the selector and the mapper that it calls.
use go_musical_packets.Pipeline.Rounds.{
  discards_note, discards_packet, writes, processes, captures, run, Round, step,
}
use go_musical_packets.Pipeline.Books.{count}
use go_musical_packets.Flow.Registry.Lookup.{observe_ok-IsObservable, observe-IsRegistry}
use go_musical_packets.Flow.Registry.Expiry.{expire-Expired}
use go_musical_packets.Flow.Selector.Guarantees.{evaluate-IsSelection, IsSelection}
use go_musical_packets.Flow.Selector.Precedence.{evaluate-Routes}
use go_musical_packets.Packet.Laws.{IsValid}
use go_musical_packets.Flow.Registry.Invariant.{IsRegistry}
use go_musical_packets.Music.Note.{IsNote, NoteEvent}
use go_musical_packets.Music.Mapper.Total.{IsShort, map_packet_total, IsMapper}
use go_musical_packets.Packet.{Event}
use go_musical_packets.Flow.Key.{Digest}
use go_musical_packets.Flow.Registry.{len, expire, observe, Snapshot, ObserveResult, Registry}
use go_musical_packets.Music.Mapper.{map_packet, MapperConfig}
use go_musical_packets.Pipeline.{
  flow_count, invalid_packet, packet_captured, discard_note, evicted_capacity, discard_packet,
  processed, write_next, packet_full, report_evicted, full, process_next, evicted_ttl,
  report_expired, write_error, note_full, packet_shutdown, capture, expire_flows, put_packet,
  discard_note_from, discard_packet_from, process_packet, process_from, new, note_shutdown,
  write_from, with_observed, mapped, select_put, selected, queued, input_of, shutdown, put_note,
  offer_note, Chance, conversion_error, map_selected, route_observed, evaluation_error, report,
  mapping_failed, Put, Processor, dropped, Report,
}
use go_musical_packets.Flow.Selector.{
  Selector, state_play, Selection, Overlay, new_selector, SelectorConfig,
}
use go_musical_packets.Prelude.{
  none, Result-cases, some, to_ℕ, ℤ, ◌∙◌, Option, ◌++◌, ap, subst, ℕ, ◌<◌, ◌≡◌, refl, inl, inr,
  Bool, true, false, List, [], ◌∷◌, arith, ltb, if_cases, length, All, All-append, ok, text_eq,
}

-- The drops that a packet let through by the registry never meets.
abbrev pub is_fault : Report → Bool
is_fault (dropped evaluation_error) = true
is_fault (dropped conversion_error) = true
is_fault mapping_failed = true
is_fault _ = false

abbrev pub IsShortRound : Round → Type 0
IsShortRound (captures h e) = IsShort e
IsShortRound r = Unit

module _ (c : SelectorConfig) (m : MapperConfig) where
  pub record Sound (p : Processor) : Type 0 where
    pub well_formed : IsRegistry p.registry
    pub selector_built : new_selector c ≡ ok p.selector
    pub mapper_kept : p.mapper ≡ m
    pub queued_short : All IsShort p.packet_queue
    pub queued_playable : All IsNote p.note_queue
    pub written_playable : All IsNote p.written
    pub faultless : count is_fault p.reports ≡ 0

  -- A report that is no fault.
  report-Sound : (x : Report) (p : Processor) → is_fault x ≡ false → Sound p → Sound (report x p)
  report-Sound x p h v = record {
    well_formed = v.well_formed;
    selector_built = v.selector_built;
    mapper_kept = v.mapper_kept;
    queued_short = v.queued_short;
    queued_playable = v.queued_playable;
    written_playable = v.written_playable;
    faultless = ground (arith, h, v.faultless);
  }

  put_note-Sound :
      (x : Put) (n : NoteEvent) (p : Processor) → IsNote n → Sound p → Sound (put_note x n p)
  put_note-Sound shutdown n p h v = report-Sound (dropped note_shutdown) p refl v
  put_note-Sound queued n p h v = record {
    well_formed = v.well_formed;
    selector_built = v.selector_built;
    mapper_kept = v.mapper_kept;
    queued_short = v.queued_short;
    queued_playable = All-append IsNote p.note_queue (n ∷ []) v.queued_playable (h, tt);
    written_playable = v.written_playable;
    faultless = v.faultless;
  }
  put_note-Sound full n p h v = report-Sound (dropped note_full) p refl v

  registry-Sound :
      (r : Registry) (p : Processor) → IsRegistry r → Sound p → Sound (record p { registry = r })
  registry-Sound r p h v = record {
    well_formed = h;
    selector_built = v.selector_built;
    mapper_kept = v.mapper_kept;
    queued_short = v.queued_short;
    queued_playable = v.queued_playable;
    written_playable = v.written_playable;
    faultless = v.faultless;
  }

  packets-Sound :
      (es : List Event) (p : Processor)
      → All IsShort es
      → Sound p
      → Sound (record p { packet_queue = es })
  packets-Sound es p short v = record {
    well_formed = v.well_formed;
    selector_built = v.selector_built;
    mapper_kept = v.mapper_kept;
    queued_short = short;
    queued_playable = v.queued_playable;
    written_playable = v.written_playable;
    faultless = v.faultless;
  }

  module _ (d : Digest) (level : ℕ → ℕ) (mapper_valid : IsMapper m)
      (wide : m.minimum_note < m.maximum_note) where
    put_mapped-Sound :
        (h : Chance) (e : Event) (out : ObserveResult) (sel : Selection) (p : Processor)
        → IsValid e
        → IsShort e
        → IsSelection sel
        → Sound p
        → Sound (map_selected d level h e out sel p)
    unfolding map_selected offer_note input_of
    put_mapped-Sound h e out sel p valid short routed v =
        let (n, mapped_to, good) =
          map_packet_total d level m mapper_valid (input_of e out sel) wide valid short
            routed.channel_low routed.channel_high
            (λ g. (routed.mode_known g, routed.root_range)) in
        rw (ap (λ k. map_packet d level k (input_of e out sel)) v.mapper_kept ∙ mapped_to) (
          put_note-Sound (select_put h (ltb (length p.note_queue) p.note_capacity)) n
            (report (mapped n) p) good.playable (report-Sound (mapped n) p refl v))

    route_observed-Sound :
        (h : Chance) (o : Overlay) (e : Event) (out : ObserveResult) (p : Processor)
        → IsValid e
        → IsShort e
        → Sound p
        → Sound (route_observed d level h o e out p)
    unfolding route_observed
    route_observed-Sound h o e out p valid short v = elim (evaluate-Routes d p.selector e o) [
      | inr (x, _, refused) ↦ absurd (refused valid)
      | inl (sel, decided, _, _) ↦
          let told = report (selected sel.state sel.tier) p in
          let heard = report-Sound (selected sel.state sel.tier) p refl v in
          rw (decided) (
            if_cases Sound (text_eq sel.state state_play) (map_selected d level h e out sel told)
              told
              (λ _.
                put_mapped-Sound h e out sel told valid short
                  (evaluate-IsSelection d c p.selector v.selector_built e o sel decided) heard)
              (λ _. heard))
    ]

    with_observed-Sound :
        (h : Chance) (o : Overlay) (e : Event) (p : Processor)
        → IsShort e
        → Sound p
        → Sound (with_observed d level h o e p (observe d p.registry e))
    with_observed-Sound h o e p short v =
        let (taken, refused) = observe-IsRegistry d p.registry e v.well_formed in
        elim (Result-cases (observe d p.registry e)) [
          | inr (x, k) ↦ rw (k) (report-Sound (dropped invalid_packet) p refl v)
          | inl (out, k) ↦
              let q =
                report (flow_count (len out.0))
                  (report_evicted out.1.evicted (record p { registry = out.0 })) in
              let ok_event = observe_ok-IsObservable d p.registry e out k in
              rw (k) (
                route_observed-Sound h o e out.1 q ok_event.0 short (
                  report-Sound (flow_count (len out.0))
                    (report_evicted out.1.evicted (record p { registry = out.0 })) refl
                    (evicted-Sound out.1.evicted out.0 p (observe_ok-kept out k (taken ok_event))
                      v)))
        ]
      where
        observe_ok-kept :
            (out : Registry × ObserveResult)
            → observe d p.registry e ≡ ok out
            → (out' : Registry × ObserveResult) × (observe d p.registry e ≡ ok out')
              × IsRegistry out'.0
            → IsRegistry out.0
        observe_ok-kept out k (out', k', g) =
            let same : out'.0 ≡ out.0 = ground (arith, k, k') in subst IsRegistry same g

        evicted-Sound :
            (x : Option Snapshot) (r : Registry) (p' : Processor)
            → IsRegistry r
            → Sound p'
            → Sound (report_evicted x (record p' { registry = r }))
        evicted-Sound none r p' g w = registry-Sound r p' g w
        evicted-Sound (some s) r p' g w =
            report-Sound evicted_capacity (record p' { registry = r }) refl
              (registry-Sound r p' g w)

    expired-Sound : (ss : List Snapshot) (p : Processor) → Sound p → Sound (report_expired ss p)
    expired-Sound [] p v = v
    expired-Sound (s ∷ ss) p v = report-Sound (evicted_ttl (length (s ∷ ss))) p refl v

    process_packet-Sound :
        (h : Chance) (o : Overlay) (e : Event) (p : Processor)
        → IsShort e
        → Sound p
        → Sound (process_packet d level h o e p)
    unfolding process_packet
    process_packet-Sound h o e p short v =
        let q = expire_flows e p in
        let (r, expired) = expire p.registry e.captured_at in
        report-Sound processed (with_observed d level h o e q (observe d q.registry e)) refl (
          with_observed-Sound h o e q short (
            expired-Sound expired (record p { registry = r })
              (registry-Sound r p (expire-Expired p.registry e.captured_at v.well_formed).keeps v)))

    process_from-Sound :
        (h : Chance) (o : Overlay) (es : List Event) (p : Processor)
        → All IsShort es
        → Sound p
        → Sound (process_from d level h o es p)
    process_from-Sound h o [] p short v = v
    process_from-Sound h o (e ∷ es) p short v =
        process_packet-Sound h o e (record p { packet_queue = es }) short.0
          (packets-Sound es p short.1 v)

  put_packet-Sound :
      (x : Put) (e : Event) (p : Processor) → IsShort e → Sound p → Sound (put_packet x e p)
  put_packet-Sound shutdown e p h v = report-Sound (dropped packet_shutdown) p refl v
  put_packet-Sound queued e p h v =
      packets-Sound (p.packet_queue ++ (e ∷ [])) p
        (All-append IsShort p.packet_queue (e ∷ []) v.queued_short (h, tt)) v
  put_packet-Sound full e p h v = report-Sound (dropped packet_full) p refl v

  discard_packet_from-Sound :
      (es : List Event) (p : Processor)
      → All IsShort es
      → Sound p
      → Sound (discard_packet_from es p)
  discard_packet_from-Sound [] p short v = v
  discard_packet_from-Sound (e ∷ es) p short v =
      report-Sound (dropped packet_shutdown) (record p { packet_queue = es }) refl
        (packets-Sound es p short.1 v)

  -- The sink gets the first note of the queue.
  taken-Sound :
      (n : NoteEvent) (ns : List NoteEvent) (p : Processor)
      → p.note_queue ≡ n ∷ ns
      → Sound p
      → Sound (record p { note_queue = ns; written = n ∷ p.written })
  taken-Sound n ns p h v =
      let (first, rest) = subst (All IsNote) h v.queued_playable in
      record {
        well_formed = v.well_formed;
        selector_built = v.selector_built;
        mapper_kept = v.mapper_kept;
        queued_short = v.queued_short;
        queued_playable = rest;
        written_playable = (first, v.written_playable);
        faultless = v.faultless;
      }

  write_from-Sound :
      (accepted : Bool) (ns : List NoteEvent) (p : Processor)
      → p.note_queue ≡ ns
      → Sound p
      → Sound (write_from accepted ns p)
  write_from-Sound accepted [] p h v = v
  write_from-Sound true (n ∷ ns) p h v = taken-Sound n ns p h v
  write_from-Sound false (n ∷ ns) p h v =
      report-Sound (dropped write_error) (record p { note_queue = ns; written = n ∷ p.written })
        refl (taken-Sound n ns p h v)

  discard_note_from-Sound :
      (ns : List NoteEvent) (p : Processor)
      → p.note_queue ≡ ns
      → Sound p
      → Sound (discard_note_from ns p)
  discard_note_from-Sound [] p h v = v
  discard_note_from-Sound (n ∷ ns) p h v =
      report-Sound (dropped note_shutdown) (record p { note_queue = ns }) refl
        (record {
          well_formed = v.well_formed;
          selector_built = v.selector_built;
          mapper_kept = v.mapper_kept;
          queued_short = v.queued_short;
          queued_playable = (subst (All IsNote) h v.queued_playable).1;
          written_playable = v.written_playable;
          faultless = v.faultless;
        })

  module _ (d : Digest) (level : ℕ → ℕ) (mapper_valid : IsMapper m)
      (wide : m.minimum_note < m.maximum_note) where
    step-Sound : (r : Round) (p : Processor) → IsShortRound r → Sound p → Sound (step d level r p)
    unfolding step capture process_next write_next discard_packet discard_note
    step-Sound (captures h e) p short v =
        put_packet-Sound (select_put h (ltb (length p.packet_queue) p.packet_capacity)) e
          (report (packet_captured e) p) short (report-Sound (packet_captured e) p refl v)
    step-Sound (processes h o) p short v =
        process_from-Sound d level mapper_valid wide h o p.packet_queue p v.queued_short v
    step-Sound (writes accepted) p short v = write_from-Sound accepted p.note_queue p refl v
    step-Sound discards_packet p short v =
        discard_packet_from-Sound p.packet_queue p v.queued_short v
    step-Sound discards_note p short v = discard_note_from-Sound p.note_queue p refl v

    run_from-Sound :
        (rs : List Round) (p : Processor) → All IsShortRound rs → Sound p → Sound (run d level rs p)
    unfolding run
    run_from-Sound [] p short v = v
    run_from-Sound (r ∷ rs) p short v =
        run_from-Sound rs (step d level r p) short.1 (step-Sound r p short.0 v)

-- Over any history of rounds of a pipeline whose registry is well formed, whose selector NewSelector
-- built and whose valid mapper has a range of two notes or more, and whose captured packets all have
-- a wire length of less than 2 ^ 62: no packet fails at the selector or
-- at the mapper, every note that is queued or was given to the sink is playable, and the registry
-- stays well formed.
pub run-Sound :
    (d : Digest) (level : ℕ → ℕ) (c : SelectorConfig) (r : Registry) (s : Selector)
    (m : MapperConfig) (packets notes : ℤ) (p : Processor) (rs : List Round)
    → IsRegistry r
    → new_selector c ≡ ok s
    → IsMapper m
    → m.minimum_note < m.maximum_note
    → All IsShortRound rs
    → new r s m packets notes ≡ ok p
    → Sound c m (run d level rs p)
unfolding new
run-Sound d level c r s m packets notes p rs v built valid wide short h =
    run_from-Sound c m d level valid wide rs p short
      (subst (Sound c m) (ground (arith, h)) (empty-Sound (to_ℕ packets) (to_ℕ notes)))
  where
    empty-Sound :
        (a b : ℕ)
        → Sound c m (record {
          registry = r;
          selector = s;
          mapper = m;
          packet_capacity = a;
          note_capacity = b;
          packet_queue = [];
          note_queue = [];
          written = [];
          reports = [];
        })
    empty-Sound a b = record {
      well_formed = v;
      selector_built = built;
      mapper_kept = refl;
      queued_short = tt;
      queued_playable = tt;
      written_playable = tt;
      faultless = refl;
    }
