-- ===== src/Pipeline/Accounts.antt =====
-- The counts of packets and notes in internal/pipeline/processor.go.
use go_musical_packets.Pipeline.Books.{
  discard_note_from-Balance, discard_packet_from-Balance, write_from-Balance, process_from-Balance,
  capture-Balance, Balance,
}
use go_musical_packets.Pipeline.Rounds.{
  discards_note, discards_packet, writes, processes, captures, step, Round, run,
}
use go_musical_packets.Flow.Registry.{Registry}
use go_musical_packets.Music.Mapper.{MapperConfig}
use go_musical_packets.Flow.Key.{Digest}
use go_musical_packets.Flow.Selector.{Selector}
use go_musical_packets.Pipeline.{
  discard_note, discard_packet, write_next, new, process_next, Processor,
}
use go_musical_packets.Prelude.{to_ℕ, subst, ℤ, ok, ℕ, ◌≡◌, refl, List, [], ◌∷◌, arith}

module _ (d : Digest) (level : ℕ → ℕ) where
  step-Balance : (r : Round) (p : Processor) → Balance 0 0 p → Balance 0 0 (step d level r p)
  unfolding step process_next write_next discard_packet discard_note
  step-Balance (captures c e) p b = capture-Balance c e p b
  step-Balance (processes c o) p b = process_from-Balance d level c o p.packet_queue p refl b
  step-Balance (writes accepted) p b = write_from-Balance accepted p.note_queue p refl b
  step-Balance discards_packet p b = discard_packet_from-Balance p.packet_queue p refl b
  step-Balance discards_note p b = discard_note_from-Balance p.note_queue p refl b

  run_from-Balance :
      (rs : List Round) (p : Processor) → Balance 0 0 p → Balance 0 0 (run d level rs p)
  unfolding run
  run_from-Balance [] p b = b
  run_from-Balance (r ∷ rs) p b = run_from-Balance rs (step d level r p) (step-Balance r p b)

  -- Over any history of rounds, every packet captured is waiting, was dropped at the queue, or was
  -- processed; every packet processed gave one note or was told to give none; every note is waiting,
  -- was dropped at the queue, or was given to the sink. Neither queue exceeds its capacity.
  pub run-Balance :
      (r : Registry) (s : Selector) (m : MapperConfig) (packets notes : ℤ) (p : Processor)
      (rs : List Round)
      → new r s m packets notes ≡ ok p
      → Balance 0 0 (run d level rs p)
  unfolding new
  run-Balance r s m packets notes p rs h =
      run_from-Balance rs p
        (subst (Balance 0 0) (ground (arith, h)) (empty-Balance (to_ℕ packets) (to_ℕ notes)))
    where
      empty-Balance :
          (a b : ℕ)
          → Balance 0 0 (record {
            registry = r;
            selector = s;
            mapper = m;
            packet_capacity = a;
            note_capacity = b;
            packet_queue = [];
            note_queue = [];
            written = [];
            reports = [];
          })
      empty-Balance a b = ground arith
