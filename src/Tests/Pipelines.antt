-- ===== src/Tests/Pipelines.antt =====
-- The theorems on the pipeline at concrete inputs.
use go_musical_packets.Pipeline.Accounts.{run-Balance}
use go_musical_packets.Pipeline.Rounds.{discards_packet, writes, processes, captures, Round, run}
use go_musical_packets.Pipeline.Books.{Balance}
use go_musical_packets.Tests.Samples.{
  mapper-IsMapper, playing_built, no_overlay, full-IsRegistry, level, mapper, syn_packet,
  second_packet, playing, toy, full,
}
use go_musical_packets.Prelude.{◌≡◌, refl, false, List, [], ◌∷◌, arith, ok, pos}
use go_musical_packets.Pipeline.{Processor, new, Chance}
use go_musical_packets.Pipeline.Playable.{run-Sound, Sound}
use go_musical_packets.Flow.Selector.Rules.{of_config}

abbrev small : Processor
small = record {
  registry = full;
  selector = of_config playing;
  mapper = mapper;
  packet_capacity = 1;
  note_capacity = 1;
  packet_queue = [];
  note_queue = [];
  written = [];
  reports = [];
}

small_built : new full (of_config playing) mapper (pos 1) (pos 1) ≡ ok small
unfolding new
small_built = refl

abbrev running : Chance
running = record { is_done = false; pick = false }

-- The second packet finds the queue full; the first one is played.
abbrev burst : List Round
burst =
    captures running second_packet
    ∷ captures running syn_packet
    ∷ processes running no_overlay
    ∷ writes false
    ∷ discards_packet
    ∷ []

run-Balance_example : Balance 0 0 (run toy level burst small)
run-Balance_example =
    run-Balance toy level full (of_config playing) mapper (pos 1) (pos 1) small burst small_built

run-Sound_example : Sound playing mapper (run toy level burst small)
run-Sound_example =
    run-Sound toy level playing full (of_config playing) mapper (pos 1) (pos 1) small burst
      full-IsRegistry playing_built mapper-IsMapper (omega arith)
      (omega arith, (omega arith, (tt, (tt, (tt, tt))))) small_built
