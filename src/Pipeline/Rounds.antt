-- ===== src/Pipeline/Rounds.antt =====
-- The rounds of the pipeline, in any order.

use go_musical_packets.Packet.{Event}
use go_musical_packets.Flow.Key.{Digest}
use go_musical_packets.Flow.Selector.{Overlay}
use go_musical_packets.Pipeline.{
  discard_note, discard_packet, write_next, process_next, capture, Chance, Processor,
}
use go_musical_packets.Prelude.{ℕ, Bool, List, [], ◌∷◌}

-- A round of one of the three goroutines; nothing is assumed about their order.
pub data Round : Type 0 where
  captures : Chance → Event → Round
  processes : Chance → Overlay → Round
  writes : Bool → Round
  discards_packet discards_note : Round

module _ (d : Digest) (level : ℕ → ℕ) where
  unfoldable pub step : Round → Processor → Processor
  step (captures c e) p = capture c e p
  step (processes c o) p = process_next d level c o p
  step (writes accepted) p = write_next accepted p
  step discards_packet p = discard_packet p
  step discards_note p = discard_note p

  unfoldable pub run : List Round → Processor → Processor
  run [] p = p
  run (r ∷ rs) p = run rs (step r p)
