-- ===== src/Tests/Notes.antt =====
-- The theorems on modes, the mapper, MIDI messages and the scheduler at concrete inputs.
use go_musical_packets.Midi.Message.Devices.{select_device_order, Unnamed, IsSelected}
use go_musical_packets.Hex.{IsHexChar}
use go_musical_packets.Midi.Scheduler.Device.{scheduler_owns_notes, quiet, reliable}
use go_musical_packets.Music.Mode.Laws.{parse_mode_iff, interval_scale}
use go_musical_packets.Midi.Message.{
  pattern_invalid, no_output_devices, select_device, Device, all_notes_off, note_off, note_on,
}
use go_musical_packets.Music.Mapper.Scale.{scale_notes_iff, IsInMode}
use go_musical_packets.Music.Identity.{identity_for_flow_id_iff, identity_for_flow_id}
use go_musical_packets.Midi.Message.Laws.{messages_received, silence, off, on, receive, IsKey}
use go_musical_packets.Midi.Scheduler.Limits.{Call, run, panics, fires, scheduler_limits, writes}
use go_musical_packets.Midi.Scheduler.Keeps.{IsScheduler}
use go_musical_packets.Midi.Scheduler.{close, panic, find_active, live, unavailable, Outcome}
use go_musical_packets.Music.Mapper.Duration.{Clamped, quantized_duration_bounds}
use go_musical_packets.Music.Mapper.Total.{map_packet-IsMapped, map_packet_total, IsMapped}
use go_musical_packets.Music.Mapper.{quantum, quantized_duration, scale_notes, map_packet}
use go_musical_packets.Prelude.{
  ◌≢◌, none, err, ◌⊎◌, text_eq, if◌then◌else◌, Bool, Option, ℕ, suc, ◌+◌, ◌*◌, ◌/◌, ◌%◌, ◌^◌, ◌≤◌,
  ◌<◌, ◌≡◌, refl, ◌↔◌, true, false, some, List, [], ◌∷◌, arith, is_some, length, get_or, All, ok,
  pos, leb_ℤ, Text, codes,
}
use go_musical_packets.Music.Mode.{mode_string, mode_count, interval, parse_mode}
use go_musical_packets.Music.Note.{NoteEvent}
use go_musical_packets.Tests.Samples.{
  syn_packet-IsValid, limits_built, mapper-IsMapper, limits, map_input, mapper, idle, toy, note,
  level,
}

parse_mode_iff_example :
    (parse_mode (codes "lydian") ≡ some 3) ↔ ((3 < mode_count) × (mode_string 3 ≡ codes "lydian"))
parse_mode_iff_example = parse_mode_iff (codes "lydian") 3

interval_scale_example :
    (a : ℕ) × (b : ℕ) × (interval 1 (pos 8) ≡ ok (pos a))
    × (interval 1 (pos 9) ≡ ok (pos b))
    × (a < b)
    × (interval 1 (pos (8 + 7)) ≡ ok (pos (a + 12)))
interval_scale_example = interval_scale 1 8 (omega arith) (omega arith)

identity_for_flow_id_iff_example :
    (is_some (identity_for_flow_id toy (codes "0123456789abcdef01234567")) ≡ true) ↔ (
      All IsHexChar (codes "0123456789abcdef01234567")
      × (length (codes "0123456789abcdef01234567") ≡ 24))
identity_for_flow_id_iff_example = identity_for_flow_id_iff toy (codes "0123456789abcdef01234567")

scale_notes_iff_example :
    ((x : ℕ)
      → ((i : ℕ) × (i < length (scale_notes 1 2 36 96)) × (get_or (scale_notes 1 2 36 96) i 0 ≡ x))
        ↔ ((36 ≤ x) × (x ≤ 96) × IsInMode 1 2 x))
    × ((i : ℕ)
        → suc i < length (scale_notes 1 2 36 96)
        → get_or (scale_notes 1 2 36 96) i 0 < get_or (scale_notes 1 2 36 96) (suc i) 0)
scale_notes_iff_example = scale_notes_iff 1 2 36 96 (omega arith)

quantized_duration_bounds_example :
    let q = quantized_duration (pos 123000000) (pos 50000000) (pos 2000000000) in
    (leb_ℤ (pos 50000000) q ≡ true)
    × (leb_ℤ q (pos 2000000000) ≡ true)
    × ((n : ℕ)
        → pos 123000000 ≡ pos n
        → 0 < n
        → n + quantum / 2 < 2 ^ 63
        → (m : ℕ) × Clamped (pos m) (pos 50000000) (pos 2000000000) q
          × (m % quantum ≡ 0)
          × (2 * n ≤ 2 * m + quantum)
          × (2 * m ≤ 2 * n + quantum))
quantized_duration_bounds_example =
    quantized_duration_bounds (pos 123000000) (pos 50000000) (pos 2000000000) refl

map_packet_total_example :
    (n : NoteEvent) × (map_packet toy level mapper map_input ≡ ok n)
    × IsMapped toy mapper map_input n
map_packet_total_example =
    map_packet_total toy level mapper mapper-IsMapper map_input (omega arith) syn_packet-IsValid
      (omega arith) (omega arith) (omega arith) (λ h. absurd (cc))

-- What the sample maps to.
mapped :
    (n : NoteEvent) × (map_packet toy level mapper map_input ≡ ok n)
    × IsMapped toy mapper map_input n
mapped =
    map_packet_total toy level mapper mapper-IsMapper map_input (omega arith) syn_packet-IsValid
      (omega arith) (omega arith) (omega arith) (λ h. absurd (cc))

map_packet-IsMapped_example : IsMapped toy mapper map_input mapped.0
map_packet-IsMapped_example =
    map_packet-IsMapped toy level mapper mapper-IsMapper map_input mapped.0 mapped.1

messages_received_example :
    ((IsKey 3 62 × (1 ≤ 100) × (100 ≤ 127))
      ↔ ((m : Text) × (note_on 3 62 100 ≡ ok m) × (receive m ≡ some (on 3 62 100))))
    × (IsKey 3 62 ↔ ((m : Text) × (note_off 3 62 ≡ ok m) × (receive m ≡ some (off 3 62))))
    × (((1 ≤ 3) × (3 ≤ 16))
        ↔ ((m : Text) × (all_notes_off 3 ≡ ok m) × (receive m ≡ some (silence 3))))
messages_received_example = messages_received 3 62 100

-- A note, its timer, the note again too soon, and a panic.
abbrev short_history : List Call
short_history =
    writes live 100 note ∷ fires 3 62 1 ∷ writes live 200 note ∷ writes live 205 note ∷ panics ∷ []

-- A sender that never has an output.
abbrev unplugged : ℕ → Text → ℕ × Outcome
unplugged n m = (suc n, unavailable)

scheduler_limits_example : IsScheduler (run unplugged short_history (idle, 0)).0
scheduler_limits_example = scheduler_limits unplugged limits idle short_history 0 limits_built

scheduler_owns_notes_example :
    let w = run reliable short_history (idle, quiet) in
    ((ch n : ℕ) → w.1 ch n ≡ is_some (find_active ch n w.0.active))
    × ((ch n : ℕ) → (panic reliable w).1 ch n ≡ false)
    × ((ch n : ℕ) → (close reliable w).1 ch n ≡ false)
scheduler_owns_notes_example = scheduler_owns_notes limits idle short_history limits_built

-- A pattern engine that knows one pattern, which every name matches.
abbrev star : Text → Option (Text → Bool)
star pattern = if text_eq pattern (codes "*") then some (λ n. true) else none

abbrev two_devices : List Device
two_devices =
    record { number = 0; name = codes "piano" } ∷ record { number = 1; name = codes "organ" } ∷ []

select_device_order_example :
    ((d : Device) × (select_device star two_devices (codes "organ") (codes "*") ≡ ok d)
      × IsSelected star two_devices (codes "organ") (codes "*") d)
    ⊎ ((select_device star two_devices (codes "organ") (codes "*") ≡ err no_output_devices)
        × (two_devices ≡ []))
    ⊎ ((select_device star two_devices (codes "organ") (codes "*") ≡ err pattern_invalid)
        × (codes "*" ≢ [])
        × (star (codes "*") ≡ none)
        × Unnamed (codes "organ") two_devices)
select_device_order_example = select_device_order star two_devices (codes "organ") (codes "*")
