-- ===== src/Music/Mapper.antt =====
-- internal/music/mapper.go: the flow-mode-v1 conversion of a packet into a note.
pub mod Scale
pub mod Duration
pub mod Total
use go_musical_packets.Decimal.{decimal}
use go_musical_packets.Prelude.{
  ℕ, zero, suc, ◌+◌, ◌-◌, ◌*◌, ◌/◌, ◌%◌, ◌^◌, ◌≤◌, ◌<◌, bit_and, bit_or, ◌≡◌, refl, sym, ap, ◌∙◌,
  subst, ◌≢◌, ◌↔◌, ◌⊎◌, inl, inr, Bool, true, false, not, ◌&&◌, ◌||◌, Option, none, some, List, [],
  ◌∷◌, ◌++◌, map, arith, ltb, leb, ◌==◌, if◌then◌else◌, Bool-cases, Option-cases, is_some, ltb→lt,
  lt→ltb, leb→le, ==_iff, length, get_elem?, get_or, take, drop, length-append, All, All-append,
  Result, ok, err, ◌>>=◌, ◌>>◌, refuse_if, map_err, Result-cases, ℤ, pos, negsuc, ltb_ℤ, leb_ℤ,
  to_int64, to_ℕ, Text, codes, text_eq, is_empty, text_lt, text_eq_refl, text_eq→eq, text_eq_iff,
  text_lt_irrefl, text_lt_trans, text_lt-total,
}
use go_musical_packets.Packet.{
  protocol_icmp6, flag_rst, protocol_icmp, protocol_udp, flag_fin, flag_syn, protocol_tcp, validate,
  Event, Error, Protocol,
}
use go_musical_packets.Music.Mode.{mode_intervals, parse_mode, Mode}
use go_musical_packets.Music.Note.{validate_note, NoteEvent, NoteError}
use go_musical_packets.Music.Identity.{identity_for_flow_id, FlowIdentity}
use go_musical_packets.Flow.Key.{key_id, canonicalize, Digest, Direction, a_to_b, b_to_a}

abbrev pub flow_mode_v1 : Text
flow_mode_v1 = codes "flow-mode-v1"

pub record MapperConfig : Type 0 where
  pub seed : Text
  pub origin : Text
  pub minimum_note : ℕ  -- uint8
  pub maximum_note : ℕ  -- uint8
  pub minimum_duration : ℤ
  pub maximum_duration : ℤ

pub record MapInput : Type 0 where
  pub packet : Event
  pub sequence : ℕ  -- uint64
  pub inter_arrival : ℤ
  pub channel : ℕ  -- uint8
  pub mode : Text
  pub root : ℕ  -- uint8

pub data MapperError : Type 0 where
  names_missing note_range_invalid duration_range_invalid : MapperError

-- The mapper holds the configuration that it accepts.
unfoldable pub new_mapper : MapperConfig → Result MapperError MapperConfig
new_mapper c = do
  refuse_if (is_empty c.seed || is_empty c.origin) names_missing
  refuse_if (ltb 127 c.minimum_note || ltb 127 c.maximum_note || ltb c.maximum_note c.minimum_note)
      note_range_invalid
  refuse_if (leb_ℤ c.minimum_duration (pos 0) || ltb_ℤ c.maximum_duration c.minimum_duration)
      duration_range_invalid
  ok c

pub data MapError : Type 0 where
  packet_error : Error → MapError
  channel_error identity_error fixed_mode_error fixed_root_error no_scale_notes : MapError
  index_out_of_range : MapError  -- the panic of an index below 0
  event_error : NoteError → MapError

-- `(note - root) % 12`, raised by 12 where Go's remainder is negative.
unfoldable pub pitch_class : ℕ → ℕ → ℕ
pitch_class note root =
    if leb root note
    then (note - root) % 12
    else let r = (root - note) % 12 in if r == 0 then 0 else 12 - r

unfoldable pub contains_interval : ℕ → List ℕ → Bool
contains_interval p [] = false
contains_interval p (i ∷ is) = p == i || contains_interval p is

pub in_scale : Mode → ℕ → ℕ → Bool
in_scale mode root note = contains_interval (pitch_class note root) (get_or mode_intervals mode [])

-- The loop over the notes of the range, `rounds` of them from `note` on.
pub scale_from : Mode → ℕ → ℕ → ℕ → List ℕ
scale_from mode root zero note = []
scale_from mode root (suc rounds) note =
    let rest = scale_from mode root rounds (suc note) in
    if in_scale mode root note then note ∷ rest else rest

unfoldable pub scale_notes : Mode → ℕ → ℕ → ℕ → List ℕ
scale_notes mode root minimum maximum = scale_from mode root (suc maximum - minimum) minimum

unfoldable pub protocol_offset : Protocol → ℕ
protocol_offset p =
    if text_eq p protocol_tcp
    then 0
    else if text_eq p protocol_udp
    then 2
    else if text_eq p protocol_icmp || text_eq p protocol_icmp6
    then 4
    else 6

has_flag : ℕ → ℕ → Bool
has_flag flags mask = not (bit_and flags mask == 0)

unfoldable pub flag_offset : ℕ → ℕ
unfolding has_flag
flag_offset flags =
    (if has_flag flags flag_syn then 1 else 0)
    + (if has_flag flags flag_fin then 2 else 0)
    + (if has_flag flags flag_rst then 3 else 0)

-- `level n` stands for the rounded logarithm `math.Round(math.Log1p(n) / math.Log1p(65535) * 116)`.
unfoldable pub packet_velocity : (ℕ → ℕ) → ℤ → ℕ → ℕ
unfolding has_flag
packet_velocity level wire_length flags =
    let base = 1 + level (to_ℕ wire_length) in
    let velocity = if has_flag flags 7 then base + 10 else base in
    if ltb 127 velocity then 127 else velocity

abbrev pub quantum : ℕ
quantum = 25000000

-- The integer -n.
abbrev negated : ℕ → ℤ
negated zero = pos 0
negated (suc n) = negsuc n

-- Go's division rounds towards zero.
pub round_to_quantum : ℤ → ℤ
round_to_quantum (pos n) = pos (n / quantum * quantum)
round_to_quantum (negsuc n) = negated (suc n / quantum * quantum)

-- The two bounds, in the order of the source.
pub clamp_duration : ℤ → ℤ → ℤ → ℤ
clamp_duration duration minimum maximum =
    if ltb_ℤ duration minimum then minimum else if ltb_ℤ maximum duration then maximum else duration

-- The sum with half a quantum is an int64, and wraps.
unfoldable pub quantized_duration : ℤ → ℤ → ℤ → ℤ
quantized_duration inter_arrival minimum maximum =
    if leb_ℤ inter_arrival (pos 0)
    then minimum
    else clamp_duration (round_to_quantum (to_int64 (to_ℕ inter_arrival + quantum / 2))) minimum
        maximum

-- The identity of the flow, unless the input fixes another.
unfoldable pub choose_identity : MapInput → FlowIdentity → Result MapError FlowIdentity
choose_identity i identity = if is_empty i.mode then ok identity else elim (parse_mode i.mode) [
  | none ↦ err fixed_mode_error
  | some mode ↦
      if ltb 11 i.root then err fixed_root_error else ok (record { mode = mode; root = i.root })
]

abbrev pub or_error {ℓ} : {A : Type ℓ} → Option A → MapError → Result MapError A
or_error none e = err e
or_error (some a) e = ok a

-- The sum is an int and wraps. An event of the reverse direction is shifted by half the candidates.
unfoldable pub note_index : Event → Direction → ℕ → ℤ
note_index e a_to_b count =
    to_int64 (to_ℕ e.wire_length + protocol_offset e.protocol + flag_offset e.tcp_flags)
note_index e b_to_a count =
    to_int64
      (to_ℕ e.wire_length + protocol_offset e.protocol + flag_offset e.tcp_flags + (count + 1) / 2)

-- `candidates[index%len(candidates)]`, where Go's remainder has the sign of the index.
unfoldable pub pick_note : List ℕ → ℤ → Result MapError ℕ
pick_note candidates (pos n) = ok (get_or candidates (n % length candidates) 0)
pick_note candidates (negsuc n) =
    if suc n % length candidates == 0 then ok (get_or candidates 0 0) else err index_out_of_range

unfoldable pub event_name : Text → Text → ℕ → Text
event_name origin flow_id sequence =
    origin ++ (codes ":" ++ (flow_id ++ (codes ":" ++ decimal sequence)))

module _ (d : Digest) (level : ℕ → ℕ) where
  unfoldable pub note_event : MapperConfig → MapInput → Text → FlowIdentity → ℕ → NoteEvent
  note_event c i flow_id identity note = record {
    id = event_name c.origin flow_id i.sequence;
    origin = c.origin;
    sequence = i.sequence;
    mapping_version = flow_mode_v1;
    flow_id = flow_id;
    mode = identity.mode;
    root = identity.root;
    note = note;
    velocity = packet_velocity level i.packet.wire_length i.packet.tcp_flags;
    duration = quantized_duration i.inter_arrival c.minimum_duration c.maximum_duration;
    channel = i.channel;
    created_at = i.packet.captured_at;
  }

  unfoldable pub map_packet : MapperConfig → MapInput → Result MapError NoteEvent
  map_packet c i = do
    map_err packet_error (validate i.packet)
    refuse_if (ltb i.channel 1 || ltb 16 i.channel) channel_error
    let flow_id = key_id d (canonicalize i.packet).0 c.seed
    automatic ← or_error (identity_for_flow_id d flow_id) identity_error
    identity ← choose_identity i automatic
    let candidates = scale_notes identity.mode identity.root c.minimum_note c.maximum_note
    refuse_if (length candidates == 0) no_scale_notes
    note ← pick_note candidates (note_index i.packet (canonicalize i.packet).1 (length candidates))
    let event = note_event c i flow_id identity note
    map_err event_error (validate_note event)
    ok event
