-- ===== src/Music/Mapper/Total.antt =====
-- Map of internal/music/mapper.go as a whole.
use go_musical_packets.Packet.{Event}
use go_musical_packets.Music.Mapper.Duration.{duration_bounds}
use go_musical_packets.Flow.Selector.{valid_musical_mode}
use go_musical_packets.Packet.Laws.{validate_iff, IsValid}
use native.Mathlib.Nat.{mod-lt}
use go_musical_packets.Music.Mode.Laws.{valid_musical_mode-parse_mode, parse_mode_iff}
use go_musical_packets.Music.Mapper.Scale.{scale_notes_nonempty, scale_notes_iff, IsInMode}
use go_musical_packets.Music.Mode.{Mode, parse_mode, mode_count, mode_string}
use go_musical_packets.Music.Identity.{identity_for_key_id, identity_for_flow_id, FlowIdentity}
use go_musical_packets.Music.Note.{validate_note_iff, IsNote, NoteEvent}
use go_musical_packets.Flow.Key.{b_to_a, a_to_b, Direction, canonicalize, key_id, Digest}
use go_musical_packets.Prelude.{
  ◌/◌, ◌^◌, ◌-◌, ◌+◌, zero, suc, to_ℕ, subst, Result-cases, sym, ap, ◌∙◌, get_or, List, length,
  some, Option-cases, ℕ, ◌%◌, ◌≤◌, ◌<◌, ◌≡◌, refl, ◌↔◌, inl, inr, true, false, [], ◌∷◌, arith,
  Bool-cases, ok, ℤ, pos, negsuc, ltb_ℤ, leb_ℤ, Text, is_empty,
}
use go_musical_packets.Music.Mapper.{
  has_flag, flag_offset, scale_from, protocol_offset, pick_note, map_packet, note_index,
  scale_notes, note_event, MapInput, choose_identity, new_mapper, packet_velocity, MapperConfig,
  event_name,
}

pub record IsMapper (c : MapperConfig) : Type 0 where
  pub seed_given : is_empty c.seed ≡ false
  pub origin_given : is_empty c.origin ≡ false
  pub notes_ordered : c.minimum_note ≤ c.maximum_note
  pub notes_range : c.maximum_note ≤ 127
  pub duration_positive : ltb_ℤ (pos 0) c.minimum_duration ≡ true
  pub durations_ordered : leb_ℤ c.minimum_duration c.maximum_duration ≡ true

-- NewMapper accepts exactly the configurations with names, an ordered note range within 0 to 127,
-- and an ordered range of positive durations.
pub new_mapper_iff : (c : MapperConfig) → (new_mapper c ≡ ok c) ↔ IsMapper c
unfolding new_mapper
new_mapper_iff c = (λ h. ground arith, λ v. ground arith)

packet_velocity_bounds :
    (level : ℕ → ℕ) (w : ℤ) (flags : ℕ)
    → (1 ≤ packet_velocity level w flags) × (packet_velocity level w flags ≤ 127)
unfolding packet_velocity
packet_velocity_bounds level w flags = ground arith

event_name_given :
    (origin flow_id : Text) (n : ℕ)
    → is_empty origin ≡ false
    → is_empty (event_name origin flow_id n) ≡ false
unfolding event_name
event_name_given [] flow_id n h = absurd (cc)
event_name_given (c ∷ cs) flow_id n h = refl

-- What a mapped note has to do with the packet, the routing and the configuration.
pub record IsMapped (d : Digest) (c : MapperConfig) (i : MapInput) (n : NoteEvent) : Type 0 where
  pub playable : IsNote n
  pub of_flow : n.flow_id ≡ key_id d (canonicalize i.packet).0 c.seed
  pub routed : n.channel ≡ i.channel
  pub numbered : n.sequence ≡ i.sequence
  pub low : c.minimum_note ≤ n.note
  pub high : n.note ≤ c.maximum_note
  pub in_mode : IsInMode n.mode n.root n.note
  pub automatic :
      is_empty i.mode ≡ true
      → identity_for_flow_id d n.flow_id ≡ some (record { mode = n.mode; root = n.root })
  pub fixed : is_empty i.mode ≡ false → (mode_string n.mode ≡ i.mode) × (n.root ≡ i.root)
  pub long_enough : leb_ℤ c.minimum_duration n.duration ≡ true
  pub short_enough : leb_ℤ n.duration c.maximum_duration ≡ true

leb_ℤ-pos : (a b : ℤ) → ltb_ℤ (pos 0) a ≡ true → leb_ℤ a b ≡ true → ltb_ℤ (pos 0) b ≡ true
leb_ℤ-pos (pos a) (pos b) h k = ground arith
leb_ℤ-pos (pos a) (negsuc b) h k = ground arith
leb_ℤ-pos (negsuc a) b h k = ground arith

pub data Chosen (d : Digest) (i : MapInput) (automatic : FlowIdentity) (x : FlowIdentity)
    : Type 0 where
  is_automatic : is_empty i.mode ≡ true → x ≡ automatic → Chosen d i automatic x
  is_fixed :
      is_empty i.mode ≡ false
      → mode_string x.mode ≡ i.mode
      → x.root ≡ i.root
      → x.mode < mode_count
      → x.root ≤ 11
      → Chosen d i automatic x

choose_identity-Chosen :
    (d : Digest) (i : MapInput) (a x : FlowIdentity) → choose_identity i a ≡ ok x → Chosen d i a x
unfolding choose_identity
choose_identity-Chosen d i a x h = elim (Bool-cases (is_empty i.mode)) [
  | inl e ↦ is_automatic e (ground arith)
  | inr e ↦ elim (Option-cases (parse_mode i.mode)) [
    | inl p ↦ absurd (ground arith)
    | inr (m, p) ↦
        let (l, q) = (parse_mode_iff i.mode m).0 p in
        is_fixed e (ground arith) (ground arith) (ground arith) (ground arith)
  ]
]

-- A wire length that leaves room for the offsets.
abbrev pub IsShort : Event → Type 0
IsShort e = to_ℕ e.wire_length < 2 ^ 62

pick_note-member :
    (candidates : List ℕ) (index : ℤ) (n : ℕ)
    → 0 < length candidates
    → pick_note candidates index ≡ ok n
    → (j : ℕ) × (j < length candidates) × (get_or candidates j 0 ≡ n)
unfolding pick_note
pick_note-member candidates (pos m) n ne h = (m % length candidates, mod-lt m ne, ground (arith, h))
pick_note-member candidates (negsuc m) n ne h = (0, ne, ground (arith, h))

length-scale_from :
    (mode : Mode) (root rounds note : ℕ) → length (scale_from mode root rounds note) ≤ rounds
unfolding scale_from
length-scale_from mode root zero note = omega arith
length-scale_from mode root (suc rounds) note =
    let ih = length-scale_from mode root rounds (suc note) in ground (arith, ih)

length-scale_notes :
    (mode : Mode) (root low high : ℕ) → high ≤ 127 → length (scale_notes mode root low high) ≤ 256
unfolding scale_notes
length-scale_notes mode root low high h =
    omega (arith, h, length-scale_from mode root (suc high - low) low)

pick_note-pos :
    (candidates : List ℕ) (m : ℕ)
    → pick_note candidates (pos m) ≡ ok (get_or candidates (m % length candidates) 0)
unfolding pick_note
pick_note-pos candidates m = refl

offsets_small : (e : Event) → protocol_offset e.protocol + flag_offset e.tcp_flags ≤ 12
unfolding protocol_offset flag_offset has_flag
offsets_small e = ground arith

-- The index of a short packet is not negative.
note_index-pos :
    (e : Event) (d : Direction) (count : ℕ)
    → IsShort e
    → count ≤ 256
    → (m : ℕ) × (note_index e d count ≡ pos m)
unfolding note_index
note_index-pos e a_to_b count short few =
    let small = offsets_small e in
    (
      to_ℕ e.wire_length + protocol_offset e.protocol + flag_offset e.tcp_flags,
      ground (arith, small, short),
    )
note_index-pos e b_to_a count short few =
    let small = offsets_small e in
    (
      to_ℕ e.wire_length + protocol_offset e.protocol + flag_offset e.tcp_flags + (count + 1) / 2,
      ground (arith, small, short, few),
    )

module _ (d : Digest) (level : ℕ → ℕ) (c : MapperConfig) (v : IsMapper c) (i : MapInput) where
  abbrev flow_id_of : Text
  flow_id_of = key_id d (canonicalize i.packet).0 c.seed

  note_event-IsMapped :
      (a x : FlowIdentity) (note j : ℕ)
      → 1 ≤ i.channel
      → i.channel ≤ 16
      → identity_for_flow_id d flow_id_of ≡ some a
      → Chosen d i a x
      → x.mode < mode_count
      → x.root ≤ 11
      → j < length (scale_notes x.mode x.root c.minimum_note c.maximum_note)
      → get_or (scale_notes x.mode x.root c.minimum_note c.maximum_note) j 0 ≡ note
      → IsMapped d c i (note_event d level c i flow_id_of x note)
  unfolding note_event
  note_event-IsMapped a x note j c1 c2 found ch l r within picked =
      let (a1, a2, a3) =
        ((scale_notes_iff x.mode x.root c.minimum_note c.maximum_note l).0 note).0
          (j, within, picked) in
      let (d1, d2) =
        duration_bounds i.inter_arrival c.minimum_duration c.maximum_duration v.durations_ordered in
      record {
        playable = record {
          id_given = event_name_given c.origin flow_id_of i.sequence v.origin_given;
          origin_given = v.origin_given;
          mode_known = l;
          root_range = r;
          note_range = omega (arith, a2, v.notes_range);
          velocity_low = (packet_velocity_bounds level i.packet.wire_length i.packet.tcp_flags).0;
          velocity_high = (packet_velocity_bounds level i.packet.wire_length i.packet.tcp_flags).1;
          channel_low = c1;
          channel_high = c2;
          lasts = leb_ℤ-pos c.minimum_duration _ v.duration_positive d1;
        };
        of_flow = refl;
        routed = refl;
        numbered = refl;
        low = a1;
        high = a2;
        in_mode = a3;
        automatic = elim ch [
          | is_automatic e q ↦ λ _. found ∙ ap some (sym q)
          | is_fixed e _ _ _ _ ↦ λ f. absurd (cc)
        ];
        fixed = elim ch [ is_automatic e q ↦ λ f. absurd (cc) | is_fixed e m q _ _ ↦ λ _. (m, q) ];
        long_enough = d1;
        short_enough = d2;
      }

  -- The identity that the mapper uses is valid, and it exists when a fixed mode is valid.
  Chosen-valid :
      (a x : FlowIdentity)
      → identity_for_flow_id d flow_id_of ≡ some a
      → Chosen d i a x
      → (x.mode < mode_count) × (x.root ≤ 11)
  Chosen-valid a x found (is_automatic e q) =
      let (y, same, l, r) = identity_for_key_id d (canonicalize i.packet).0 c.seed in
      ground (arith, same, found)
  Chosen-valid a x found (is_fixed e m q l r) = (l, r)

  -- Whatever the mapper accepts, it maps to a playable note of the packet's flow on the routed
  -- channel, with a pitch of the chosen mode inside the configured range and a duration inside its
  -- range; the mode and root are those of the flow ID, or the fixed ones where a mode is given.
  pub map_packet-IsMapped : (n : NoteEvent) → map_packet d level c i ≡ ok n → IsMapped d c i n
  unfolding map_packet
  map_packet-IsMapped n h =
      let (a, found, _, _) = identity_for_key_id d (canonicalize i.packet).0 c.seed in
      elim (Result-cases (choose_identity i a)) [
        | inr (x, e) ↦ absurd (ground (arith, found, e))
        | inl (x, e) ↦
            let ch = choose_identity-Chosen d i a x e in
            let (l, r) = Chosen-valid a x found ch in
            let notes = scale_notes x.mode x.root c.minimum_note c.maximum_note in
            let index = note_index i.packet (canonicalize i.packet).1 (length notes) in
            elim (Result-cases (pick_note notes index)) [
              | inr (y, k) ↦ absurd (ground (arith, found, e, k))
              | inl (note, k) ↦
                  let (j, within, picked) =
                    pick_note-member notes index note (ground (arith, found, e, k)) k in
                  let made =
                    note_event-IsMapped a x note j (ground arith) (ground arith) found ch l r within
                      picked in
                  subst (IsMapped d c i) (ground (arith, found, e, k)) made
            ]
      ]

  choose_identity-total :
      (a : FlowIdentity)
      → (is_empty i.mode ≡ false → (valid_musical_mode i.mode ≡ true) × (i.root ≤ 11))
      → (x : FlowIdentity) × (choose_identity i a ≡ ok x)
  unfolding choose_identity
  choose_identity-total a fixed = elim (Bool-cases (is_empty i.mode)) [
    | inl e ↦ (a, ground arith)
    | inr e ↦ elim (Option-cases (parse_mode i.mode)) [
      | inl p ↦ absurd (ground (arith, p, fixed e, valid_musical_mode-parse_mode i.mode))
      | inr (m, p) ↦ (record { mode = m; root = i.root }, ground (arith, fixed e))
    ]
  ]

  -- The mapper fails on no valid packet with a MIDI channel and either no fixed mode or a valid one
  -- with a root from 0 to 11, when the configured range has two notes or more and the wire length is
  -- less than 2 ^ 62.
  pub map_packet_total :
      c.minimum_note < c.maximum_note
      → IsValid i.packet
      → IsShort i.packet
      → 1 ≤ i.channel
      → i.channel ≤ 16
      → (is_empty i.mode ≡ false → (valid_musical_mode i.mode ≡ true) × (i.root ≤ 11))
      → (n : NoteEvent) × (map_packet d level c i ≡ ok n) × IsMapped d c i n
  unfolding map_packet
  map_packet_total wide valid short c1 c2 fixed =
      let (a, found, _, _) = identity_for_key_id d (canonicalize i.packet).0 c.seed in
      let (x, e) = choose_identity-total a fixed in
      let ch = choose_identity-Chosen d i a x e in
      let (l, r) = Chosen-valid a x found ch in
      let notes = scale_notes x.mode x.root c.minimum_note c.maximum_note in
      let some_note = scale_notes_nonempty x.mode x.root c.minimum_note c.maximum_note l wide in
      let (m, index) =
        note_index-pos i.packet (canonicalize i.packet).1 (length notes) short
          (length-scale_notes x.mode x.root c.minimum_note c.maximum_note v.notes_range) in
      let note = get_or notes (m % length notes) 0 in
      let made =
        note_event-IsMapped a x note (m % length notes) c1 c2 found ch l r (mod-lt m some_note)
          refl in
      let event : NoteEvent = note_event d level c i flow_id_of x note in
      let picked : pick_note notes (note_index i.packet (canonicalize i.packet).1 (length notes))
          ≡ ok note =
        rw (index) (pick_note-pos notes m) in
      (
        event,
        ground (
          arith,
          (validate_iff i.packet).1 valid,
          found,
          e,
          some_note,
          picked,
          (validate_note_iff event).1 made.playable,
        ),
        made,
      )
