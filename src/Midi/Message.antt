-- ===== src/Midi/Message.antt =====
-- internal/midi/midi.go: device selection and MIDI 1.0 messages. The regular expression engine is
-- a parameter.
pub mod Laws
pub mod Devices
use go_musical_packets.Prelude.{
  ℕ, zero, suc, ◌+◌, ◌-◌, ◌*◌, ◌/◌, ◌%◌, ◌^◌, ◌≤◌, ◌<◌, bit_and, bit_or, ◌≡◌, refl, sym, ap, ◌∙◌,
  subst, ◌≢◌, ◌↔◌, ◌⊎◌, inl, inr, Bool, true, false, not, ◌&&◌, ◌||◌, Option, none, some, List, [],
  ◌∷◌, ◌++◌, map, arith, ltb, leb, ◌==◌, if◌then◌else◌, Bool-cases, Option-cases, is_some, ltb→lt,
  lt→ltb, leb→le, ==_iff, length, get_elem?, get_or, take, drop, length-append, All, All-append,
  Result, ok, err, ◌>>=◌, ◌>>◌, refuse_if, map_err, Result-cases, ℤ, pos, negsuc, ltb_ℤ, leb_ℤ,
  to_int64, to_ℕ, Text, codes, text_eq, is_empty, text_lt, contains_text, text_eq_refl, text_eq→eq,
  text_eq_iff, text_lt_irrefl, text_lt_trans, text_lt-total,
}

pub record Device : Type 0 where
  pub number : ℕ
  pub name : Text

pub data DeviceError : Type 0 where
  no_output_devices pattern_invalid : DeviceError

first_named : Text → List Device → Option Device
first_named name [] = none
first_named name (d ∷ ds) = if text_eq d.name name then some d else first_named name ds

first_matching : (Text → Bool) → List Device → Option Device
first_matching accepts [] = none
first_matching accepts (d ∷ ds) = if accepts d.name then some d else first_matching accepts ds

abbrev or_first : Option Device → Device → Device
or_first none first = first
or_first (some d) first = d

-- The pattern step; `compile` is regexp.Compile with MatchString.
by_pattern : (Text → Option (Text → Bool)) → Text → Device → List Device → Result DeviceError Device
unfolding first_matching
by_pattern compile pattern first devices =
    if is_empty pattern then ok first else elim (compile pattern) [
      | none ↦ err pattern_invalid
      | some accepts ↦ ok (or_first (first_matching accepts devices) first)
    ]

unfoldable pub select_device :
    (Text → Option (Text → Bool)) → List Device → Text → Text → Result DeviceError Device
unfolding by_pattern first_named
select_device compile [] exact pattern = err no_output_devices
select_device compile (d ∷ ds) exact pattern =
    if is_empty exact
    then by_pattern compile pattern d (d ∷ ds)
    else elim (first_named exact (d ∷ ds)) [
      | some found ↦ ok found
      | none ↦ by_pattern compile pattern d (d ∷ ds)
    ]

pub data MessageError : Type 0 where
  channel_invalid note_invalid : MessageError

unfoldable pub validate_channel : ℕ → Result MessageError (Unit {0})
validate_channel channel = refuse_if (ltb channel 1 || ltb 16 channel) channel_invalid

unfoldable pub note_on : ℕ → ℕ → ℕ → Result MessageError Text
unfolding validate_channel
note_on channel note velocity = do
  validate_channel channel
  refuse_if (ltb 127 note || velocity == 0 || ltb 127 velocity) note_invalid
  ok (bit_or 0x90 (channel - 1) ∷ note ∷ velocity ∷ [])

unfoldable pub note_off : ℕ → ℕ → Result MessageError Text
unfolding validate_channel
note_off channel note = do
  validate_channel channel
  refuse_if (ltb 127 note) note_invalid
  ok (bit_or 0x80 (channel - 1) ∷ note ∷ 0 ∷ [])

unfoldable pub all_notes_off : ℕ → Result MessageError Text
unfolding validate_channel
all_notes_off channel = do validate_channel channel; ok (bit_or 0xB0 (channel - 1) ∷ 123 ∷ 0 ∷ [])
