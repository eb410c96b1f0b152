-- ===== src/Music/Note.antt =====
-- internal/music/note.go: the note trigger and its validation.
use go_musical_packets.Music.Mode.{is_mode, Mode, mode_count}
use go_musical_packets.Prelude.{
  ℕ, ◌≤◌, ◌<◌, ◌≡◌, ◌↔◌, true, false, not, ◌||◌, arith, ltb, ◌==◌, Result, ok, ◌>>◌, refuse_if, ℤ,
  pos, ltb_ℤ, leb_ℤ, Text, is_empty,
}

-- Durations are int64 nanoseconds; instants count from the zero time, 0.
pub record NoteEvent : Type 0 where
  pub id : Text
  pub origin : Text
  pub sequence : ℕ  -- uint64
  pub mapping_version : Text
  pub flow_id : Text
  pub mode : Mode
  pub root : ℕ  -- uint8
  pub note : ℕ  -- uint8
  pub velocity : ℕ  -- uint8
  pub duration : ℤ
  pub channel : ℕ  -- uint8
  pub created_at : ℕ

pub data NoteError : Type 0 where
  identity_missing mode_invalid root_invalid range_invalid velocity_zero : NoteError
  channel_invalid duration_invalid : NoteError

unfoldable pub validate_note : NoteEvent → Result NoteError (Unit {0})
unfolding is_mode
validate_note e = do
  refuse_if (is_empty e.id || is_empty e.origin) identity_missing
  refuse_if (not (is_mode e.mode)) mode_invalid
  refuse_if (ltb 11 e.root) root_invalid
  refuse_if (ltb 127 e.note || ltb 127 e.velocity) range_invalid
  refuse_if (e.velocity == 0) velocity_zero
  refuse_if (ltb e.channel 1 || ltb 16 e.channel) channel_invalid
  refuse_if (leb_ℤ e.duration (pos 0)) duration_invalid

-- A note that a MIDI output can play.
pub record IsNote (e : NoteEvent) : Type 0 where
  pub id_given : is_empty e.id ≡ false
  pub origin_given : is_empty e.origin ≡ false
  pub mode_known : e.mode < mode_count
  pub root_range : e.root ≤ 11
  pub note_range : e.note ≤ 127
  pub velocity_low : 1 ≤ e.velocity
  pub velocity_high : e.velocity ≤ 127
  pub channel_low : 1 ≤ e.channel
  pub channel_high : e.channel ≤ 16
  pub lasts : ltb_ℤ (pos 0) e.duration ≡ true

-- A note is accepted exactly when all its fields lie in the MIDI ranges and it lasts.
pub validate_note_iff : (e : NoteEvent) → (validate_note e ≡ ok tt) ↔ IsNote e
unfolding validate_note
validate_note_iff e = (λ h. ground arith, λ v. ground arith)
