-- ===== src/Midi/Message/Laws.antt =====
-- NoteOn, NoteOff and AllNotesOff of internal/midi/midi.go, beside a MIDI receiver.
use go_musical_packets.Midi.Message.{note_off, note_on, all_notes_off}
use go_musical_packets.Prelude.{
  ◌↔◌, ℕ, zero, suc, ◌+◌, ◌-◌, ◌/◌, ◌%◌, ◌≤◌, ◌<◌, bit_or, ◌≡◌, refl, Bool, true, not, ◌&&◌, ◌||◌,
  Option, none, some, [], ◌∷◌, arith, ltb, ◌==◌, if◌then◌else◌, ==_iff, ok, Text,
}

-- A channel message as the MIDI 1.0 standard defines it, with the user-facing channel.
pub data Command : Type 0 where
  on : ℕ → ℕ → ℕ → Command
  off : ℕ → ℕ → Command
  silence : ℕ → Command

-- A receiver: it splits the status byte and wants data bytes below 128.
unfoldable pub receive : Text → Option Command
receive (status ∷ a ∷ b ∷ []) =
    if ltb 127 a || ltb 127 b
    then none
    else if status / 16 == 9 && not (b == 0)
    then some (on (status % 16 + 1) a b)
    else if status / 16 == 9 || status / 16 == 8
    then some (off (status % 16 + 1) a)
    else if status / 16 == 11 && a == 123
    then some (silence (status % 16 + 1))
    else none
receive bytes = none

all_below : ℕ → (ℕ → Bool) → Bool
all_below zero p = true
all_below (suc n) p = p n && all_below n p

all_below-lt : (n : ℕ) (p : ℕ → Bool) (x : ℕ) → all_below n p ≡ true → x < n → p x ≡ true
unfolding all_below
all_below-lt zero p x h l = absurd (omega arith)
all_below-lt (suc n) p x h l = ground (arith, all_below-lt n p x)

bit_or-high :
    (s k : ℕ) → all_below 16 (λ x. bit_or s x == s + x) ≡ true → k < 16 → bit_or s k ≡ s + k
bit_or-high s k table l = (==_iff _ _).0 (all_below-lt 16 (λ x. bit_or s x == s + x) k table l)

status_on : (k : ℕ) → k < 16 → bit_or 0x90 k ≡ 0x90 + k
unfolding all_below
status_on k = bit_or-high 0x90 k refl

status_off : (k : ℕ) → k < 16 → bit_or 0x80 k ≡ 0x80 + k
unfolding all_below
status_off k = bit_or-high 0x80 k refl

status_control : (k : ℕ) → k < 16 → bit_or 0xB0 k ≡ 0xB0 + k
unfolding all_below
status_control k = bit_or-high 0xB0 k refl

-- A note on a user-facing channel.
pub record IsKey (channel note : ℕ) : Type 0 where
  pub channel_low : 1 ≤ channel
  pub channel_high : channel ≤ 16
  pub note_high : note ≤ 127

pub note_on-receive :
    (c n v : ℕ)
    → IsKey c n
    → 1 ≤ v
    → v ≤ 127
    → (m : Text) × (note_on c n v ≡ ok m) × (receive m ≡ some (on c n v))
unfolding note_on receive
note_on-receive c n v k a b =
    (bit_or 0x90 (c - 1) ∷ n ∷ v ∷ [], ground arith, ground (arith, status_on (c - 1)))

pub note_off-receive :
    (c n : ℕ) → IsKey c n → (m : Text) × (note_off c n ≡ ok m) × (receive m ≡ some (off c n))
unfolding note_off receive
note_off-receive c n k =
    (bit_or 0x80 (c - 1) ∷ n ∷ 0 ∷ [], ground arith, ground (arith, status_off (c - 1)))

pub all_notes_off-receive :
    (c : ℕ)
    → 1 ≤ c
    → c ≤ 16
    → (m : Text) × (all_notes_off c ≡ ok m) × (receive m ≡ some (silence c))
unfolding all_notes_off receive
all_notes_off-receive c a b =
    (bit_or 0xB0 (c - 1) ∷ 123 ∷ 0 ∷ [], ground arith, ground (arith, status_control (c - 1)))

-- The builders accept exactly the MIDI ranges, and a receiver that follows the standard reads from
-- each message the command, channel and note that it was built from.
pub messages_received :
    (c n v : ℕ)
    → ((IsKey c n × (1 ≤ v) × (v ≤ 127))
        ↔ ((m : Text) × (note_on c n v ≡ ok m) × (receive m ≡ some (on c n v))))
      × (IsKey c n ↔ ((m : Text) × (note_off c n ≡ ok m) × (receive m ≡ some (off c n))))
      × (((1 ≤ c) × (c ≤ 16))
          ↔ ((m : Text) × (all_notes_off c ≡ ok m) × (receive m ≡ some (silence c))))
unfolding note_on note_off all_notes_off
messages_received c n v = (
  (λ h. note_on-receive c n v h.0 h.1 h.2, λ h. ground (arith, h.1)),
  (λ h. note_off-receive c n h, λ h. ground (arith, h.1)),
  (λ h. all_notes_off-receive c h.0 h.1, λ h. ground (arith, h.1)),
)
