-- ===== src/Midi/Scheduler.antt =====
-- internal/midi/scheduler.go: the note scheduler. Each method runs under the gate and the mutex, so
-- it is one step; `now` is what the clock says. The sender is a parameter with a state of its own.
-- A timer is the pair of key and generation that its callback passes to `stop`; a timer that was
-- stopped too late may still call it, so `stop` takes any pair at any time.
pub mod Keeps
pub mod Limits
pub mod Device
use go_musical_packets.Prelude.{
  ℕ, zero, suc, ◌+◌, ◌-◌, ◌*◌, ◌/◌, ◌%◌, ◌^◌, ◌≤◌, ◌<◌, bit_and, bit_or, ◌≡◌, refl, sym, ap, ◌∙◌,
  subst, ◌≢◌, ◌↔◌, ◌⊎◌, inl, inr, Bool, true, false, not, ◌&&◌, ◌||◌, Option, none, some, List, [],
  ◌∷◌, ◌++◌, map, arith, ltb, leb, ◌==◌, if◌then◌else◌, Bool-cases, Option-cases, is_some, ltb→lt,
  lt→ltb, leb→le, ==_iff, length, get_elem?, get_or, take, drop, length-append, All, All-append,
  Result, ok, err, ◌>>=◌, ◌>>◌, refuse_if, map_err, Result-cases, ℤ, pos, negsuc, ltb_ℤ, leb_ℤ,
  to_int64, to_ℕ, Text, codes, text_eq, is_empty, text_lt, contains_text, text_eq_refl, text_eq→eq,
  text_eq_iff, text_lt_irrefl, text_lt_trans, text_lt-total,
}
use go_musical_packets.Music.Note.{NoteEvent, NoteError, validate_note}
use go_musical_packets.Midi.Message.{note_on, note_off, all_notes_off}

pub record SchedulerConfig : Type 0 where
  pub maximum_notes_per_second : ℤ
  pub maximum_polyphony : ℤ
  pub minimum_retrigger_interval : ℤ

pub record Active : Type 0 where
  pub channel : ℕ
  pub note : ℕ
  pub started : ℕ
  pub generation : ℕ  -- uint64

pub record Scheduler : Type 0 where
  pub maximum_notes_per_second : ℕ
  pub maximum_polyphony : ℕ
  pub minimum_retrigger_interval : ℕ
  pub active : List Active
  pub recent : List ℕ
  pub next_generation : ℕ  -- uint64
  pub closed : Bool

pub data ConfigError : Type 0 where
  rate_invalid polyphony_invalid retrigger_invalid : ConfigError

-- What Send reports.
pub data Outcome : Type 0 where
  sent unavailable failed : Outcome

pub data WriteError : Type 0 where
  context_missing context_done scheduler_closed retrigger_limited rate_limited : WriteError
  polyphony_limited send_failed : WriteError
  note_error : NoteError → WriteError

pub data Context : Type 0 where
  missing live done : Context

unfoldable pub new_scheduler : SchedulerConfig → Result ConfigError Scheduler
new_scheduler c = do
  refuse_if (leb_ℤ c.maximum_notes_per_second (pos 0)) rate_invalid
  refuse_if (leb_ℤ c.maximum_polyphony (pos 0) || ltb_ℤ (pos 128) c.maximum_polyphony)
      polyphony_invalid
  refuse_if (ltb_ℤ c.minimum_retrigger_interval (pos 0)) retrigger_invalid
  ok (record {
    maximum_notes_per_second = to_ℕ c.maximum_notes_per_second;
    maximum_polyphony = to_ℕ c.maximum_polyphony;
    minimum_retrigger_interval = to_ℕ c.minimum_retrigger_interval;
    active = [];
    recent = [];
    next_generation = 0;
    closed = false;
  })

unfoldable pub same_key : ℕ → ℕ → Active → Bool
same_key channel note a = a.channel == channel && a.note == note

unfoldable pub find_active : ℕ → ℕ → List Active → Option Active
find_active channel note [] = none
find_active channel note (a ∷ as_) =
    if same_key channel note a then some a else find_active channel note as_

unfoldable pub delete_active : ℕ → ℕ → List Active → List Active
delete_active channel note [] = []
delete_active channel note (a ∷ as_) =
    if same_key channel note a
    then delete_active channel note as_
    else a ∷ delete_active channel note as_

abbrev pub second : ℕ
second = 1000000000

-- The times that are not after `now - 1s` go from the front.
unfoldable pub prune_rate_window : ℕ → List ℕ → List ℕ
prune_rate_window now [] = []
prune_rate_window now (t ∷ ts) = if leb (t + second) now then prune_rate_window now ts else t ∷ ts

-- `now.Sub(current.started) < interval`, with the subtraction moved to the other side.
too_soon : Scheduler → ℕ → Option Active → Bool
too_soon s now none = false
too_soon s now (some a) = ltb now (a.started + s.minimum_retrigger_interval)

-- The message of a builder whose error the source ignores, since its arguments are valid.
abbrev pub message_or_nil : {E : Type 0} → Result E (List ℕ) → List ℕ
message_or_nil (ok m) = m
message_or_nil (err e) = []

module _ {S : Type 0} (send : S → Text → S × Outcome) where
  -- A failed send clears the active notes.
  unfoldable pub send_message : Text → Scheduler × S → Scheduler × S × Outcome
  send_message m (s, x) =
      let (x', o) = send x m in
      elim o [
        | sent ↦ (s, x', sent)
        | unavailable ↦ (record s { active = [] }, x', unavailable)
        | failed ↦ (record s { active = [] }, x', failed)
      ]

  -- The note off of a deleted key and, where it fails, All Notes Off for the channel.
  unfoldable pub silence_key : ℕ → ℕ → Scheduler × S → Scheduler × S × Outcome
  silence_key channel note (s, x) =
      let (s1, x1, o) = send_message (message_or_nil (note_off channel note)) (s, x) in
      let recovery = send_message (message_or_nil (all_notes_off channel)) (s1, x1) in
      elim o [
        | sent ↦ (s1, x1, sent)
        | unavailable ↦ (recovery.0, recovery.1, unavailable)
        | failed ↦ (recovery.0, recovery.1, failed)
      ]

  -- The last part of Write: the note on, then the books.
  unfoldable pub sound :
      ℕ → NoteEvent → Scheduler × S → Scheduler × S × Result WriteError (Unit {0})
  sound now n (s, x) =
      let (s1, x1, o) =
        send_message (message_or_nil (note_on n.channel n.note n.velocity)) (s, x) in
      let generation = (s1.next_generation + 1) % 2 ^ 64 in
      let entry : Active = record {
        channel = n.channel;
        note = n.note;
        started = now;
        generation = generation;
      } in
      elim o [
        | sent ↦ (
          record s1 {
            recent = s1.recent ++ (now ∷ []);
            next_generation = generation;
            active = entry ∷ delete_active n.channel n.note s1.active;
          },
          x1,
          ok tt,
        )
        | unavailable ↦ (s1, x1, err send_failed)
        | failed ↦ (s1, x1, err send_failed)
      ]

  -- What follows the silencing of a retriggered note.
  unfoldable pub after_silence :
      ℕ → NoteEvent → Scheduler × S × Outcome → Scheduler × S × Result WriteError (Unit {0})
  after_silence now n (s, x, sent) = sound now n (s, x)
  after_silence now n (s, x, unavailable) = (s, x, err send_failed)
  after_silence now n (s, x, failed) = (s, x, err send_failed)

  -- A retrigger first silences the sounding note.
  unfoldable pub retrigger_and_sound :
      ℕ → NoteEvent → Scheduler × S → Scheduler × S × Result WriteError (Unit {0})
  retrigger_and_sound now n (s, x) = after_silence now n (
      silence_key n.channel n.note
        (record s { active = delete_active n.channel n.note s.active }, x))

  -- Write under the lock, for a valid note.
  unfoldable pub admit :
      ℕ → NoteEvent → Scheduler × S → Scheduler × S × Result WriteError (Unit {0})
  unfolding too_soon
  admit now n (s, x) =
      let current = find_active n.channel n.note s.active in
      let pruned = record s { recent = prune_rate_window now s.recent } in
      if s.closed
      then (s, x, err scheduler_closed)
      else if too_soon s now current
      then (s, x, err retrigger_limited)
      else if leb s.maximum_notes_per_second (length pruned.recent)
      then (pruned, x, err rate_limited)
      else if not (is_some current) && leb s.maximum_polyphony (length s.active)
      then (pruned, x, err polyphony_limited)
      else if is_some current
      then retrigger_and_sound now n (pruned, x)
      else sound now n (pruned, x)

  unfoldable pub write :
      Context → ℕ → NoteEvent → Scheduler × S → Scheduler × S × Result WriteError (Unit {0})
  write missing now n (s, x) = (s, x, err context_missing)
  write live now n (s, x) = elim (validate_note n) [
    | err e ↦ (s, x, err (note_error e))
    | ok _ ↦ admit now n (s, x)
  ]
  write done now n (s, x) = elim (validate_note n) [
    | err e ↦ (s, x, err (note_error e))
    | ok _ ↦ (s, x, err context_done)
  ]

  -- The timer callback: a key that has another generation, or none, is left alone.
  unfoldable pub stop : ℕ → ℕ → ℕ → Scheduler × S → Scheduler × S
  stop channel note generation (s, x) = elim (find_active channel note s.active) [
    | none ↦ (s, x)
    | some a ↦
        let quiet = record s { active = delete_active channel note s.active } in
        let silenced = silence_key channel note (quiet, x) in
        if a.generation == generation then (silenced.0, silenced.1) else (s, x)
  ]

  -- All Notes Off on the channels from `channel` on; it returns the failures other than a missing
  -- output.
  unfoldable pub silence_channels : ℕ → ℕ → Scheduler × S → Scheduler × S × ℕ
  silence_channels zero channel (s, x) = (s, x, 0)
  silence_channels (suc rounds) channel (s, x) =
      let (s1, x1, o) = send_message (message_or_nil (all_notes_off channel)) (s, x) in
      let (s2, x2, failures) = silence_channels rounds (suc channel) (s1, x1) in
      (s2, x2, elim o [ sent ↦ failures | unavailable ↦ failures | failed ↦ suc failures ])

  unfoldable pub panic : Scheduler × S → Scheduler × S × ℕ
  panic (s, x) = silence_channels 16 1 (record s { active = [] }, x)

  unfoldable pub close : Scheduler × S → Scheduler × S × ℕ
  close (s, x) = if s.closed then (s, x, 0) else panic (record s { closed = true }, x)
