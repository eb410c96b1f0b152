-- ===== src/Midi/Scheduler/Limits.antt =====
-- The limits of internal/midi/scheduler.go, over its operations.
use go_musical_packets.Midi.Scheduler.Keeps.{
  length-delete_active, length-delete_active_found, Keyed-delete, Keeps-clear, length-prune,
  Keeps-trans, Keeps-delete, Keeps-refl, find-delete_same, find-delete_active, IsScheduler,
  nothing_left, Keeps,
}
use go_musical_packets.Music.Note.{validate_note_iff, validate_note, IsNote, NoteEvent}
use go_musical_packets.Midi.Message.{note_on, all_notes_off, note_off}
use go_musical_packets.Prelude.{
  not, ok, if_cases, Result, leb, Result-cases, zero, Bool-cases, suc, Option-cases, ℕ, ◌<◌, ◌≡◌,
  refl, sym, ap, ◌∙◌, ◌⊎◌, inl, inr, true, false, ◌&&◌, none, List, [], ◌∷◌, arith, ◌==◌, is_some,
  length, length-append, Text,
}
use go_musical_packets.Midi.Scheduler.{
  after_silence, SchedulerConfig, WriteError, new_scheduler, done, live, missing, too_soon, Context,
  panic, admit, close, write, retrigger_and_sound, silence_channels, stop, failed, unavailable,
  sound, sent, message_or_nil, silence_key, send_message, Scheduler, Outcome, find_active,
  delete_active, prune_rate_window, Active,
}

pub data Call : Type 0 where
  writes : Context → ℕ → NoteEvent → Call
  fires : ℕ → ℕ → ℕ → Call
  panics closes : Call

pub Outcome-cases : (o : Outcome) → (o ≡ sent) ⊎ (o ≡ unavailable) ⊎ (o ≡ failed)
Outcome-cases sent = inl refl
Outcome-cases unavailable = inr (inl refl)
Outcome-cases failed = inr (inr refl)

module _ {S : Type 0} (send : S → Text → S × Outcome) where
  send_message-Keeps : (m : Text) (s : Scheduler) (x : S) → Keeps s (send_message send m (s, x)).0
  unfolding send_message
  send_message-Keeps m s x = elim (Outcome-cases (send x m).1) [
    | inl e ↦ rw (e, send_message) (Keeps-refl s)
    | inr (inl e) ↦ rw (e, send_message) (Keeps-clear s)
    | inr (inr e) ↦ rw (e, send_message) (Keeps-clear s)
  ]

  silence_key-Keeps : (c n : ℕ) (s : Scheduler) (x : S) → Keeps s (silence_key send c n (s, x)).0
  unfolding silence_key
  silence_key-Keeps c n s x =
      let m = message_or_nil (note_off c n) in
      let one = send_message-Keeps m s x in
      let (s1, x1, o) = send_message send m (s, x) in
      let two =
        Keeps-trans s s1 _ one (send_message-Keeps (message_or_nil (all_notes_off c)) s1 x1) in
      elim (Outcome-cases (send_message send m (s, x)).2) [
        | inl e ↦ rw (e, silence_key) one
        | inr (inl e) ↦ rw (e, silence_key) two
        | inr (inr e) ↦ rw (e, silence_key) two
      ]

  Keeps-IsScheduler : (s t : Scheduler) → Keeps s t → IsScheduler s → IsScheduler t
  Keeps-IsScheduler s t k v = record {
    keyed = k.still_keyed v.keyed;
    polyphony = omega (arith, k.fewer, k.same_polyphony, v.polyphony);
    rate = omega (arith, ap length k.same_recent, k.same_rate, v.rate);
    silent = λ h.
        nothing_left t.active
          (omega (arith, k.fewer, ap length (v.silent (sym k.same_closed ∙ h))));
  }

  sound-IsScheduler :
      (now : ℕ) (n : NoteEvent) (s : Scheduler) (x : S)
      → IsScheduler s
      → IsNote n
      → s.closed ≡ false
      → length s.recent < s.maximum_notes_per_second
      → length s.active < s.maximum_polyphony
      → find_active n.channel n.note s.active ≡ none
      → IsScheduler (sound send now n (s, x)).0
  unfolding sound
  sound-IsScheduler now n s x v w open_ r p f =
      let m = message_or_nil (note_on n.channel n.note n.velocity) in
      let k = send_message-Keeps m s x in
      let t = (send_message send m (s, x)).0 in
      let kept = Keeps-IsScheduler s t k v in
      elim (Outcome-cases (send_message send m (s, x)).2) [
        | inl e ↦
            rw (e, sound)
              (record {
                keyed = (
                  omega arith,
                  find-delete_same n.channel n.note t.active,
                  Keyed-delete n.channel n.note t.active kept.keyed,
                );
                polyphony = omega (
                  arith,
                  k.fewer,
                  k.same_polyphony,
                  length-delete_active n.channel n.note t.active,
                );
                rate = omega (
                  arith,
                  length-append t.recent (now ∷ []),
                  ap length k.same_recent,
                  k.same_rate,
                );
                silent = λ h. absurd (cc (k.same_closed));
              })
        | inr (inl e) ↦ rw (e, sound) kept
        | inr (inr e) ↦ rw (e, sound) kept
      ]

  find-delete-none :
      (c n c' n' : ℕ) (xs : List Active)
      → find_active c' n' xs ≡ none
      → find_active c' n' (delete_active c n xs) ≡ none
  find-delete-none c n c' n' xs h = ground (arith, find-delete_active c n c' n' xs)

  retrigger-IsScheduler :
      (now : ℕ) (n : NoteEvent) (s : Scheduler) (x : S)
      → IsScheduler s
      → IsNote n
      → s.closed ≡ false
      → length s.recent < s.maximum_notes_per_second
      → is_some (find_active n.channel n.note s.active) ≡ true
      → IsScheduler (retrigger_and_sound send now n (s, x)).0
  unfolding retrigger_and_sound after_silence
  retrigger-IsScheduler now n s x v w open_ r f =
      let q : Scheduler = record s { active = delete_active n.channel n.note s.active } in
      let k = silence_key-Keeps n.channel n.note q x in
      let vq = Keeps-IsScheduler s q (Keeps-delete n.channel n.note s) v in
      let t = (silence_key send n.channel n.note (q, x)).0 in
      let kept = Keeps-IsScheduler q t k vq in
      elim (Outcome-cases (silence_key send n.channel n.note (q, x)).2) [
        | inl e ↦
            rw (e, after_silence)
              (sound-IsScheduler now n t _ kept w (k.same_closed ∙ open_)
                (omega (arith, ap length k.same_recent, k.same_rate))
                (omega (
                  arith,
                  k.fewer,
                  k.same_polyphony,
                  v.polyphony,
                  length-delete_active_found n.channel n.note s.active f,
                ))
                (k.absent n.channel n.note (find-delete_same n.channel n.note s.active)))
        | inr (inl e) ↦ rw (e, after_silence) kept
        | inr (inr e) ↦ rw (e, after_silence) kept
      ]

  pruned-IsScheduler :
      (now : ℕ) (s : Scheduler)
      → IsScheduler s
      → IsScheduler (record s { recent = prune_rate_window now s.recent })
  pruned-IsScheduler now s v = record {
    keyed = v.keyed;
    polyphony = v.polyphony;
    silent = v.silent;
    rate = omega (arith, v.rate, length-prune now s.recent);
  }

  admit-IsScheduler :
      (now : ℕ) (n : NoteEvent) (s : Scheduler) (x : S)
      → IsScheduler s
      → IsNote n
      → IsScheduler (admit send now n (s, x)).0
  unfolding admit
  admit-IsScheduler now n s x v w =
      let p : Scheduler = record s { recent = prune_rate_window now s.recent } in
      let vp = pruned-IsScheduler now s v in
      let current = find_active n.channel n.note s.active in
      let P : Scheduler × S × Result WriteError (Unit {0}) → Type 0 = λ out. IsScheduler out.0 in
      if_cases P s.closed _ _ (λ c. v)
        λ c.
          if_cases P (too_soon s now current) _ _ (λ t. v)
            λ t.
              if_cases P (leb s.maximum_notes_per_second (length p.recent)) _ _ (λ r. vp)
                λ r.
                  if_cases P (not (is_some current) && leb s.maximum_polyphony (length s.active)) _
                    _ (λ l. vp)
                    λ l.
                      if_cases P (is_some current) _ _
                        (λ f. retrigger-IsScheduler now n p x vp w c (ground arith) f)
                        (λ f.
                          sound-IsScheduler now n p x vp w c (ground arith) (ground arith)
                            (ground arith))

  write-IsScheduler :
      (c : Context) (now : ℕ) (n : NoteEvent) (s : Scheduler) (x : S)
      → IsScheduler s
      → IsScheduler (write send c now n (s, x)).0
  unfolding write
  write-IsScheduler missing now n s x v = v
  write-IsScheduler live now n s x v = elim (Result-cases (validate_note n)) [
    | inl (tt, h) ↦ rw (h, write) (admit-IsScheduler now n s x v ((validate_note_iff n).0 h))
    | inr (e, h) ↦ rw (h, write) v
  ]
  write-IsScheduler done now n s x v = elim (Result-cases (validate_note n)) [
    | inl (u, h) ↦ rw (h, write) v
    | inr (e, h) ↦ rw (h, write) v
  ]

  stop-IsScheduler :
      (c n g : ℕ) (s : Scheduler) (x : S) → IsScheduler s → IsScheduler (stop send c n g (s, x)).0
  unfolding stop
  stop-IsScheduler c n g s x v = elim (Option-cases (find_active c n s.active)) [
    | inl h ↦ rw (h, stop) v
    | inr (a, h) ↦
        let q : Scheduler = record s { active = delete_active c n s.active } in
        let kept =
          Keeps-IsScheduler s _ (Keeps-trans s q _ (Keeps-delete c n s) (silence_key-Keeps c n q x))
            v in
        elim (Bool-cases (a.generation == g)) [
          | inl e ↦ rw (h, stop) (rw e kept)
          | inr e ↦ rw (h, stop) (rw e v)
        ]
  ]

  silence_channels-Keeps :
      (k c : ℕ) (s : Scheduler) (x : S) → Keeps s (silence_channels send k c (s, x)).0
  unfolding silence_channels
  silence_channels-Keeps zero c s x = Keeps-refl s
  silence_channels-Keeps (suc k) c s x =
      let m = message_or_nil (all_notes_off c) in
      let (s1, x1, o) = send_message send m (s, x) in
      Keeps-trans s s1 _ (send_message-Keeps m s x) (silence_channels-Keeps k (suc c) s1 x1)

  panic-Keeps : (s : Scheduler) (x : S) → Keeps s (panic send (s, x)).0
  unfolding panic
  panic-Keeps s x =
      Keeps-trans s (record s { active = [] }) _ (Keeps-clear s)
        (silence_channels-Keeps 16 1 (record s { active = [] }) x)

  -- A panic leaves no active note.
  pub panic-silent : (s : Scheduler) (x : S) → (panic send (s, x)).0.active ≡ []
  unfolding panic
  panic-silent s x = nothing_left _ (silence_channels-Keeps 16 1 (record s { active = [] }) x).fewer

  close-IsScheduler : (s : Scheduler) (x : S) → IsScheduler s → IsScheduler (close send (s, x)).0
  unfolding close
  close-IsScheduler s x v =
      let c : Scheduler = record s { closed = true } in
      let k = panic-Keeps c x in
      if_cases (λ (out : Scheduler × S × ℕ). IsScheduler out.0) s.closed _ _ (λ h. v)
        λ h. record {
          keyed = k.still_keyed v.keyed;
          polyphony = omega (arith, k.fewer, k.same_polyphony, v.polyphony);
          rate = omega (arith, ap length k.same_recent, k.same_rate, v.rate);
          silent = λ _. panic-silent c x;
        }

  -- An operation of the scheduler: a Write, a timer callback, a Panic or the Close.
  abbrev pub perform : Call → Scheduler × S → Scheduler × S
  perform (writes c now n) w = let out = write send c now n w in (out.0, out.1)
  perform (fires c n g) w = stop send c n g w
  perform panics w = let out = panic send w in (out.0, out.1)
  perform closes w = let out = close send w in (out.0, out.1)

  abbrev pub run : List Call → Scheduler × S → Scheduler × S
  run [] w = w
  run (c ∷ cs) w = run cs (perform c w)

  panic-IsScheduler : (s : Scheduler) (x : S) → IsScheduler s → IsScheduler (panic send (s, x)).0
  panic-IsScheduler s x v = Keeps-IsScheduler s _ (panic-Keeps s x) v

  pub perform-IsScheduler :
      (c : Call) (s : Scheduler) (x : S) → IsScheduler s → IsScheduler (perform c (s, x)).0
  perform-IsScheduler (writes c now n) s x v = write-IsScheduler c now n s x v
  perform-IsScheduler (fires c n g) s x v = stop-IsScheduler c n g s x v
  perform-IsScheduler panics s x v = panic-IsScheduler s x v
  perform-IsScheduler closes s x v = close-IsScheduler s x v

  pub run-IsScheduler :
      (cs : List Call) (s : Scheduler) (x : S) → IsScheduler s → IsScheduler (run cs (s, x)).0
  run-IsScheduler [] s x v = v
  run-IsScheduler (c ∷ cs) s x v =
      run-IsScheduler cs (perform c (s, x)).0 (perform c (s, x)).1 (perform-IsScheduler c s x v)

  -- After any history of writes, timer callbacks, panics and closes, over a sender that may fail at
  -- any message: no more notes are active than the polyphony, no key is active twice, each key is a
  -- MIDI key, the rate window holds no more notes than the limit, and a closed scheduler is silent.
  pub scheduler_limits :
      (c : SchedulerConfig) (s : Scheduler) (cs : List Call) (x : S)
      → new_scheduler c ≡ ok s
      → IsScheduler (run cs (s, x)).0
  unfolding new_scheduler
  scheduler_limits c s cs x h = run-IsScheduler cs s x (ground arith)
