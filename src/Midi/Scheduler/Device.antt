-- ===== src/Midi/Scheduler/Device.antt =====
-- The scheduler of internal/midi/scheduler.go beside the MIDI receiver that hears its messages.
use go_musical_packets.Music.Note.{validate_note_iff, validate_note, IsNote, NoteEvent}
use go_musical_packets.Midi.Scheduler.Limits.{
  closes, panics, fires, perform-IsScheduler, writes, run, perform, Call,
}
use go_musical_packets.Midi.Scheduler.Keeps.{IsScheduler, Keyed, find-delete_active}
use go_musical_packets.Prelude.{
  subst, ok, ◌∙◌, inr, sym, length, inl, Option-cases, Bool-cases, if_cases, Result-cases, Result,
  ℕ, zero, suc, ◌+◌, ◌≤◌, ◌≡◌, refl, Bool, true, false, not, ◌&&◌, ◌||◌, Option, none, some, List,
  [], ◌∷◌, arith, ltb, leb, ◌==◌, if◌then◌else◌, is_some, Text,
}
use go_musical_packets.Midi.Message.Laws.{
  note_on-receive, note_off-receive, all_notes_off-receive, receive, IsKey, Command, on, off,
  silence,
}
use go_musical_packets.Midi.Scheduler.{
  after_silence, new_scheduler, SchedulerConfig, done, live, missing, too_soon, WriteError,
  prune_rate_window, Context, stop, write, close, admit, retrigger_and_sound, panic, sent,
  delete_active, same_key, send_message, silence_channels, sound, Outcome, silence_key, Scheduler,
  find_active, Active,
}

-- The receiver's state: which notes sound on which channel.
abbrev pub Sounding : Type 0
Sounding = ℕ → ℕ → Bool

abbrev is_at : ℕ → ℕ → ℕ → ℕ → Bool
is_at c n c' n' = (c == c') && (n == n')

abbrev obey : Option Command → Sounding → Sounding
obey none x = x
obey (some (on c n v)) x = λ c' n'. is_at c n c' n' || x c' n'
obey (some (off c n)) x = λ c' n'. not (is_at c n c' n') && x c' n'
obey (some (silence c)) x = λ c' n'. not (c == c') && x c' n'

-- A sender that never fails, with the receiver behind it.
unfoldable pub reliable : Sounding → Text → Sounding × Outcome
reliable x m = (obey (receive m) x, sent)

abbrev pub Faithful : Scheduler × Sounding → Type 0
Faithful (s, x) = (c n : ℕ) → x c n ≡ is_some (find_active c n s.active)

Keyed-find :
    (c n : ℕ) (xs : List Active) → Keyed xs → is_some (find_active c n xs) ≡ true → IsKey c n
unfolding find_active same_key
Keyed-find c n [] k h = absurd (cc)
Keyed-find c n (a ∷ xs) k h = ground (arith, Keyed-find c n xs k.2)

send-reliable :
    (m : Text) (s : Scheduler) (x : Sounding)
    → send_message reliable m (s, x) ≡ (s, obey (receive m) x, sent)
unfolding send_message reliable
send-reliable m s x = refl

silence_key-reliable :
    (c n : ℕ) (s : Scheduler) (x : Sounding)
    → IsKey c n
    → silence_key reliable c n (s, x) ≡ (s, obey (some (off c n)) x, sent)
unfolding silence_key send_message reliable
silence_key-reliable c n s x k = let (m, h, r) = note_off-receive c n k in rw (h, r) refl

sound-reliable :
    (now : ℕ) (n : NoteEvent) (s : Scheduler) (x : Sounding)
    → IsNote n
    → Faithful (s, x)
    → let out = sound reliable now n (s, x) in Faithful (out.0, out.1)
unfolding sound send_message reliable find_active same_key
sound-reliable now n s x w f =
    let (m, h, r) =
      note_on-receive n.channel n.note n.velocity (ground arith) w.velocity_low w.velocity_high in
    rw (h, r) λ c' n'. ground (arith, f c' n', find-delete_active n.channel n.note c' n' s.active)

Faithful-delete :
    (c n : ℕ) (s : Scheduler) (x : Sounding)
    → Faithful (s, x)
    → Faithful (record s { active = delete_active c n s.active }, obey (some (off c n)) x)
Faithful-delete c n s x f = λ c' n'. ground (arith, f c' n', find-delete_active c n c' n' s.active)

silence_channels-reliable :
    (k c : ℕ) (s : Scheduler) (x : Sounding)
    → 1 ≤ c
    → c + k ≤ 17
    → let out = silence_channels reliable k c (s, x) in
      (out.0 ≡ s)
      × ((c' n' : ℕ) → out.1 c' n' ≡ (if leb c c' && ltb c' (c + k) then false else x c' n'))
unfolding silence_channels send_message reliable
silence_channels-reliable zero c s x a b = (refl, λ c' n'. ground arith)
silence_channels-reliable (suc k) c s x a b =
    let (m, h, r) = all_notes_off-receive c a (omega arith) in
    let (p, q) =
      silence_channels-reliable k (suc c) s (obey (some (silence c)) x) (omega arith)
        (omega arith) in
    rw (h, r) (p, λ c' n'. ground (arith, q c' n'))

abbrev OutFaithful : Scheduler × Sounding × Result WriteError (Unit {0}) → Type 0
OutFaithful out = Faithful (out.0, out.1)

retrigger-reliable :
    (now : ℕ) (n : NoteEvent) (s : Scheduler) (x : Sounding)
    → IsNote n
    → Faithful (s, x)
    → OutFaithful (retrigger_and_sound reliable now n (s, x))
unfolding retrigger_and_sound after_silence
retrigger-reliable now n s x w f =
    let q : Scheduler = record s { active = delete_active n.channel n.note s.active } in
    let y : Sounding = obey (some (off n.channel n.note)) x in
    subst (λ t. OutFaithful (after_silence reliable now n t))
      (sym (silence_key-reliable n.channel n.note q x (ground arith)))
      (sound-reliable now n q y w (Faithful-delete n.channel n.note s x f))

admit-reliable :
    (now : ℕ) (n : NoteEvent) (s : Scheduler) (x : Sounding)
    → IsNote n
    → Faithful (s, x)
    → OutFaithful (admit reliable now n (s, x))
unfolding admit
admit-reliable now n s x w f =
    let p : Scheduler = record s { recent = prune_rate_window now s.recent } in
    let current = find_active n.channel n.note s.active in
    if_cases OutFaithful s.closed _ _ (λ c. f)
      λ c.
        if_cases OutFaithful (too_soon s now current) _ _ (λ t. f)
          λ t.
            if_cases OutFaithful (leb s.maximum_notes_per_second (length p.recent)) _ _ (λ r. f)
              λ r.
                if_cases OutFaithful
                  (not (is_some current) && leb s.maximum_polyphony (length s.active)) _ _ (λ l. f)
                  λ l.
                    if_cases OutFaithful (is_some current) _ _
                      (λ g. retrigger-reliable now n p x w f) (λ g. sound-reliable now n p x w f)

write-reliable :
    (c : Context) (now : ℕ) (n : NoteEvent) (s : Scheduler) (x : Sounding)
    → Faithful (s, x)
    → OutFaithful (write reliable c now n (s, x))
unfolding write
write-reliable missing now n s x f = f
write-reliable live now n s x f = elim (Result-cases (validate_note n)) [
  | inl (tt, h) ↦ rw (h, write) (admit-reliable now n s x ((validate_note_iff n).0 h) f)
  | inr (e, h) ↦ rw (h, write) f
]
write-reliable done now n s x f = elim (Result-cases (validate_note n)) [
  | inl (u, h) ↦ rw (h, write) f
  | inr (e, h) ↦ rw (h, write) f
]

stop-reliable :
    (c n g : ℕ) (s : Scheduler) (x : Sounding)
    → IsScheduler s
    → Faithful (s, x)
    → Faithful (stop reliable c n g (s, x))
unfolding stop
stop-reliable c n g s x v f = elim (Option-cases (find_active c n s.active)) [
  | inl h ↦ rw (h, stop) f
  | inr (a, h) ↦
      let q : Scheduler = record s { active = delete_active c n s.active } in
      let k : IsKey c n = Keyed-find c n s.active v.keyed (rw h) in
      rw (h, stop)
        (if_cases Faithful (a.generation == g) _ _
          (λ e. rw (silence_key-reliable c n q x k) (Faithful-delete c n s x f)) (λ e. f))
]

panic-reliable :
    (s : Scheduler) (x : Sounding)
    → Keyed s.active
    → Faithful (s, x)
    → let out = panic reliable (s, x) in Faithful (out.0, out.1) × ((c n : ℕ) → out.1 c n ≡ false)
unfolding panic find_active
panic-reliable s x v f =
    let q : Scheduler = record s { active = [] } in
    let (p, d) = silence_channels-reliable 16 1 q x (omega arith) (omega arith) in
    let quiet : (c n : ℕ) → (silence_channels reliable 16 1 (q, x)).1 c n ≡ false = λ c n.
      elim (Bool-cases (x c n)) [
        | inl t ↦
            let k : IsKey c n = Keyed-find c n s.active v (sym (f c n) ∙ t) in ground (arith, d c n)
        | inr t ↦ ground (arith, d c n)
      ] in
    ((λ c n. rw (p, quiet c n) refl), quiet)

close-reliable :
    (s : Scheduler) (x : Sounding)
    → IsScheduler s
    → Faithful (s, x)
    → let out = close reliable (s, x) in Faithful (out.0, out.1) × ((c n : ℕ) → out.1 c n ≡ false)
unfolding close
close-reliable s x v f =
    if_cases
      (λ (out : Scheduler × Sounding × ℕ).
        Faithful (out.0, out.1) × ((c n : ℕ) → out.1 c n ≡ false))
      s.closed _ _ (λ h. (f, λ c n. unfold find_active in ground (arith, f c n, v.silent h)))
      (λ h. panic-reliable (record s { closed = true }) x v.keyed f)

perform-reliable :
    (c : Call) (s : Scheduler) (x : Sounding)
    → IsScheduler s
    → Faithful (s, x)
    → Faithful (perform reliable c (s, x))
perform-reliable (writes c now n) s x v f = write-reliable c now n s x f
perform-reliable (fires c n g) s x v f = stop-reliable c n g s x v f
perform-reliable panics s x v f = (panic-reliable s x v.keyed f).0
perform-reliable closes s x v f = (close-reliable s x v f).0

run-reliable :
    (cs : List Call) (s : Scheduler) (x : Sounding)
    → IsScheduler s
    → Faithful (s, x)
    → Faithful (run reliable cs (s, x)) × IsScheduler (run reliable cs (s, x)).0
run-reliable [] s x v f = (f, v)
run-reliable (c ∷ cs) s x v f =
    run-reliable cs (perform reliable c (s, x)).0 (perform reliable c (s, x)).1
      (perform-IsScheduler reliable c s x v) (perform-reliable c s x v f)

abbrev pub quiet : Sounding
quiet c n = false

new-Faithful :
    (c : SchedulerConfig) (s : Scheduler)
    → new_scheduler c ≡ ok s
    → IsScheduler s × Faithful (s, quiet)
unfolding new_scheduler find_active
new-Faithful c s h = (ground arith, λ c' n'. ground arith)

-- After any history of writes, timer callbacks and panics over a sender that does not fail, a note
-- sounds at the receiver exactly if the scheduler holds it active; a panic or a close at that point
-- leaves nothing sounding at all.
pub scheduler_owns_notes :
    (c : SchedulerConfig) (s : Scheduler) (cs : List Call)
    → new_scheduler c ≡ ok s
    → let w = run reliable cs (s, quiet) in
      ((ch n : ℕ) → w.1 ch n ≡ is_some (find_active ch n w.0.active))
      × ((ch n : ℕ) → (panic reliable w).1 ch n ≡ false)
      × ((ch n : ℕ) → (close reliable w).1 ch n ≡ false)
scheduler_owns_notes c s cs h =
    let (v0, f0) = new-Faithful c s h in
    let (f, v) = run-reliable cs s quiet v0 f0 in
    let w = run reliable cs (s, quiet) in
    (f, (panic-reliable w.0 w.1 v.keyed f).1, (close-reliable w.0 w.1 v f).1)
