-- ===== src/Peer/Calls/Once.antt =====
-- Sequences of calls to a host: repeated notes.
use go_musical_packets.Peer.Calls.Histories.{deliver-window, call-window}
use go_musical_packets.Peer.Calls.Limits.{run_host-bounds, new_host-Started}
use go_musical_packets.Peer.Host.Delivery.{accept_note_iff, Admitted}
use go_musical_packets.Peer.Window.Once.{duplicate-new, duplicate-Holding, duplicate-known, Holding}
use go_musical_packets.Peer.Window.Queue.{IsWindow}
use go_musical_packets.Peer.Calls.{host_call, checked_at, run_host, HostCall}
use go_musical_packets.Peer.Window.{duplicate, Window}
use go_musical_packets.Music.Note.{NoteEvent}
use go_musical_packets.Peer.Host.{note_key, accept_event, new_host, accept_note, Host, HostConfig}
use go_musical_packets.Peer.Protocol.{event_of_note, WireNote, Unicode}
use go_musical_packets.Prelude.{
  ℕ, zero, suc, ◌+◌, ◌-◌, ◌≤◌, ◌<◌, ◌≡◌, ap, ◌∙◌, subst, ◌≢◌, inl, inr, Bool, false, some, List, [],
  ◌∷◌, arith, ltb, length, All, ok, to_ℕ, Text,
}

module _ (u : Unicode) (c : HostConfig) {S : Type 0} (sink : S → NoteEvent → S × Bool) where
  abbrev capacity : ℕ
  capacity = to_ℕ c.duplicate_capacity

  Holding-less :
      (key : Text) (time spare : ℕ) (w : Window)
      → Holding capacity key time (suc spare) w
      → Holding capacity key time spare w
  Holding-less key time spare w k = record {
    older = k.older;
    newer = k.newer;
    held = k.held;
    room = omega (arith, k.room);
  }

  call-Holding :
      (key : Text) (time spare : ℕ) (call : HostCall) (h : Host) (s : S)
      → checked_at call ≤ time + to_ℕ c.recent_ttl
      → Holding capacity key time (suc spare) h.window
      → Holding capacity key time spare (host_call u c sink call h s).0.window
  call-Holding key time spare call h s l k =
      call-window u c sink (Holding (to_ℕ c.duplicate_capacity) key time spare) call h s
        (Holding-less key time spare h.window k)
        (λ other.
          duplicate-Holding (to_ℕ c.duplicate_capacity) (to_ℕ c.recent_ttl) (checked_at call) time
            spare key other h.window k l)

  run-Holding :
      (key : Text) (time spare : ℕ) (calls : List HostCall) (h : Host) (s : S)
      → All (λ call. checked_at call ≤ time + to_ℕ c.recent_ttl) calls
      → Holding capacity key time (length calls + spare) h.window
      → Holding capacity key time spare (run_host u c sink calls h s).0.window
  unfolding run_host
  run-Holding key time spare [] h s l k =
      subst (λ n. Holding capacity key time n h.window) (omega arith) k
  run-Holding key time spare (call ∷ calls) h s l k =
      let (h', s') = host_call u c sink call h s in
      run-Holding key time spare calls h' s' l.1 (
        call-Holding key time (length calls + spare) call h s l.0
          (subst (λ n. Holding capacity key time n h.window) (omega arith) k))

  -- A note that was delivered is held.
  delivered-Holding :
      (id : Text) (generation : ℕ) (n : WireNote) (e : NoteEvent) (now later : ℕ) (h : Host) (s : S)
      → 1 ≤ to_ℕ c.duplicate_capacity
      → IsWindow (to_ℕ c.duplicate_capacity) h.window
      → Admitted u c sink id n now h e
      → Holding capacity
          (note_key e)
          now
          (capacity - 1)
          (accept_note u c sink id generation n now later h s).0.window
  unfolding accept_note accept_event
  delivered-Holding id generation n e now later h s l w a =
      let d = duplicate (to_ℕ c.duplicate_capacity) (to_ℕ c.recent_ttl) (note_key e) now h.window in
      let recent : ltb (e.created_at + to_ℕ c.stale_after) now ≡ false = ground (arith, a.recent) in
      let due : ltb (now + to_ℕ c.stale_after) e.created_at ≡ false = ground (arith, a.due) in
      let held : Holding (to_ℕ c.duplicate_capacity) (note_key e) now
          (to_ℕ c.duplicate_capacity - 1) d.0 =
        duplicate-new-at (to_ℕ c.duplicate_capacity) l w a.fresh in
      rw (a.given, a.own, recent, due)
        (deliver-window u c sink
          (Holding (to_ℕ c.duplicate_capacity) (note_key e) now (to_ℕ c.duplicate_capacity - 1)) id
          generation e later h s d held)
    where
      duplicate-new-at :
          (n' : ℕ)
          → 1 ≤ n'
          → IsWindow n' h.window
          → (duplicate n' (to_ℕ c.recent_ttl) (note_key e) now h.window).1 ≡ false
          → Holding n'
              (note_key e)
              now
              (n' - 1)
              (duplicate n' (to_ℕ c.recent_ttl) (note_key e) now h.window).0
      duplicate-new-at zero i j k = absurd (omega (arith, i))
      duplicate-new-at (suc m) i j k =
          subst
            (λ t.
              Holding (suc m) (note_key e) now t
                (duplicate (suc m) (to_ℕ c.recent_ttl) (note_key e) now h.window).0)
            (omega arith) (duplicate-new m (to_ℕ c.recent_ttl) now (note_key e) h.window j k)

  event_same :
      (n : WireNote) (a b : NoteEvent) → event_of_note u n ≡ ok a → event_of_note u n ≡ ok b → a ≡ b
  event_same n a b h k = ground (arith, h, k)

  -- No note with a key that is held is admitted.
  held_refused :
      (id : Text) (n : WireNote) (e : NoteEvent) (key : Text) (time spare now : ℕ) (h : Host)
      → Holding (to_ℕ c.duplicate_capacity) key time spare h.window
      → now ≤ time + to_ℕ c.recent_ttl
      → note_key e ≡ key
      → ¬ Admitted u c sink id n now h e
  held_refused id n e key time spare now h k l same a =
      let known =
        duplicate-known (to_ℕ c.duplicate_capacity) (to_ℕ c.recent_ttl) now time spare key h.window
          k l in
      let fresh =
        subst
          (λ t.
            (duplicate (to_ℕ c.duplicate_capacity) (to_ℕ c.recent_ttl) t now h.window).1 ≡ false)
          same a.fresh in
      absurd (ground (arith, known, fresh))

  -- After any calls to a host that NewHost made, let the host accept a note. Then after fewer other
  -- calls than the duplicate capacity, whose times are no later than that of the note by more than the
  -- time to live, a note with the same key (the edge and the ID) is not accepted, and the sink does
  -- not meet it.
  pub accept_note_once :
      (h₀ : Host) (s₀ : S) (before after : List HostCall) (id id' : Text)
      (generation generation' : ℕ) (n n' : WireNote) (e e' : NoteEvent) (now later now' later' : ℕ)
      → new_host u c ≡ some h₀
      → let (h, s) = run_host u c sink before h₀ s₀ in
        let (h', s', r) = accept_note u c sink id generation n now later h s in
        let (h₂, s₂) = run_host u c sink after h' s' in
        r ≡ ok tt
        → event_of_note u n ≡ ok e
        → event_of_note u n' ≡ ok e'
        → note_key e' ≡ note_key e
        → length after < to_ℕ c.duplicate_capacity
        → All (λ call. checked_at call ≤ now + to_ℕ c.recent_ttl) after
        → now' ≤ now + to_ℕ c.recent_ttl
        → let (_, s₃, r') = accept_note u c sink id' generation' n' now' later' h₂ s₂ in
          (r' ≢ ok tt) × (s₃ ≡ s₂)
  accept_note_once h₀ s₀ before after id id' generation generation' n n' e e' now later now' later'
        new_ taken is_e is_e' same few times time =
      let (h, s) = run_host u c sink before h₀ s₀ in
      let (h', s', _) = accept_note u c sink id generation n now later h s in
      let (h₂, s₂) = run_host u c sink after h' s' in
      let started = new_host-Started u c h₀ new_ in
      let (_, _, window) = run_host-bounds u c sink h₀ before s₀ new_ in
      let (e₁, admitted, _) = (accept_note_iff u c sink id generation n now later h s).0.0 taken in
      let key : note_key e' ≡ note_key e₁ =
        same ∙ ap (λ t. note_key t) (event_same n e e₁ is_e admitted.given) in
      let spare = to_ℕ c.duplicate_capacity - 1 - length after in
      let held =
        delivered-Holding id generation n e₁ now later h s started.some_notes window admitted in
      let still = run-Holding (note_key e₁) now spare after h' s' times (
        subst (λ t. Holding (to_ℕ c.duplicate_capacity) (note_key e₁) now t h'.window)
          (omega (arith, few)) held) in
      let refused : (x : NoteEvent) → ¬ Admitted u c sink id' n' now' h₂ x = λ x a.
        held_refused id' n' x (note_key e₁) now spare now' h₂ still time
          (ap (λ t. note_key t) (event_same n' x e' a.given is_e') ∙ key) a in
      let answer = accept_note_iff u c sink id' generation' n' now' later' h₂ s₂ in
      (
        λ k. refused (answer.0.0 k).0 (answer.0.0 k).1,
        elim answer.1 [ inl kept ↦ kept | inr (x, a, _) ↦ absurd (refused x a) ],
      )
