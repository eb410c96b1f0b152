-- ===== src/Peer/Host/Delivery.antt =====
-- The way of a note through acceptNote of internal/peer/host.go.
use go_musical_packets.Peer.Window.{duplicate, Window}
use go_musical_packets.Music.Note.{NoteEvent}
use go_musical_packets.Peer.Host.{
  origin_mismatch, note_stale, stale, note_duplicate, note_early, note_invalid, duplicated,
  rejected, record_result, deliver, accept_parsed, NoteFailure, sink_answer, note_key, Answer,
  accept_event, accept_note, Host, HostConfig,
}
use go_musical_packets.Peer.Protocol.{event_of_note, PeerError, WireNote, Unicode}
use go_musical_packets.Prelude.{
  ℕ, ◌+◌, ◌≤◌, ◌≡◌, refl, ◌↔◌, ◌⊎◌, inl, inr, Bool, true, false, not, arith, ltb, if◌then◌else◌,
  if_cases, Result, ok, err, to_ℕ, Text, text_eq,
}

module _ (u : Unicode) (c : HostConfig) {S : Type 0} (sink : S → NoteEvent → S × Bool) where
  abbrev test : Text → ℕ → Host → Window × Bool
  test key now h = duplicate (to_ℕ c.duplicate_capacity) (to_ℕ c.recent_ttl) key now h.window

  -- A valid note of the edge itself, neither stale nor too early, that is new to the window.
  pub record Admitted (id : Text) (n : WireNote) (now : ℕ) (h : Host) (e : NoteEvent) : Type 0 where
    pub given : event_of_note u n ≡ ok e
    pub own : text_eq e.origin id ≡ true
    pub recent : now ≤ e.created_at + to_ℕ c.stale_after
    pub due : e.created_at ≤ now + to_ℕ c.stale_after
    pub fresh : (test (note_key e) now h).1 ≡ false

  sink_answer-Taken :
      (id : Text) (generation : ℕ) (e : NoteEvent) (later : ℕ) (h : Host) (p : S × Bool)
      → ((sink_answer u c sink id generation e later h p).2 ≡ ok tt) ↔ (p.1 ≡ true)
  sink_answer-Taken id generation e later h (s, true) = (λ _. refl, λ _. refl)
  sink_answer-Taken id generation e later h (s, false) =
      (λ k. absurd (ground (arith, k)), λ k. absurd (ground (arith, k)))

  sink_answer-state :
      (id : Text) (generation : ℕ) (e : NoteEvent) (later : ℕ) (h : Host) (p : S × Bool)
      → (sink_answer u c sink id generation e later h p).1 ≡ p.0
  sink_answer-state id generation e later h (s, true) = refl
  sink_answer-state id generation e later h (s, false) = refl

  -- Where the sink's state and the answer of a delivery come from.
  record Outcome (admitted : NoteEvent → Type 0) (s : S) (w : Answer u c sink) : Type 0 where
    accepted_by : w.2 ≡ ok tt → (e : NoteEvent) × admitted e × ((sink s e).1 ≡ true)
    reached : (w.1 ≡ s) ⊎ ((e : NoteEvent) × admitted e × (w.1 ≡ (sink s e).0))

  refused :
      (admitted : NoteEvent → Type 0) (s : S) (h : Host) (f : NoteFailure)
      → Outcome admitted s (h, s, err f)
  refused admitted s h f = record {
    accepted_by = λ k. absurd (ground (arith, k));
    reached = inl refl;
  }

  deliver-Outcome :
      (admitted : NoteEvent → Type 0) (id : Text) (generation : ℕ) (e : NoteEvent) (later : ℕ)
      (h : Host) (s : S) (d : Window × Bool)
      → (d.1 ≡ false → admitted e)
      → Outcome admitted s (deliver u c sink id generation e later h s d)
  deliver-Outcome admitted id generation e later h s (w, true) a =
      refused admitted s
        (record_result id generation duplicated e.channel later (record h { window = w }))
        note_duplicate
  deliver-Outcome admitted id generation e later h s (w, false) a = record {
    accepted_by = λ k. (
      e,
      a refl,
      (sink_answer-Taken id generation e later (record h { window = w }) (sink s e)).0 k,
    );
    reached =
        inr
          (e, a refl, sink_answer-state id generation e later (record h { window = w }) (sink s e));
  }

  accept_event-Outcome :
      (admitted : NoteEvent → Type 0) (id : Text) (generation : ℕ) (e : NoteEvent) (now later : ℕ)
      (h : Host) (s : S)
      → (text_eq e.origin id ≡ true
          → now ≤ e.created_at + to_ℕ c.stale_after
          → e.created_at ≤ now + to_ℕ c.stale_after
          → (test (note_key e) now h).1 ≡ false
          → admitted e)
      → Outcome admitted s (accept_event u c sink id generation e now later h s)
  unfolding accept_event
  accept_event-Outcome admitted id generation e now later h s a =
      let delivered = deliver u c sink id generation e later h s (test (note_key e) now h) in
      let early : Answer u c sink =
        (record_result id generation rejected e.channel later h, s, err note_early) in
      let old : Answer u c sink =
        (record_result id generation stale e.channel later h, s, err note_stale) in
      let third = if ltb (now + to_ℕ c.stale_after) e.created_at then early else delivered in
      let second = if ltb (e.created_at + to_ℕ c.stale_after) now then old else third in
      if_cases (Outcome admitted s) (not (text_eq e.origin id))
        (record_result id generation rejected 0 later h, s, err origin_mismatch) second
        (λ _. refused admitted s (record_result id generation rejected 0 later h) origin_mismatch)
        (λ own.
          if_cases (Outcome admitted s) (ltb (e.created_at + to_ℕ c.stale_after) now) old third
            (λ _.
              refused admitted s (record_result id generation stale e.channel later h) note_stale)
            (λ recent.
              if_cases (Outcome admitted s) (ltb (now + to_ℕ c.stale_after) e.created_at) early
                delivered
                (λ _.
                  refused admitted s (record_result id generation rejected e.channel later h)
                    note_early)
                (λ due.
                  deliver-Outcome admitted id generation e later h s (test (note_key e) now h)
                    (λ fresh.
                      a (ground (arith, own)) (ground (arith, recent)) (ground (arith, due))
                        fresh))))

  accept_parsed-Outcome :
      (id : Text) (generation : ℕ) (n : WireNote) (r : Result PeerError NoteEvent) (now later : ℕ)
      (h : Host) (s : S)
      → event_of_note u n ≡ r
      → Outcome (Admitted id n now h) s (accept_parsed u c sink id generation r now later h s)
  accept_parsed-Outcome id generation n (err e) now later h s k =
      refused (Admitted id n now h) s (record_result id generation rejected 0 later h)
        (note_invalid e)
  accept_parsed-Outcome id generation n (ok e) now later h s k =
      accept_event-Outcome (Admitted id n now h) id generation e now later h s
        (λ own recent due fresh. record {
          given = k;
          own = own;
          recent = recent;
          due = due;
          fresh = fresh;
        })

  Admitted-taken :
      (id : Text) (generation : ℕ) (n : WireNote) (now later : ℕ) (h : Host) (s : S) (e : NoteEvent)
      → Admitted id n now h e
      → (sink s e).1 ≡ true
      → (accept_note u c sink id generation n now later h s).2 ≡ ok tt
  unfolding accept_note accept_event
  Admitted-taken id generation n now later h s e a k =
      let recent : ltb (e.created_at + to_ℕ c.stale_after) now ≡ false = ground (arith, a.recent) in
      let due : ltb (now + to_ℕ c.stale_after) e.created_at ≡ false = ground (arith, a.due) in
      rw (a.given, a.own, recent, due, a.fresh, k) refl

  -- A note is accepted exactly if it is valid and the edge's own, neither stale nor too far in the
  -- future, new to the window of late notes, and the sink takes it; the sink meets no other note.
  pub accept_note_iff :
      (id : Text) (generation : ℕ) (n : WireNote) (now later : ℕ) (h : Host) (s : S)
      → let (_, s', r) = accept_note u c sink id generation n now later h s in
        ((r ≡ ok tt) ↔ ((e : NoteEvent) × Admitted id n now h e × ((sink s e).1 ≡ true)))
        × ((s' ≡ s) ⊎ ((e : NoteEvent) × Admitted id n now h e × (s' ≡ (sink s e).0)))
  unfolding accept_note
  accept_note_iff id generation n now later h s =
      let o = accept_parsed-Outcome id generation n (event_of_note u n) now later h s refl in
      ((o.accepted_by, λ k. Admitted-taken id generation n now later h s k.0 k.1 k.2), o.reached)
