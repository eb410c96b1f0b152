-- ===== src/Peer/Protocol/Validity.antt =====
-- validateEvent, NoteFromEvent and Note.Event of internal/peer/protocol.go.
use go_musical_packets.Music.Mapper.{flow_mode_v1}
use go_musical_packets.Music.Mode.Laws.{parse_mode_iff}
use go_musical_packets.Music.Mode.{parse_mode, mode_string, Mode}
use go_musical_packets.Music.Note.{validate_note_iff, IsNote, validate_note, NoteEvent}
use go_musical_packets.Peer.Protocol.{
  all_hex, event_if, maximum_duration_ms, safe_identifier, wire_note, negated, WireNote, event_in,
  note_of_event, milliseconds, validate_event, magnitude, event_of_note, Unicode,
}
use go_musical_packets.Prelude.{
  ℕ, zero, suc, ◌*◌, ◌/◌, ◌%◌, ◌^◌, ◌≤◌, ◌<◌, ◌≡◌, refl, sym, ap, ◌∙◌, subst, ◌↔◌, inl, inr, true,
  false, ◌||◌, Option, none, some, arith, Bool-cases, length, ok, ◌>>◌, Result-cases, ℤ, pos,
  negsuc, ltb_ℤ, leb_ℤ, to_ℕ, text_eq,
}

module _ (u : Unicode) where
  -- A note event that the protocol carries.
  pub record IsCarried (e : NoteEvent) : Type 0 where
    pub playable : IsNote e
    pub id_safe : safe_identifier u e.id 256 ≡ true
    pub origin_safe : safe_identifier u e.origin 128 ≡ true
    pub flow_length : length e.flow_id ≡ 24
    pub flow_hex : all_hex e.flow_id ≡ true
    pub version_known : text_eq e.mapping_version flow_mode_v1 ≡ true
    pub numbered : 1 ≤ e.sequence
    pub dated : 1 ≤ e.created_at
    pub lasting : (n : ℕ) × (e.duration ≡ pos (n * 1000000)) × (1 ≤ n)

  lasts_in_milliseconds :
      (d : ℤ)
      → magnitude d % 1000000 ≡ 0
      → leb_ℤ (milliseconds d) (pos 0) ≡ false
      → (n : ℕ) × (d ≡ pos (n * 1000000)) × (1 ≤ n)
  lasts_in_milliseconds (pos n) h k = (n / 1000000, ap pos (omega (arith, h)), ground (arith, k))
  lasts_in_milliseconds (negsuc n) h k = absurd (never (suc n / 1000000) k)
    where
      never : (m : ℕ) → leb_ℤ (negated m) (pos 0) ≡ false → ⊥
      never zero j = ground (arith, j)
      never (suc m) j = ground (arith, j)

  pub validate_event-IsCarried : (e : NoteEvent) → validate_event u e ≡ ok tt → IsCarried e
  unfolding validate_event
  validate_event-IsCarried e h = elim (Result-cases (validate_note e)) [
    | inr (_, k) ↦ absurd (ground (arith, h, k))
    | inl (_, k) ↦ record {
      playable = (validate_note_iff e).0 k;
      id_safe = ground (arith, h, k);
      origin_safe = ground (arith, h, k);
      flow_length = ground (arith, h, k);
      flow_hex = ground (arith, h, k);
      version_known = ground (arith, h, k);
      numbered = ground (arith, h, k);
      dated = ground (arith, h, k);
      lasting = lasts_in_milliseconds e.duration (ground (arith, h, k)) (ground (arith, h, k));
    }
  ]

  milliseconds-times : (n : ℕ) → milliseconds (pos (n * 1000000)) ≡ pos n
  milliseconds-times n = ap pos (omega arith)

  wire_note-event_in :
      (mode : Mode) (n : WireNote)
      → mode_string mode ≡ n.mode
      → leb_ℤ n.duration_ms (pos 0) ≡ false
      → wire_note u (event_in u mode n) ≡ n
  wire_note-event_in mode n h k = λ i. record n {
    mode = h i;
    duration_ms = (milliseconds-times (to_ℕ n.duration_ms) ∙ back n.duration_ms k) i;
  }
    where
      back : (d : ℤ) → leb_ℤ d (pos 0) ≡ false → pos (to_ℕ d) ≡ d
      back (pos m) j = refl
      back (negsuc m) j = absurd (ground (arith, j))

  event_in-wire_note :
      (e : NoteEvent) (m : ℕ)
      → e.duration ≡ pos (m * 1000000)
      → event_in u e.mode (wire_note u e) ≡ e
  event_in-wire_note e m h = λ i. record e {
    duration =
        (ap (λ d. pos (to_ℕ d * 1000000)) (ap milliseconds h ∙ milliseconds-times m) ∙ sym h) i;
  }

  event_if-inverse :
      (n : WireNote) (e : NoteEvent) (o : Option Mode)
      → parse_mode n.mode ≡ o
      → leb_ℤ n.duration_ms (pos 0) ≡ false
      → event_if u n o ≡ ok e
      → note_of_event u e ≡ ok n
  unfolding note_of_event
  event_if-inverse n e none h k j = absurd (ground (arith, j))
  event_if-inverse n e (some mode) h k j =
      elim (Result-cases (validate_event u (event_in u mode n))) [
        | inr (_, v) ↦ absurd (ground (arith, j, v))
        | inl (_, v) ↦
            let same : event_in u mode n ≡ e = ground (arith, j, v) in
            subst (λ e'. (validate_event u e' >> ok (wire_note u e')) ≡ ok n) same
              (rw (v) (ap ok (wire_note-event_in mode n ((parse_mode_iff n.mode mode).0 h).1 k)))
      ]

  -- A note that the receiver accepts is the one that the sender sent, and what the sender accepts the
  -- receiver reads back unchanged: Note.Event gives an event exactly for the note that NoteFromEvent
  -- makes of it, for durations that fit int64.
  pub event_of_note_iff :
      (n : WireNote) (e : NoteEvent)
      → magnitude e.duration < 2 ^ 63
      → (event_of_note u n ≡ ok e) ↔ (note_of_event u e ≡ ok n)
  unfolding event_of_note note_of_event
  event_of_note_iff n e h = (
    λ k.
        elim (Bool-cases
          (leb_ℤ n.duration_ms (pos 0) || ltb_ℤ (pos maximum_duration_ms) n.duration_ms)) [
            | inl j ↦ absurd (ground (arith, k, j))
            | inr j ↦
                event_if-inverse n e (parse_mode n.mode) refl (ground (arith, j))
                  (ground (arith, k, j))
          ],
    λ k. elim (Result-cases (validate_event u e)) [
      | inr (_, v) ↦ absurd (ground (arith, k, v))
      | inl (_, v) ↦
          let c = validate_event-IsCarried e v in
          let (m, lasts, some_) = c.lasting in
          let same : wire_note u e ≡ n = ground (arith, k, v) in
          let ms : milliseconds e.duration ≡ pos m = ap milliseconds lasts ∙ milliseconds-times m in
          let small : m ≤ maximum_duration_ms =
            omega (arith, subst (λ d. magnitude d < 2 ^ 63) lasts h) in
          let positive : (leb_ℤ (milliseconds e.duration) (pos 0)
                || ltb_ℤ (pos maximum_duration_ms) (milliseconds e.duration))
              ≡ false =
            rw (ms) (ground (arith, some_, small)) in
          let checked : event_if u (wire_note u e) (some e.mode) ≡ ok e =
            subst (λ e'. (validate_event u e' >> ok e') ≡ ok e) (sym (event_in-wire_note e m lasts))
              (rw (v) refl) in
          let parsed =
            (parse_mode_iff (mode_string e.mode) e.mode).1 (c.playable.mode_known, refl) in
          subst (λ w. event_of_note u w ≡ ok e) same (rw (positive, parsed) checked)
    ],
  )
