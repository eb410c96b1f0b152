-- ===== src/Peer/Protocol/Messages.antt =====
-- Message.Validate of internal/peer/protocol.go.
use go_musical_packets.Music.Mapper.{flow_mode_v1}
use go_musical_packets.Config.Settings.{role_host, role_edge}
use go_musical_packets.Music.Note.{NoteEvent}
use go_musical_packets.Peer.Protocol.{
  event_of_note, payload_missing, error_invalid, type_hello, type_pong, type_error, safe_identifier,
  protocol_version, type_ping, or_missing, type_note, check_note, validate_message, PeerError,
  validate_payload, ProtocolError, Hello, validate_heartbeat, WireNote, payload_count_of,
  validate_error, validate_hello, Message, Heartbeat, Unicode, present,
}
use go_musical_packets.Prelude.{
  ◌≤◌, ◌≡◌, refl, ap, ◌↔◌, inl, inr, true, false, ◌||◌, Option, none, some, arith, Bool-cases,
  length, Result, ok, Result-cases, Text, text_eq, is_empty, text_eq→eq,
}

-- The type and all the payloads of a message.
pub record Holds (m : Message) (type : Text) (hello : Option Hello) (note : Option WireNote)
    (ping pong : Option Heartbeat) (error : Option ProtocolError) : Type 0 where
  pub type_same : m.type ≡ type
  pub hello_same : m.hello ≡ hello
  pub note_same : m.note ≡ note
  pub ping_same : m.ping ≡ ping
  pub pong_same : m.pong ≡ pong
  pub error_same : m.error ≡ error

pub record IsHeartbeat (h : Heartbeat) : Type 0 where
  pub numbered : 1 ≤ h.nonce
  pub dated : 1 ≤ h.sent_at

present-none : {A : Type 0} (o : Option A) → present o ≡ 0 → o ≡ none
present-none none h = refl
present-none (some a) h = absurd (ground (arith, h))

module _ (u : Unicode) where
  pub record IsHello (h : Hello) : Type 0 where
    pub id_safe : safe_identifier u h.instance_id 128 ≡ true
    pub role_known : (text_eq h.role role_edge || text_eq h.role role_host) ≡ true
    pub version_known : text_eq h.mapping_version flow_mode_v1 ≡ true

  pub record IsError (e : ProtocolError) : Type 0 where
    pub code_safe : safe_identifier u e.code 64 ≡ true
    pub detail_given : is_empty (u.trim_space e.detail) ≡ false
    pub detail_short : length e.detail ≤ 256

  -- One payload, that of the type, which is valid.
  pub data IsMessage (m : Message) : Type 0 where
    is_hello :
        (h : Hello) → Holds m type_hello (some h) none none none none → IsHello h → IsMessage m
    is_note :
        (n : WireNote) (e : NoteEvent)
        → Holds m type_note none (some n) none none none
        → event_of_note u n ≡ ok e
        → IsMessage m
    is_ping :
        (h : Heartbeat)
        → Holds m type_ping none none (some h) none none
        → IsHeartbeat h
        → IsMessage m
    is_pong :
        (h : Heartbeat)
        → Holds m type_pong none none none (some h) none
        → IsHeartbeat h
        → IsMessage m
    is_error :
        (e : ProtocolError)
        → Holds m type_error none none none none (some e)
        → IsError e
        → IsMessage m

  validate_hello_iff : (h : Hello) → (validate_hello u h ≡ ok tt) ↔ IsHello h
  unfolding validate_hello
  validate_hello_iff h = (λ k. ground arith, λ v. ground arith)

  validate_error_iff : (e : ProtocolError) → (validate_error u e ≡ ok tt) ↔ IsError e
  unfolding validate_error
  validate_error_iff e = (λ k. ground arith, λ v. ground arith)

  validate_heartbeat_iff : (h : Heartbeat) → (validate_heartbeat u h ≡ ok tt) ↔ IsHeartbeat h
  unfolding validate_heartbeat
  validate_heartbeat_iff h = (λ k. ground arith, λ v. ground arith)

  or_missing-some :
      {A : Type 0} (e : PeerError) (check : A → Result PeerError (Unit {0})) (o : Option A)
      → or_missing u e check o ≡ ok tt
      → (a : A) × (o ≡ some a) × (check a ≡ ok tt)
  or_missing-some e check none h = absurd (ground (arith, h))
  or_missing-some e check (some a) h = (a, refl, h)

  note_given :
      (n : WireNote) → check_note u n ≡ ok tt → (e : NoteEvent) × (event_of_note u n ≡ ok e)
  note_given n h = elim (Result-cases (event_of_note u n)) [
    | inr (_, k) ↦ absurd (ground (arith, h, k))
    | inl (e, k) ↦ (e, k)
  ]

  module _ (m : Message) where
    hello_part :
        m.type ≡ type_hello
        → payload_count_of u m ≡ 1
        → or_missing u payload_missing (validate_hello u) m.hello ≡ ok tt
        → IsMessage m
    unfolding payload_count_of
    hello_part t c h =
        let (a, is, v) = or_missing-some payload_missing (validate_hello u) m.hello h in
        let one : present m.hello ≡ 1 = ap present is in
        is_hello a
          (record {
            type_same = t;
            hello_same = is;
            note_same = present-none m.note (omega (arith, c, one));
            ping_same = present-none m.ping (omega (arith, c, one));
            pong_same = present-none m.pong (omega (arith, c, one));
            error_same = present-none m.error (omega (arith, c, one));
          })
          ((validate_hello_iff a).0 v)

    note_part :
        m.type ≡ type_note
        → payload_count_of u m ≡ 1
        → or_missing u payload_missing (check_note u) m.note ≡ ok tt
        → IsMessage m
    unfolding payload_count_of
    note_part t c h =
        let (a, is, v) = or_missing-some payload_missing (check_note u) m.note h in
        let one : present m.note ≡ 1 = ap present is in
        let (e, given) = note_given a v in
        is_note a e
          (record {
            type_same = t;
            note_same = is;
            hello_same = present-none m.hello (omega (arith, c, one));
            ping_same = present-none m.ping (omega (arith, c, one));
            pong_same = present-none m.pong (omega (arith, c, one));
            error_same = present-none m.error (omega (arith, c, one));
          })
          given

    ping_part :
        m.type ≡ type_ping
        → payload_count_of u m ≡ 1
        → or_missing u payload_missing (validate_heartbeat u) m.ping ≡ ok tt
        → IsMessage m
    unfolding payload_count_of
    ping_part t c h =
        let (a, is, v) = or_missing-some payload_missing (validate_heartbeat u) m.ping h in
        let one : present m.ping ≡ 1 = ap present is in
        is_ping a
          (record {
            type_same = t;
            ping_same = is;
            hello_same = present-none m.hello (omega (arith, c, one));
            note_same = present-none m.note (omega (arith, c, one));
            pong_same = present-none m.pong (omega (arith, c, one));
            error_same = present-none m.error (omega (arith, c, one));
          })
          ((validate_heartbeat_iff a).0 v)

    pong_part :
        m.type ≡ type_pong
        → payload_count_of u m ≡ 1
        → or_missing u payload_missing (validate_heartbeat u) m.pong ≡ ok tt
        → IsMessage m
    unfolding payload_count_of
    pong_part t c h =
        let (a, is, v) = or_missing-some payload_missing (validate_heartbeat u) m.pong h in
        let one : present m.pong ≡ 1 = ap present is in
        is_pong a
          (record {
            type_same = t;
            pong_same = is;
            hello_same = present-none m.hello (omega (arith, c, one));
            note_same = present-none m.note (omega (arith, c, one));
            ping_same = present-none m.ping (omega (arith, c, one));
            error_same = present-none m.error (omega (arith, c, one));
          })
          ((validate_heartbeat_iff a).0 v)

    error_part :
        m.type ≡ type_error
        → payload_count_of u m ≡ 1
        → or_missing u error_invalid (validate_error u) m.error ≡ ok tt
        → IsMessage m
    unfolding payload_count_of
    error_part t c h =
        let (a, is, v) = or_missing-some error_invalid (validate_error u) m.error h in
        let one : present m.error ≡ 1 = ap present is in
        is_error a
          (record {
            type_same = t;
            error_same = is;
            hello_same = present-none m.hello (omega (arith, c, one));
            note_same = present-none m.note (omega (arith, c, one));
            ping_same = present-none m.ping (omega (arith, c, one));
            pong_same = present-none m.pong (omega (arith, c, one));
          })
          ((validate_error_iff a).0 v)

    payload_part : payload_count_of u m ≡ 1 → validate_payload u m ≡ ok tt → IsMessage m
    unfolding validate_payload
    payload_part c h = elim (Bool-cases (text_eq m.type type_hello)) [
      | inl a ↦ hello_part (text_eq→eq m.type type_hello a) c (ground (arith, h, a))
      | inr a ↦ elim (Bool-cases (text_eq m.type type_note)) [
        | inl b ↦ note_part (text_eq→eq m.type type_note b) c (ground (arith, h, a, b))
        | inr b ↦ elim (Bool-cases (text_eq m.type type_ping)) [
          | inl d ↦ ping_part (text_eq→eq m.type type_ping d) c (ground (arith, h, a, b, d))
          | inr d ↦ elim (Bool-cases (text_eq m.type type_pong)) [
            | inl f ↦ pong_part (text_eq→eq m.type type_pong f) c (ground (arith, h, a, b, d, f))
            | inr f ↦ elim (Bool-cases (text_eq m.type type_error)) [
              | inl g ↦
                  error_part (text_eq→eq m.type type_error g) c (ground (arith, h, a, b, d, f, g))
              | inr g ↦ absurd (ground (arith, h, a, b, d, f, g))
            ]
          ]
        ]
      ]
    ]

    message_part :
        text_eq m.version protocol_version ≡ true → IsMessage m → validate_message u m ≡ ok tt
    unfolding validate_message validate_payload payload_count_of text_eq
    message_part v (is_hello h k g) =
        rw (v, k.type_same, k.hello_same, k.note_same, k.ping_same, k.pong_same, k.error_same)
          ((validate_hello_iff h).1 g)
    message_part v (is_note n e k g) =
        rw (v, k.type_same, k.hello_same, k.note_same, k.ping_same, k.pong_same, k.error_same, g)
          refl
    message_part v (is_ping h k g) =
        rw (v, k.type_same, k.hello_same, k.note_same, k.ping_same, k.pong_same, k.error_same)
          ((validate_heartbeat_iff h).1 g)
    message_part v (is_pong h k g) =
        rw (v, k.type_same, k.hello_same, k.note_same, k.ping_same, k.pong_same, k.error_same)
          ((validate_heartbeat_iff h).1 g)
    message_part v (is_error e k g) =
        rw (v, k.type_same, k.hello_same, k.note_same, k.ping_same, k.pong_same, k.error_same)
          ((validate_error_iff e).1 g)

    -- A message is accepted exactly if its version is the known one and it carries one payload, that
    -- of its type, which is valid.
    pub validate_message_iff :
        (validate_message u m ≡ ok tt) ↔ ((text_eq m.version protocol_version ≡ true) × IsMessage m)
    unfolding validate_message
    validate_message_iff = (
      λ h. (ground (arith, h), payload_part (ground (arith, h)) (ground (arith, h))),
      λ h. message_part h.0 h.1,
    )
