-- ===== src/Peer/Protocol.antt =====
-- internal/peer/protocol.go: the messages between an edge and a host, and their validation. JSON and
-- the frames of the socket are left out.
pub mod Validity
pub mod Messages
use go_musical_packets.Music.Mapper.{flow_mode_v1}
use go_musical_packets.Music.Mode.{parse_mode, mode_string, Mode}
use go_musical_packets.Config.Settings.{role_host, role_edge}
use go_musical_packets.Music.Note.{validate_note, NoteError, NoteEvent}
use go_musical_packets.Prelude.{
  ℕ, zero, suc, ◌+◌, ◌-◌, ◌*◌, ◌/◌, ◌%◌, ◌^◌, ◌≤◌, ◌<◌, bit_and, bit_or, ◌≡◌, refl, sym, ap, ◌∙◌,
  subst, ◌≢◌, ◌↔◌, ◌⊎◌, inl, inr, Bool, true, false, not, ◌&&◌, ◌||◌, Option, none, some, List, [],
  ◌∷◌, ◌++◌, map, arith, ltb, leb, ◌==◌, if◌then◌else◌, Bool-cases, Option-cases, is_some, if_cases,
  ltb→lt, lt→ltb, leb→le, ==_iff, length, get_elem?, get_or, take, drop, length-append, All,
  All-append, Result, ok, err, ◌>>=◌, ◌>>◌, refuse_if, map_err, Result-cases, ℤ, pos, negsuc, ltb_ℤ,
  leb_ℤ, to_int64, to_ℕ, Text, codes, text_eq, is_empty, text_lt, contains_text, text_eq_refl,
  text_eq→eq, text_eq_iff, text_lt_irrefl, text_lt_trans, text_lt-total,
}

-- What the program asks of Go's strings and unicode packages: TrimSpace, and whether a control
-- character occurs (IndexFunc with unicode.IsControl).
pub record Unicode : Type 0 where
  pub trim_space : Text → Text
  pub has_control : Text → Bool

abbrev pub protocol_version : Text
protocol_version = codes "peer-v1"

abbrev pub type_hello : Text
type_hello = codes "hello"

abbrev pub type_note : Text
type_note = codes "note"

abbrev pub type_ping : Text
type_ping = codes "ping"

abbrev pub type_pong : Text
type_pong = codes "pong"

abbrev pub type_error : Text
type_error = codes "error"

pub record Hello : Type 0 where
  pub instance_id : Text
  pub role : Text
  pub mapping_version : Text

pub record WireNote : Type 0 where
  pub id : Text
  pub origin : Text
  pub sequence : ℕ  -- uint64
  pub mapping_version : Text
  pub flow_id : Text
  pub mode : Text
  pub root : ℕ  -- uint8
  pub pitch : ℕ  -- uint8
  pub velocity : ℕ  -- uint8
  pub duration_ms : ℤ
  pub channel : ℕ  -- uint8
  pub created_at : ℕ

pub record Heartbeat : Type 0 where
  pub nonce : ℕ  -- uint64
  pub sent_at : ℕ

pub record ProtocolError : Type 0 where
  pub code : Text
  pub detail : Text

pub record Message : Type 0 where
  pub type : Text
  pub version : Text
  pub hello : Option Hello
  pub note : Option WireNote
  pub ping : Option Heartbeat
  pub pong : Option Heartbeat
  pub error : Option ProtocolError

pub data PeerError : Type 0 where
  version_unsupported payload_count payload_missing type_unsupported error_invalid : PeerError
  instance_id_invalid role_invalid mapping_unsupported heartbeat_incomplete : PeerError
  note_error : NoteError → PeerError
  identity_invalid flow_id_invalid sequence_zero timing_invalid duration_ms_invalid : PeerError
  mode_unknown : PeerError

-- `strings.ContainsAny(t, "\x00\r\n")`.
unfoldable pub has_break : Text → Bool
has_break [] = false
has_break (b ∷ bs) = (b == 0 || b == 13 || b == 10) || has_break bs

-- Whether `strings.Trim(t, "0123456789abcdef")` leaves nothing.
unfoldable pub all_hex : Text → Bool
all_hex [] = true
all_hex (b ∷ bs) = ((leb 48 b && leb b 57) || (leb 97 b && leb b 102)) && all_hex bs

-- The size of a duration, which its remainder shares.
abbrev pub magnitude : ℤ → ℕ
magnitude (pos n) = n
magnitude (negsuc n) = suc n

abbrev pub negated : ℕ → ℤ
negated zero = pos 0
negated (suc n) = negsuc n

-- Duration.Milliseconds, which rounds towards zero.
abbrev pub milliseconds : ℤ → ℤ
milliseconds (pos n) = pos (n / 1000000)
milliseconds (negsuc n) = negated (suc n / 1000000)

-- math.MaxInt64/int64(time.Millisecond).
abbrev pub maximum_duration_ms : ℕ
maximum_duration_ms = 9223372036854

abbrev pub present {ℓ} : {A : Type ℓ} → Option A → ℕ
present none = 0
present (some a) = 1

module _ (u : Unicode) where
  unfoldable pub safe_identifier : Text → ℕ → Bool
  safe_identifier value maximum =
      not (is_empty value)
      && text_eq value (u.trim_space value)
      && leb (length value) maximum
      && not (has_break value)
      && not (u.has_control value)

  unfoldable pub validate_hello : Hello → Result PeerError (Unit {0})
  validate_hello h = do
    refuse_if (not (safe_identifier h.instance_id 128)) instance_id_invalid
    refuse_if (not (text_eq h.role role_edge || text_eq h.role role_host)) role_invalid
    refuse_if (not (text_eq h.mapping_version flow_mode_v1)) mapping_unsupported

  unfoldable pub validate_event : NoteEvent → Result PeerError (Unit {0})
  validate_event e = do
    map_err note_error (validate_note e)
    refuse_if (not (safe_identifier e.id 256) || not (safe_identifier e.origin 128))
        identity_invalid
    refuse_if (not (length e.flow_id == 24) || not (all_hex e.flow_id)) flow_id_invalid
    refuse_if (not (text_eq e.mapping_version flow_mode_v1)) mapping_unsupported
    refuse_if (e.sequence == 0) sequence_zero
    refuse_if
        (e.created_at == 0
          || not (magnitude e.duration % 1000000 == 0)
          || leb_ℤ (milliseconds e.duration) (pos 0))
        timing_invalid

  abbrev pub wire_note : NoteEvent → WireNote
  wire_note e = record {
    id = e.id;
    origin = e.origin;
    sequence = e.sequence;
    mapping_version = e.mapping_version;
    flow_id = e.flow_id;
    mode = mode_string e.mode;
    root = e.root;
    pitch = e.note;
    velocity = e.velocity;
    duration_ms = milliseconds e.duration;
    channel = e.channel;
    created_at = e.created_at;
  }

  unfoldable pub note_of_event : NoteEvent → Result PeerError WireNote
  note_of_event e = validate_event e >> ok (wire_note e)

  -- A duration is positive here and the product fits int64.
  abbrev pub event_in : Mode → WireNote → NoteEvent
  event_in mode n = record {
    id = n.id;
    origin = n.origin;
    sequence = n.sequence;
    mapping_version = n.mapping_version;
    flow_id = n.flow_id;
    mode = mode;
    root = n.root;
    note = n.pitch;
    velocity = n.velocity;
    duration = pos (to_ℕ n.duration_ms * 1000000);
    channel = n.channel;
    created_at = n.created_at;
  }

  abbrev pub event_if : WireNote → Option Mode → Result PeerError NoteEvent
  event_if n none = err mode_unknown
  event_if n (some mode) = validate_event (event_in mode n) >> ok (event_in mode n)

  -- Note.Event.
  unfoldable pub event_of_note : WireNote → Result PeerError NoteEvent
  event_of_note n = do
    refuse_if (leb_ℤ n.duration_ms (pos 0) || ltb_ℤ (pos maximum_duration_ms) n.duration_ms)
        duration_ms_invalid
    event_if n (parse_mode n.mode)

  unfoldable pub validate_heartbeat : Heartbeat → Result PeerError (Unit {0})
  validate_heartbeat h = refuse_if (h.nonce == 0 || h.sent_at == 0) heartbeat_incomplete

  unfoldable pub validate_error : ProtocolError → Result PeerError (Unit {0})
  validate_error e =
      refuse_if
        (not (safe_identifier e.code 64)
          || is_empty (u.trim_space e.detail)
          || ltb 256 (length e.detail))
        error_invalid

  abbrev pub or_missing {ℓ} :
      {A : Type ℓ}
      → PeerError
      → (A → Result PeerError (Unit {0}))
      → Option A
      → Result PeerError (Unit {0})
  or_missing e check none = err e
  or_missing e check (some a) = check a

  unfoldable pub payload_count_of : Message → ℕ
  payload_count_of m =
      present m.hello + present m.note + present m.ping + present m.pong + present m.error

  abbrev pub check_note : WireNote → Result PeerError (Unit {0})
  check_note n = event_of_note n >>= λ _. ok tt

  -- The switch on the type of the message.
  unfoldable pub validate_payload : Message → Result PeerError (Unit {0})
  validate_payload m =
      if text_eq m.type type_hello
      then or_missing payload_missing validate_hello m.hello
      else if text_eq m.type type_note
      then or_missing payload_missing check_note m.note
      else if text_eq m.type type_ping
      then or_missing payload_missing validate_heartbeat m.ping
      else if text_eq m.type type_pong
      then or_missing payload_missing validate_heartbeat m.pong
      else if text_eq m.type type_error
      then or_missing error_invalid validate_error m.error
      else err type_unsupported

  -- Message.Validate.
  unfoldable pub validate_message : Message → Result PeerError (Unit {0})
  validate_message m = do
    refuse_if (not (text_eq m.version protocol_version)) version_unsupported
    refuse_if (not (payload_count_of m == 1)) payload_count
    validate_payload m
