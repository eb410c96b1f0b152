-- ===== src/Stream.antt =====
-- internal/uistream/hub.go: the notes for the browser viewers, each with a bounded queue. A publisher
-- and a reader take turns at a queue; the clients are told apart by their IDs.
pub mod Recency
use go_musical_packets.Music.Mode.{mode_string}
use go_musical_packets.Music.Note.{NoteEvent}
use go_musical_packets.Prelude.{
  ℕ, zero, suc, ◌+◌, ◌-◌, ◌*◌, ◌/◌, ◌%◌, ◌^◌, ◌≤◌, ◌<◌, bit_and, bit_or, ◌≡◌, refl, sym, ap, ◌∙◌,
  subst, ◌≢◌, ◌↔◌, ◌⊎◌, inl, inr, Bool, true, false, not, ◌&&◌, ◌||◌, Option, none, some, List, [],
  ◌∷◌, ◌++◌, map, arith, ltb, leb, ◌==◌, if◌then◌else◌, Bool-cases, Option-cases, is_some, if_cases,
  ltb→lt, lt→ltb, leb→le, ==_iff, length, get_elem?, get_or, take, drop, length-append, All,
  All-append, Result, ok, err, ◌>>=◌, ◌>>◌, refuse_if, map_err, Result-cases, ℤ, pos, negsuc, ltb_ℤ,
  leb_ℤ, to_int64, to_ℕ, Text, codes, text_eq, is_empty, text_lt, contains_text, text_eq_refl,
  text_eq→eq, text_eq_iff, text_lt_irrefl, text_lt_trans, text_lt-total,
}

pub record Note : Type 0 where
  pub id : Text
  pub origin : Text
  pub sequence : ℕ
  pub mapping_version : Text
  pub flow_id : Text
  pub mode : Text
  pub root : ℕ
  pub note : ℕ
  pub velocity : ℕ
  pub duration_ms : ℤ
  pub channel : ℕ
  pub created_at : ℕ
  pub accepted_at : ℕ

pub record Subscription : Type 0 where
  pub id : ℕ  -- uint64
  pub queue : List Note
  pub drops : ℕ  -- uint64

pub record Hub : Type 0 where
  pub capacity : ℕ
  pub next_id : ℕ  -- uint64
  pub clients : List Subscription
  pub packets : ℕ  -- uint64
  pub notes : ℕ  -- uint64

abbrev pub wide : ℕ → ℕ
wide n = n % 2 ^ 64

unfoldable pub new_hub : ℕ → Hub
new_hub capacity = record { capacity = capacity; next_id = 0; clients = []; packets = 0; notes = 0 }

unfoldable pub subscribe : Hub → Hub × ℕ
subscribe h =
    let id = wide (h.next_id + 1) in
    (record h { next_id = id; clients = record { id = id; queue = []; drops = 0 } ∷ h.clients }, id)

-- Duration.Milliseconds cuts towards zero.
unfoldable pub milliseconds : ℤ → ℤ
milliseconds (pos n) = pos (n / 1000000)
milliseconds (negsuc n) = let m = suc n / 1000000 in if m == 0 then pos 0 else negsuc (m - 1)

unfoldable pub note_from_event : ℕ → NoteEvent → Note
note_from_event accepted_at e = record {
  id = e.id;
  origin = e.origin;
  sequence = e.sequence;
  mapping_version = e.mapping_version;
  flow_id = e.flow_id;
  mode = mode_string e.mode;
  root = e.root;
  note = e.note;
  velocity = e.velocity;
  duration_ms = milliseconds e.duration;
  channel = e.channel;
  created_at = e.created_at;
  accepted_at = accepted_at;
}

abbrev pub drop_one : Subscription → Subscription
drop_one s = record s { drops = wide (s.drops + 1) }

-- A send that does not wait.
abbrev pub send_or : Bool → Note → Subscription → Subscription → Subscription
send_or true n s other = record s { queue = s.queue ++ (n ∷ []) }
send_or false n s other = other

-- The receive that makes room, where there is a note to receive.
abbrev pub without_oldest : List Note → Subscription → Subscription
without_oldest [] s = s
without_oldest (x ∷ xs) s = drop_one (record s { queue = xs })

-- What Publish does for one subscription.
unfoldable pub offer : ℕ → Note → Subscription → Subscription
offer capacity n s =
    let relieved = without_oldest s.queue s in
    send_or (ltb (length s.queue) capacity) n s
      (send_or (ltb (length relieved.queue) capacity) n relieved (drop_one relieved))

unfoldable pub publish : ℕ → NoteEvent → Hub → Hub
publish now e h = record h {
  notes = wide (h.notes + 1);
  clients = map (offer h.capacity (note_from_event now e)) h.clients;
}

unfoldable pub record_packet : Hub → Hub
record_packet h = record h { packets = wide (h.packets + 1) }

unfoldable pub find_client : ℕ → List Subscription → Option Subscription
find_client id [] = none
find_client id (s ∷ ss) = if s.id == id then some s else find_client id ss

abbrev pub update_client : (Subscription → Subscription) → ℕ → Subscription → Subscription
update_client f id s = if s.id == id then f s else s

-- A reader takes the first note of its queue, where there is one.
unfoldable pub receive : ℕ → Hub → Hub
receive id h = record h {
  clients =
      map (update_client (λ s. elim s.queue [ [] ↦ s | n ∷ ns ↦ record s { queue = ns } ]) id)
        h.clients;
}

-- The drops since the last call, and the hub without them.
unfoldable pub take_drops : ℕ → Hub → Hub
take_drops id h = record h {
  clients = map (update_client (λ s. record s { drops = 0 }) id) h.clients;
}

unfoldable pub delete_client : ℕ → List Subscription → List Subscription
delete_client id [] = []
delete_client id (s ∷ ss) = if s.id == id then delete_client id ss else s ∷ delete_client id ss

-- Close; a second one finds nothing to remove.
unfoldable pub close_subscription : ℕ → Hub → Hub
close_subscription id h = record h { clients = delete_client id h.clients }
