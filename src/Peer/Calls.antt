-- ===== src/Peer/Calls.antt =====
-- internal/peer/host.go: what happens to a host, in the order in which its lock lets it.
pub mod Histories
pub mod Limits
pub mod Once
use go_musical_packets.Music.Note.{NoteEvent}
use go_musical_packets.Peer.Host.{accept_note, touch, disconnect, register, Host, HostConfig}
use go_musical_packets.Peer.Protocol.{WireNote, Hello, Unicode}
use go_musical_packets.Prelude.{
  ℕ, zero, suc, ◌+◌, ◌-◌, ◌*◌, ◌/◌, ◌%◌, ◌^◌, ◌≤◌, ◌<◌, bit_and, bit_or, ◌≡◌, refl, sym, ap, ◌∙◌,
  subst, ◌≢◌, ◌↔◌, ◌⊎◌, inl, inr, Bool, true, false, not, ◌&&◌, ◌||◌, Option, none, some, List, [],
  ◌∷◌, ◌++◌, map, arith, ltb, leb, ◌==◌, if◌then◌else◌, Bool-cases, Option-cases, is_some, if_cases,
  ltb→lt, lt→ltb, leb→le, ==_iff, length, get_elem?, get_or, take, drop, length-append, All,
  All-append, Result, ok, err, ◌>>=◌, ◌>>◌, refuse_if, map_err, Result-cases, ℤ, pos, negsuc, ltb_ℤ,
  leb_ℤ, to_int64, to_ℕ, Text, codes, text_eq, is_empty, text_lt, contains_text, text_eq_refl,
  text_eq→eq, text_eq_iff, text_lt_irrefl, text_lt_trans, text_lt-total,
}

-- Each with its time; of a note also the time at which its result is recorded.
pub data HostCall : Type 0 where
  registers : Hello → Text → ℕ → ℕ → HostCall  -- the remote address and the connection
  disconnects : Text → ℕ → ℕ → HostCall
  touches : Text → ℕ → ℕ → HostCall
  notes : Text → ℕ → WireNote → ℕ → ℕ → HostCall

-- When a call looks at the window.
abbrev pub checked_at : HostCall → ℕ
checked_at (registers hello remote connection now) = now
checked_at (disconnects id generation now) = now
checked_at (touches id generation now) = now
checked_at (notes id generation n now later) = now

module _ (u : Unicode) (c : HostConfig) {S : Type 0} (sink : S → NoteEvent → S × Bool) where
  unfoldable pub host_call : HostCall → Host → S → Host × S
  host_call (registers hello remote connection now) h s =
      ((register u c hello remote connection now h).0, s)
  host_call (disconnects id generation now) h s = (disconnect id generation now h, s)
  host_call (touches id generation now) h s = (touch id generation now h, s)
  host_call (notes id generation n now later) h s =
      let (h', s', answer) = accept_note u c sink id generation n now later h s in (h', s')

  unfoldable pub run_host : List HostCall → Host → S → Host × S
  run_host [] h s = (h, s)
  run_host (call ∷ calls) h s = let (h', s') = host_call call h s in run_host calls h' s'
