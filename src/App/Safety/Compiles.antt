-- ===== src/App/Safety/Compiles.antt =====
-- The safety rules of internal/app/app.go and runtime_peer.go beside those of the user.
use go_musical_packets.Decimal.{decimal}
use mathlib.Core.List.{append-nil, append_assoc}
use go_musical_packets.Packet.{v6, v4, invalid, Addr, is_protocol, protocol_tcp}
use go_musical_packets.Flow.Prefix.{is_valid_prefix}
use go_musical_packets.Flow.Selector.{some_and, Match, is_state, ports_reversed, safety_group, Rule}
use go_musical_packets.Prelude.{
  Option, ℕ, suc, ◌+◌, ◌*◌, ◌^◌, ◌<◌, ◌≡◌, refl, sym, ap, subst, ◌≢◌, inl, inr, false, not, none,
  some, List, [], ◌∷◌, ◌++◌, arith, Bool-cases, length, length-append, All, All-append, Text, codes,
  text_eq, is_empty, contains_text, text_eq_refl, text_eq→eq,
}
use go_musical_packets.App.Safety.{
  peer_safety_rules, PeerCaptureEndpoint, capture_safety, safety_destination_id, safety_source_id,
  ids_of, unique_rule_id, safety_rule, tcp_match, one_port, http_safety_rules, host_prefix,
  source_rule, destination_rule, peer_rules_from,
}
use go_musical_packets.App.Safety.Fresh.{unique_rule_id_given, unique_rule_id_ends}
use go_musical_packets.Flow.Selector.Rules.{InGroup, Fresh, collect}

abbrev NotIn : List Text → List Rule → Type 0
NotIn ids rs = All (λ (r : Rule). contains_text r.id ids ≡ false) rs

-- Safety rules beside the user's: they ignore, and all the IDs differ.
record Guards (user : List Rule) (rs : List Rule) : Type 0 where
  ignoring : All (InGroup safety_group) rs
  fresh : Fresh [] rs
  apart : NotIn (collect [] rs) user

collect_unused :
    (t : Text) (s : List Text) (rs : List Rule)
    → contains_text t s ≡ false
    → contains_text t (ids_of rs) ≡ false
    → contains_text t (collect s rs) ≡ false
unfolding contains_text
collect_unused t s [] h k = h
collect_unused t s (r ∷ rs) h k =
    collect_unused t (r.id ∷ s) rs (ground (arith, h, k)) (ground (arith, k))

collect_snoc :
    (s : List Text) (rs : List Rule) (r : Rule) → collect s (rs ++ (r ∷ [])) ≡ r.id ∷ collect s rs
collect_snoc s [] r = refl
collect_snoc s (x ∷ rs) r = collect_snoc (x.id ∷ s) rs r

Fresh-snoc :
    (s : List Text) (rs : List Rule) (r : Rule)
    → Fresh s rs
    → contains_text r.id (collect s rs) ≡ false
    → Fresh s (rs ++ (r ∷ []))
Fresh-snoc s [] r f h = (h, tt)
Fresh-snoc s (x ∷ rs) r f h = (f.0, Fresh-snoc (x.id ∷ s) rs r f.1 h)

contains-ids_of :
    (t : Text) (xs ys : List Rule)
    → contains_text t (ids_of (xs ++ ys)) ≡ false
    → (contains_text t (ids_of xs) ≡ false) × (contains_text t (ids_of ys) ≡ false)
unfolding contains_text
contains-ids_of t [] ys h = (refl, h)
contains-ids_of t (x ∷ xs) ys h = ground (arith, h, contains-ids_of t xs ys)

text_eq_sym : (s t : Text) → text_eq s t ≡ false → text_eq t s ≡ false
text_eq_sym s t h = elim (Bool-cases (text_eq t s)) [
  | inr k ↦ k
  | inl k ↦ absurd (ground (arith, h, ap (λ x. text_eq x t) (text_eq→eq t s k), text_eq_refl t))
]

NotIn-cons :
    (t : Text) (ids : List Text) (rs : List Rule)
    → contains_text t (ids_of rs) ≡ false
    → NotIn ids rs
    → NotIn (t ∷ ids) rs
unfolding contains_text
NotIn-cons t ids [] h k = tt
NotIn-cons t ids (r ∷ rs) h k =
    (ground (arith, k.0, text_eq_sym r.id t, h), NotIn-cons t ids rs (ground (arith, h)) k.1)

Guards-snoc :
    (user rs : List Rule) (r : Rule)
    → Guards user rs
    → InGroup safety_group r
    → contains_text r.id (ids_of (user ++ rs)) ≡ false
    → Guards user (rs ++ (r ∷ []))
unfolding contains_text
Guards-snoc user rs r g ignores h =
    let (not_user, not_rule) = contains-ids_of r.id user rs h in
    record {
      ignoring = All-append (InGroup safety_group) rs (r ∷ []) g.ignoring (ignores, tt);
      fresh = Fresh-snoc [] rs r g.fresh (collect_unused r.id [] rs refl not_rule);
      apart = rw (collect_snoc [] rs r) (NotIn-cons r.id (collect [] rs) user not_user g.apart);
    }

-- A safety rule over TCP with at most one prefix and one port on either side.
safety_rule-InGroup :
    (id name : Text) (m : Match)
    → is_empty id ≡ false
    → m.protocol ≡ protocol_tcp
    → some_and m.source_prefix (λ p. not (is_valid_prefix p)) ≡ false
    → some_and m.destination_prefix (λ p. not (is_valid_prefix p)) ≡ false
    → some_and m.source_ports ports_reversed ≡ false
    → some_and m.destination_ports ports_reversed ≡ false
    → m.wire_size ≡ none
    → InGroup safety_group (safety_rule id name m)
unfolding is_state is_protocol text_eq
safety_rule-InGroup id name m h p a b c d w = (
  record {
    id_given = h;
    action_valid = record {
      known = refl;
      channel_range = omega arith;
      plain = λ _. refl;
      plays = λ k. absurd (ground (arith, k));
      mode_known = λ k. absurd (ground (arith, k));
      root_range = omega arith;
    };
    source_valid = a;
    destination_valid = b;
    source_ordered = c;
    destination_ordered = d;
    size_ordered = rw w refl;
    protocol_known = inr (rw p refl);
  },
  refl,
)

ports_in_order : (port : ℕ) → some_and (one_port port) ports_reversed ≡ false
unfolding ports_reversed
ports_in_order port = ground arith

host_prefix_valid :
    (a : Addr)
    → a ≢ invalid
    → some_and (some (host_prefix a)) (λ p. not (is_valid_prefix p)) ≡ false
unfolding is_valid_prefix
host_prefix_valid invalid h = absurd (h refl)
host_prefix_valid (v4 n) h = refl
host_prefix_valid (v6 n zone) h = refl

Guards-nil : (user : List Rule) → Guards user []
unfolding contains_text
Guards-nil user = record { ignoring = tt; fresh = tt; apart = all user }
  where
    all : (rs : List Rule) → NotIn [] rs
    all [] = tt
    all (r ∷ rs) = (refl, all rs)

-- One more rule with an ID that was searched among all the rules.
Guards-search :
    (user rs all : List Rule) (base name : Text) (m : Match)
    → all ≡ user ++ rs
    → length all < 2 ^ 63
    → is_empty base ≡ false
    → m.protocol ≡ protocol_tcp
    → some_and m.source_prefix (λ p. not (is_valid_prefix p)) ≡ false
    → some_and m.destination_prefix (λ p. not (is_valid_prefix p)) ≡ false
    → some_and m.source_ports ports_reversed ≡ false
    → some_and m.destination_ports ports_reversed ≡ false
    → m.wire_size ≡ none
    → Guards user rs
    → Guards user (rs ++ (safety_rule (unique_rule_id base all) name m ∷ []))
Guards-search user rs all base name m e l h p a b c d w g =
    Guards-snoc user rs (safety_rule (unique_rule_id base all) name m) g
      (safety_rule-InGroup (unique_rule_id base all) name m (unique_rule_id_given base all h) p a b
        c d w)
      (subst (λ x. contains_text (unique_rule_id base all) (ids_of x) ≡ false) e
        (unique_rule_id_ends base all l).1)

http_safety_rules-Guards :
    (port : ℕ) (user : List Rule)
    → length user + 2 < 2 ^ 63
    → Guards user (http_safety_rules port user)
unfolding http_safety_rules
http_safety_rules-Guards port user l =
    let source =
      safety_rule (unique_rule_id safety_source_id user) (codes "application HTTP source traffic")
        (record tcp_match { source_ports = one_port port }) in
    Guards-search user (source ∷ []) (user ++ (source ∷ [])) safety_destination_id
      (codes "application HTTP destination traffic")
      (record tcp_match { destination_ports = one_port port }) refl
      (omega (arith, l, length-append user (source ∷ []))) refl refl refl refl refl
      (ports_in_order port) refl
      (Guards-search user [] user safety_source_id (codes "application HTTP source traffic")
        (record tcp_match { source_ports = one_port port }) (sym (append-nil user))
        (omega (arith, l)) refl refl refl refl (ports_in_order port) refl refl (Guards-nil user))

-- The rules of the addresses, after the rules `http`.
peer_rules_from-Guards :
    (index port : ℕ) (user http rules : List Rule) (as_ : List Addr)
    → All (λ a. a ≢ invalid) as_
    → length user + length http + length rules + 2 * length as_ < 2 ^ 63
    → Guards user (http ++ rules)
    → Guards user (http ++ peer_rules_from index port (user ++ http) rules as_)
unfolding peer_rules_from
peer_rules_from-Guards index port user http rules [] v l g = g
peer_rules_from-Guards index port user http rules (a ∷ as_) v l g =
    let all = (user ++ http) ++ rules in
    let base = codes "__musical_packets_peer_source_" ++ decimal index in
    let base' = codes "__musical_packets_peer_destination_" ++ decimal index in
    let source = source_rule (unique_rule_id base all) a port in
    let one = rules ++ (source ∷ []) in
    let all' = (user ++ http) ++ one in
    let destination = destination_rule (unique_rule_id base' all') a port in
    let lengths : length all ≡ length user + length http + length rules =
      omega (arith, length-append (user ++ http) rules, length-append user http) in
    let lengths' : length all' ≡ length user + length http + length rules + 1 = omega (
      arith,
      length-append (user ++ http) one,
      length-append user http,
      length-append rules (source ∷ []),
    ) in
    let lengths'' : length (one ++ (destination ∷ [])) ≡ length rules + 2 =
      omega (arith, length-append one (destination ∷ []), length-append rules (source ∷ [])) in
    let first : Guards user (http ++ one) =
      subst (Guards user) (append_assoc http rules (source ∷ [])) (
        Guards-search user (http ++ rules) all base (codes "peer transport source traffic")
          (record tcp_match { source_prefix = some (host_prefix a); source_ports = one_port port })
          (append_assoc user http rules) (omega (arith, lengths, l)) refl refl
          (host_prefix_valid a v.0) refl (ports_in_order port) refl refl g) in
    let second : Guards user (http ++ (one ++ (destination ∷ []))) =
      subst (Guards user) (append_assoc http one (destination ∷ [])) (
        Guards-search user (http ++ one) all' base' (codes "peer transport destination traffic")
          (record tcp_match {
            destination_prefix = some (host_prefix a);
            destination_ports = one_port port;
          })
          (append_assoc user http one) (omega (arith, lengths', l)) refl refl refl
          (host_prefix_valid a v.0) refl (ports_in_order port) refl first) in
    peer_rules_from-Guards (suc index) port user http (one ++ (destination ∷ [])) as_ v.1
      (omega (arith, lengths'', l)) second

-- The addresses of an endpoint are resolved ones.
abbrev pub IsResolved : Option PeerCaptureEndpoint → Type 0
IsResolved none = Unit
IsResolved (some e) = All (λ a. a ≢ invalid) e.addresses

abbrev pub address_count : Option PeerCaptureEndpoint → ℕ
address_count none = 0
address_count (some e) = length e.addresses

length-http_safety_rules : (port : ℕ) (user : List Rule) → length (http_safety_rules port user) ≡ 2
unfolding http_safety_rules
length-http_safety_rules port user = omega arith

capture_safety-Guards :
    (port : ℕ) (endpoint : Option PeerCaptureEndpoint) (user : List Rule)
    → IsResolved endpoint
    → length user + 2 * address_count endpoint + 2 < 2 ^ 63
    → Guards user (capture_safety port endpoint user)
unfolding capture_safety peer_safety_rules
capture_safety-Guards port none user v l = http_safety_rules-Guards port user (omega (arith, l))
capture_safety-Guards port (some e) user v l =
    let http = http_safety_rules port user in
    peer_rules_from-Guards 0 e.port user http [] e.addresses v
      (omega (arith, l, length-http_safety_rules port user))
      (rw (append-nil http) (http_safety_rules-Guards port user (omega (arith, l))))

pub capture_safety_ok :
    (port : ℕ) (endpoint : Option PeerCaptureEndpoint) (user : List Rule)
    → IsResolved endpoint
    → length user + 2 * address_count endpoint + 2 < 2 ^ 63
    → All (InGroup safety_group) (capture_safety port endpoint user)
      × Fresh [] (capture_safety port endpoint user)
      × All
          (λ (r : Rule).
            contains_text r.id (collect [] (capture_safety port endpoint user)) ≡ false)
          user
capture_safety_ok port endpoint user v l =
    let g = capture_safety-Guards port endpoint user v l in (g.ignoring, g.fresh, g.apart)
