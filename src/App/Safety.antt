-- ===== src/App/Safety.antt =====
-- internal/app/app.go and internal/app/runtime_peer.go: the safety rules that keep the program's own
-- traffic out of the music, and the IDs that they get.
pub mod Fresh
pub mod Compiles
use go_musical_packets.Packet.{Addr, invalid, v4, v6}
use go_musical_packets.Flow.Prefix.{Prefix, invalid_prefix, prefix}
use go_musical_packets.Packet.{protocol_tcp}
use go_musical_packets.Flow.Selector.{state_ignore, PortRange, Match, Rule}
use go_musical_packets.Prelude.{
  ℕ, zero, suc, true, Option, none, some, List, [], ◌∷◌, ◌++◌, if◌then◌else◌, length, Text, codes,
  contains_text,
}
use go_musical_packets.Decimal.{decimal}

abbrev pub ids_of : List Rule → List Text
ids_of [] = []
ids_of (r ∷ rs) = r.id ∷ ids_of rs

-- The candidate of one round of the loop.
unfoldable pub candidate : Text → ℕ → Text
candidate base zero = base
candidate base (suc n) = base ++ (codes "_" ++ decimal (suc n))

-- The loop of uniqueRuleID from `suffix` on; the source's has no bound.
unfoldable pub unique_from : ℕ → Text → ℕ → List Text → Option Text
unique_from zero base suffix used = none
unique_from (suc rounds) base suffix used =
    let later = unique_from rounds base (suc suffix) used in
    if contains_text (candidate base suffix) used then later else some (candidate base suffix)

abbrev pub or_base : Text → Option Text → Text
or_base base none = base
or_base base (some id) = id

unfoldable pub unique_rule_id : Text → List Rule → Text
unique_rule_id base existing =
    or_base base (unique_from (suc (length existing)) base 0 (ids_of existing))

abbrev pub tcp_match : Match
tcp_match = record {
  exact_flow_id = [];
  source_prefix = none;
  destination_prefix = none;
  protocol = protocol_tcp;
  source_ports = none;
  destination_ports = none;
  wire_size = none;
  required_tcp_flags = 0;
}

abbrev pub safety_rule : Text → Text → Match → Rule
safety_rule id name criteria = record {
  id = id;
  name = name;
  enabled = true;
  criteria = criteria;
  action = record { state = state_ignore; channel = 0; mode = []; root = 0 };
}

abbrev pub one_port : ℕ → Option PortRange
one_port port = some (record { minimum = port; maximum = port })

abbrev pub safety_source_id : Text
safety_source_id = codes "__musical_packets_http_source"

abbrev pub safety_destination_id : Text
safety_destination_id = codes "__musical_packets_http_destination"

unfoldable pub http_safety_rules : ℕ → List Rule → List Rule
http_safety_rules port existing =
    let source =
      safety_rule (unique_rule_id safety_source_id existing)
        (codes "application HTTP source traffic")
        (record tcp_match { source_ports = one_port port }) in
    let destination =
      safety_rule (unique_rule_id safety_destination_id (existing ++ (source ∷ [])))
        (codes "application HTTP destination traffic")
        (record tcp_match { destination_ports = one_port port }) in
    source ∷ destination ∷ []

-- The addresses and the port of the host that an edge sends to.
pub record PeerCaptureEndpoint : Type 0 where
  pub addresses : List Addr
  pub port : ℕ  -- uint16

-- netip.PrefixFrom on all the bits of an address; it drops the zone.
abbrev pub host_prefix : Addr → Prefix
host_prefix invalid = invalid_prefix
host_prefix (v4 n) = prefix (v4 n) 32
host_prefix (v6 n zone) = prefix (v6 n []) 128

abbrev pub source_rule : Text → Addr → ℕ → Rule
source_rule id address port =
    safety_rule id (codes "peer transport source traffic") (record tcp_match {
      source_prefix = some (host_prefix address);
      source_ports = one_port port;
    })

abbrev pub destination_rule : Text → Addr → ℕ → Rule
destination_rule id address port =
    safety_rule id (codes "peer transport destination traffic") (record tcp_match {
      destination_prefix = some (host_prefix address);
      destination_ports = one_port port;
    })

-- The loop over the addresses: the rules that existed before, and those made so far.
unfoldable pub peer_rules_from : ℕ → ℕ → List Rule → List Rule → List Addr → List Rule
peer_rules_from index port existing rules [] = rules
peer_rules_from index port existing rules (a ∷ as_) =
    let source_id =
      unique_rule_id (codes "__musical_packets_peer_source_" ++ decimal index)
        (existing ++ rules) in
    let with_source = rules ++ (source_rule source_id a port ∷ []) in
    let destination_id =
      unique_rule_id (codes "__musical_packets_peer_destination_" ++ decimal index)
        (existing ++ with_source) in
    peer_rules_from (suc index) port existing
      (with_source ++ (destination_rule destination_id a port ∷ [])) as_

unfoldable pub peer_safety_rules : PeerCaptureEndpoint → List Rule → List Rule
peer_safety_rules endpoint existing = peer_rules_from 0 endpoint.port existing [] endpoint.addresses

-- The function that RunWithOptionsAndDependencies configures.
unfoldable pub capture_safety : ℕ → Option PeerCaptureEndpoint → List Rule → List Rule
capture_safety port none user_rules = http_safety_rules port user_rules
capture_safety port (some endpoint) user_rules =
    let rules = http_safety_rules port user_rules in
    rules ++ peer_safety_rules endpoint (user_rules ++ rules)
