-- ===== src/Tests/Samples.antt =====
-- A digest that meets the assumptions, and packets, rules and configurations.
use go_musical_packets.Flow.Registry.Invariant.{IsRegistry}
use go_musical_packets.Flow.Registry.Expiry.{observes, Call, run-IsRegistry, run}
use go_musical_packets.Flow.Selector.Rules.{of_config}
use go_musical_packets.Music.Mapper.{new_mapper, flow_mode_v1, MapperConfig, MapInput}
use go_musical_packets.Music.Mapper.Total.{new_mapper_iff, IsMapper}
use go_musical_packets.Midi.Scheduler.{Scheduler, SchedulerConfig, new_scheduler}
use go_musical_packets.Flow.Registry.{new_registry, Registry, RegistryConfig}
use go_musical_packets.Music.Note.{NoteEvent}
use go_musical_packets.Flow.Selector.{
  route, Selection, evaluate, is_state, valid_musical_mode, validate_action, validate_rule,
  state_ignore, check_group, state_play, Overlay, event_id, new_selector, Action, Rule, Match,
  SelectorConfig,
}
use go_musical_packets.Packet.Laws.{validate_iff, IsValid}
use go_musical_packets.Hex.{IsByte}
use go_musical_packets.Prelude.{
  List, ℕ, zero, suc, ◌+◌, ◌*◌, ◌/◌, ◌%◌, ◌<◌, ◌≡◌, refl, ap, true, false, none, some, [], ◌∷◌,
  arith, length, All, ok, pos, Text, codes, text_eq, contains_text,
}
use go_musical_packets.Packet.{
  is_protocol, flag_syn, validate, protocol_tcp, Addr, invalid, v4, v6, Endpoint, Event,
}
use go_musical_packets.Flow.Key.{Digest}

-- 32 copies of one byte stand for the hash.
abbrev pub checksum : Text → ℕ
checksum [] = 7
checksum (b ∷ bs) = (b + 31 * checksum bs) % 256

abbrev pub copies : ℕ → ℕ → Text
copies zero b = []
copies (suc n) b = b ∷ copies n b

abbrev pub toy_hash : Text → Text
toy_hash m = copies 32 (checksum m % 256)

abbrev pub toy_addr : Addr → Text
toy_addr invalid = []
toy_addr (v4 n) = 4 ∷ n ∷ []
toy_addr (v6 n z) = 6 ∷ n ∷ z

pub copies-bytes : (n b : ℕ) → b < 256 → All IsByte (copies n b)
copies-bytes zero b h = tt
copies-bytes (suc n) b h = (h, copies-bytes n b h)

pub length-copies : (n b : ℕ) → length (copies n b) ≡ n
length-copies zero b = refl
length-copies (suc n) b = ap suc (length-copies n b)

abbrev pub toy : Digest
toy = record {
  sha256 = toy_hash;
  addr_string = toy_addr;
  sha256_length = λ m. length-copies 32 (checksum m % 256);
  sha256_bytes = λ m. copies-bytes 32 (checksum m % 256) (omega arith);
}

pub toy-injective : (x y : Addr) → toy_addr x ≡ toy_addr y → x ≡ y
toy-injective invalid invalid h = refl
toy-injective invalid (v4 n) h = absurd (cc)
toy-injective invalid (v6 n z) h = absurd (cc)
toy-injective (v4 m) invalid h = absurd (cc)
toy-injective (v4 m) (v4 n) h = ground arith
toy-injective (v4 m) (v6 n z) h = absurd (ground arith)
toy-injective (v6 m y) invalid h = absurd (cc)
toy-injective (v6 m y) (v4 n) h = absurd (ground arith)
toy-injective (v6 m y) (v6 n z) h = ground arith

abbrev pub seed : Text
seed = codes "s"

abbrev pub client : Endpoint
client = record { addr = v4 3221225994; port = 52100 }

abbrev pub server : Endpoint
server = record { addr = v4 3325256724; port = 443 }

abbrev pub other_client : Endpoint
other_client = record { addr = v4 3221225995; port = 52101 }

-- A TCP SYN of 128 bytes, five seconds after the zero time.
abbrev pub syn_packet : Event
syn_packet = record {
  captured_at = 5000000000;
  source = client;
  destination = server;
  protocol = protocol_tcp;
  wire_length = pos 128;
  captured_length = pos 128;
  payload_length = pos 0;
  tcp_flags = flag_syn;
}

-- A packet of another flow, two seconds later.
abbrev pub second_packet : Event
second_packet = record syn_packet { captured_at = 7000000000; source = other_client }

pub syn_packet-IsValid : IsValid syn_packet
unfolding validate is_protocol text_eq
syn_packet-IsValid = (validate_iff syn_packet).0 refl

pub second_packet-IsValid : IsValid second_packet
unfolding validate is_protocol text_eq
second_packet-IsValid = (validate_iff second_packet).0 refl

abbrev pub any_packet : Match
any_packet = record {
  exact_flow_id = [];
  source_prefix = none;
  destination_prefix = none;
  protocol = [];
  source_ports = none;
  destination_ports = none;
  wire_size = none;
  required_tcp_flags = 0;
}

abbrev pub default_action : Action
default_action = record { state = state_play; channel = 1; mode = []; root = 0 }

-- Peer traffic on port 443 is ignored; the rest plays in the dorian mode on channel 3.
abbrev pub ignore_https : Rule
ignore_https = record {
  id = codes "safe";
  name = codes "peer";
  enabled = true;
  criteria = record any_packet {
    destination_ports = some (record { minimum = 443; maximum = 443 });
  };
  action = record { state = state_ignore; channel = 0; mode = []; root = 0 };
}

abbrev pub play_dorian : Rule
play_dorian = record {
  id = codes "user";
  name = codes "dorian";
  enabled = true;
  criteria = any_packet;
  action = record { state = state_play; channel = 3; mode = codes "dorian"; root = 2 };
}

abbrev pub guarded : SelectorConfig
guarded = record {
  seed = seed;
  default_action = default_action;
  safety_rules = ignore_https ∷ [];
  pinned_rules = [];
  user_rules = play_dorian ∷ [];
}

-- The same configuration without its safety rule.
abbrev pub playing : SelectorConfig
playing = record guarded { safety_rules = [] }

pub guarded_built : new_selector guarded ≡ ok (of_config guarded)
unfolding new_selector check_group validate_rule validate_action contains_text is_state text_eq
    valid_musical_mode
guarded_built = refl

pub playing_built : new_selector playing ≡ ok (of_config playing)
unfolding new_selector check_group validate_rule validate_action contains_text is_state text_eq
    valid_musical_mode
playing_built = refl

abbrev pub no_overlay : Overlay
no_overlay = record { muted = []; soloed = [] }

abbrev pub syn_flow : Text
syn_flow = event_id toy seed syn_packet

abbrev pub one_flow : RegistryConfig
one_flow = record { seed = seed; capacity = pos 1; ttl = pos 300000000000 }

abbrev pub empty_registry : Registry
empty_registry = record { seed = seed; capacity = 1; ttl = 300000000000; flows = []; oldest = [] }

pub one_flow_built : new_registry one_flow ≡ ok empty_registry
unfolding new_registry
one_flow_built = refl

abbrev pub mapper : MapperConfig
mapper = record {
  seed = seed;
  origin = codes "edge";
  minimum_note = 36;
  maximum_note = 96;
  minimum_duration = pos 50000000;
  maximum_duration = pos 2000000000;
}

pub mapper-IsMapper : IsMapper mapper
mapper-IsMapper = (new_mapper_iff mapper).0 (unfold new_mapper in refl)

abbrev pub map_input : MapInput
map_input = record {
  packet = syn_packet;
  sequence = 42;
  inter_arrival = pos 123000000;
  channel = 7;
  mode = [];
  root = 0;
}

abbrev pub level : ℕ → ℕ
level n = n / 8

abbrev pub note : NoteEvent
note = record {
  id = codes "edge:f:1";
  origin = codes "edge";
  sequence = 1;
  mapping_version = flow_mode_v1;
  flow_id = codes "f";
  mode = 1;
  root = 2;
  note = 62;
  velocity = 100;
  duration = pos 250000000;
  channel = 3;
  created_at = 5000000000;
}

abbrev pub limits : SchedulerConfig
limits = record {
  maximum_notes_per_second = pos 2;
  maximum_polyphony = pos 4;
  minimum_retrigger_interval = pos 10;
}

abbrev pub idle : Scheduler
idle = record {
  maximum_notes_per_second = 2;
  maximum_polyphony = 4;
  minimum_retrigger_interval = 10;
  active = [];
  recent = [];
  next_generation = 0;
  closed = false;
}

pub limits_built : new_scheduler limits ≡ ok idle
unfolding new_scheduler
limits_built = refl

-- The decision on the SYN packet.
abbrev pub decision : SelectorConfig → Overlay → Selection
decision c o = route (of_config c) o syn_packet (event_id toy c.seed syn_packet)

pub decided :
    (c : SelectorConfig) (o : Overlay) → evaluate toy (of_config c) syn_packet o ≡ ok (decision c o)
unfolding evaluate
decided c o = ground (arith, (validate_iff syn_packet).1 syn_packet-IsValid)

abbrev pub muted : Overlay
muted = record { muted = syn_flow ∷ []; soloed = [] }

abbrev pub soloing : Overlay
soloing = record { muted = []; soloed = codes "another flow" ∷ [] }

-- A registry of one flow, full.
abbrev pub one_packet : List Call
one_packet = observes syn_packet ∷ []

unfoldable pub full : Registry
full = run toy empty_registry one_packet

pub full-IsRegistry : IsRegistry full
unfolding full
full-IsRegistry = run-IsRegistry toy one_flow empty_registry one_packet one_flow_built
