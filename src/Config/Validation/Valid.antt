-- ===== src/Config/Validation/Valid.antt =====
-- What a validated configuration is, for Validate of internal/config/config.go.
use go_musical_packets.Music.Mapper.{flow_mode_v1}
use go_musical_packets.Flow.Selector.{Rule, is_state}
use go_musical_packets.Prelude.{
  not, ◌&&◌, err, Result, if◌then◌else◌, ◌≤◌, ◌≡◌, refl, ◌⊎◌, Bool, true, false, List, [], ◌∷◌,
  ◌++◌, arith, is_some, length, ok, pos, ltb_ℤ, leb_ℤ, text_eq, is_empty,
}
use go_musical_packets.Config.Settings.{
  MidiConfig, Config, MappingConfig, PerformanceConfig, PeerConfig, Role, role_edge, redacted_value,
}
use go_musical_packets.Config.Validation.{
  namespace_invalid, valid_metric_name, edge_with_midi, edge_without_peer, logging_faults,
  server_faults, capture_faults, validate_config, midi_faults, rule_faults, Fault, fault_if,
  Parsers, mapping_faults, performance_faults, peer_faults, is_role, valid_peer_url,
}
use go_musical_packets.Config.Rules.{Problem, to_flow_rules, is_blank}

both_none : (xs ys : List Fault) → xs ++ ys ≡ [] → (xs ≡ []) × (ys ≡ [])
both_none [] ys h = (refl, h)
both_none (x ∷ xs) ys h = absurd (ground (arith, h))

no_fault :
    (b : Bool) (x : Fault) (rest : List Fault)
    → fault_if b x ++ rest ≡ []
    → (b ≡ false) × (rest ≡ [])
no_fault true x rest h = absurd (ground (arith, h))
no_fault false x rest h = (refl, h)

last_fault : (b : Bool) (x : Fault) → fault_if b x ≡ [] → b ≡ false
last_fault true x h = absurd (ground (arith, h))
last_fault false x h = refl

pub record ValidMapping (c : MappingConfig) : Type 0 where
  pub state_known : is_state c.default_state ≡ true
  pub version_known : text_eq c.version flow_mode_v1 ≡ true
  pub seed_given : is_empty c.seed ≡ false
  pub channel_low : 1 ≤ c.default_channel
  pub channel_high : c.default_channel ≤ 16
  pub notes_ordered : c.minimum_note ≤ c.maximum_note
  pub notes_range : c.maximum_note ≤ 127
  pub duration_positive : ltb_ℤ (pos 0) c.minimum_duration ≡ true
  pub durations_ordered : leb_ℤ c.minimum_duration c.maximum_duration ≡ true

mapping_valid : (c : MappingConfig) → mapping_faults c ≡ [] → ValidMapping c
unfolding mapping_faults
mapping_valid c h = ground (arith, h)

pub record ValidPerformance (c : PerformanceConfig) : Type 0 where
  pub packet_queue : leb_ℤ c.packet_queue_capacity (pos 0) ≡ false
  pub note_queue : leb_ℤ c.note_queue_capacity (pos 0) ≡ false
  pub ui_queue : leb_ℤ c.ui_queue_capacity (pos 0) ≡ false
  pub registry_capacity : leb_ℤ c.flow_registry_capacity (pos 0) ≡ false
  pub ttl : leb_ℤ c.flow_ttl (pos 0) ≡ false
  pub rate : leb_ℤ c.maximum_notes_per_second (pos 0) ≡ false
  pub polyphony_low : leb_ℤ c.maximum_polyphony (pos 0) ≡ false
  pub polyphony_high : ltb_ℤ (pos 128) c.maximum_polyphony ≡ false
  pub retrigger : ltb_ℤ c.minimum_retrigger_interval (pos 0) ≡ false

performance_valid : (c : PerformanceConfig) → performance_faults c ≡ [] → ValidPerformance c
unfolding performance_faults
performance_valid c h = ground (arith, h)

pub record ValidPeer (x : Parsers) (role : Role) (c : PeerConfig) : Type 0 where
  pub url_valid :
      (text_eq role role_edge ≡ true) ⊎ (is_empty c.url ≡ false)
      → valid_peer_url (x.parse_url c.url) ≡ true
  pub token_long : (16 ≤ length c.token) ⊎ (text_eq c.token redacted_value ≡ true)
  pub queue : leb_ℤ c.queue_capacity (pos 0) ≡ false
  pub connections_low : leb_ℤ c.maximum_connections (pos 0) ≡ false
  pub connections_high : ltb_ℤ (pos 1024) c.maximum_connections ≡ false
  pub recent : leb_ℤ c.recent_ttl (pos 0) ≡ false
  pub reconnect : leb_ℤ c.reconnect_base (pos 0) ≡ false
  pub reconnects_ordered : ltb_ℤ c.reconnect_limit c.reconnect_base ≡ false
  pub stale : leb_ℤ c.stale_after (pos 0) ≡ false

peer_valid :
    (x : Parsers) (role : Role) (c : PeerConfig) → peer_faults x role c ≡ [] → ValidPeer x role c
unfolding peer_faults
peer_valid x role c h = ground (arith, h)

pub record Valid (x : Parsers) (c : Config) : Type 0 where
  pub id_given : is_blank c.instance_.id ≡ false
  pub role_known : is_role c.instance_.role ≡ true
  pub mapping : ValidMapping c.mapping
  pub performance : ValidPerformance c.performance
  pub poll : c.midi.enabled ≡ true → leb_ℤ c.midi.poll_interval (pos 0) ≡ false
  pub pattern :
      c.midi.enabled ≡ true
      → is_empty c.midi.device_name_regexp ≡ false
      → is_some (x.compile c.midi.device_name_regexp) ≡ true
  pub edge_peer : text_eq c.instance_.role role_edge ≡ true → c.peer.enabled ≡ true
  pub edge_silent : text_eq c.instance_.role role_edge ≡ true → c.midi.enabled ≡ false
  pub peer : c.peer.enabled ≡ true → ValidPeer x c.instance_.role c.peer
  pub rules : (fs : List Rule) × (to_flow_rules x.parse_prefix c.rules ≡ ok fs)

midi_valid :
    (x : Parsers) (c : MidiConfig)
    → midi_faults x c ≡ []
    → (c.enabled ≡ true → leb_ℤ c.poll_interval (pos 0) ≡ false)
      × (c.enabled ≡ true
          → is_empty c.device_name_regexp ≡ false
          → is_some (x.compile c.device_name_regexp) ≡ true)
unfolding midi_faults
midi_valid x c h = (λ e. ground (arith, h, e), λ e r. ground (arith, h, e, r))

rules_valid :
    (r : Result (List Problem) (List Rule)) → rule_faults r ≡ [] → (fs : List Rule) × (r ≡ ok fs)
unfolding rule_faults
rules_valid (ok fs) h = (fs, refl)
rules_valid (err ps) h = absurd (ground (arith, h))

enabled_peer :
    (b : Bool) (faults : List Fault) → (if b then faults else []) ≡ [] → b ≡ true → faults ≡ []
enabled_peer true faults h e = h
enabled_peer false faults h e = absurd (ground (arith, e))

pub validate_config-Valid : (x : Parsers) (c : Config) → validate_config x c ≡ [] → Valid x c
unfolding validate_config
validate_config-Valid x c h =
    let (id, h1) = no_fault _ _ _ h in
    let (role, h2) = no_fault _ _ _ h1 in
    let (_, h3) = both_none (capture_faults c.capture) _ h2 in
    let (mapping, h4) = both_none (mapping_faults c.mapping) _ h3 in
    let (performance, h5) = both_none (performance_faults c.performance) _ h4 in
    let (midi, h6) = both_none (midi_faults x c.midi) _ h5 in
    let (_, h7) = both_none (server_faults x c.server) _ h6 in
    let (edge, h8) =
      no_fault (text_eq c.instance_.role role_edge && not c.peer.enabled) edge_without_peer _ h7 in
    let (silent, h9) =
      no_fault (text_eq c.instance_.role role_edge && c.midi.enabled) edge_with_midi _ h8 in
    let (peers, h10) =
      both_none (if c.peer.enabled then peer_faults x c.instance_.role c.peer else []) _ h9 in
    let (_, h11) = no_fault (not (valid_metric_name c.metrics.namespace)) namespace_invalid _ h10 in
    let (_, rules) = both_none (logging_faults c.logging) _ h11 in
    record {
      id_given = id;
      role_known = ground (arith, role);
      mapping = mapping_valid c.mapping mapping;
      performance = performance_valid c.performance performance;
      poll = (midi_valid x c.midi midi).0;
      pattern = (midi_valid x c.midi midi).1;
      edge_peer = λ e. ground (arith, e, edge);
      edge_silent = λ e. ground (arith, e, silent);
      peer = λ e. peer_valid x c.instance_.role c.peer (enabled_peer c.peer.enabled _ peers e);
      rules = rules_valid (to_flow_rules x.parse_prefix c.rules) rules;
    }
