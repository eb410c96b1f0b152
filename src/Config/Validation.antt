-- ===== src/Config/Validation.antt =====
-- internal/config/config.go: Validate. regexp.Compile, net.SplitHostPort, url.Parse and
-- netip.ParsePrefix are parameters.
pub mod Valid
use go_musical_packets.Config.Settings.{
  Role, role_standalone, role_edge, role_host, InstanceConfig, CaptureConfig, MappingConfig,
  PerformanceConfig, MidiConfig, ServerConfig, PeerConfig, MetricsConfig, LoggingConfig, Config,
  redacted_value, default_config,
}
use go_musical_packets.Music.Mapper.{flow_mode_v1}
use go_musical_packets.Flow.Prefix.{Prefix}
use go_musical_packets.Flow.Selector.{is_state, State, Rule, state_monitor}
use go_musical_packets.Prelude.{
  ℕ, Bool, true, false, not, ◌&&◌, ◌||◌, Option, none, some, List, [], ◌∷◌, ◌++◌, ltb, leb, ◌==◌,
  if◌then◌else◌, is_some, length, Result, ok, err, ℤ, pos, ltb_ℤ, leb_ℤ, Text, codes, text_eq,
  is_empty,
}
use go_musical_packets.Config.Rules.{Problem, RuleConfig, is_blank, to_flow_rules}

-- What the program reads of a parsed URL.
pub record Url : Type 0 where
  pub scheme : Text
  pub host : Text
  pub has_user : Bool

-- The parsers of Go's library that the validation calls.
pub record Parsers : Type 0 where
  pub compile : Text → Option (Text → Bool)
  pub is_host_port : Text → Bool
  pub parse_url : Text → Option Url
  pub parse_prefix : Text → Option Prefix

pub data Fault : Type 0 where
  id_missing role_invalid interface_missing snapshot_length_invalid default_state_invalid : Fault
  version_unsupported seed_missing default_channel_invalid note_range_invalid : Fault
  duration_range_invalid queue_capacities_invalid registry_capacity_invalid flow_ttl_invalid : Fault
  rate_invalid polyphony_invalid retrigger_invalid poll_interval_invalid regexp_invalid : Fault
  listen_address_invalid timeouts_invalid edge_without_peer edge_with_midi url_invalid : Fault
  token_short peer_queue_invalid connections_invalid recent_ttl_invalid reconnect_invalid : Fault
  stale_after_invalid namespace_invalid level_invalid format_invalid : Fault
  rules_invalid : List Problem → Fault

-- `if bad { problems = append(problems, x) }`.
abbrev pub fault_if : Bool → Fault → List Fault
fault_if true x = x ∷ []
fault_if false x = []

unfoldable pub is_role : Role → Bool
is_role r = text_eq r role_standalone || text_eq r role_edge || text_eq r role_host

abbrev pub not_positive : ℤ → Bool
not_positive n = leb_ℤ n (pos 0)

unfoldable pub is_name_start : ℕ → Bool
is_name_start b = (leb 97 b && leb b 122) || (leb 65 b && leb b 90) || b == 95 || b == 58

unfoldable pub is_name_rest : Text → Bool
is_name_rest [] = true
is_name_rest (b ∷ bs) = (is_name_start b || (leb 48 b && leb b 57)) && is_name_rest bs

-- The pattern ^[a-zA-Z_:][a-zA-Z0-9_:]*$.
unfoldable pub valid_metric_name : Text → Bool
valid_metric_name [] = false
valid_metric_name (b ∷ bs) = is_name_start b && is_name_rest bs

unfoldable pub valid_peer_url : Option Url → Bool
valid_peer_url none = false
valid_peer_url (some u) =
    not (is_empty u.host)
    && not u.has_user
    && (text_eq u.scheme (codes "ws") || text_eq u.scheme (codes "wss"))

unfoldable pub capture_faults : CaptureConfig → List Fault
capture_faults c =
    if c.enabled
    then fault_if (is_blank c.interface) interface_missing
      ++ fault_if (ltb_ℤ c.snapshot_length (pos 64) || ltb_ℤ (pos 65535) c.snapshot_length)
          snapshot_length_invalid
    else []

unfoldable pub mapping_faults : MappingConfig → List Fault
mapping_faults c =
    fault_if (not (is_state c.default_state)) default_state_invalid
    ++ (fault_if (not (text_eq c.version flow_mode_v1)) version_unsupported
        ++ (fault_if (is_empty c.seed) seed_missing
            ++ (fault_if (ltb c.default_channel 1 || ltb 16 c.default_channel)
                  default_channel_invalid
                ++ (fault_if
                      (ltb 127 c.minimum_note
                        || ltb 127 c.maximum_note
                        || ltb c.maximum_note c.minimum_note)
                      note_range_invalid
                    ++ fault_if
                        (not_positive c.minimum_duration
                          || ltb_ℤ c.maximum_duration c.minimum_duration)
                        duration_range_invalid))))

unfoldable pub performance_faults : PerformanceConfig → List Fault
performance_faults c =
    fault_if
      (not_positive c.packet_queue_capacity
        || not_positive c.note_queue_capacity
        || not_positive c.ui_queue_capacity)
      queue_capacities_invalid
    ++ (fault_if (not_positive c.flow_registry_capacity) registry_capacity_invalid
        ++ (fault_if (not_positive c.flow_ttl) flow_ttl_invalid
            ++ (fault_if (not_positive c.maximum_notes_per_second) rate_invalid
                ++ (fault_if
                      (ltb_ℤ c.maximum_polyphony (pos 1) || ltb_ℤ (pos 128) c.maximum_polyphony)
                      polyphony_invalid
                    ++ fault_if (ltb_ℤ c.minimum_retrigger_interval (pos 0)) retrigger_invalid))))

unfoldable pub rule_faults : Result (List Problem) (List Rule) → List Fault
rule_faults (ok rs) = []
rule_faults (err ps) = rules_invalid ps ∷ []

unfoldable pub logging_faults : LoggingConfig → List Fault
logging_faults c =
    fault_if
      (not (
        text_eq c.level (codes "debug")
        || text_eq c.level (codes "info")
        || text_eq c.level (codes "warn")
        || text_eq c.level (codes "error")))
      level_invalid
    ++ fault_if (not (text_eq c.format (codes "text") || text_eq c.format (codes "json")))
        format_invalid

module _ (x : Parsers) where
  unfoldable pub midi_faults : MidiConfig → List Fault
  midi_faults c =
      if c.enabled
      then fault_if (not_positive c.poll_interval) poll_interval_invalid
        ++ fault_if
            (not (is_empty c.device_name_regexp) && not (is_some (x.compile c.device_name_regexp)))
            regexp_invalid
      else []

  unfoldable pub server_faults : ServerConfig → List Fault
  server_faults c =
      fault_if (not (x.is_host_port c.listen_address)) listen_address_invalid
      ++ fault_if (not_positive c.read_timeout || not_positive c.write_timeout) timeouts_invalid

  -- The part for an enabled peer transport.
  unfoldable pub peer_faults : Role → PeerConfig → List Fault
  peer_faults role c =
      fault_if
        ((text_eq role role_edge || not (is_empty c.url))
          && not (valid_peer_url (x.parse_url c.url)))
        url_invalid
      ++ (fault_if (ltb (length c.token) 16 && not (text_eq c.token redacted_value)) token_short
          ++ (fault_if (not_positive c.queue_capacity) peer_queue_invalid
              ++ (fault_if
                    (not_positive c.maximum_connections || ltb_ℤ (pos 1024) c.maximum_connections)
                    connections_invalid
                  ++ (fault_if (not_positive c.recent_ttl) recent_ttl_invalid
                      ++ (fault_if
                            (not_positive c.reconnect_base
                              || ltb_ℤ c.reconnect_limit c.reconnect_base)
                            reconnect_invalid
                          ++ fault_if (not_positive c.stale_after) stale_after_invalid)))))

  -- All the problems in the order of the source; none of them means that the configuration is valid.
  unfoldable pub validate_config : Config → List Fault
  validate_config c =
      fault_if (is_blank c.instance_.id) id_missing
      ++ (fault_if (not (is_role c.instance_.role)) role_invalid
          ++ (capture_faults c.capture
              ++ (mapping_faults c.mapping
                  ++ (performance_faults c.performance
                      ++ (midi_faults c.midi
                          ++ (server_faults c.server
                              ++ (fault_if
                                    (text_eq c.instance_.role role_edge && not c.peer.enabled)
                                    edge_without_peer
                                  ++ (fault_if
                                        (text_eq c.instance_.role role_edge && c.midi.enabled)
                                        edge_with_midi
                                      ++ ((if c.peer.enabled
                                            then peer_faults c.instance_.role c.peer
                                            else [])
                                          ++ (fault_if (not (valid_metric_name c.metrics.namespace))
                                                namespace_invalid
                                              ++ (logging_faults c.logging
                                                  ++ rule_faults (
                                                      to_flow_rules x.parse_prefix
                                                        c.rules))))))))))))
