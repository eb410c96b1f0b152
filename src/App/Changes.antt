-- ===== src/App/Changes.antt =====
-- internal/app/policy.go, classifyChanges: which fields differ between two configurations, and which
-- of those need a restart. reflect.DeepEqual is equality, which is decidable on configurations.
use go_musical_packets.Prelude.{
  ◌≡◌, refl, sym, Bool, List, [], ◌∷◌, ◌++◌, arith, if◌then◌else◌, ℤ, Text, codes, text_lt,
}
use native.Mathlib.Decide.{ℕ_discrete}
use mathlib.Core.Bool.{Bool-discrete}
use go_musical_packets.Config.Settings.{
  Config, InstanceConfig, CaptureConfig, MappingConfig, PerformanceConfig, MidiConfig, ServerConfig,
  PeerConfig, MetricsConfig, LoggingConfig,
}
use go_musical_packets.Config.Rules.{RuleConfig}

Bool_discrete : Discrete Bool
Bool_discrete = Bool-discrete

Text_discrete : Discrete Text
Text_discrete = hlevel ℕ_discrete

ℤ_discrete : Discrete ℤ
ℤ_discrete = hlevel ℕ_discrete

Rules_discrete : Discrete (List RuleConfig)
Rules_discrete = hlevel ℕ_discrete

pub Config_discrete : Discrete Config
Config_discrete = hlevel ℕ_discrete

-- `if !reflect.DeepEqual(before, after) { *target = append(*target, path) }`.
abbrev changed {ℓ} : {P : Type ℓ} → Dec P → Text → List Text
changed (yes p) path = []
changed (no p) path = path ∷ []

abbrev instance_changes : InstanceConfig → InstanceConfig → List Text
instance_changes a b =
    changed (Text_discrete a.id b.id) (codes "instance.id")
    ++ changed (Text_discrete a.role b.role) (codes "instance.role")

abbrev capture_changes : CaptureConfig → CaptureConfig → List Text
capture_changes a b =
    changed (Bool_discrete a.enabled b.enabled) (codes "capture.enabled")
    ++ (changed (Text_discrete a.interface b.interface) (codes "capture.interface")
        ++ (changed (Text_discrete a.bpf b.bpf) (codes "capture.bpf")
            ++ (changed (ℤ_discrete a.snapshot_length b.snapshot_length)
                  (codes "capture.snapshot_length")
                ++ changed (Bool_discrete a.promiscuous b.promiscuous)
                    (codes "capture.promiscuous"))))

abbrev mapping_changes : MappingConfig → MappingConfig → List Text
mapping_changes a b =
    changed (Text_discrete a.version b.version) (codes "mapping.version")
    ++ (changed (Text_discrete a.seed b.seed) (codes "mapping.seed")
        ++ (changed (ℕ_discrete a.minimum_note b.minimum_note) (codes "mapping.minimum_note")
            ++ (changed (ℕ_discrete a.maximum_note b.maximum_note) (codes "mapping.maximum_note")
                ++ (changed (ℤ_discrete a.minimum_duration b.minimum_duration)
                      (codes "mapping.minimum_duration")
                    ++ changed (ℤ_discrete a.maximum_duration b.maximum_duration)
                        (codes "mapping.maximum_duration")))))

abbrev performance_changes : PerformanceConfig → PerformanceConfig → List Text
performance_changes a b =
    changed (ℤ_discrete a.packet_queue_capacity b.packet_queue_capacity)
      (codes "performance.packet_queue_capacity")
    ++ (changed (ℤ_discrete a.note_queue_capacity b.note_queue_capacity)
          (codes "performance.note_queue_capacity")
        ++ (changed (ℤ_discrete a.ui_queue_capacity b.ui_queue_capacity)
              (codes "performance.ui_queue_capacity")
            ++ (changed (ℤ_discrete a.flow_registry_capacity b.flow_registry_capacity)
                  (codes "performance.flow_registry_capacity")
                ++ (changed (ℤ_discrete a.flow_ttl b.flow_ttl) (codes "performance.flow_ttl")
                    ++ (changed (ℤ_discrete a.maximum_notes_per_second b.maximum_notes_per_second)
                          (codes "performance.maximum_notes_per_second")
                        ++ (changed (ℤ_discrete a.maximum_polyphony b.maximum_polyphony)
                              (codes "performance.maximum_polyphony")
                            ++ changed
                                (ℤ_discrete a.minimum_retrigger_interval
                                  b.minimum_retrigger_interval)
                                (codes "performance.minimum_retrigger_interval")))))))

abbrev midi_changes : MidiConfig → MidiConfig → List Text
midi_changes a b =
    changed (Bool_discrete a.enabled b.enabled) (codes "midi.enabled")
    ++ (changed (Text_discrete a.exact_device_name b.exact_device_name)
          (codes "midi.exact_device_name")
        ++ (changed (Text_discrete a.device_name_regexp b.device_name_regexp)
              (codes "midi.device_name_regexp")
            ++ changed (ℤ_discrete a.poll_interval b.poll_interval) (codes "midi.poll_interval")))

abbrev server_changes : ServerConfig → ServerConfig → List Text
server_changes a b =
    changed (Text_discrete a.listen_address b.listen_address) (codes "server.listen_address")
    ++ (changed (ℤ_discrete a.read_timeout b.read_timeout) (codes "server.read_timeout")
        ++ changed (ℤ_discrete a.write_timeout b.write_timeout) (codes "server.write_timeout"))

abbrev peer_changes : PeerConfig → PeerConfig → List Text
peer_changes a b =
    changed (Bool_discrete a.enabled b.enabled) (codes "peer.enabled")
    ++ (changed (Text_discrete a.url b.url) (codes "peer.url")
        ++ (changed (Text_discrete a.token b.token) (codes "peer.token")
            ++ (changed (ℤ_discrete a.queue_capacity b.queue_capacity) (codes "peer.queue_capacity")
                ++ (changed (ℤ_discrete a.maximum_connections b.maximum_connections)
                      (codes "peer.maximum_connections")
                    ++ (changed (ℤ_discrete a.recent_ttl b.recent_ttl) (codes "peer.recent_ttl")
                        ++ (changed (ℤ_discrete a.reconnect_base b.reconnect_base)
                              (codes "peer.reconnect_base")
                            ++ (changed (ℤ_discrete a.reconnect_limit b.reconnect_limit)
                                  (codes "peer.reconnect_limit")
                                ++ changed (ℤ_discrete a.stale_after b.stale_after)
                                    (codes "peer.stale_after"))))))))

abbrev metrics_changes : MetricsConfig → MetricsConfig → List Text
metrics_changes a b = changed (Text_discrete a.namespace b.namespace) (codes "metrics.namespace")

abbrev logging_changes : LoggingConfig → LoggingConfig → List Text
logging_changes a b =
    changed (Text_discrete a.level b.level) (codes "logging.level")
    ++ changed (Text_discrete a.format b.format) (codes "logging.format")

abbrev hot_changes : Config → Config → List Text
hot_changes a b =
    changed (Text_discrete a.mapping.default_state b.mapping.default_state)
      (codes "mapping.default_state")
    ++ (changed (ℕ_discrete a.mapping.default_channel b.mapping.default_channel)
          (codes "mapping.default_channel")
        ++ changed (Rules_discrete a.rules b.rules) (codes "rules"))

abbrev listed_changes : Config → Config → List Text
listed_changes a b =
    instance_changes a.instance_ b.instance_
    ++ (capture_changes a.capture b.capture
        ++ (mapping_changes a.mapping b.mapping
            ++ (performance_changes a.performance b.performance
                ++ (midi_changes a.midi b.midi
                    ++ (server_changes a.server b.server
                        ++ (peer_changes a.peer b.peer
                            ++ (metrics_changes a.metrics b.metrics
                                ++ logging_changes a.logging b.logging)))))))

-- The candidate with the hot fields of the current configuration.
unfoldable pub without_hot : Config → Config → Config
without_hot current candidate = record candidate {
  mapping = record candidate.mapping {
    default_state = current.mapping.default_state;
    default_channel = current.mapping.default_channel;
  };
  rules = current.rules;
}

abbrev or_unclassified {ℓ} : {P : Type ℓ} → Dec P → List Text → List Text
or_unclassified (no p) [] = codes "unclassified" ∷ []
or_unclassified d paths = paths

-- sort.Strings.
insert_text : Text → List Text → List Text
insert_text t [] = t ∷ []
insert_text t (s ∷ ss) = let rest = insert_text t ss in if text_lt s t then s ∷ rest else t ∷ s ∷ ss

sort_texts : List Text → List Text
sort_texts [] = []
sort_texts (t ∷ ts) = insert_text t (sort_texts ts)

pub record Validation : Type 0 where
  pub hot_fields : List Text
  pub restart_required_fields : List Text

restart_changes : Config → Config → List Text
restart_changes current candidate =
    or_unclassified (Config_discrete current (without_hot current candidate))
      (listed_changes current candidate)

pub classify_changes : Config → Config → Validation
classify_changes current candidate = record {
  hot_fields = sort_texts (hot_changes current candidate);
  restart_required_fields = sort_texts (restart_changes current candidate);
}

sort_texts-nil : (ts : List Text) → sort_texts ts ≡ [] → ts ≡ []
unfolding sort_texts insert_text
sort_texts-nil [] h = refl
sort_texts-nil (t ∷ ts) h = absurd (never t (sort_texts ts) h)
  where
    never : (t' : Text) (ss : List Text) → insert_text t' ss ≡ [] → ⊥
    never t' [] k = ground (arith, k)
    never t' (s ∷ ss) k = ground (arith, k)

-- A change needs no restart only where nothing but hot fields differs.
pub classify_changes_cold :
    (current candidate : Config)
    → (classify_changes current candidate).restart_required_fields ≡ []
    → without_hot current candidate ≡ current
unfolding classify_changes restart_changes
classify_changes_cold current candidate h =
    unlisted (Config_discrete current (without_hot current candidate))
      (listed_changes current candidate) (sort_texts-nil (restart_changes current candidate) h)
  where
    unlisted :
        (d : Dec (current ≡ without_hot current candidate)) (paths : List Text)
        → or_unclassified d paths ≡ []
        → without_hot current candidate ≡ current
    unlisted (yes e) paths k = sym e
    unlisted (no p) [] k = absurd (ground (arith, k))
    unlisted (no p) (t ∷ ts) k = absurd (ground (arith, k))
