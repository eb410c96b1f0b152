-- ===== src/Config/Settings.antt =====
-- internal/config/config.go: the configuration and its default.

use go_musical_packets.Flow.Selector.{State, state_monitor}
use go_musical_packets.Prelude.{ℕ, Bool, true, false, List, [], ℤ, pos, Text, codes}
use go_musical_packets.Config.Rules.{RuleConfig}

abbrev pub Role : Type 0
Role = Text

abbrev pub role_standalone : Role
role_standalone = codes "standalone"

abbrev pub role_edge : Role
role_edge = codes "edge"

abbrev pub role_host : Role
role_host = codes "host"

pub record InstanceConfig : Type 0 where
  pub id : Text
  pub role : Role

pub record CaptureConfig : Type 0 where
  pub enabled : Bool
  pub interface : Text
  pub bpf : Text
  pub snapshot_length : ℤ
  pub promiscuous : Bool

pub record MappingConfig : Type 0 where
  pub version : Text
  pub seed : Text
  pub default_state : State
  pub default_channel : ℕ  -- uint8
  pub minimum_note : ℕ  -- uint8
  pub maximum_note : ℕ  -- uint8
  pub minimum_duration : ℤ
  pub maximum_duration : ℤ

pub record PerformanceConfig : Type 0 where
  pub packet_queue_capacity : ℤ
  pub note_queue_capacity : ℤ
  pub ui_queue_capacity : ℤ
  pub flow_registry_capacity : ℤ
  pub flow_ttl : ℤ
  pub maximum_notes_per_second : ℤ
  pub maximum_polyphony : ℤ
  pub minimum_retrigger_interval : ℤ

pub record MidiConfig : Type 0 where
  pub enabled : Bool
  pub exact_device_name : Text
  pub device_name_regexp : Text
  pub poll_interval : ℤ

pub record ServerConfig : Type 0 where
  pub listen_address : Text
  pub read_timeout : ℤ
  pub write_timeout : ℤ

pub record PeerConfig : Type 0 where
  pub enabled : Bool
  pub url : Text
  pub token : Text
  pub queue_capacity : ℤ
  pub maximum_connections : ℤ
  pub recent_ttl : ℤ
  pub reconnect_base : ℤ
  pub reconnect_limit : ℤ
  pub stale_after : ℤ

pub record MetricsConfig : Type 0 where
  pub namespace : Text

pub record LoggingConfig : Type 0 where
  pub level : Text
  pub format : Text

pub record Config : Type 0 where
  pub instance_ : InstanceConfig
  pub capture : CaptureConfig
  pub mapping : MappingConfig
  pub performance : PerformanceConfig
  pub midi : MidiConfig
  pub server : ServerConfig
  pub peer : PeerConfig
  pub metrics : MetricsConfig
  pub logging : LoggingConfig
  pub rules : List RuleConfig

abbrev pub redacted_value : Text
redacted_value = codes "<redacted>"

unfoldable pub default_config : Config
default_config = record {
  instance_ = record { id = codes "musical-packets"; role = role_standalone };
  capture = record {
    enabled = true;
    interface = codes "auto";
    bpf = [];
    snapshot_length = pos 65535;
    promiscuous = true;
  };
  mapping = record {
    version = codes "flow-mode-v1";
    seed = codes "musical-packets";
    default_state = state_monitor;
    default_channel = 1;
    minimum_note = 36;
    maximum_note = 96;
    minimum_duration = pos 50000000;
    maximum_duration = pos 2000000000;
  };
  performance = record {
    packet_queue_capacity = pos 4096;
    note_queue_capacity = pos 1024;
    ui_queue_capacity = pos 512;
    flow_registry_capacity = pos 10000;
    flow_ttl = pos 300000000000;
    maximum_notes_per_second = pos 100;
    maximum_polyphony = pos 32;
    minimum_retrigger_interval = pos 10000000;
  };
  midi = record {
    enabled = true;
    exact_device_name = [];
    device_name_regexp = [];
    poll_interval = pos 2000000000;
  };
  server = record {
    listen_address = codes "127.0.0.1:8080";
    read_timeout = pos 10000000000;
    write_timeout = pos 10000000000;
  };
  peer = record {
    enabled = false;
    url = [];
    token = [];
    queue_capacity = pos 1024;
    maximum_connections = pos 64;
    recent_ttl = pos 300000000000;
    reconnect_base = pos 500000000;
    reconnect_limit = pos 30000000000;
    stale_after = pos 500000000;
  };
  metrics = record { namespace = codes "musical_packets" };
  logging = record { level = codes "info"; format = codes "text" };
  rules = [];
}
