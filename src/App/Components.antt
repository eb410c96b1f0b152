-- ===== src/App/Components.antt =====
-- internal/app/components.go and app.go: the parts as they are built from the configuration.
pub mod Start
use go_musical_packets.Flow.Prefix.{Prefix}
use go_musical_packets.Flow.Selector.{Rule, Selector}
use go_musical_packets.Prelude.{Option, List, Result, ok, ◌>>=◌, map_err, Text}
use go_musical_packets.Config.Settings.{Config}
use go_musical_packets.Config.Compile.{CompileError, compile_selector}
use go_musical_packets.Flow.Registry.{Registry, RegistryConfig, RegistryError, new_registry}
use go_musical_packets.Music.Mapper.{MapperConfig, MapperError, new_mapper}
use go_musical_packets.Pipeline.{Processor, PipelineError, new}
use go_musical_packets.Midi.Scheduler.{SchedulerConfig}

abbrev pub registry_config : Config → RegistryConfig
registry_config c = record {
  seed = c.mapping.seed;
  capacity = c.performance.flow_registry_capacity;
  ttl = c.performance.flow_ttl;
}

abbrev pub mapper_config : Config → MapperConfig
mapper_config c = record {
  seed = c.mapping.seed;
  origin = c.instance_.id;
  minimum_note = c.mapping.minimum_note;
  maximum_note = c.mapping.maximum_note;
  minimum_duration = c.mapping.minimum_duration;
  maximum_duration = c.mapping.maximum_duration;
}

abbrev pub scheduler_config : Config → SchedulerConfig
scheduler_config c = record {
  maximum_notes_per_second = c.performance.maximum_notes_per_second;
  maximum_polyphony = c.performance.maximum_polyphony;
  minimum_retrigger_interval = c.performance.minimum_retrigger_interval;
}

pub data StartError : Type 0 where
  policy_error : CompileError → StartError
  registry_error : RegistryError → StartError
  mapper_error : MapperError → StartError
  pipeline_error : PipelineError → StartError

-- What newProcessingComponents builds.
pub record Components : Type 0 where
  pub registry : Registry
  pub selector : Selector
  pub mapper : MapperConfig

-- The selector of the controller's policy, then the registry and the mapper.
unfoldable pub new_processing_components :
    (Text → Option Prefix) → (List Rule → List Rule) → Config → Result StartError Components
new_processing_components parse safety c = do
  selector ← map_err policy_error (compile_selector parse c safety)
  registry ← map_err registry_error (new_registry (registry_config c))
  mapper ← map_err mapper_error (new_mapper (mapper_config c))
  ok (record { registry = registry; selector = selector; mapper = mapper })

unfoldable pub new_processor : Config → Components → Result StartError Processor
new_processor c x = map_err pipeline_error (
    new x.registry x.selector x.mapper c.performance.packet_queue_capacity
      c.performance.note_queue_capacity)
