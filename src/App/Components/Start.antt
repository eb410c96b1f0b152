-- ===== src/App/Components/Start.antt =====
-- newProcessingComponents of internal/app/components.go on a validated configuration.
use go_musical_packets.Flow.Registry.Expiry.{new_registry-IsRegistry}
use go_musical_packets.Flow.Registry.Invariant.{IsRegistry}
use go_musical_packets.App.Safety.Compiles.{capture_safety_ok, address_count, IsResolved}
use go_musical_packets.Flow.Selector.{Selector, Rule}
use go_musical_packets.Config.Rules.Accepted.{
  to_flow_rules-Converted, Converted, is_blank-is_empty, ParsesValid,
}
use go_musical_packets.Music.Mapper.Total.{new_mapper_iff, IsMapper}
use go_musical_packets.Config.Rules.{RuleConfig}
use go_musical_packets.App.Safety.{capture_safety, PeerCaptureEndpoint}
use go_musical_packets.Flow.Registry.{Registry, new_registry}
use go_musical_packets.Prelude.{
  inr, inl, Result-cases, ℕ, suc, ◌+◌, ◌*◌, ◌^◌, ◌<◌, ◌≡◌, refl, ap, Option, List, [], ◌∷◌, arith,
  length, ok,
}
use go_musical_packets.Config.Settings.{Config}
use go_musical_packets.Config.Validation.{Parsers, validate_config}
use go_musical_packets.Config.Validation.Valid.{Valid, validate_config-Valid}
use go_musical_packets.Config.Compile.{compile_selector, compile_selector_total}
use go_musical_packets.App.Components.{
  registry_config, mapper_config, scheduler_config, Components, new_processing_components,
  new_processor,
}
use go_musical_packets.Midi.Scheduler.{Scheduler, new_scheduler}
use go_musical_packets.Pipeline.{Processor, new}

length-Converted : (cs : List RuleConfig) (fs : List Rule) → Converted cs fs → length fs ≡ length cs
length-Converted [] [] h = refl
length-Converted [] (f ∷ fs) h = absurd h
length-Converted (c ∷ cs) [] h = absurd h
length-Converted (c ∷ cs) (f ∷ fs) h = ap (λ (n : ℕ). suc n) (length-Converted cs fs h.1)

module _ (x : Parsers) (c : Config) (valid : validate_config x c ≡ []) where
  abbrev v : Valid x c
  v = validate_config-Valid x c valid

  registry_starts : (r : Registry) × (new_registry (registry_config c) ≡ ok r)
  unfolding new_registry
  registry_starts = elim (Result-cases (new_registry (registry_config c))) [
    | inl found ↦ found
    | inr (_, e) ↦ absurd (
        ground (arith, e, v.mapping.seed_given, v.performance.registry_capacity, v.performance.ttl))
  ]

  mapper_config-IsMapper : IsMapper (mapper_config c)
  mapper_config-IsMapper = record {
    seed_given = v.mapping.seed_given;
    origin_given = is_blank-is_empty c.instance_.id v.id_given;
    notes_ordered = v.mapping.notes_ordered;
    notes_range = v.mapping.notes_range;
    duration_positive = v.mapping.duration_positive;
    durations_ordered = v.mapping.durations_ordered;
  }

  scheduler_starts : (s : Scheduler) × (new_scheduler (scheduler_config c) ≡ ok s)
  unfolding new_scheduler
  scheduler_starts = elim (Result-cases (new_scheduler (scheduler_config c))) [
    | inl found ↦ found
    | inr (_, e) ↦ absurd (
        ground (
          arith, e, v.performance.rate, v.performance.polyphony_low, v.performance.polyphony_high,
          v.performance.retrigger,
        ))
  ]

  processor_starts : (p : Components) → (q : Processor) × (new_processor c p ≡ ok q)
  unfolding new_processor new
  processor_starts p = elim (Result-cases (new_processor c p)) [
    | inl found ↦ found
    | inr (_, e) ↦ absurd (ground (arith, e, v.performance.packet_queue, v.performance.note_queue))
  ]

  -- The policy compiles under the safety rules of any port and any resolved host.
  pub policy_starts :
      (port : ℕ) (endpoint : Option PeerCaptureEndpoint)
      → ParsesValid x.parse_prefix
      → IsResolved endpoint
      → length c.rules + 2 * address_count endpoint + 2 < 2 ^ 63
      → (s : Selector) × (compile_selector x.parse_prefix c (capture_safety port endpoint) ≡ ok s)
  policy_starts port endpoint parses resolved few =
      let (fs, converted) = v.rules in
      let (_, each) = to_flow_rules-Converted x.parse_prefix parses c.rules fs converted in
      let count = length-Converted c.rules fs each in
      let (ignoring, fresh, apart) =
        capture_safety_ok port endpoint fs resolved (omega (arith, count, few)) in
      (
        _,
        compile_selector_total x.parse_prefix c (capture_safety port endpoint) fs parses converted
            v.mapping.seed_given v.mapping.state_known v.mapping.channel_low v.mapping.channel_high
            ignoring fresh apart,
      )

  -- From a configuration without a problem the processing parts can be built: its rules compile beside
  -- the safety rules of any port and any resolved host, and NewRegistry, NewMapper, the pipeline's New and NewScheduler accept what
  -- the application hands them; the registry is well formed and the mapper valid. The rules and the
  -- host's addresses are fewer than 2 ^ 62 together.
  pub validated_builds :
      (port : ℕ) (endpoint : Option PeerCaptureEndpoint)
      → ParsesValid x.parse_prefix
      → IsResolved endpoint
      → length c.rules + 2 * address_count endpoint + 2 < 2 ^ 63
      → (p : Components) × (q : Processor) × (s : Scheduler) × (new_processing_components
            x.parse_prefix
            (capture_safety port endpoint)
            c
          ≡ ok p)
        × (new_processor c p ≡ ok q)
        × (new_scheduler (scheduler_config c) ≡ ok s)
        × IsRegistry p.registry
        × IsMapper p.mapper
  unfolding new_processing_components
  validated_builds port endpoint parses resolved few =
      let (sel, compiled) = policy_starts port endpoint parses resolved few in
      let (r, registered) = registry_starts in
      let p : Components = record { registry = r; selector = sel; mapper = mapper_config c } in
      let (q, processing) = processor_starts p in
      let (s, scheduling) = scheduler_starts in
      (
        p,
        q,
        s,
        rw (compiled, registered, (new_mapper_iff (mapper_config c)).1 mapper_config-IsMapper)
            (refl),
        processing,
        scheduling,
        new_registry-IsRegistry (registry_config c) r registered,
        mapper_config-IsMapper,
      )
