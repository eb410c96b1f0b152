-- ===== src/Tests/Apps.antt =====
-- The theorems on the application at concrete inputs.
use go_musical_packets.App.Controller.Failures.{call-Same, Same}
use go_musical_packets.App.Components.Start.{validated_builds}
use go_musical_packets.Music.Mapper.Total.{IsMapper}
use go_musical_packets.Flow.Registry.Invariant.{IsRegistry}
use go_musical_packets.App.Controller.Policy.{starting, run_compiled, run-Agrees}
use go_musical_packets.App.Safety.Fresh.{unique_rule_id_ends}
use go_musical_packets.Config.Compile.{compile_selector_total, compile_selector, selector_config}
use go_musical_packets.Flow.Selector.Rules.{of_config}
use go_musical_packets.Pipeline.{Processor}
use go_musical_packets.App.Changes.{without_hot}
use go_musical_packets.App.Components.{
  scheduler_config, new_processor, new_processing_components, Components,
}
use go_musical_packets.Config.Rules.{is_blank, convert_rules, to_flow_rules}
use go_musical_packets.App.Controller.Steps.{transact, compile}
use go_musical_packets.Tests.Configs.{monitor_known, parse_ten-ParsesValid, no_safety, parse_ten}
use go_musical_packets.Packet.{v4}
use go_musical_packets.App.Controller.Agreement.{Agrees, IsRepository}
use go_musical_packets.App.Safety.Compiles.{IsResolved}
use go_musical_packets.App.Safety.{
  capture_safety, tcp_match, unique_rule_id, safety_rule, ids_of, unique_from, PeerCaptureEndpoint,
}
use go_musical_packets.App.Controller.{
  revision_conflict, RequestContext, failure, conflict, RepositoryError, Repository, Revision,
  PolicySnapshot, Change, Stored,
}
use go_musical_packets.Midi.Scheduler.{new_scheduler, Scheduler}
use go_musical_packets.Flow.Selector.{is_state, state_ignore, Rule}
use go_musical_packets.App.Controller.Calls.{
  configures, call, cancel, stage, mutate_unpublished, mutate, started, run_calls, PolicyCall,
  new_controller,
}
use go_musical_packets.Config.Settings.{default_config, Config}
use go_musical_packets.Config.Validation.{
  is_name_start, is_name_rest, valid_metric_name, is_role, rule_faults, logging_faults, peer_faults,
  server_faults, midi_faults, performance_faults, mapping_faults, capture_faults, validate_config,
  Parsers,
}
use go_musical_packets.Prelude.{
  ℕ, suc, ◌≡◌, refl, sym, inl, inr, true, false, Option, none, some, List, [], ◌∷◌, arith,
  if◌then◌else◌, Bool-cases, Result, ok, err, Text, codes, text_eq, contains_text, text_eq→eq,
}

-- Parsers that accept every address and pattern, and a parser that knows one prefix.
abbrev parsers : Parsers
parsers = record {
  compile = λ t. some (λ u. true);
  is_host_port = λ t. true;
  parse_url = λ t. none;
  parse_prefix = parse_ten;
}

abbrev taken : Rule
taken = safety_rule (codes "__musical_packets_http_source") [] tcp_match

unique_rule_id_ends_example :
    (unique_from 2 (codes "__musical_packets_http_source") 0 (ids_of (taken ∷ []))
      ≡ some (unique_rule_id (codes "__musical_packets_http_source") (taken ∷ [])))
    × (contains_text
          (unique_rule_id (codes "__musical_packets_http_source") (taken ∷ []))
          (ids_of (taken ∷ []))
        ≡ false)
unique_rule_id_ends_example =
    unique_rule_id_ends (codes "__musical_packets_http_source") (taken ∷ []) (omega arith)

default-valid : validate_config parsers default_config ≡ []
unfolding validate_config default_config capture_faults mapping_faults performance_faults
    midi_faults server_faults peer_faults logging_faults rule_faults is_role is_blank is_state
    valid_metric_name is_name_rest is_name_start text_eq to_flow_rules convert_rules
default-valid = refl

abbrev host : PeerCaptureEndpoint
host = record { addresses = v4 167772161 ∷ []; port = 9090 }

host-IsResolved : IsResolved (some host)
host-IsResolved = (λ e. ground (arith, e), tt)

validated_builds_example :
    (p : Components) × (q : Processor) × (s : Scheduler) × (new_processing_components parse_ten
        (capture_safety 8080 (some host))
        default_config
      ≡ ok p)
    × (new_processor default_config p ≡ ok q)
    × (new_scheduler (scheduler_config default_config) ≡ ok s)
    × IsRegistry p.registry
    × IsMapper p.mapper
unfolding default_config
validated_builds_example =
    validated_builds parsers default_config default-valid 8080 (some host) parse_ten-ParsesValid
      host-IsResolved (omega arith)

-- A disk on which every replacement that names the revision succeeds.
record Cell : Type 0 where
  config : Config
  generation : ℕ
  rest : Text

abbrev cell_revision : Cell → Revision
cell_revision r = r.generation ∷ r.rest

abbrev stored : Cell → Stored
stored r = record { config = r.config; revision = cell_revision r }

abbrev with_config : Cell → Config → Cell
with_config r c = record { config = c; generation = suc r.generation; rest = r.rest }

abbrev change_of : Cell → Cell → Change
change_of r s = record {
  before = stored r;
  after = stored s;
  durability_warning = false;
  has_changed = true;
}

abbrev cell_rollback : Cell → Change → Revision → Cell × Result RepositoryError Change
cell_rollback r change [] = (r, err failure)
cell_rollback r change (n ∷ t) =
    let s : Cell = record { config = change.before.config; generation = n; rest = t } in
    (s, ok (change_of r s))

abbrev cells : Repository Cell
cells = record {
  read = λ r. (r, ok (stored r));
  replace = λ r e c.
      if text_eq e (cell_revision r)
      then (with_config r c, ok (change_of r (with_config r c)))
      else (r, err (conflict (cell_revision r)));
  rollback = λ r change. cell_rollback r change change.before.revision;
}

cells-IsRepository : IsRepository cells
cells-IsRepository = record {
  revision_of = cell_revision;
  revision_given = λ r. refl;
  read_keeps = λ r. refl;
  read_tells = λ r s h. ground (arith, h);
  replace_tells = tells;
  replace_conflicts = conflicts;
  rollback_tells = λ r ch back h. told r ch back ch.before.revision refl h;
}
  where
    tells :
        (r : Cell) (e : Revision) (c : Config) (ch : Change)
        → (cells.replace r e c).1 ≡ ok ch
        → (ch.after.config ≡ c)
          × (ch.after.revision ≡ cell_revision (cells.replace r e c).0)
          × (ch.before.revision ≡ e)
    tells r e c ch h = elim (Bool-cases (text_eq e (cell_revision r))) [
      | inr f ↦ absurd (ground (arith, h, f))
      | inl t ↦
          let same : change_of r (with_config r c) ≡ ch = ground (arith, h, t) in
          rw (t, ← same) (refl, refl, sym (text_eq→eq e (cell_revision r) t))
    ]

    conflicts :
        (r : Cell) (e a : Revision) (c : Config)
        → (cells.replace r e c).1 ≡ err (conflict a)
        → a ≡ cell_revision (cells.replace r e c).0
    conflicts r e a c h = elim (Bool-cases (text_eq e (cell_revision r))) [
      | inl t ↦ absurd (ground (arith, h, t))
      | inr f ↦ rw (f) (ground (arith, h, f))
    ]

    told :
        (r : Cell) (ch back : Change) (t : Revision)
        → ch.before.revision ≡ t
        → (cell_rollback r ch t).1 ≡ ok back
        → cell_revision (cell_rollback r ch t).0 ≡ ch.before.revision
    told r ch back [] e h = absurd (ground (arith, h))
    told r ch back (n ∷ t) e h = sym e

abbrev disk : Cell
disk = record { config = default_config; generation = 1; rest = [] }

abbrev started_disk : PolicySnapshot
started_disk = started default_config (1 ∷ []) (of_config (selector_config default_config [] []))

default-compiles :
    compile_selector parse_ten default_config no_safety
    ≡ ok (of_config (selector_config default_config [] []))
unfolding contains_text default_config to_flow_rules convert_rules
default-compiles =
    compile_selector_total parse_ten default_config no_safety [] parse_ten-ParsesValid refl refl
      monitor_known (omega arith) (omega arith) tt tt tt

disk-starts : new_controller parsers no_safety cells disk ≡ (disk, ok started_disk)
unfolding new_controller compile
disk-starts = rw (default-valid, default-compiles) refl

abbrev asked : RequestContext
asked = record { is_missing = false; done_first = false; done_middle = false; done_last = false }

abbrev muted_default : Config → Option Config
muted_default c = some (record c { mapping = record c.mapping { default_state = state_ignore } })

abbrev other_seed : Config
other_seed = record default_config {
  mapping = record default_config.mapping { seed = codes "other" };
}

-- The safety rules of a listener come in, the default state changes, its publication fails once, a
-- new seed waits for a restart and is given up.
abbrev calls : List PolicyCall
calls =
    configures (capture_safety 8080 (some host))
    ∷ mutate asked (1 ∷ []) muted_default
    ∷ mutate_unpublished asked (2 ∷ []) some
    ∷ stage asked (2 ∷ []) other_seed
    ∷ cancel asked (3 ∷ [])
    ∷ []

run_compiled_example :
    let w = run_calls parsers cells calls (starting no_safety started_disk disk) in
    (compile parsers w.safety w.snapshot.configuration ≡ ok w.snapshot.selector)
    × (validate_config parsers w.snapshot.configuration ≡ [])
    × (without_hot default_config w.snapshot.configuration ≡ default_config)
run_compiled_example =
    run_compiled parsers no_safety cells cells-IsRepository disk disk started_disk calls disk-starts

run-Agrees_example :
    let w = run_calls parsers cells calls (starting no_safety started_disk disk) in
    Agrees w.snapshot.state w.snapshot (cells-IsRepository.revision_of w.disk)
run-Agrees_example =
    run-Agrees parsers no_safety cells cells-IsRepository disk disk started_disk calls disk-starts
      (refl, (tt, (tt, (tt, (tt, tt)))))

stale-refused :
    (call parsers cells no_safety (mutate asked (9 ∷ []) muted_default) started_disk disk).2
    ≡ err (revision_conflict (1 ∷ []))
unfolding call transact text_eq
stale-refused = refl

call-Same_example :
    Same started_disk
      (call parsers cells no_safety (mutate asked (9 ∷ []) muted_default) started_disk disk).0
call-Same_example =
    call-Same parsers no_safety cells (mutate asked (9 ∷ []) muted_default) started_disk disk
      (revision_conflict (1 ∷ [])) stale-refused
