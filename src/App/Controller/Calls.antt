-- ===== src/App/Controller/Calls.antt =====
-- internal/app/policy.go: the calls of Controller, in the order in which its lock lets them in.
use go_musical_packets.App.Controller.Steps.{cancel_restart, stage_restart, compile, transact, Step}
use go_musical_packets.Flow.Selector.{Selector, Rule}
use go_musical_packets.App.Controller.{
  replace_overlay, is_out_of_sync, invalid, read_failed, no_warning, ready, Replacement,
  build_failed, is_nil, Stored, RepositoryError, PolicySnapshot, PolicyError, RequestContext,
  Repository, Revision,
}
use go_musical_packets.Config.Settings.{Config}
use go_musical_packets.Config.Validation.{validate_config, Parsers}
use go_musical_packets.Prelude.{
  true, not, Option, none, some, List, [], ◌∷◌, Result, ok, err, ◌>>=◌, ◌>>◌, refuse_if,
}

abbrev pub started : Config → Revision → Selector → PolicySnapshot
started c revision selector = record {
  revision = revision;
  configuration = c;
  pending_revision = [];
  pending_configuration = none;
  selector = selector;
  overlay = record { muted = []; soloed = [] };
  state = ready;
  warning = no_warning;
}

abbrev pub with_selector : PolicySnapshot → Selector → PolicySnapshot
with_selector s selector = record s {
  pending_revision = [];
  pending_configuration = none;
  selector = selector;
}

-- Controller.configureSafety, which the application calls once, when its listening port is known;
-- the pending revision and configuration are not carried over.
unfoldable pub configure_safety :
    Parsers → (List Rule → List Rule) → PolicySnapshot → Result PolicyError PolicySnapshot
configure_safety x safety s = do
  selector ← compile x safety s.configuration
  ok (with_selector s selector)

module _ (x : Parsers) (safety : List Rule → List Rule) {R : Type 0}
    (repository : Repository R) where
  abbrev pub start_from : Config → Revision → Result PolicyError PolicySnapshot
  start_from c revision = do
    refuse_if (not (is_nil (validate_config x c))) (invalid (validate_config x c))
    selector ← compile x safety c
    ok (started c revision selector)

  abbrev pub start_read : R × Result RepositoryError Stored → R × Result PolicyError PolicySnapshot
  start_read (disk, err e) = (disk, err read_failed)
  start_read (disk, ok stored) = (disk, start_from stored.config stored.revision)

  -- newController on a repository.
  unfoldable pub new_controller : R → R × Result PolicyError PolicySnapshot
  new_controller disk = start_read (repository.read disk)

  -- newController without one; the revision is the digest of the encoded configuration.
  unfoldable pub new_read_only :
      (Config → Option Revision) → Config → Result PolicyError PolicySnapshot
  new_read_only canonical_revision c = elim (canonical_revision c) [
    | none ↦ err build_failed
    | some r ↦ start_from c r
  ]

-- The calls that change the published snapshot.
pub data PolicyCall : Type 0 where
  -- MutateContext and UpdateContext.
  mutate : RequestContext → Revision → (Config → Option Config) → PolicyCall
  -- A mutation whose publication fails.
  mutate_unpublished : RequestContext → Revision → (Config → Option Config) → PolicyCall
  stage : RequestContext → Revision → Config → PolicyCall
  cancel : RequestContext → Revision → PolicyCall
  set_overlay : RequestContext → Replacement → PolicyCall
  configures : (List Rule → List Rule) → PolicyCall

abbrev pub configured :
    {R : Type 0}
    → PolicySnapshot
    → R
    → Result PolicyError PolicySnapshot
    → PolicySnapshot × R × Result PolicyError (Unit {0})
configured s disk (ok t) = (t, disk, ok tt)
configured s disk (err e) = (s, disk, err e)

-- The safety callback after a call, by its answer.
abbrev pub safety_after :
    PolicyCall → (List Rule → List Rule) → Result PolicyError (Unit {0}) → List Rule → List Rule
safety_after (configures f) safety (ok _) = f
safety_after (configures f) safety (err e) = safety
safety_after (mutate ctx e build) safety r = safety
safety_after (mutate_unpublished ctx e build) safety r = safety
safety_after (stage ctx e c) safety r = safety
safety_after (cancel ctx e) safety r = safety
safety_after (set_overlay ctx o) safety r = safety

-- What the calls share: the safety callback, the published snapshot and the disk.
pub record Running (R : Type 0) : Type 0 where
  pub safety : List Rule → List Rule
  pub snapshot : PolicySnapshot
  pub disk : R

module _ (x : Parsers) {R : Type 0} (repository : Repository R) where
  unfoldable pub call :
      (safety : List Rule → List Rule) → PolicyCall → PolicySnapshot → R → Step x safety repository
  call safety (mutate ctx e build) s disk =
      transact x safety repository true ctx e true build s disk
  call safety (mutate_unpublished ctx e build) s disk =
      transact x safety repository true ctx e (is_out_of_sync s.state) build s disk
  call safety (stage ctx e c) s disk = stage_restart x safety repository true ctx e c s disk
  call safety (cancel ctx e) s disk = cancel_restart x safety repository ctx e s disk
  call safety (set_overlay ctx r) s disk =
      let (s', answer) = replace_overlay ctx r s in (s', disk, answer)
  call safety (configures f) s disk = configured s disk (configure_safety x f s)

  unfoldable pub after_call : PolicyCall → Running R → Running R
  after_call c w =
      let (s, disk, answer) = call w.safety c w.snapshot w.disk in
      record { safety = safety_after c w.safety answer; snapshot = s; disk = disk }

  unfoldable pub run_calls : List PolicyCall → Running R → Running R
  run_calls [] w = w
  run_calls (c ∷ cs) w = run_calls cs (after_call c w)
