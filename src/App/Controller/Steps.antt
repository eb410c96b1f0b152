-- ===== src/App/Controller/Steps.antt =====
-- internal/app/policy.go: the transactions of Controller on the published snapshot and the disk.
use go_musical_packets.Prelude.{
  Bool, false, not, ◌&&◌, Option, none, some, List, [], if◌then◌else◌, Result, ok, err, ◌>>=◌, ◌>>◌,
  refuse_if, map_err, text_eq, is_empty,
}
use go_musical_packets.App.Controller.{
  Revision, ControllerState, ready, restart_pending, out_of_sync, durability_uncertain, degraded,
  Stored, Change, RepositoryError, conflict, failure, Repository, no_warning, durability,
  file_differs, unverified, unpublished, rollback_failed, saved, saved_uncertain, PolicySnapshot,
  PolicyError, context_missing, context_done, is_degraded, restart_is_pending, read_failed,
  build_failed, revision_conflict, invalid, not_compiled, restart_required, restart_not_required,
  read_only, pending_not_found, apply_error, persist_error, state_error, RequestContext,
  snapshot_with_status, same_config, is_nil, or_state, warn_if, is_out_of_sync, expected_durable,
}
use go_musical_packets.Config.Settings.{Config}
use go_musical_packets.Config.Validation.{Parsers, validate_config}
use go_musical_packets.Config.Compile.{compile_selector}
use go_musical_packets.App.Changes.{Validation, classify_changes}
use go_musical_packets.Flow.Selector.{Selector, Rule}

abbrev pub confirmed : Revision → Result RepositoryError Stored → Bool
confirmed durable (ok s) = text_eq s.revision durable
confirmed durable (err e) = false

abbrev pub after_rollback : PolicySnapshot → Result RepositoryError Change → PolicySnapshot
after_rollback s (err e) = snapshot_with_status s degraded rollback_failed
after_rollback s (ok back) =
    if back.durability_warning
    then snapshot_with_status s durability_uncertain durability
    else snapshot_with_status s ready no_warning

abbrev pub is_current : PolicySnapshot → Change → Bool
is_current s change =
    text_eq change.after.revision s.revision && same_config change.after.config s.configuration

unfoldable pub published : PolicySnapshot → Selector → Change → PolicySnapshot
published s selector change = record {
  revision = change.after.revision;
  configuration = change.after.config;
  pending_revision = [];
  pending_configuration = none;
  selector = selector;
  overlay = s.overlay;
  state = or_state change.durability_warning;
  warning = warn_if change.durability_warning;
}

unfoldable pub staged : PolicySnapshot → Change → PolicySnapshot
staged s change =
    record (snapshot_with_status s restart_pending
      (if change.durability_warning then saved_uncertain else saved)) {
        pending_revision = change.after.revision;
        pending_configuration = some change.after.config;
      }

unfoldable pub cancelled : PolicySnapshot → Change → PolicySnapshot
cancelled s change = record s {
  revision = change.after.revision;
  pending_revision = [];
  pending_configuration = none;
  state = or_state change.durability_warning;
  warning = warn_if change.durability_warning;
}

module _ (x : Parsers) (safety : List Rule → List Rule) where
  unfoldable pub compile : Config → Result PolicyError Selector
  compile c = map_err not_compiled (compile_selector x.parse_prefix c safety)

  -- Controller.validate, which also compiles the candidate.
  unfoldable pub validate_candidate : Config → Config → Result PolicyError Validation
  validate_candidate current candidate =
      let faults = validate_config x candidate in
      refuse_if (not (is_nil faults)) (invalid faults)
      >> (compile candidate >>= λ _. ok (classify_changes current candidate))

  -- The part of transactContext between the base and the persistence; `build` is none where the
  -- mutation fails.
  unfoldable pub prepare :
      Bool
      → RequestContext
      → Revision
      → PolicySnapshot
      → Option Config
      → Result PolicyError (Config × Selector)
  prepare writable ctx expected s none = err build_failed
  prepare writable ctx expected s (some candidate) = do
    refuse_if ctx.done_middle context_done
    classification ← validate_candidate s.configuration candidate
    refuse_if (not (is_nil classification.restart_required_fields))
        (restart_required classification.restart_required_fields)
    selector ← compile candidate
    refuse_if (not writable && not (text_eq expected s.revision)) (revision_conflict s.revision)
    refuse_if (not writable) read_only
    refuse_if ctx.done_last context_done
    ok (candidate, selector)

  module _ {R : Type 0} (repository : Repository R) where
    abbrev pub Step : Type 0
    Step = PolicySnapshot × R × Result PolicyError (Unit {0})

    -- After a failure that is no conflict: whether the disk still has what it should.
    unfoldable pub mark_persistence_uncertainty : PolicySnapshot → R → PolicySnapshot × R
    mark_persistence_uncertainty s disk =
        let (disk', durable) = repository.read disk in
        (
          if confirmed (expected_durable s) durable
              then s
              else snapshot_with_status s out_of_sync unverified,
          disk',
        )

    -- What follows a replacement that failed, where the disk should have had `durable`.
    unfoldable pub persist_failed : Revision → PolicySnapshot → R → RepositoryError → Step
    persist_failed durable s disk (conflict actual) = (
      if text_eq actual durable then s else snapshot_with_status s out_of_sync file_differs,
      disk,
      err (persist_error (conflict actual)),
    )
    persist_failed durable s disk failure =
        let (s', disk') = mark_persistence_uncertainty s disk in
        (s', disk', err (persist_error failure))

    unfoldable pub apply_failed : PolicySnapshot → R → Change → Step
    apply_failed s disk change =
        let (disk', back) = repository.rollback disk change in
        if not change.has_changed
        then (
          if is_current s change then s else snapshot_with_status s out_of_sync unpublished,
          disk,
          err apply_error,
        )
        else (after_rollback s back, disk', err apply_error)

    -- After a replacement that succeeded; `applies` says whether the publication does.
    unfoldable pub commit_change : Bool → PolicySnapshot → Selector → R → Change → Step
    commit_change applies s selector disk change =
        if not change.has_changed && is_current s change && not (is_out_of_sync s.state)
        then (s, disk, ok tt)
        else if applies
        then (published s selector change, disk, ok tt)
        else apply_failed s disk change

    abbrev pub persist_result :
        Bool → PolicySnapshot → Selector → R × Result RepositoryError Change → Step
    persist_result applies s selector (disk, err e) = persist_failed s.revision s disk e
    persist_result applies s selector (disk, ok change) =
        commit_change applies s selector disk change

    abbrev pub persist :
        Bool → Revision → PolicySnapshot → R → Result PolicyError (Config × Selector) → Step
    persist applies expected s disk (err e) = (s, disk, err e)
    persist applies expected s disk (ok (candidate, selector)) =
        persist_result applies s selector (repository.replace disk expected candidate)

    module _ (writable : Bool) (ctx : RequestContext) (expected : Revision) (applies : Bool)
        (build : Config → Option Config) where
      unfoldable pub transact_on : PolicySnapshot → R → Config → Step
      transact_on s disk base =
          persist applies expected s disk (prepare writable ctx expected s (build base))

      -- An out-of-sync controller starts from the disk, if it has the expected revision.
      abbrev pub reconcile : PolicySnapshot → R × Result RepositoryError Stored → Step
      reconcile s (disk, err e) = (s, disk, err read_failed)
      reconcile s (disk, ok durable) =
          if text_eq durable.revision expected then transact_on s disk durable.config else (
            snapshot_with_status s out_of_sync file_differs,
            disk,
            err (revision_conflict durable.revision),
          )

      abbrev pub transact_from : ControllerState → PolicySnapshot → R → Step
      transact_from degraded s disk = (s, disk, err is_degraded)
      transact_from restart_pending s disk = (s, disk, err restart_is_pending)
      transact_from out_of_sync s disk = reconcile s (repository.read disk)
      transact_from state s disk =
          if text_eq expected s.revision
          then transact_on s disk s.configuration
          else (s, disk, err (revision_conflict s.revision))

      -- transactContext.
      unfoldable pub transact : PolicySnapshot → R → Step
      transact s disk =
          if ctx.is_missing
          then (s, disk, err context_missing)
          else if ctx.done_first
          then (s, disk, err context_done)
          else transact_from s.state s disk

    abbrev pub stage_result : Revision → PolicySnapshot → R × Result RepositoryError Change → Step
    stage_result durable s (disk, err e) = persist_failed durable s disk e
    stage_result durable s (disk, ok change) = (staged s change, disk, ok tt)

    unfoldable pub stage_checks :
        Bool
        → RequestContext
        → Revision
        → Revision
        → PolicySnapshot
        → Config
        → Result PolicyError (Unit {0})
    stage_checks writable ctx expected durable s candidate = do
      refuse_if (not (text_eq expected durable)) (revision_conflict durable)
      classification ← validate_candidate s.configuration candidate
      refuse_if (is_nil classification.restart_required_fields) restart_not_required
      refuse_if (not writable) read_only
      refuse_if ctx.done_last context_done

    abbrev pub stage_checked :
        Revision → PolicySnapshot → R → Config → Result PolicyError (Unit {0}) → Step
    stage_checked durable s disk candidate (err e) = (s, disk, err e)
    stage_checked durable s disk candidate (ok _) =
        stage_result durable s (repository.replace disk durable candidate)

    abbrev pub stage_from :
        ControllerState → Bool → RequestContext → Revision → PolicySnapshot → R → Config → Step
    stage_from degraded writable ctx expected s disk candidate = (s, disk, err is_degraded)
    stage_from out_of_sync writable ctx expected s disk candidate =
        (s, disk, err (state_error out_of_sync))
    stage_from durability_uncertain writable ctx expected s disk candidate =
        (s, disk, err (state_error durability_uncertain))
    stage_from ready writable ctx expected s disk candidate =
        stage_checked s.revision s disk candidate
          (stage_checks writable ctx expected s.revision s candidate)
    stage_from restart_pending writable ctx expected s disk candidate =
        stage_checked s.pending_revision s disk candidate
          (stage_checks writable ctx expected s.pending_revision s candidate)

    -- StageRestartContext.
    unfoldable pub stage_restart :
        Bool → RequestContext → Revision → Config → PolicySnapshot → R → Step
    stage_restart writable ctx expected candidate s disk =
        if ctx.is_missing
        then (s, disk, err context_missing)
        else if ctx.done_first
        then (s, disk, err context_done)
        else stage_from s.state writable ctx expected s disk candidate

    abbrev pub cancel_result : PolicySnapshot → R × Result RepositoryError Change → Step
    cancel_result s (disk, err e) = persist_failed s.pending_revision s disk e
    cancel_result s (disk, ok change) = (cancelled s change, disk, ok tt)

    abbrev pub cancel_from : ControllerState → Revision → PolicySnapshot → R → Step
    cancel_from restart_pending expected s disk =
        if is_empty s.pending_revision
        then (s, disk, err pending_not_found)
        else if text_eq expected s.pending_revision
        then cancel_result s (repository.replace disk s.pending_revision s.configuration)
        else (s, disk, err (revision_conflict s.pending_revision))
    cancel_from state expected s disk = (s, disk, err pending_not_found)

    -- CancelRestartContext.
    unfoldable pub cancel_restart : RequestContext → Revision → PolicySnapshot → R → Step
    cancel_restart ctx expected s disk =
        if ctx.is_missing
        then (s, disk, err context_missing)
        else if ctx.done_first
        then (s, disk, err context_done)
        else cancel_from s.state expected s disk
