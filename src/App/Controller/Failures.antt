-- ===== src/App/Controller/Failures.antt =====
-- The error paths of internal/app/policy.go.
use go_musical_packets.App.Controller.{
  no_warning, apply_error, failure, expected_durable, rollback_failed, file_differs, unpublished,
  unverified, durability,
}
use go_musical_packets.App.Controller.Calls.{
  configured, configures, configure_safety, set_overlay, cancel, stage, mutate_unpublished, mutate,
  PolicyCall, call,
}
use go_musical_packets.App.Controller.Steps.{
  confirmed, stage_checks, published, cancel_restart, reconcile, prepare, stage_checked,
  stage_restart, persist, transact_from, transact_on, stage_from, staged, persist_result,
  is_current, mark_persistence_uncertainty, cancelled, stage_result, transact, cancel_from,
  cancel_result, commit_change, persist_failed, Step, apply_failed, after_rollback,
}
use go_musical_packets.Flow.Selector.{Selector, Rule}
use go_musical_packets.Config.Settings.{Config}
use go_musical_packets.Config.Validation.{Parsers}
use go_musical_packets.App.Controller.{
  takes_overlay, durability_uncertain, restart_pending, overlay_limit, state_error, values_of,
  ready, restart_is_pending, read_failed, is_out_of_sync, is_degraded, validate_overlay_set,
  revision_conflict, pending_not_found, out_of_sync, conflict, overlay_checked, Stored,
  context_done, Replacement, degraded, context_missing, PolicyError, replace_overlay, Revision,
  RequestContext, Warning, Repository, Change, ControllerState, RepositoryError, PolicySnapshot,
  snapshot_with_status,
}
use go_musical_packets.Prelude.{
  ◌≡◌, refl, inl, inr, Bool, true, not, ◌&&◌, Option, List, arith, if◌then◌else◌, Bool-cases,
  if_cases, Result, ok, err, text_eq, is_empty,
}

-- The same policy: only the state and the warning may differ.
pub record Same (s t : PolicySnapshot) : Type 0 where
  pub same_revision : t.revision ≡ s.revision
  pub same_configuration : t.configuration ≡ s.configuration
  pub same_selector : t.selector ≡ s.selector
  pub same_overlay : t.overlay ≡ s.overlay
  pub same_pending : t.pending_revision ≡ s.pending_revision
  pub same_pending_configuration : t.pending_configuration ≡ s.pending_configuration

kept : (s : PolicySnapshot) → Same s s
kept s = record {
  same_revision = refl;
  same_configuration = refl;
  same_selector = refl;
  same_overlay = refl;
  same_pending = refl;
  same_pending_configuration = refl;
}

Same-status :
    (s : PolicySnapshot) (st : ControllerState) (w : Warning) → Same s (snapshot_with_status s st w)
unfolding snapshot_with_status
Same-status s st w = record {
  same_revision = refl;
  same_configuration = refl;
  same_selector = refl;
  same_overlay = refl;
  same_pending = refl;
  same_pending_configuration = refl;
}

Same-after_rollback :
    (s : PolicySnapshot) (r : Result RepositoryError Change) → Same s (after_rollback s r)
Same-after_rollback s (err e) = Same-status s degraded rollback_failed
Same-after_rollback s (ok back) =
    if_cases (Same s) back.durability_warning
      (snapshot_with_status s durability_uncertain durability)
      (snapshot_with_status s ready no_warning) (λ _. Same-status s durability_uncertain durability)
      (λ _. Same-status s ready no_warning)

module _ (x : Parsers) (safety : List Rule → List Rule) {R : Type 0}
    (repository : Repository R) where
  -- What is claimed of the outcome of a step from `s`.
  Unless : PolicySnapshot → Step x safety repository → Type 0
  Unless s w = (e : PolicyError) → w.2 ≡ err e → Same s w.0

  succeeds : (s t : PolicySnapshot) (disk : R) → Unless s (t, disk, ok tt)
  unfolding Unless
  succeeds s t disk e h = absurd (ground (arith, h))

  fails : (s t : PolicySnapshot) (disk : R) (e : PolicyError) → Same s t → Unless s (t, disk, err e)
  unfolding Unless
  fails s t disk e k _ h = k

  persist_failed-Same :
      (durable : Revision) (s : PolicySnapshot) (disk : R) (e : RepositoryError)
      → Same s (persist_failed x safety repository durable s disk e).0
  unfolding persist_failed mark_persistence_uncertainty
  persist_failed-Same durable s disk (conflict a) =
      if_cases (Same s) (text_eq a durable) s (snapshot_with_status s out_of_sync file_differs)
        (λ _. kept s) (λ _. Same-status s out_of_sync file_differs)
  persist_failed-Same durable s disk failure =
      if_cases (Same s) (confirmed (expected_durable s) (repository.read disk).1) s
        (snapshot_with_status s out_of_sync unverified) (λ _. kept s)
        (λ _. Same-status s out_of_sync unverified)

  persist_failed-Unless :
      (durable : Revision) (s : PolicySnapshot) (disk : R) (e : RepositoryError)
      → Unless s (persist_failed x safety repository durable s disk e)
  unfolding Unless
  persist_failed-Unless durable s disk e _ h = persist_failed-Same durable s disk e

  apply_failed-Same :
      (s : PolicySnapshot) (disk : R) (change : Change)
      → Same s (apply_failed x safety repository s disk change).0
  unfolding apply_failed
  apply_failed-Same s disk change =
      if_cases (λ (w : Step x safety repository). Same s w.0) (not change.has_changed)
        (
          if is_current s change then s else snapshot_with_status s out_of_sync unpublished,
          disk,
          err apply_error,
        )
        (
          after_rollback s (repository.rollback disk change).1,
          (repository.rollback disk change).0,
          err apply_error,
        )
        (λ _.
          if_cases (Same s) (is_current s change) s (snapshot_with_status s out_of_sync unpublished)
            (λ _. kept s) (λ _. Same-status s out_of_sync unpublished))
        (λ _. Same-after_rollback s (repository.rollback disk change).1)

  persist_result-Unless :
      (applies : Bool) (s : PolicySnapshot) (sel : Selector) (w : R × Result RepositoryError Change)
      → Unless s (persist_result x safety repository applies s sel w)
  unfolding Unless commit_change
  persist_result-Unless applies s sel (disk, err e) = persist_failed-Unless s.revision s disk e
  persist_result-Unless applies s sel (disk, ok change) =
      if_cases (Unless s)
        (not change.has_changed && is_current s change && not (is_out_of_sync s.state))
        (s, disk, ok tt)
        (if applies
          then (published s sel change, disk, ok tt)
          else apply_failed x safety repository s disk change)
        (λ _. succeeds s s disk)
        (λ _.
          if_cases (Unless s) applies (published s sel change, disk, ok tt)
            (apply_failed x safety repository s disk change)
            (λ _. succeeds s (published s sel change) disk)
            (λ _ e h. apply_failed-Same s disk change))

  module _ (writable : Bool) (ctx : RequestContext) (expected : Revision) (applies : Bool)
      (build : Config → Option Config) where
    persist-Unless :
        (s : PolicySnapshot) (disk : R) (r : Result PolicyError (Config × Selector))
        → Unless s (persist x safety repository applies expected s disk r)
    persist-Unless s disk (err e) = fails s s disk e (kept s)
    persist-Unless s disk (ok (cand, sel)) =
        persist_result-Unless applies s sel (repository.replace disk expected cand)

    transact_on-Unless :
        (s : PolicySnapshot) (disk : R) (base : Config)
        → Unless s (transact_on x safety repository writable ctx expected applies build s disk base)
    unfolding transact_on
    transact_on-Unless s disk base =
        persist-Unless s disk (prepare x safety writable ctx expected s (build base))

    reconcile-Unless :
        (s : PolicySnapshot) (w : R × Result RepositoryError Stored)
        → Unless s (reconcile x safety repository writable ctx expected applies build s w)
    reconcile-Unless s (disk, err e) = fails s s disk read_failed (kept s)
    reconcile-Unless s (disk, ok durable) =
        if_cases (Unless s) (text_eq durable.revision expected)
          (transact_on x safety repository writable ctx expected applies build s disk
            durable.config)
          (
            snapshot_with_status s out_of_sync file_differs,
            disk,
            err (revision_conflict durable.revision),
          )
          (λ _. transact_on-Unless s disk durable.config)
          (λ _.
            fails s (snapshot_with_status s out_of_sync file_differs) disk
              (revision_conflict durable.revision) (Same-status s out_of_sync file_differs))

    active-Unless :
        (s : PolicySnapshot) (disk : R)
        → Unless s (
            if text_eq expected s.revision
            then transact_on x safety repository writable ctx expected applies build s disk
                s.configuration
            else (s, disk, err (revision_conflict s.revision)))
    active-Unless s disk =
        if_cases (Unless s) (text_eq expected s.revision)
          (transact_on x safety repository writable ctx expected applies build s disk
            s.configuration)
          (s, disk, err (revision_conflict s.revision))
          (λ _. transact_on-Unless s disk s.configuration)
          (λ _. fails s s disk (revision_conflict s.revision) (kept s))

    transact_from-Unless :
        (st : ControllerState) (s : PolicySnapshot) (disk : R)
        → Unless s (transact_from x safety repository writable ctx expected applies build st s disk)
    transact_from-Unless degraded s disk = fails s s disk is_degraded (kept s)
    transact_from-Unless restart_pending s disk = fails s s disk restart_is_pending (kept s)
    transact_from-Unless out_of_sync s disk = reconcile-Unless s (repository.read disk)
    transact_from-Unless ready s disk = active-Unless s disk
    transact_from-Unless durability_uncertain s disk = active-Unless s disk

  -- The checks of the context that every call makes first.
  guarded-Unless :
      (ctx : RequestContext) (s : PolicySnapshot) (disk : R) (w : Step x safety repository)
      → Unless s w
      → Unless s (
          if ctx.is_missing
          then (s, disk, err context_missing)
          else if ctx.done_first
          then (s, disk, err context_done)
          else w)
  guarded-Unless ctx s disk w k =
      if_cases (Unless s) ctx.is_missing (s, disk, err context_missing)
        (if ctx.done_first then (s, disk, err context_done) else w)
        (λ _. fails s s disk context_missing (kept s))
        (λ _.
          if_cases (Unless s) ctx.done_first (s, disk, err context_done) w
            (λ _. fails s s disk context_done (kept s)) (λ _. k))

  stage_result-Unless :
      (durable : Revision) (s : PolicySnapshot) (w : R × Result RepositoryError Change)
      → Unless s (stage_result x safety repository durable s w)
  stage_result-Unless durable s (disk, err e) = persist_failed-Unless durable s disk e
  stage_result-Unless durable s (disk, ok change) = succeeds s (staged s change) disk

  stage_checked-Unless :
      (durable : Revision) (s : PolicySnapshot) (disk : R) (cand : Config)
      (r : Result PolicyError (Unit {0}))
      → Unless s (stage_checked x safety repository durable s disk cand r)
  stage_checked-Unless durable s disk cand (err e) = fails s s disk e (kept s)
  stage_checked-Unless durable s disk cand (ok _) =
      stage_result-Unless durable s (repository.replace disk durable cand)

  stage_from-Unless :
      (st : ControllerState) (writable : Bool) (ctx : RequestContext) (expected : Revision)
      (s : PolicySnapshot) (disk : R) (cand : Config)
      → Unless s (stage_from x safety repository st writable ctx expected s disk cand)
  stage_from-Unless degraded writable ctx expected s disk cand = fails s s disk is_degraded (kept s)
  stage_from-Unless out_of_sync writable ctx expected s disk cand =
      fails s s disk (state_error out_of_sync) (kept s)
  stage_from-Unless durability_uncertain writable ctx expected s disk cand =
      fails s s disk (state_error durability_uncertain) (kept s)
  stage_from-Unless ready writable ctx expected s disk cand =
      stage_checked-Unless s.revision s disk cand
        (stage_checks x safety repository writable ctx expected s.revision s cand)
  stage_from-Unless restart_pending writable ctx expected s disk cand =
      stage_checked-Unless s.pending_revision s disk cand
        (stage_checks x safety repository writable ctx expected s.pending_revision s cand)

  cancel_result-Unless :
      (s : PolicySnapshot) (w : R × Result RepositoryError Change)
      → Unless s (cancel_result x safety repository s w)
  cancel_result-Unless s (disk, err e) = persist_failed-Unless s.pending_revision s disk e
  cancel_result-Unless s (disk, ok change) = succeeds s (cancelled s change) disk

  cancel_from-Unless :
      (st : ControllerState) (expected : Revision) (s : PolicySnapshot) (disk : R)
      → Unless s (cancel_from x safety repository st expected s disk)
  cancel_from-Unless ready expected s disk = fails s s disk pending_not_found (kept s)
  cancel_from-Unless degraded expected s disk = fails s s disk pending_not_found (kept s)
  cancel_from-Unless out_of_sync expected s disk = fails s s disk pending_not_found (kept s)
  cancel_from-Unless durability_uncertain expected s disk =
      fails s s disk pending_not_found (kept s)
  cancel_from-Unless restart_pending expected s disk =
      let there =
        cancel_result x safety repository s
          (repository.replace disk s.pending_revision s.configuration) in
      let otherwise =
        if text_eq expected s.pending_revision
        then there
        else (s, disk, err (revision_conflict s.pending_revision)) in
      if_cases (Unless s) (is_empty s.pending_revision) (s, disk, err pending_not_found) otherwise
        (λ _. fails s s disk pending_not_found (kept s))
        (λ _.
          if_cases (Unless s) (text_eq expected s.pending_revision) there
            (s, disk, err (revision_conflict s.pending_revision))
            (λ _.
              cancel_result-Unless s (repository.replace disk s.pending_revision s.configuration))
            (λ _. fails s s disk (revision_conflict s.pending_revision) (kept s)))

  overlay_checked-Same :
      (ctx : RequestContext) (r : Replacement) (s : PolicySnapshot)
      (t : Result PolicyError (Unit {0})) (e : PolicyError)
      → (overlay_checked ctx r s t).1 ≡ err e
      → Same s (overlay_checked ctx r s t).0
  overlay_checked-Same ctx r s (err e') e h = kept s
  overlay_checked-Same ctx r s (ok _) e h = elim (Bool-cases ctx.done_last) [
    | inl d ↦ rw (d) (kept s)
    | inr d ↦ absurd (ground (arith, h, d))
  ]

  replace_overlay-Same :
      (ctx : RequestContext) (r : Replacement) (s : PolicySnapshot) (e : PolicyError)
      → (replace_overlay ctx r s).1 ≡ err e
      → Same s (replace_overlay ctx r s).0
  unfolding replace_overlay
  replace_overlay-Same ctx r s e =
      let checked =
        overlay_checked ctx r s
          (validate_overlay_set (values_of r) (overlay_limit s.configuration)) in
      let third = if not (takes_overlay s.state) then (s, err (state_error s.state)) else checked in
      let second = if ctx.done_first then (s, err context_done) else third in
      if_cases Failing ctx.is_missing (s, err context_missing) second (λ _ h. kept s)
        (λ _.
          if_cases Failing ctx.done_first (s, err context_done) third (λ _ h. kept s)
            (λ _.
              if_cases Failing (not (takes_overlay s.state)) (s, err (state_error s.state)) checked
                (λ _ h. kept s)
                (λ _.
                  overlay_checked-Same ctx r s
                    (validate_overlay_set (values_of r) (overlay_limit s.configuration)) e)))
    where
      Failing : PolicySnapshot × Result PolicyError (Unit {0}) → Type 0
      Failing w = w.1 ≡ err e → Same s w.0

  -- A call that fails leaves the active policy as it was: the revision, the configuration, the
  -- selector, the overlay, the pending revision and the pending configuration; only the state and the
  -- warning may change.
  pub call-Same :
      (c : PolicyCall) (s : PolicySnapshot) (disk : R) (e : PolicyError)
      → (call x repository safety c s disk).2 ≡ err e
      → Same s (call x repository safety c s disk).0
  unfolding call configure_safety transact stage_restart cancel_restart Unless
  call-Same (mutate ctx expected build) s disk =
      guarded-Unless ctx s disk
        (transact_from x safety repository true ctx expected true build s.state s disk)
        (transact_from-Unless true ctx expected true build s.state s disk)
  call-Same (mutate_unpublished ctx expected build) s disk =
      guarded-Unless ctx s disk
        (transact_from x safety repository true ctx expected (is_out_of_sync s.state) build s.state
          s disk)
        (transact_from-Unless true ctx expected (is_out_of_sync s.state) build s.state s disk)
  call-Same (stage ctx expected cand) s disk =
      guarded-Unless ctx s disk
        (stage_from x safety repository s.state true ctx expected s disk cand)
        (stage_from-Unless s.state true ctx expected s disk cand)
  call-Same (cancel ctx expected) s disk =
      guarded-Unless ctx s disk (cancel_from x safety repository s.state expected s disk)
        (cancel_from-Unless s.state expected s disk)
  call-Same (set_overlay ctx r) s disk = replace_overlay-Same ctx r s
  call-Same (configures f) s disk = configured-Unless (configure_safety x f s)
    where
      configured-Unless : (r : Result PolicyError PolicySnapshot) → Unless s (configured s disk r)
      configured-Unless (ok t) = succeeds s t disk
      configured-Unless (err e) = fails s s disk e (kept s)
