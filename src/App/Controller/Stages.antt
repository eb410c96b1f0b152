-- ===== src/App/Controller/Stages.antt =====
-- StageRestartContext and CancelRestartContext of internal/app/policy.go.
use go_musical_packets.App.Controller.Runs.{transact_on-Good, answered, Answered, settled}
use go_musical_packets.App.Controller.Steps.{
  reconcile, cancel_result, stage_result, stage_checks, transact_from, stage_checked, cancel_from,
  stage_from, transact_on, stage_restart, transact, cancel_restart, staged, cancelled,
}
use go_musical_packets.App.Controller.Agreement.{
  lost, persist_failed-Good, Marked, Core, Agrees, Good, IsRepository,
}
use go_musical_packets.App.Controller.{
  file_differs, durability_uncertain, pending_not_found, ready, context_missing, revision_conflict,
  context_done, out_of_sync, degraded, Stored, RepositoryError, ControllerState, durable_in,
  is_out_of_sync, snapshot_with_status, PolicyError, Revision, Change, restart_pending,
  RequestContext, PolicySnapshot, Repository,
}
use go_musical_packets.Flow.Selector.{Rule}
use go_musical_packets.Config.Settings.{Config}
use go_musical_packets.Config.Validation.{Parsers}
use go_musical_packets.Prelude.{
  ◌≡◌, refl, sym, ap, ◌∙◌, subst, ◌≢◌, Bool, false, Option, List, arith, if◌then◌else◌, if_cases,
  Result, ok, err, text_eq, is_empty, text_eq→eq,
}

module _ (x : Parsers) (safety : List Rule → List Rule) (initial : Config) (Quiet : Type 0)
    {R : Type 0} (repository : Repository R) (faithful : IsRepository repository) where
  abbrev IsGood : PolicySnapshot → R → Type 0
  IsGood = Good x safety initial Quiet repository faithful

  abbrev Kept : PolicySnapshot × R × Result PolicyError (Unit {0}) → Type 0
  Kept w = IsGood w.0 w.1

  -- A read leaves the revision of the disk.
  read-Good : (s : PolicySnapshot) (disk : R) → IsGood s disk → IsGood s (repository.read disk).0
  read-Good s disk g = record {
    core = g.core;
    marked = g.marked;
    agrees = λ q. subst (Agrees s.state s) (sym (faithful.read_keeps disk)) (g.agrees q);
  }

  module _ (writable : Bool) (ctx : RequestContext) (expected : Revision) (applies : Bool)
      (build : Config → Option Config) where
    reconcile-Good :
        (s : PolicySnapshot) (w : R × Result RepositoryError Stored)
        → s.state ≡ out_of_sync
        → IsGood s w.0
        → (applies ≡ false → is_out_of_sync s.state ≡ false)
        → Kept (reconcile x safety repository writable ctx expected applies build s w)
    reconcile-Good s (disk, err e) h g a = g
    reconcile-Good s (disk, ok durable) h g a =
        if_cases Kept (text_eq durable.revision expected)
          (transact_on x safety repository writable ctx expected applies build s disk
            durable.config)
          (
            snapshot_with_status s out_of_sync file_differs,
            disk,
            err (revision_conflict durable.revision),
          )
          (λ _.
            transact_on-Good x safety initial Quiet repository faithful writable ctx expected
              applies build s disk durable.config g (λ k. ground (arith, h, k)) a
              (λ k. absurd (ground (arith, h, k))))
          (λ _.
            lost x safety initial Quiet repository faithful s disk out_of_sync file_differs refl
              g.core)

    active-Good :
        (s : PolicySnapshot) (disk : R)
        → s.state ≢ restart_pending
        → IsGood s disk
        → (applies ≡ false → is_out_of_sync s.state ≡ false)
        → Kept (
            if text_eq expected s.revision
            then transact_on x safety repository writable ctx expected applies build s disk
                s.configuration
            else (s, disk, err (revision_conflict s.revision)))
    active-Good s disk n g a =
        if_cases Kept (text_eq expected s.revision)
          (transact_on x safety repository writable ctx expected applies build s disk
            s.configuration)
          (s, disk, err (revision_conflict s.revision))
          (λ h.
            transact_on-Good x safety initial Quiet repository faithful writable ctx expected
              applies build s disk s.configuration g n a (λ _. text_eq→eq expected s.revision h))
          (λ _. g)

    transact_from-Good :
        (st : ControllerState) (s : PolicySnapshot) (disk : R)
        → s.state ≡ st
        → IsGood s disk
        → (applies ≡ false → is_out_of_sync s.state ≡ false)
        → Kept (transact_from x safety repository writable ctx expected applies build st s disk)
    transact_from-Good degraded s disk h g a = g
    transact_from-Good restart_pending s disk h g a = g
    transact_from-Good out_of_sync s disk h g a =
        reconcile-Good s (repository.read disk) h (read-Good s disk g) a
    transact_from-Good ready s disk h g a = active-Good s disk (λ k. ground (arith, h, k)) g a
    transact_from-Good durability_uncertain s disk h g a =
        active-Good s disk (λ k. ground (arith, h, k)) g a

    pub transact-Good :
        (s : PolicySnapshot) (disk : R)
        → IsGood s disk
        → (applies ≡ false → is_out_of_sync s.state ≡ false)
        → Kept (transact x safety repository writable ctx expected applies build s disk)
    unfolding transact
    transact-Good s disk g a =
        let there =
          transact_from x safety repository writable ctx expected applies build s.state s disk in
        let later = if ctx.done_first then (s, disk, err context_done) else there in
        if_cases Kept ctx.is_missing (s, disk, err context_missing) later (λ _. g)
          (λ _.
            if_cases Kept ctx.done_first (s, disk, err context_done) there (λ _. g)
              (λ _. transact_from-Good s.state s disk refl g a))

  staged-Good :
      (s : PolicySnapshot) (disk : R) (change : Change)
      → Core x safety initial s
      → change.after.revision ≡ faithful.revision_of disk
      → IsGood (staged s change) disk
  unfolding staged snapshot_with_status
  staged-Good s disk change c e = record {
    core = record { compiled = c.compiled; valid = c.valid; cold = c.cold };
    marked = λ _. rw (e) (faithful.revision_given disk);
    agrees = λ _. e;
  }

  cancelled-Good :
      (s : PolicySnapshot) (disk : R) (change : Change)
      → Core x safety initial s
      → change.after.revision ≡ faithful.revision_of disk
      → IsGood (cancelled s change) disk
  unfolding cancelled
  cancelled-Good s disk change c e =
      settled x safety initial Quiet repository faithful (cancelled s change) disk
        change.durability_warning refl
        (record { compiled = c.compiled; valid = c.valid; cold = c.cold }) e

  pending_durable :
      (s : PolicySnapshot)
      → s.state ≡ restart_pending
      → Marked s.state s
      → durable_in s.state s ≡ s.pending_revision
  pending_durable s h m =
      ap (λ st. durable_in st s) h ∙ (let m' = subst (λ st. Marked st s) h m in rw m' refl)

  module _ (writable : Bool) (ctx : RequestContext) (expected : Revision) where
    stage_result-Good :
        (durable : Revision) (s : PolicySnapshot) (cand : Config)
        (w : R × Result RepositoryError Change)
        → Core x safety initial s
        → (Quiet → Marked s.state s)
        → (Quiet → durable_in s.state s ≡ durable)
        → Answered x safety initial Quiet repository faithful durable cand w
        → Kept (stage_result x safety repository durable s w)
    stage_result-Good durable s cand (disk, err e) c m d k =
        persist_failed-Good x safety initial Quiet repository faithful durable s disk e c m
          (λ r h. k.refused r (ap err h)) d
    stage_result-Good durable s cand (disk, ok change) c m d k =
        staged-Good s disk change c (k.done change refl).1

    stage_checked-Good :
        (durable : Revision) (s : PolicySnapshot) (disk : R) (cand : Config)
        (r : Result PolicyError (Unit {0}))
        → IsGood s disk
        → (Quiet → durable_in s.state s ≡ durable)
        → Kept (stage_checked x safety repository durable s disk cand r)
    stage_checked-Good durable s disk cand (err e) g d = g
    stage_checked-Good durable s disk cand (ok _) g d =
        stage_result-Good durable s cand (repository.replace disk durable cand) g.core g.marked d
          (answered x safety initial Quiet repository faithful disk durable cand)

    stage_from-Good :
        (st : ControllerState) (s : PolicySnapshot) (disk : R) (cand : Config)
        → s.state ≡ st
        → IsGood s disk
        → Kept (stage_from x safety repository st writable ctx expected s disk cand)
    stage_from-Good degraded s disk cand h g = g
    stage_from-Good out_of_sync s disk cand h g = g
    stage_from-Good durability_uncertain s disk cand h g = g
    stage_from-Good ready s disk cand h g =
        stage_checked-Good s.revision s disk cand
          (stage_checks x safety repository writable ctx expected s.revision s cand) g
          (λ _. ap (λ st. durable_in st s) h)
    stage_from-Good restart_pending s disk cand h g =
        stage_checked-Good s.pending_revision s disk cand
          (stage_checks x safety repository writable ctx expected s.pending_revision s cand) g
          (λ q. pending_durable s h (g.marked q))

    pub stage_restart-Good :
        (cand : Config) (s : PolicySnapshot) (disk : R)
        → IsGood s disk
        → Kept (stage_restart x safety repository writable ctx expected cand s disk)
    unfolding stage_restart
    stage_restart-Good cand s disk g =
        let there = stage_from x safety repository s.state writable ctx expected s disk cand in
        let later = if ctx.done_first then (s, disk, err context_done) else there in
        if_cases Kept ctx.is_missing (s, disk, err context_missing) later (λ _. g)
          (λ _.
            if_cases Kept ctx.done_first (s, disk, err context_done) there (λ _. g)
              (λ _. stage_from-Good s.state s disk cand refl g))

    cancel_result-Good :
        (s : PolicySnapshot) (cand : Config) (w : R × Result RepositoryError Change)
        → Core x safety initial s
        → (Quiet → Marked s.state s)
        → (Quiet → durable_in s.state s ≡ s.pending_revision)
        → Answered x safety initial Quiet repository faithful s.pending_revision cand w
        → Kept (cancel_result x safety repository s w)
    cancel_result-Good s cand (disk, err e) c m d k =
        persist_failed-Good x safety initial Quiet repository faithful s.pending_revision s disk e c
          m (λ r h. k.refused r (ap err h)) d
    cancel_result-Good s cand (disk, ok change) c m d k =
        cancelled-Good s disk change c (k.done change refl).1

    cancel_from-Good :
        (st : ControllerState) (s : PolicySnapshot) (disk : R)
        → s.state ≡ st
        → IsGood s disk
        → Kept (cancel_from x safety repository st expected s disk)
    cancel_from-Good ready s disk h g = g
    cancel_from-Good degraded s disk h g = g
    cancel_from-Good out_of_sync s disk h g = g
    cancel_from-Good durability_uncertain s disk h g = g
    cancel_from-Good restart_pending s disk h g =
        let there =
          cancel_result x safety repository s
            (repository.replace disk s.pending_revision s.configuration) in
        let otherwise =
          if text_eq expected s.pending_revision
          then there
          else (s, disk, err (revision_conflict s.pending_revision)) in
        if_cases Kept (is_empty s.pending_revision) (s, disk, err pending_not_found) otherwise
          (λ _. g)
          (λ _.
            if_cases Kept (text_eq expected s.pending_revision) there
              (s, disk, err (revision_conflict s.pending_revision))
              (λ _.
                cancel_result-Good s s.configuration
                  (repository.replace disk s.pending_revision s.configuration) g.core g.marked
                  (λ q. pending_durable s h (g.marked q))
                  (answered x safety initial Quiet repository faithful disk s.pending_revision
                    s.configuration))
              (λ _. g))

    pub cancel_restart-Good :
        (s : PolicySnapshot) (disk : R)
        → IsGood s disk
        → Kept (cancel_restart x safety repository ctx expected s disk)
    unfolding cancel_restart
    cancel_restart-Good s disk g =
        let there = cancel_from x safety repository s.state expected s disk in
        let later = if ctx.done_first then (s, disk, err context_done) else there in
        if_cases Kept ctx.is_missing (s, disk, err context_missing) later (λ _. g)
          (λ _.
            if_cases Kept ctx.done_first (s, disk, err context_done) there (λ _. g)
              (λ _. cancel_from-Good s.state s disk refl g))
